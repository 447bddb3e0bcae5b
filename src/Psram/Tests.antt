-- ===== src/Psram/Tests.antt =====
-- Layouts, overwrites and nested holds at concrete values.
use benchpod_firmware.Base.{
  arith, inl, ◌⊎◌, false, true, ◌^◌, none, codes, ◌≢◌, [], ◌∷◌, ◌≡◌, ◌+◌, some, refl,
}
use benchpod_firmware.Psram.Alloc.{Request, psram_plan, doubling_wraps}
use benchpod_firmware.Psram.Regions.{State, Write, track, Hit, stale_exactly, given}
use benchpod_firmware.Psram.Regions
use benchpod_firmware.Psram.Owner
use benchpod_firmware.Psram.Owner.{Bus, Nested, run-Nested}

abbrev three : Request
three = record {
  la_samples = 1000000;
  adc_samples = 500000;
  dac_bytes = 4096;
  la_rate_hz = 4000000;
  adc_rate_hz = 250000;
  dac_rate_hz = 10000;
}

doubling_wraps_example :
    psram_plan (record three { la_samples = 1000000 + 2 ^ 31 }) ≡ psram_plan three
doubling_wraps_example = doubling_wraps three

abbrev fresh : State
fresh = record { tracked = []; stale = none }

abbrev update_blob : Write
update_blob = record { base = 0x100000; len = 65536; why = some (codes "a firmware update") }

stale_exactly_example :
    let t = Regions.run (update_blob ∷ []) (track 0 0x100001 0x200000 4096 fresh) in
    (t.stale ≢ none → Hit (given 0 0x100001 0x200000 4096) (update_blob ∷ []))
    × (Hit (given 0 0x100001 0x200000 4096) (update_blob ∷ []) → t.stale ≢ none)
stale_exactly_example = stale_exactly 0 0x100001 0x200000 4096 fresh (update_blob ∷ [])

overwritten :
    (Regions.run (update_blob ∷ []) (track 0 0x100001 0x200000 4096 fresh)).stale
    ≡ some (codes "a firmware update")
unfolding Regions.run Regions.dirty track
overwritten = refl

abbrev idle : Bus
idle = record { owner = 0; depth = 0; violations = 0; unpaired = 0 }

run-Nested_example :
    ((Owner.run 7 (true ∷ true ∷ false ∷ []) idle).depth ≡ 1)
    × (((Owner.run 7 (true ∷ true ∷ false ∷ []) idle).depth ≡ 0)
        ⊎ ((Owner.run 7 (true ∷ true ∷ false ∷ []) idle).owner ≡ 7))
    × ((Owner.run 7 (true ∷ true ∷ false ∷ []) idle).violations ≡ 0)
    × ((Owner.run 7 (true ∷ true ∷ false ∷ []) idle).unpaired ≡ 0)
run-Nested_example = run-Nested 7 (true ∷ true ∷ false ∷ []) 0 1 idle refl (inl refl) (
    Nested.taken 0 _ _ (omega arith)
      (Nested.taken 1 _ _ (omega arith) (Nested.given 1 _ _ (Nested.done 1))))
