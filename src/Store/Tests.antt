-- ===== src/Store/Tests.antt =====
-- A store on a chip that behaves as its data sheet says.
use benchpod_firmware.Base.{
  ℕ, ◌+◌, ◌-◌, ◌≡◌, refl, ◌⊎◌, inr, true, false, ◌&&◌, none, some, [], ◌∷◌, arith, ltb, leb, ◌==◌,
  if◌then◌else◌, length, get_or, replicate, codes,
}
use benchpod_firmware.Store.Commit.{IsChip, Outside, op_lo, op_hi, off_within}
use benchpod_firmware.Store.PowerLoss.{IsPlaced, Newest, power_loss}
use benchpod_firmware.Store.{
  Op, erase_at, program_at, new_hdr, hdr_bytes, hdr_bytes, hdr_of, next_target, record_ops, perform,
  perform_all, payload_equals, write_record, save, read_loop, read_checked, slot_read, scan, crc32,
  load, Chip, Flash, Store,
}

abbrev sheet : Chip
sheet = record {
  erase = λ off f i. if leb off i && ltb i (off + 8192) then some 255 else f i;
  program = λ off bs f i.
      if leb off i && ltb i (off + length bs) then some (get_or bs (i - off) 0) else f i;
}

abbrev wifi : Store
wifi = record {
  slot_a = 0x1F8000;
  slot_b = 0x1F6000;
  magic = 0xAB5C0F01;
  version = 1;
  legacy_off = 0;
  legacy_magic = 0;
  max_len = 0;
}

abbrev blank : Flash
blank i = some 255

-- The check value of CRC-32.
crc_check : crc32 0 (codes "123456789") ≡ 0xCBF43926
unfolding crc32
crc_check = refl

saved : load wifi 2 (save sheet wifi (7 ∷ 8 ∷ []) blank).0 ≡ some (7 ∷ 8 ∷ [])
unfolding load scan slot_read read_checked read_loop save crc32 write_record payload_equals
    perform_all perform record_ops next_target hdr_of hdr_bytes new_hdr
saved = refl

outside : (o : Op) (f : Flash) (i : ℕ) → Outside (op_lo o) (op_hi o) i → perform sheet o f i ≡ f i
unfolding perform
outside (erase_at off) f i o = ground arith
outside (program_at off bs) f i o = ground arith

sheet-IsChip : IsChip sheet
unfolding perform
sheet-IsChip = record { local = outside; blanks = λ off f i a b. ground arith }

wifi-IsPlaced : IsPlaced wifi
wifi-IsPlaced = record { apart = inr (omega arith); fitting = omega arith; not_blank = omega arith }

-- The flash with one record in slot A.
abbrev one : Flash
one = perform_all sheet (record_ops wifi false 1 (7 ∷ 8 ∷ [])) blank

one-Newest : Newest wifi one false (new_hdr wifi 1 (7 ∷ 8 ∷ [])) (7 ∷ 8 ∷ [])
unfolding slot_read read_checked read_loop crc32 perform_all perform record_ops hdr_of hdr_bytes
    new_hdr
one-Newest = record {
  holds = refl;
  in_range = omega arith;
  behind = λ q rd m. let w : q ≡ replicate 16 255 = cc in ground arith;
}

-- The power goes off in the erase of slot B and leaves its first byte unreadable.
abbrev dead : Flash
dead i = if i == 0x1F6000 then none else one i

dead_elsewhere : (i : ℕ) → Outside 0x1F6000 (0x1F6000 + 8192) i → dead i ≡ one i
dead_elsewhere i o = ground arith

power_loss_example :
    (dead ≡ perform_all sheet (record_ops wifi true 2 (9 ∷ [])) one)
    ⊎ (Newest wifi dead false (new_hdr wifi 1 (7 ∷ 8 ∷ [])) (7 ∷ 8 ∷ [])
        × ((len : ℕ) → load wifi len dead ≡ load wifi len one))
unfolding record_ops
power_loss_example =
    power_loss sheet wifi false (new_hdr wifi 1 (7 ∷ 8 ∷ [])) (7 ∷ 8 ∷ []) 2 (9 ∷ []) one dead
      sheet-IsChip wifi-IsPlaced one-Newest (omega arith)
      (off_within (erase_at 0x1F6000) _ one
        (record { elsewhere = λ i o. dead_elsewhere i o; first_quad = inr (inr refl) }))
