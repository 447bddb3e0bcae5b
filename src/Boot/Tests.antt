-- ===== src/Boot/Tests.antt =====
-- Boots at concrete inputs.
use benchpod_firmware.Base.{
  ◌+◌, ◌≡◌, refl, true, false, none, some, [], ◌∷◌, ◌++◌, arith, leb, length,
}
use benchpod_firmware.Boot.{
  Noinit, begin, found, culprit, enter_safe, off, unfinished, guard_magic, set_stage, sub_start,
  safe_after,
}
use benchpod_firmware.Boot.Masks.{Within}
use benchpod_firmware.Boot.Loop.{
  BootRun, stage, starts, finishes, well, plan, boot, boots, apply_all, apply,
}
use benchpod_firmware.Boot.SafeMode.{
  power_on, crash_loop_safe, safe_mode_sticks, planned_reset_restores,
}

-- What random memory holds.
abbrev noise : Noinit
noise = record {
  magic = 7;
  failed = 9;
  stage = 3;
  last_stage = 0;
  started = 1;
  done = 0;
  off_set = 2;
  loop_magic = 0;
  loop_left = 0;
  loop_sub = 0;
}

-- Two crashes behind, the last in the network bring-up.
abbrev twice_failed : Noinit
twice_failed = record noise { magic = guard_magic; failed = 2; started = 1; off_set = 0 }

abbrev hangs : BootRun
hangs = record { crash = none; ops = stage 5 ∷ starts 1 ∷ [] }

abbrev ran_well : BootRun
ran_well = record { crash = some "hw"; ops = starts 3 ∷ finishes 3 ∷ well ∷ [] }

third_boot_is_safe : (begin false none (boots (hangs ∷ []) (power_on hangs noise))).ram.off_now ≡ 1
unfolding begin found culprit unfinished enter_safe off boots boot power_on apply_all apply
    set_stage sub_start
third_boot_is_safe = refl

crash_loop_safe_example :
    (begin false none (boots (hangs ∷ []) (power_on hangs noise))).ram.safe
    ≡ leb safe_after (1 + length (hangs ∷ []))
crash_loop_safe_example =
    crash_loop_safe noise hangs (hangs ∷ []) none (tt, (tt, tt)) ((tt, (tt, tt)), tt) (omega arith)

safe_mode_sticks_example :
    let s = begin false (some "hw") twice_failed in
    let s' = begin false none (boot ran_well twice_failed) in
    (s'.ram.safe ≡ true) × Within s.ram.off_now s'.ram.off_now
safe_mode_sticks_example =
    safe_mode_sticks twice_failed ran_well none refl (omega arith) (omega arith)

-- The boot counted as good, and still leaves the crash before it in the count.
planned_reset_restores_example :
    (boot
      (record { crash = none; ops = (well ∷ []) ++ plan true ∷ [] })
      (record twice_failed { failed = 1 })).failed
    ≡ 1
planned_reset_restores_example =
    planned_reset_restores (well ∷ []) none (record twice_failed { failed = 1 }) refl (omega arith)
