-- ===== src/Command/Gates.antt =====
-- What passes the gates of `cmd_gate_check`, and what a command that `dispatch_line` runs has passed.
use benchpod_firmware.Base.{
  ℕ, ◌≤◌, ◌<◌, ◌≡◌, ◌⊎◌, true, false, Option, none, some, arith, ◌↔◌, Bytes,
}
use benchpod_firmware.Command.Table.{t2, no_hw, analog}
use benchpod_firmware.Command.{
  cmd_find, cmd_has, light, is_lan, is_open, GateCtx, gate_device, gate_check, adc_capture,
}

-- The five conditions of cmd_gate.h, each on its own.
pub record Admitted (cmd : Bytes) (json : Option Bytes) (tier : ℕ) (ctx : GateCtx) : Type 0 where
  pub open_lan :
      (is_lan ctx.src ≡ false)
      ⊎ ((ctx.usb_link ≡ true) ⊎ ((is_open ctx.lan_policy ≡ true) ⊎ (tier < t2)))
  pub no_lease : (is_lan ctx.src ≡ false) ⊎ ((ctx.lease_active ≡ false) ⊎ (light cmd json ≡ true))
  pub tunnel :
      (ctx.tunnel_max_tier ≡ none) ⊎ ((m : ℕ) × (ctx.tunnel_max_tier ≡ some m) × (tier ≤ m))
  pub hardware : (ctx.skip_hw ≡ false) ⊎ (cmd_has (cmd_find cmd) no_hw ≡ true)
  pub front_end :
      (ctx.has_analog ≡ true)
      ⊎ ((cmd_has (cmd_find cmd) analog ≡ false) × (adc_capture cmd json ≡ false))

pub gate_check-Admitted :
    (cmd : Bytes) (json : Option Bytes) (tier : ℕ) (ctx : GateCtx)
    → gate_check cmd json tier ctx ≡ none
    → Admitted cmd json tier ctx
unfolding gate_check gate_device
gate_check-Admitted cmd json tier ctx h = record {
  open_lan = ground arith;
  no_lease = ground arith;
  tunnel = ground arith;
  hardware = ground arith;
  front_end = ground arith;
}

Admitted-gate_check :
    (cmd : Bytes) (json : Option Bytes) (tier : ℕ) (ctx : GateCtx)
    → Admitted cmd json tier ctx
    → gate_check cmd json tier ctx ≡ none
unfolding gate_check gate_device
Admitted-gate_check cmd json tier ctx h = ground arith

-- `cmd_gate_check` lets a command run exactly when the five conditions hold.
pub gate_check_exact :
    (cmd : Bytes) (json : Option Bytes) (tier : ℕ) (ctx : GateCtx)
    → (gate_check cmd json tier ctx ≡ none) ↔ Admitted cmd json tier ctx
gate_check_exact cmd json tier ctx =
    (gate_check-Admitted cmd json tier ctx, Admitted-gate_check cmd json tier ctx)
