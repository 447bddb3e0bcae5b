-- ===== src/Command/Dispatch.antt =====
-- What a command that `dispatch_line` hands to its handler has passed, whatever its text says.
use benchpod_firmware.Base.{ℕ, ◌≤◌, ◌≡◌, true, false, Option, none, some, arith, Bytes, codes}
use benchpod_firmware.Json.{json_get}
use benchpod_firmware.Command.Table.{t0, t1, Desc, no_hw, analog, heavy}
use benchpod_firmware.Command.{
  has_flag, cmd_find, tier_of, light, lan, is_open, GateCtx, gate_check, runs, dispatch,
}
use benchpod_firmware.Command.Tiers.{writes, tier_of-cases, cmd_find-tier}
use benchpod_firmware.Command.Gates.{Admitted, gate_check-Admitted}

-- The verb of a line, as the buffer of `dispatch_line` holds it.
abbrev verb : Bytes → Bytes
verb line = (json_get line (codes "cmd") 32).value

module _ (limits : Bytes → Bytes → Option Bytes) (ctx : GateCtx) (line : Bytes) {d : Desc}
    (ran : dispatch limits ctx line ≡ runs d) where
  ran_found :
      (cmd_find (verb line) ≡ some d)
      × (gate_check (verb line) (some line) (tier_of (some d) (some line)) ctx ≡ none)
  unfolding dispatch
  ran_found = ground arith

  ran-Admitted : Admitted (verb line) (some line) (tier_of (some d) (some line)) ctx
  ran-Admitted = gate_check-Admitted (verb line) (some line) _ ctx ran_found.1

  -- Under a locked (or off) LAN policy a line from Ethernet or Wi-Fi runs nothing above T1, and no
  -- write form of a mixed verb.
  pub locked_lan :
      ctx.src ≡ lan
      → ctx.usb_link ≡ false
      → is_open ctx.lan_policy ≡ false
      → (d.tier ≤ t1) × (writes d (some line) ≡ false)
  locked_lan a b c = ground (arith, ran-Admitted, tier_of-cases d (some line))

  -- While a cloud job holds the pod, a LAN line runs only reads that leave the capture hardware
  -- alone.
  pub leased :
      ctx.src ≡ lan
      → ctx.lease_active ≡ true
      → (d.tier ≡ t0) × (writes d (some line) ≡ false) × (has_flag d.flags heavy ≡ false)
  unfolding light
  leased a b = ground (
    arith,
    ran-Admitted,
    ran_found,
    tier_of-cases d (some line),
    cmd_find-tier (verb line) {d = d} ran_found.0,
  )

  -- A tunnel runs nothing above the tier that its user was given.
  pub in_tunnel :
      (m : ℕ) → ctx.tunnel_max_tier ≡ some m → (d.tier ≤ m) × (tier_of (some d) (some line) ≤ m)
  in_tunnel m e = ground (
    arith,
    ran-Admitted,
    tier_of-cases d (some line),
    cmd_find-tier (verb line) {d = d} ran_found.0,
  )

  -- In safe mode with the hardware off only commands marked for it run.
  pub hardware_off : ctx.skip_hw ≡ true → has_flag d.flags no_hw ≡ true
  hardware_off h = ground (arith, ran-Admitted, ran_found)

  -- A digital board runs no command that needs the analog front end.
  pub digital_board : ctx.has_analog ≡ false → has_flag d.flags analog ≡ false
  digital_board h = ground (arith, ran-Admitted, ran_found)
