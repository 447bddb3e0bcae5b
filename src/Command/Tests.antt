-- ===== src/Command/Tests.antt =====
-- Command lines against the table and the gates.
use benchpod_firmware.Base.{
  ◌≤◌, ◌≡◌, refl, [], ◌∷◌, true, false, codes, some, none, Bytes, Option, str_eq,
}
use benchpod_firmware.Json.{json_get, get_at, read_value, find_key}
use benchpod_firmware.Command.Table.{Desc, k_tiers, t0, t1, t2, t3, no_hw, heavy}
use benchpod_firmware.Command.{
  has_flag, find_row, cmd_find, mixed_write, tier_of, cmd_tier, light, usb, lan, lan_locked,
  GateCtx, gate_check, gate_device, adc_capture, atoi_positive, refused, locked, no_analog, busy,
  runs, dispatch, scpi_line_writes, scpi_scan,
}
use benchpod_firmware.Command.Tiers.{writes}
use benchpod_firmware.Command.Dispatch.{locked_lan, leased}

-- A LAN connection of a locked pod that a cloud job holds.
abbrev outside : GateCtx
outside = record {
  src = lan;
  lan_policy = lan_locked;
  usb_link = false;
  lease_active = true;
  lease_left_s = 7;
  lease_holder = [];
  tunnel_max_tier = some 1;
  skip_hw = true;
  has_analog = false;
}

abbrev no_limits : Bytes → Bytes → Option Bytes
no_limits cmd json = none

abbrev status_row : Desc
status_row = record { name = codes "status"; tier = t0; flags = no_hw ∷ [] }

abbrev status_line : Bytes
status_line = codes "{\"cmd\":\"status\"}"

status_runs : dispatch no_limits outside status_line ≡ runs status_row
unfolding dispatch cmd_find find_row k_tiers str_eq json_get get_at read_value find_key gate_check
    gate_device tier_of has_flag light adc_capture
status_runs = refl

locked_out :
    dispatch no_limits outside (codes "{\"cmd\": \"ota_begin\"}")
    ≡ refused (locked (codes "ota_begin"))
unfolding dispatch cmd_find find_row k_tiers str_eq json_get get_at read_value find_key gate_check
    gate_device tier_of has_flag light
locked_out = refl

busy_out :
    dispatch no_limits outside (codes "{\"cmd\":\"capture\"}") ≡ refused (busy (codes "cloud") 7)
unfolding dispatch cmd_find find_row k_tiers str_eq json_get get_at read_value find_key gate_check
    gate_device tier_of has_flag light
busy_out = refl

mixed_forms :
    (cmd_tier (codes "dac_limits") (some (codes "{\"cmd\":\"dac_limits\"}")) ≡ t0)
    × (cmd_tier (codes "dac_limits") (some (codes "{\"cmd\":\"dac_limits\",\"path\":\"5v\"}")) ≡ t2)
    × (cmd_tier (codes "reformat") none ≡ t3)
unfolding cmd_tier cmd_find find_row k_tiers str_eq has_flag mixed_write json_get get_at read_value
    find_key
mixed_forms = (refl, refl, refl)

la_only_capture :
    (gate_check
        (codes "capture_dual")
        (some (codes "{\"adc_samples\":0}"))
        0
        (record outside { src = usb; skip_hw = false })
      ≡ none)
    × (gate_check
          (codes "capture_dual")
          (some (codes "{\"adc_samples\": 12}"))
          0
          (record outside { src = usb; skip_hw = false })
        ≡ some no_analog)
unfolding gate_check gate_device cmd_find find_row k_tiers str_eq has_flag json_get get_at
    read_value find_key adc_capture atoi_positive light
la_only_capture = (refl, refl)

locked_lan_example : (status_row.tier ≤ t1) × (writes status_row (some status_line) ≡ false)
locked_lan_example =
    locked_lan no_limits outside status_line {d = status_row} status_runs refl refl refl

leased_example :
    (status_row.tier ≡ t0)
    × (writes status_row (some status_line) ≡ false)
    × (has_flag status_row.flags heavy ≡ false)
leased_example = leased no_limits outside status_line {d = status_row} status_runs refl refl

scpi_runs :
    (scpi_line_writes (codes "*IDN?;VOLT 3") ≡ true)
    × (scpi_line_writes (codes "*IDN?;VOLT?") ≡ false)
unfolding scpi_line_writes scpi_scan
scpi_runs = (refl, refl)
