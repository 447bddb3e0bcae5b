-- ===== src/Command.antt =====
-- stm32h563/src/cmd_tier.c, cmd_gate.c and dispatch_line of command_handler.c: the tier of a
-- command line, the gates that it passes, and what becomes of it. A refusal is a value in place of
-- its text. `atoi` is that of the C library; what it does on overflow is not used.
pub mod Table
pub mod Tiers
pub mod Gates
pub mod Dispatch
pub mod Scpi
mod Tests
use benchpod_firmware.Base.{
  ℕ, zero, suc, ◌+◌, ◌-◌, Bool, true, false, not, ◌&&◌, ◌||◌, Option, none, some, List, [], ◌∷◌,
  ltb, leb, ◌==◌, if◌then◌else◌, Bytes, codes, str_eq, head_or_nul, tail_or_nil,
}
use Prim.Native.String.{String}
use benchpod_firmware.Json.{Got, json_get}
use benchpod_firmware.Command.Table.{
  t0, t1, t2, t3, Flag, no_hw, analog, stream, heavy, noisy, mixed, Desc, k_tiers,
}

abbrev flag_bit : Flag → ℕ
flag_bit no_hw = 0
flag_bit analog = 1
flag_bit stream = 2
flag_bit heavy = 3
flag_bit noisy = 4
flag_bit mixed = 5

unfoldable pub has_flag : List Flag → Flag → Bool
has_flag [] f = false
has_flag (g ∷ gs) f = flag_bit g == flag_bit f || has_flag gs f

-- `cmd_has`; `none` is the null row.
abbrev pub cmd_has : Option Desc → Flag → Bool
cmd_has none f = false
cmd_has (some d) f = has_flag d.flags f

unfoldable pub find_row : List Desc → Bytes → Option Desc
find_row [] cmd = none
find_row (d ∷ ds) cmd = if str_eq cmd d.name then some d else find_row ds cmd

unfoldable pub cmd_find : Bytes → Option Desc
cmd_find cmd = find_row k_tiers cmd

-- `bp_json_get` into the buffer `v[16]`.
abbrev field : Bytes → String → Got
field json key = json_get json (codes key) 16

abbrev has : Bytes → String → Bool
has json key = (field json key).found

-- The member is there, and its value is the text.
abbrev is : Bytes → String → String → Bool
is json key text = has json key && str_eq (field json key).value (codes text)

-- The member is there, and its value is not the text.
abbrev is_other : Bytes → String → String → Bool
is_other json key text = has json key && not (str_eq (field json key).value (codes text))

abbrev named : Bytes → String → Bool
named cmd name = str_eq cmd (codes name)

-- `mixed_write`; `none` is the null line.
unfoldable pub mixed_write : Bytes → Option Bytes → Bool
mixed_write cmd none = false
mixed_write cmd (some json) =
    if named cmd "dac_limits"
    then has json "path" || is json "enabled" "false"
    else if named cmd "calibrate"
    then (has json "source"
        || has json "dac"
        || has json "adc"
        || has json "comp_hf_dc_e4"
        || is_other json "clear" "false")
    else if named cmd "sig_policy" || named cmd "lan_policy" || named cmd "usb_network"
    then has json "set"
    else if named cmd "cloud_ca" || named cmd "cloud_proxy"
    then has json "set" || is json "clear" "true"
    else if named cmd "lan_tls"
    then has json "https_only" || is json "regenerate" "true"
    else if named cmd "module"
    then is_other json "eeprom" "read"
    else if named cmd "eth"
    then (not (str_eq (field json "action").value (codes "stats"))
        && not (str_eq (field json "action").value (codes "refclk")))
    else false

unfoldable pub tier_of : Option Desc → Option Bytes → ℕ
tier_of none json = t3
tier_of (some d) json = if has_flag d.flags mixed && mixed_write d.name json then t2 else d.tier

unfoldable pub cmd_tier : Bytes → Option Bytes → ℕ
unfolding tier_of
cmd_tier cmd json = tier_of (cmd_find cmd) json

-- `cmd_tier_light`.
unfoldable pub light : Bytes → Option Bytes → Bool
light cmd json = elim (cmd_find cmd) [
  | none ↦ false
  | some d ↦ not (has_flag d.flags heavy) && tier_of (some d) json == t0
]

-- `policy_src_t` and `pod_lan_policy_t`.
pub data Source : Type 0 where
  usb cloud lan : Source

pub data LanPolicy : Type 0 where
  lan_open lan_locked lan_off : LanPolicy

abbrev pub is_lan : Source → Bool
is_lan lan = true
is_lan _ = false

abbrev pub is_open : LanPolicy → Bool
is_open lan_open = true
is_open _ = false

-- `cmd_gate_ctx_t`; `none` is a maximal tier of -1.
pub record GateCtx : Type 0 where
  pub src : Source
  pub lan_policy : LanPolicy
  pub usb_link : Bool
  pub lease_active : Bool
  pub lease_left_s : ℕ
  pub lease_holder : Bytes
  pub tunnel_max_tier : Option ℕ
  pub skip_hw : Bool
  pub has_analog : Bool

-- What a gate answers in place of letting the command run.
pub data Refusal : Type 0 where
  locked : Bytes → Refusal
  busy : Bytes → ℕ → Refusal
  forbidden : Bytes → Refusal
  safe_mode : Refusal
  no_analog : Refusal

-- `atoi(n) > 0`.
abbrev is_space : ℕ → Bool
is_space c = (leb 9 c && leb c 13) || c == 32

abbrev is_digit : ℕ → Bool
is_digit c = leb b'0' c && leb c b'9'

digits_positive : Bytes → Bool
digits_positive [] = false
digits_positive (c ∷ s) = is_digit c && (not (c == b'0') || digits_positive s)

unfoldable pub atoi_positive : Bytes → Bool
unfolding digits_positive
atoi_positive [] = false
atoi_positive (c ∷ s) =
    if is_space c
    then atoi_positive s
    else if c == b'+'
    then digits_positive s
    else digits_positive (c ∷ s)

unfoldable pub adc_capture : Bytes → Option Bytes → Bool
adc_capture cmd none = false
adc_capture cmd (some json) =
    named cmd "capture_dual"
    && (has json "adc_samples" && atoi_positive (field json "adc_samples").value)

-- `cmd_gate_device`.
unfoldable pub gate_device : Bytes → Option Bytes → Bool → Bool → Option Refusal
gate_device cmd json skip_hw has_analog =
    if skip_hw && not (cmd_has (cmd_find cmd) no_hw)
    then some safe_mode
    else if not has_analog && (adc_capture cmd json || cmd_has (cmd_find cmd) analog)
    then some no_analog
    else none

abbrev above : ℕ → Option ℕ → Bool
above tier none = false
above tier (some m) = ltb m tier

-- `cmd_gate_check`.
unfoldable pub gate_check : Bytes → Option Bytes → ℕ → GateCtx → Option Refusal
gate_check cmd json tier ctx =
    if leb t2 tier && is_lan ctx.src && not ctx.usb_link && not (is_open ctx.lan_policy)
    then some (locked cmd)
    else if is_lan ctx.src && ctx.lease_active && not (light cmd json)
    then some (
        busy (if head_or_nul ctx.lease_holder == 0 then codes "cloud" else ctx.lease_holder)
          ctx.lease_left_s)
    else if above tier ctx.tunnel_max_tier
    then some (forbidden cmd)
    else gate_device cmd json ctx.skip_hw ctx.has_analog

-- What becomes of a command line: an error, or the handler of a row that runs.
pub data Outcome : Type 0 where
  missing_cmd : Outcome
  refused : Refusal → Outcome
  over_limits : Bytes → Outcome
  runs : Desc → Outcome
  unknown_cmd : Outcome

-- `dispatch_line`, from the snapshot that it takes of the pod's state; `limits` is
-- `dac_limits_check_command` (the other component's answer).
unfoldable pub dispatch : (Bytes → Bytes → Option Bytes) → GateCtx → Bytes → Outcome
dispatch limits ctx line =
    let g = json_get line (codes "cmd") 32 in
    let d = cmd_find g.value in
    if not g.found
    then missing_cmd
    else elim (gate_check g.value (some line) (tier_of d (some line)) ctx) [
      | some why ↦ refused why
      | none ↦ (elim (limits g.value line) [
        | some why ↦ over_limits why
        | none ↦ (elim d [ none ↦ unknown_cmd | some row ↦ runs row ])
      ])
    ]

-- `cmd_gate_scpi_line_writes`: the scan, with whether the part read so far holds a '?'.
scpi_scan : Bool → Bytes → Bool
scpi_scan seen [] = not seen
scpi_scan seen (c ∷ s) =
    let same = scpi_scan (seen || c == b'?') s in
    let next = scpi_scan false s in if c == b';' then (if seen then next else true) else same

unfoldable pub scpi_line_writes : Bytes → Bool
unfolding scpi_scan
scpi_line_writes line = scpi_scan false line
