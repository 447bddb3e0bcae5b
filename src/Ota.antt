-- ===== src/Ota.antt =====
-- stm32h563/src/ota.c: the session of an update of the pod and the transport that owns it. What the
-- staging area holds is what psram_read returns, an input wherever it is read; the outcomes of the
-- writes are inputs too. Texts made by snprintf are the parameter `Texts`, without their cut to the
-- size of a buffer where they are never longer. s_sig_key, a copy of the manifest's key for replies, is
-- left out, and so are the calls that take the bus, that stop the gateware's
-- PSRAM masters and that mark the regions that staging overwrites (Psram.Regions).
pub mod End
pub mod Owner
pub mod Begin
pub mod Sound
pub mod Stall
mod Tests
use benchpod_firmware.Access.FwSign.{
  Crypto, Result, ok, no_manifest, Policy, manifest_len, check_keys, accept,
}
use benchpod_firmware.Base.{
  ℕ, zero, suc, ◌+◌, ◌-◌, ◌*◌, Bool, true, false, not, ◌&&◌, ◌||◌, Option, none, some, List, [],
  ◌∷◌, arith, ltb, leb, ◌==◌, if◌then◌else◌, take, replicate, add32, Bytes, codes,
}

-- `ota_state_t`.
pub data Phase : Type 0 where
  idle : Phase
  receiving : Phase
  verified : Phase
  failed : Phase
  installed : Phase

-- `ota_target_t`.
pub data Target : Type 0 where
  firmware : Target
  gw0 : Target
  gw1 : Target
  esp : Target
  ca : Target
  tls : Target
  bridge : Target

-- The number of a target in a manifest.
abbrev pub target_number : Target → ℕ
target_number firmware = 0
target_number gw0 = 1
target_number gw1 = 2
target_number esp = 3
target_number ca = 4
target_number tls = 5
target_number bridge = 6

abbrev pub chunk_size : ℕ
chunk_size = 4096

abbrev pub stage_idle_ms : ℕ
stage_idle_ms = 120000

abbrev pub verified_hold_ms : ℕ
verified_hold_ms = 600000

abbrev pub takeover_idle_ms : ℕ
takeover_idle_ms = 30000

-- The owners: OTA_OWNER_NONE, and the first of a LAN connection.
abbrev pub owner_none : ℕ
owner_none = 0

abbrev pub owner_lan : ℕ
owner_lan = 16

-- The statics of ota.c.
pub record Session : Type 0 where
  pub phase : Phase
  pub size : ℕ
  pub received : ℕ
  pub expect : Bytes
  pub target : Target
  pub version : ℕ
  pub err : Bytes
  pub sig : Result
  pub sig_copy : Bytes
  pub wd_seen : ℕ
  pub wd_mark_ms : ℕ
  pub verified_mark_ms : ℕ
  pub owner : ℕ
  pub orphan : Bool
  pub clock_ms : ℕ
  pub activity_ms : ℕ
  pub ref_owner : ℕ
  pub ref_err : Bytes
  pub ref_seq : ℕ

-- What snprintf makes of a busy session's target and owner, of a signature's result and of a flash
-- too small.
pub record Texts : Type 0 where
  pub busy : Target → ℕ → Bytes
  pub signature : Result → Bytes
  pub flash : ℕ → ℕ → Bytes

-- The build and the pod: BENCHPOD_WIFI_BRIDGE, `target_max_size`, the flash's size in KB.
pub record Pod : Type 0 where
  pub has_bridge : Bool
  pub max_size : Target → ℕ
  pub flash_kb : ℕ

-- What a begin reads besides the session: the signature keys and the hash of an image (mbedtls).
pub record World : Type 0 where
  pub crypto : Crypto
  pub keys : List Bytes
  pub sha256 : Bytes → Bytes
  pub texts : Texts
  pub pod : Pod

-- `hex_nibble`.
abbrev pub hex_nibble : ℕ → Option ℕ
hex_nibble c =
    if leb b'0' c && leb c b'9'
    then some (c - b'0')
    else if leb b'a' c && leb c b'f'
    then some (c - b'a' + 10)
    else if leb b'A' c && leb c b'F'
    then some (c - b'A' + 10)
    else none

-- The loop of `parse_sha256_hex`, of `n` bytes.
unfoldable pub parse_hex : ℕ → Bytes → Option Bytes
parse_hex zero [] = some []
parse_hex zero (c ∷ h) = none
parse_hex (suc n) [] = none
parse_hex (suc n) (c ∷ []) = none
parse_hex (suc n) (c ∷ d ∷ h) =
    let rest = parse_hex n h in
    elim (hex_nibble c) [
      | none ↦ none
      | some hi ↦ elim (hex_nibble d) [
        | none ↦ none
        | some lo ↦ elim rest [ none ↦ none | some bs ↦ some ((16 * hi + lo) ∷ bs) ]
      ]
    ]

abbrev pub target_known : Pod → Target → Bool
target_known p bridge = p.has_bridge
target_known p t = true

-- `target_is_config`.
abbrev pub is_config : Target → Bool
is_config ca = true
is_config tls = true
is_config t = false

abbrev pub is_firmware : Target → Bool
is_firmware firmware = true
is_firmware t = false

abbrev pub is_bridge : Target → Bool
is_bridge bridge = true
is_bridge t = false

abbrev pub is_ok : Result → Bool
is_ok ok = true
is_ok r = false

-- `set_err`; the buffer has 64 bytes.
abbrev pub set_err : Bytes → Session → Session
set_err e s = record s { err = take 63 e; phase = failed }

-- `check_signature`: whether the manifest lets the image in.
unfoldable pub check_signature : World → Policy → Bytes → Bytes → Session → Bool × Session
check_signature w policy sig expect s =
    let r = check_keys w.crypto sig (target_number s.target) s.size expect w.keys in
    let s' : Session = record s { sig = r } in
    if (if is_bridge s.target then is_ok r else accept r policy)
    then (true, if is_bridge s.target then record s' { sig_copy = sig } else s')
    else (false, set_err (w.texts.signature r) s')

-- The session of an image that begin lets in.
unfoldable pub started : ℕ → Bytes → Session → Session
started size expect s = record s {
  expect = expect;
  size = size;
  received = 0;
  err = [];
  phase = receiving;
  wd_seen = 0;
  wd_mark_ms = 0;
  verified_mark_ms = 0;
}

-- `begin_signed`, with the hash and the manifest as they came.
unfoldable pub begin_signed :
    World → Policy → ℕ → Bytes → Target → ℕ → Bytes → Session → Bool × Session
begin_signed w policy size hex target version sig s0 =
    let s1 : Session = record s0 { sig = no_manifest } in
    let s2 : Session = record s1 { target = target; version = version } in
    if not (target_known w.pod target)
    then (false, set_err (codes "bad target") s1)
    else if size == 0 || ltb (w.pod.max_size target) size
    then (false, set_err (codes "bad size") s2)
    else elim (parse_hex 32 hex) [
      | none ↦ (false, set_err (codes "bad sha256") s2)
      | some expect ↦
          let s3 : Session = record s2 { size = size } in
          let checked =
            if is_config target then (true, s3) else check_signature w policy sig expect s3 in
          if not checked.0 then checked else (true, started size expect checked.1)
    ]

-- `ota_data`; `wrote` is psram_write's outcome.
unfoldable pub data_in : ℕ → ℕ → Bool → Session → Bool × Session
data_in offset len wrote s =
    let s' : Session = record s { activity_ms = s.clock_ms } in
    let top = add32 offset len in
    elim s.phase [
      | receiving ↦
          if len == 0
          then (true, s')
          else if ltb s.size offset || ltb (s.size - offset) len
          then (false, set_err (codes "chunk out of range") s')
          else if not wrote
          then (false, set_err (codes "psram write failed") s')
          else (true, if ltb s.received top then record s' { received = top } else s')
      | _ ↦ (false, set_err (codes "not receiving") s)
    ]

-- The statics at start-up.
abbrev pub session_init : Session
session_init = record {
  phase = idle;
  size = 0;
  received = 0;
  expect = replicate 32 0;
  target = firmware;
  version = 0;
  err = [];
  sig = no_manifest;
  sig_copy = replicate manifest_len 0;
  wd_seen = 0;
  wd_mark_ms = 0;
  verified_mark_ms = 0;
  owner = owner_none;
  orphan = false;
  clock_ms = 0;
  activity_ms = 0;
  ref_owner = owner_none;
  ref_err = [];
  ref_seq = 0;
}
