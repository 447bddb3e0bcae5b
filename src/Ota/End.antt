-- ===== src/Ota/End.antt =====
-- stm32h563/src/ota.c: the checks of a staged image, the end of its transfer, the watchdog and the
-- install of a blob; fw_info.c for the block of a firmware image. `read off n` is psram_read, none
-- where it fails.
pub mod Judged
pub mod Reads
use benchpod_firmware.Ota.{
  Session, idle, receiving, verified, installed, firmware, tls, World, set_err, is_firmware,
  is_config, chunk_size, stage_idle_ms, verified_hold_ms, owner_none,
}
use benchpod_firmware.Access.FwSign.{Policy, audit, permissive, required, rd16, rd32}
use benchpod_firmware.Base.{
  ℕ, zero, suc, ◌+◌, ◌-◌, ◌%◌, min, Bool, true, false, not, ◌||◌, Option, none, some, [], ◌∷◌, ◌++◌,
  arith, ltb, ◌==◌, if◌then◌else◌, length, drop, sub32, Bytes, codes, str_eq,
}

abbrev pub info_offset : ℕ
info_offset = 0x400

abbrev pub info_len : ℕ
info_len = 16

-- The magic of a block, its smallest flash and its first reserved byte.
abbrev info_magic : ℕ
info_magic = 1464226882

-- `fw_info_required_kb`; none is the NULL pointer.
unfoldable pub required_kb : Option Bytes → ℕ
required_kb none = 2048
required_kb (some b) =
    if ltb (length b) info_len
    then 2048
    else if not (rd32 b == info_magic) || rd16 (drop 6 b) == 0
    then 2048
    else rd16 (drop 6 b)

-- `fw_info_flags`.
unfoldable pub info_flags : Option Bytes → ℕ
info_flags none = 0
info_flags (some b) =
    if ltb (length b) info_len then 0 else if rd32 b == info_magic then rd32 (drop 8 b) else 0

-- The bytes that `staged_hash_check` reads in its rounds, from `off`.
unfoldable pub read_image : (ℕ → ℕ → Option Bytes) → ℕ → ℕ → ℕ → Option Bytes
read_image read size zero off = if ltb off size then none else some []
read_image read size (suc fuel) off =
    let n = min (size - off) chunk_size in
    let rest = read_image read size fuel (off + n) in
    if not (ltb off size) then some [] else elim (read off n) [
      | none ↦ none
      | some bs ↦ elim rest [ none ↦ none | some more ↦ some (bs ++ more) ]
    ]

-- How the image compares to the hash that its sender named.
pub data Staged : Type 0 where
  same other unreadable : Staged

-- `staged_hash_check`; an image has at most a round for each of its bytes.
unfoldable pub staged_hash_check : World → (ℕ → ℕ → Option Bytes) → Session → Staged × Session
staged_hash_check w read s = elim (read_image read s.size s.size 0) [
  | none ↦ (unreadable, set_err (codes "psram read failed") s)
  | some image ↦ (if str_eq (w.sha256 image) s.expect then same else other, s)
]

-- The block of the staged image that both checks of a firmware image read.
unfoldable pub info_of : (ℕ → ℕ → Option Bytes) → Session → Option (Option Bytes)
info_of read s =
    if ltb s.size (info_offset + info_len)
    then some none
    else elim (read info_offset info_len) [ none ↦ none | some b ↦ some (some b) ]

-- `staged_fits_this_flash`.
unfoldable pub staged_fits : World → (ℕ → ℕ → Option Bytes) → Session → Bool × Session
staged_fits w read s = elim (info_of read s) [
  | none ↦ (false, set_err (codes "psram read failed") s)
  | some info ↦
      if ltb w.pod.flash_kb (required_kb info)
      then (false, set_err (w.texts.flash (required_kb info) w.pod.flash_kb) s)
      else (true, s)
]

-- `staged_keeps_enforcement`.
unfoldable pub keeps_enforcement : Policy → (ℕ → ℕ → Option Bytes) → Session → Bool × Session
keeps_enforcement audit read s = (true, s)
keeps_enforcement permissive read s = (true, s)
keeps_enforcement required read s = elim (info_of read s) [
  | none ↦ (false, set_err (codes "psram read failed") s)
  | some info ↦
      if info_flags info % 2 == 1
      then (true, s)
      else (false, set_err (codes "image cannot enforce signatures (policy required)") s)
]

-- The answer to ota_validate_staged, which gives a reason against the image or none.
unfoldable pub validated : Option Bytes → Session → Bool × Session
validated none s = (true, s)
validated (some []) s = (false, set_err (codes "invalid") s)
validated (some (b ∷ why)) s = (false, set_err (b ∷ why) s)

-- What is checked of an image beyond its hash.
unfoldable pub staged_ok :
    World → Policy → (ℕ → ℕ → Option Bytes) → Option Bytes → Session → Bool × Session
staged_ok w policy read invalid s =
    if is_firmware s.target
    then (let fits = staged_fits w read s in
        if not fits.0 then fits else keeps_enforcement policy read fits.1)
    else if is_config s.target
    then validated invalid s
    else (true, s)

-- `ota_end`.
unfoldable pub end :
    World → Policy → (ℕ → ℕ → Option Bytes) → Option Bytes → Session → Bool × Session
end w policy read invalid s = elim s.phase [
  | receiving ↦
      if ltb s.received s.size
      then (false, set_err (codes "incomplete image") s)
      else (let hashed = staged_hash_check w read s in
          elim hashed.0 [
            | unreadable ↦ (false, hashed.1)
            | other ↦ (false, set_err (codes "sha256 mismatch") hashed.1)
            | same ↦
                (let checked = staged_ok w policy read invalid hashed.1 in
                  if not checked.0
                  then checked
                  else (true, record (checked.1) { phase = verified }))
          ])
  | _ ↦ (false, set_err (codes "not receiving") s)
]

-- `ota_reverify_held`.
unfoldable pub reverify : World → (ℕ → ℕ → Option Bytes) → Session → Bool × Session
reverify w read s = elim s.phase [
  | verified ↦
      let hashed = staged_hash_check w read s in
      elim hashed.0 [
        | same ↦ (true, hashed.1)
        | other ↦
            (false, set_err (codes "staged image changed after verify (sha256 mismatch)") hashed.1)
        | unreadable ↦ (false, hashed.1)
      ]
  | _ ↦ (false, s)
]

-- `ota_abort`.
unfoldable pub abort : Session → Session
abort s = record s {
  owner = owner_none;
  orphan = false;
  phase = idle;
  target = firmware;
  size = 0;
  received = 0;
  err = [];
}

-- A clock's mark, where 0 is "not marked".
abbrev pub mark : ℕ → ℕ
mark now = if now == 0 then 1 else now

-- `ota_watchdog`.
unfoldable pub watchdog : ℕ → Session → Session
watchdog now s0 =
    let s : Session = record s0 { clock_ms = now } in
    let unmarked : Session = record s { verified_mark_ms = 0 } in
    elim s.phase [
      | verified ↦
          if s.verified_mark_ms == 0
          then record s { verified_mark_ms = mark now }
          else if ltb (sub32 now s.verified_mark_ms) verified_hold_ms
          then s
          else abort s
      | receiving ↦
          if not (s.received == s.wd_seen) || s.wd_mark_ms == 0
          then record unmarked { wd_seen = s.received; wd_mark_ms = mark now }
          else if ltb (sub32 now s.wd_mark_ms) stage_idle_ms
          then unmarked
          else abort unmarked
      | _ ↦ record unmarked { wd_mark_ms = now }
    ]

-- `ota_install_blob`: `refused` is why ota_install_staged_config would not take a certificate, `wrote`
-- the outcome of blob_store_write.
unfoldable pub install_blob : Option Bytes → Bool → Session → Bool × Session
install_blob refused wrote s = elim s.phase [
  | verified ↦ elim s.target [
    | firmware ↦ (false, set_err (codes "not a blob") s)
    | tls ↦ elim refused [
      | none ↦ (true, record s { phase = installed })
      | some [] ↦ (false, set_err (codes "install failed") s)
      | some (b ∷ why) ↦ (false, set_err (b ∷ why) s)
    ]
    | _ ↦
        if wrote
        then (true, record s { phase = installed })
        else (false, set_err (codes "blob write failed") s)
  ]
  | _ ↦ (false, set_err (codes "no verified image staged") s)
]
