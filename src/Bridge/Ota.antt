-- ===== src/Bridge/Ota.antt =====
-- wifi-bridge/components/bridge_core/bridge_util.c: the order of an update's chunks, and the name of
-- an image.
use benchpod_firmware.Base.{
  ℕ, Bool, true, false, not, ◌&&◌, ◌||◌, Option, none, some, [], ◌∷◌, ltb, ◌==◌, if◌then◌else◌,
  length, take, drop, get_or, add32, sub32, Bytes,
}
use benchpod_firmware.Access.FwSign.{rd32}

-- `bu_ota_seq_t`.
pub record Seq : Type 0 where
  pub active : Bool
  pub size : ℕ
  pub next : ℕ
  pub last_off : ℕ
  pub last_len : ℕ

-- `bu_ota_chunk_t`.
pub data Chunk : Type 0 where
  write duplicate bad_offset too_large inactive : Chunk

abbrev pub no_seq : Seq
no_seq = record { active = false; size = 0; next = 0; last_off = 0; last_len = 0 }

unfoldable pub seq_begin : ℕ → Seq
seq_begin size = record { active = true; size = size; next = 0; last_off = 0; last_len = 0 }

unfoldable pub seq_check : Seq → ℕ → ℕ → Chunk
seq_check s offset len =
    if not s.active
    then inactive
    else if not (s.last_len == 0) && offset == s.last_off && len == s.last_len
    then duplicate
    else if not (offset == s.next)
    then bad_offset
    else if ltb (sub32 s.size s.next) len
    then too_large
    else write

unfoldable pub seq_advance : Seq → ℕ → ℕ → Seq
seq_advance s offset len = record s { last_off = offset; last_len = len; next = add32 offset len }

unfoldable pub seq_complete : Seq → Bool
seq_complete s = s.active && s.next == s.size

abbrev pub img_desc_end : ℕ
img_desc_end = 112

-- A C string in a buffer of 32 bytes and a NUL.
unfoldable pub until_nul : Bytes → Bytes
until_nul [] = []
until_nul (b ∷ bs) = let rest = until_nul bs in if b == 0 then [] else b ∷ rest

-- `bu_image_ident`: the project name and the version.
unfoldable pub image_ident : Bytes → Option (Bytes × Bytes)
unfolding until_nul
image_ident img =
    if ltb (length img) img_desc_end || not (get_or img 0 0 == 0xE9)
    then none
    else if not (rd32 (drop 32 img) == 0xABCD5432)
    then none
    else some (until_nul (take 32 (drop 80 img)), until_nul (take 32 (drop 48 img)))
