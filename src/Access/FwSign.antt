-- ===== src/Access/FwSign.antt =====
-- stm32h563/src/fw_sign.c: whether an update's image is let in. The key table is generated by the
-- build and SHA-512 and Ed25519 come from Monocypher, so `Crypto` and the keys are parameters. No
-- property here depends on what they compute.
pub mod Accept
mod Tests
use benchpod_firmware.Base.{
  ℕ, zero, suc, ◌+◌, ◌*◌, Bool, true, false, not, ◌&&◌, ◌||◌, Option, none, some, List, [], ◌∷◌,
  ◌++◌, ltb, ◌==◌, if◌then◌else◌, Bytes, codes, length, take, drop, str_eq,
}

pub record Crypto : Type 0 where
  pub sha512 : Bytes → Bytes
  -- `crypto_ed25519_check(signature, key, message) == 0`.
  pub ed25519_check : Bytes → Bytes → Bytes → Bool

abbrev pub manifest_len : ℕ
manifest_len = 128

abbrev pub signed_len : ℕ
signed_len = 64

-- FW_SIGN_CONTEXT with its NUL.
abbrev pub context : Bytes
context = codes "benchpod-fw-sign:v1" ++ 0 ∷ []

pub data Result : Type 0 where
  no_manifest ok bad_format unknown_key bad_signature wrong_target wrong_image : Result

pub data Policy : Type 0 where
  audit permissive required : Policy

-- `p[i]`; every use is within the manifest's length.
unfoldable pub byte_at : ℕ → Bytes → ℕ
byte_at zero [] = 0
byte_at zero (b ∷ p) = b
byte_at (suc i) [] = 0
byte_at (suc i) (b ∷ p) = byte_at i p

pub rd16 : Bytes → ℕ
unfolding byte_at
rd16 p = byte_at 0 p + 256 * byte_at 1 p

unfoldable pub rd32 : Bytes → ℕ
unfolding byte_at
rd32 p = byte_at 0 p + 256 * byte_at 1 p + 65536 * byte_at 2 p + 16777216 * byte_at 3 p

pub record Manifest : Type 0 where
  pub target : ℕ
  pub flags : ℕ
  pub size : ℕ
  pub sha256 : Bytes
  pub version : ℕ
  pub release : ℕ
  pub layout : ℕ
  pub min_flash_kb : ℕ
  pub key_id : Bytes

pub manifest_of : Bytes → Manifest
manifest_of s = record {
  target = byte_at 6 s;
  flags = byte_at 7 s;
  size = rd32 (drop 8 s);
  sha256 = take 32 (drop 12 s);
  version = rd32 (drop 44 s);
  release = rd32 (drop 48 s);
  layout = rd16 (drop 52 s);
  min_flash_kb = rd16 (drop 54 s);
  key_id = take 8 (drop 56 s);
}

-- The length, magic, format and target number that a manifest must have.
pub format_ok : Bytes → Bool
format_ok s =
    (length s == manifest_len)
    && str_eq (take 4 s) (codes "BPSG")
    && (rd16 (drop 4 s) == 1)
    && (not (ltb 3 (byte_at 6 s)) || byte_at 6 s == 6)

module _ (c : Crypto) where
  unfoldable pub key_id_of : Bytes → Bytes
  key_id_of pub_key = take 8 (c.sha512 pub_key)

  -- The first key of the table with this id.
  unfoldable pub find_key : List Bytes → Bytes → Option Bytes
  find_key [] id = none
  find_key (k ∷ keys) id =
      let rest = find_key keys id in if str_eq (key_id_of k) id then some k else rest

  -- The checks of a well-formed manifest, once its key is looked up.
  check_signed : Option Bytes → Bytes → Manifest → ℕ → ℕ → Bytes → Result
  check_signed none s m target size sha256 = unknown_key
  check_signed (some k) s m target size sha256 =
      if not (c.ed25519_check (drop signed_len s) k (context ++ take signed_len s))
      then bad_signature
      else if not (m.target == target)
      then wrong_target
      else if not (m.size == size) || not (str_eq m.sha256 sha256)
      then wrong_image
      else ok

  -- `fw_sign_check_keys`; an empty list is also the NULL pointer.
  pub check_keys : Bytes → ℕ → ℕ → Bytes → List Bytes → Result
  check_keys [] target size sha256 keys = no_manifest
  check_keys (b ∷ s) target size sha256 keys =
      let sig = b ∷ s in
      let m = manifest_of sig in
      if not (format_ok sig)
      then bad_format
      else check_signed (find_key keys m.key_id) sig m target size sha256

-- `fw_sign_accept`.
pub accept : Result → Policy → Bool
accept r audit = true
accept ok permissive = true
accept no_manifest permissive = true
accept _ permissive = false
accept ok required = true
accept _ required = false
