-- ===== src/Bridge/FwSig.antt =====
-- wifi-bridge/components/bridge_core/fwsig.c: the signed manifest of a bridge image. SHA-512 and
-- Ed25519 come from Monocypher and are the parameter `Crypto` of the pod's own check; the table of
-- keys, which the build generates, is a parameter too.
use benchpod_firmware.Base.{
  ℕ, ◌≡◌, refl, inl, inr, Bool, true, not, ◌&&◌, Option, none, some, List, ◌++◌, arith, ◌==◌,
  if◌then◌else◌, Option-cases, length, take, drop, get_or, replicate, Bytes, codes, str_eq,
}
use benchpod_firmware.Access.FwSign.{Crypto, context, find_key, rd32}

-- `fwsig_t`.
pub record FwSig : Type 0 where
  pub target : ℕ
  pub size : ℕ
  pub sha256 : Bytes
  pub version : ℕ
  pub release : ℕ
  pub key_id : Bytes

pub data SigResult : Type 0 where
  sig_ok sig_format unknown_key bad_signature wrong_target wrong_image : SigResult

abbrev pub no_sig : FwSig
no_sig = record {
  target = 0;
  size = 0;
  sha256 = replicate 32 0;
  version = 0;
  release = 0;
  key_id = replicate 8 0;
}

abbrev pub target_bridge : ℕ
target_bridge = 6

unfoldable pub sig_of : Bytes → FwSig
sig_of s = record {
  target = get_or s 6 0;
  size = rd32 (drop 8 s);
  sha256 = take 32 (drop 12 s);
  version = rd32 (drop 44 s);
  release = rd32 (drop 48 s);
  key_id = take 8 (drop 56 s);
}

unfoldable pub sig_formatted : Bytes → Bool
sig_formatted s =
    (length s == 128)
    && str_eq (take 4 s) (codes "BPSG")
    && (get_or s 4 0 == 1)
    && (get_or s 5 0 == 0)

module _ (c : Crypto) where
  -- The checks of a well-formed manifest, once its key is looked up.
  unfoldable pub sig_signed : Option Bytes → Bytes → ℕ → ℕ → SigResult
  sig_signed none s target size = unknown_key
  sig_signed (some k) s target size =
      if not (c.ed25519_check (drop 64 s) k (context ++ take 64 s))
      then bad_signature
      else if not ((sig_of s).target == target)
      then wrong_target
      else if not ((sig_of s).size == size)
      then wrong_image
      else sig_ok

  -- `fwsig_check`: `none` is the NULL pointer; the manifest is written, where `out` was given, as soon
  -- as the format is right.
  unfoldable pub fwsig_check : Option Bytes → List Bytes → ℕ → ℕ → FwSig → SigResult × FwSig
  fwsig_check none keys target size out = (sig_format, out)
  fwsig_check (some s) keys target size out =
      if not (sig_formatted s)
      then (sig_format, out)
      else (sig_signed (find_key c keys (sig_of s).key_id) s target size, sig_of s)

  -- What fwsig_check accepted: a manifest for the bridge and this size, under a listed key.
  pub Accepted : List Bytes → FwSig → ℕ → Type 0
  Accepted keys m size =
      (s : Bytes) × (m ≡ sig_of s)
      × (sig_formatted s ≡ true)
      × (m.target ≡ target_bridge)
      × (m.size ≡ size)
      × ((k : Bytes) × (find_key c keys m.key_id ≡ some k)
          × (c.ed25519_check (drop 64 s) k (context ++ take 64 s) ≡ true))

  pub fwsig_check-Accepted :
      (sig : Option Bytes) (keys : List Bytes) (size : ℕ) (out : FwSig)
      → (fwsig_check sig keys target_bridge size out).0 ≡ sig_ok
      → Accepted keys (fwsig_check sig keys target_bridge size out).1 size
  unfolding fwsig_check Accepted sig_signed
  fwsig_check-Accepted none keys size out h = absurd (cc)
  fwsig_check-Accepted (some s) keys size out h =
      elim (Option-cases (find_key c keys (sig_of s).key_id)) [
        | inl e ↦ absurd (ground arith)
        | inr (k, e) ↦
            let f : sig_formatted s ≡ true = ground arith in
            let m : (fwsig_check (some s) keys target_bridge size out).1 ≡ sig_of s =
              ground arith in
            rw m (s, refl, f, ground arith, ground arith, (k, e, ground arith))
      ]
