-- ===== src/Access/FwSign/Accept.antt =====
-- What the policies let in.
use benchpod_firmware.Base.{
  none, refl, some, ◌++◌, inr, str_eq_iff, inl, ◌≢◌, Bool-cases, ℕ, ◌≡◌, true, arith, ◌∷◌, [],
}
use benchpod_firmware.Access.FwSign.{
  Manifest, Option, check_signed, take, context, signed_len, drop, str_eq, required, manifest_of,
  some, accept, format_ok, key_id_of, List, find_key, Bytes, Crypto, check_keys,
}

module _ (c : Crypto) where
  -- The first key with the id: it is listed, and no other comes before it.
  pub data Picked (id : Bytes) (k : Bytes) : List Bytes → Type 0 where
    here : (keys : List Bytes) → key_id_of c k ≡ id → Picked id k (k ∷ keys)
    there :
        (k' : Bytes) (keys : List Bytes)
        → key_id_of c k' ≢ id
        → Picked id k keys
        → Picked id k (k' ∷ keys)

  find_key-Picked :
      (keys : List Bytes) (id k : Bytes) → find_key c keys id ≡ some k → Picked id k keys
  unfolding find_key
  find_key-Picked [] id k h = cc
  find_key-Picked (k' ∷ keys) id k h = elim (Bool-cases (str_eq (key_id_of c k') id)) [
    | inl e ↦ let e' : k' ≡ k = ground arith in rw e' (here keys (rw (← e') ((str_eq_iff _ _).0 e)))
    | inr e ↦
        there k' keys (λ p. ground (arith, str_eq_iff (key_id_of c k') id))
          (find_key-Picked keys id k (ground arith))
  ]

-- What an image must be announced with.
pub record Signed (c : Crypto) (sig : Bytes) (target size : ℕ) (sha256 : Bytes) (keys : List Bytes)
    : Type 0 where
  pub key : Bytes
  pub formatted : format_ok sig ≡ true
  pub picked : Picked c (manifest_of sig).key_id key keys
  pub verifies : c.ed25519_check (drop signed_len sig) key (context ++ take signed_len sig) ≡ true
  pub for_target : (manifest_of sig).target ≡ target
  pub of_size : (manifest_of sig).size ≡ size
  pub of_hash : (manifest_of sig).sha256 ≡ sha256

check_signed_ok :
    (c : Crypto) (o : Option Bytes) (s : Bytes) (m : Manifest) (target size : ℕ) (sha256 : Bytes)
    → accept (check_signed c o s m target size sha256) required ≡ true
    → (k : Bytes) × (o ≡ some k)
      × (c.ed25519_check (drop signed_len s) k (context ++ take signed_len s) ≡ true)
      × (m.target ≡ target)
      × (m.size ≡ size)
      × (m.sha256 ≡ sha256)
unfolding accept check_signed
check_signed_ok c none s m target size sha256 h = cc
check_signed_ok c (some k) s m target size sha256 h =
    (k, refl, ground arith, ground arith, ground arith, ground (arith, str_eq_iff m.sha256 sha256))

check_keys_ok :
    (c : Crypto) (sig : Bytes) (target size : ℕ) (sha256 : Bytes) (keys : List Bytes)
    → accept (check_keys c sig target size sha256 keys) required ≡ true
    → (format_ok sig ≡ true)
      × (accept
            (check_signed c
              (find_key c keys (manifest_of sig).key_id)
              sig
              (manifest_of sig)
              target
              size
              sha256)
            required
          ≡ true)
unfolding check_keys accept
check_keys_ok c [] target size sha256 keys h = cc
check_keys_ok c (b ∷ s) target size sha256 keys h = ground arith

-- Under the policy "required" an image gets in only with a manifest of the right format for this
-- target, size and hash, signed under the listed key that the manifest names.
pub required_only-Signed :
    (c : Crypto) (sig : Bytes) (target size : ℕ) (sha256 : Bytes) (keys : List Bytes)
    → accept (check_keys c sig target size sha256 keys) required ≡ true
    → Signed c sig target size sha256 keys
required_only-Signed c sig target size sha256 keys h =
    let (f, a) = check_keys_ok c sig target size sha256 keys h in
    let (k, found, v, t, z, sh) = check_signed_ok c _ sig (manifest_of sig) target size sha256 a in
    record {
      key = k;
      formatted = f;
      picked = find_key-Picked c keys _ k found;
      verifies = v;
      for_target = t;
      of_size = z;
      of_hash = sh;
    }
