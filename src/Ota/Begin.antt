-- ===== src/Ota/Begin.antt =====
-- stm32h563/src/ota.c: what a begin leaves behind.
use benchpod_firmware.Ota.{
  Session, failed, Target, World, parse_hex, target_known, is_config, is_bridge, is_ok,
  target_number, check_signature, started, begin_signed,
}
use benchpod_firmware.Access.FwSign.{Policy, no_manifest, check_keys, accept}
use benchpod_firmware.Base.{
  ℕ, zero, suc, ◌≤◌, ◌<◌, ◌≡◌, refl, ◌⊎◌, inl, inr, Bool, true, false, ◌||◌, some, [], ◌∷◌, arith,
  ltb, ◌==◌, if◌then◌else◌, Bool-cases, Option-cases, length, Bytes,
}

pub parse_hex-length : (n : ℕ) (h : Bytes) (bs : Bytes) → parse_hex n h ≡ some bs → length bs ≡ n
unfolding parse_hex
parse_hex-length zero [] bs e = ground arith
parse_hex-length zero (c ∷ h) bs e = ground arith
parse_hex-length (suc n) [] bs e = ground arith
parse_hex-length (suc n) (c ∷ []) bs e = ground arith
parse_hex-length (suc n) (c ∷ d ∷ h) bs e = elim (Option-cases (parse_hex n h)) [
  | inl none_read ↦ ground arith
  | inr (more, got) ↦ (let k = parse_hex-length n h more got in ground arith)
]

-- Whether the policy lets in an image with this manifest; the bridge takes a good one only.
abbrev pub lets_in : World → Policy → Target → ℕ → Bytes → Bytes → Bool
lets_in w policy target size expect sig =
    let r = check_keys w.crypto sig (target_number target) size expect w.keys in
    if is_bridge target then is_ok r else accept r policy

-- What a begin that goes on has seen of its arguments: a target of this build, a size from 1 to the
-- target's limit, a hash of 32 bytes, and for code a manifest that the policy lets in.
unfoldable pub IsLetIn : World → Policy → ℕ → Bytes → Target → Bytes → Bytes → Type 0
IsLetIn w policy size hex target sig expect =
    (target_known w.pod target ≡ true)
    × (0 < size)
    × (size ≤ w.pod.max_size target)
    × (parse_hex 32 hex ≡ some expect)
    × (length expect ≡ 32)
    × ((is_config target ≡ true) ⊎ (lets_in w policy target size expect sig ≡ true))

size-bounds : (size most : ℕ) → (size == 0 || ltb most size) ≡ false → (0 < size) × (size ≤ most)
size-bounds size most e = (ground arith, ground arith)

module _ (w : World) (policy : Policy) where
  check_signature-true :
      (sig expect : Bytes) (s : Session)
      → (check_signature w policy sig expect s).0 ≡ true
      → ((check_signature w policy sig expect s).1.target ≡ s.target)
        × (lets_in w policy s.target s.size expect sig ≡ true)
  unfolding check_signature
  check_signature-true sig expect s e =
      elim (Bool-cases (lets_in w policy s.target s.size expect sig)) [
        | inl lets ↦ (ground arith, lets)
        | inr refuses ↦ ground arith
      ]

  check_signature-false :
      (sig expect : Bytes) (s : Session)
      → (check_signature w policy sig expect s).0 ≡ false
      → (check_signature w policy sig expect s).1.phase ≡ failed
  unfolding check_signature
  check_signature-false sig expect s e = ground arith

  -- The state of a session that begin starts, before the checks of its manifest.
  abbrev prepared : ℕ → Target → ℕ → Session → Session
  prepared size target version s = record s {
    sig = no_manifest;
    target = target;
    version = version;
    size = size;
  }

  pub begin_signed-cases :
      (size : ℕ) (hex : Bytes) (target : Target) (version : ℕ) (sig : Bytes) (s : Session)
      → ((begin_signed w policy size hex target version sig s).1.phase ≡ failed)
        ⊎ ((expect : Bytes) × (s' : Session) × ((begin_signed w policy size hex target version sig
                s).1
              ≡ started size expect s')
            × (s'.target ≡ target)
            × IsLetIn w policy size hex target sig expect)
  unfolding begin_signed IsLetIn
  begin_signed-cases size hex target version sig s =
      let p = prepared size target version s in
      elim (Bool-cases (target_known w.pod target)) [
        | inr unknown ↦ inl (ground arith)
        | inl known ↦ elim (Bool-cases (size == 0 || ltb (w.pod.max_size target) size)) [
          | inl bad ↦ inl (ground arith)
          | inr good ↦ elim (Option-cases (parse_hex 32 hex)) [
            | inl none_read ↦ inl (ground arith)
            | inr (expect, read) ↦
                let k = parse_hex-length 32 hex expect read in
                let b = size-bounds size (w.pod.max_size target) good in
                elim (Bool-cases (is_config target)) [
                  | inl config ↦ inr (
                    expect,
                    p,
                    rw (known, good, read, config, begin_signed) refl,
                    refl,
                    (known, b.0, b.1, read, k, inl config),
                  )
                  | inr code ↦ elim (Bool-cases (check_signature w policy sig expect p).0) [
                    | inl lets ↦
                        let (same, accepted) = check_signature-true sig expect p lets in
                        inr (
                          expect,
                          (check_signature w policy sig expect p).1,
                          rw (known, good, read, code, begin_signed, lets) refl,
                          same,
                          (known, b.0, b.1, read, k, inr accepted),
                        )
                    | inr refuses ↦ inl (
                        let f = check_signature-false sig expect p refuses in
                        rw (known, good, read, code, begin_signed, refuses) f)
                  ]
                ]
          ]
        ]
      ]
