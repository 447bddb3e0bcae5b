-- ===== src/Bridge/Pairing/Replay.antt =====
-- Who gets past the pairing check, and that no signed request gets past it twice.
use mathlib.Core.Path.{subst}
use benchpod_firmware.Base.{
  ℕ, ◌≤◌, ◌<◌, ◌≡◌, refl, sym, ap, ◌∙◌, ◌↔◌, ◌⊎◌, inl, inr, Bool, true, false, List, [], ◌∷◌, arith,
  leb, Bool-cases, Option-cases, Bytes,
}
use benchpod_firmware.Bridge.Wire.{Msg, find, Verdict, verified, missing, bad_auth, verify}
use benchpod_firmware.Bridge.Pairing.{
  store_key, bwp_pair, bwp_scan, accept, bwp_status, PairVerdict, tag_pubkey, Pairing, check,
  check_paired, refuse, admit, forget,
}

admit-authed :
    (m : Msg) (authed : Bool) (c : ℕ)
    → ((admit m authed c).authed ≡ authed) × ((admit m authed c).counter ≡ c)
unfolding admit
admit-authed m authed c = elim (Option-cases (find m.body tag_pubkey)) [
  | inl e ↦ ground arith
  | inr (k, e) ↦ ground arith
]

-- The verdict of an authenticated request.
paired-authed :
    (v : Verdict) (m : Msg) (p : Pairing)
    → (check_paired v m p).0.authed ≡ true
    → (c : ℕ) × (v ≡ verified c)
      × (p.last_counter < c)
      × ((check_paired v m p).0.counter ≡ c)
      × ((check_paired v m p).1 ≡ record p { last_counter = c })
unfolding check_paired refuse
paired-authed missing m p h = absurd (cc)
paired-authed bad_auth m p h = absurd (cc)
paired-authed (verified c) m p h =
    let a = admit-authed m true c in
    elim (Bool-cases (leb c p.last_counter)) [
      | inl e ↦ absurd (ground arith)
      | inr e ↦ (c, refl, ground arith, ground arith, ground arith)
    ]

paired-fresh :
    (c : ℕ) (m : Msg) (p : Pairing)
    → p.last_counter < c
    → (check_paired (verified c) m p).0.authed ≡ true
unfolding check_paired
paired-fresh c m p h = let a = admit-authed m true c in ground arith

-- A verdict that lets a request in.
unfoldable pub IsIn : PairVerdict → Type 0
IsIn v = (v ≡ accept) ⊎ (v ≡ store_key)

paired-IsIn :
    (v : Verdict) (m : Msg) (p : Pairing)
    → IsIn (check_paired v m p).0.verdict
    → (check_paired v m p).0.authed ≡ true
unfolding check_paired refuse IsIn
paired-IsIn missing m p h = absurd (ground arith)
paired-IsIn bad_auth m p h = absurd (ground arith)
paired-IsIn (verified c) m p h = let a = admit-authed m true c in ground arith

-- What the check leaves of the state.
Kept : Pairing → Pairing → Type 0
Kept p q =
    (q.paired ≡ p.paired)
    × (q.key ≡ p.key)
    × (q.nonce ≡ p.nonce)
    × (p.last_counter ≤ q.last_counter)

paired-Kept : (v : Verdict) (m : Msg) (p : Pairing) → Kept p (check_paired v m p).1
unfolding check_paired Kept
paired-Kept missing m p = (refl, refl, refl, omega arith)
paired-Kept bad_auth m p = (refl, refl, refl, omega arith)
paired-Kept (verified c) m p = ground arith

-- What happens to a paired bridge between two pairings.
pub data PairingOp : Type 0 where
  request : Bytes → Msg → PairingOp
  forgotten : PairingOp

-- The bridge took a request of counter `c` under this key and nonce, and no key was set since.
Seen : Bytes → Bytes → ℕ → Pairing → Type 0
Seen k n c p = (c ≤ p.last_counter) × ((p.paired ≡ true) → (p.key ≡ k) × (p.nonce ≡ n))

paired-plain :
    (v : Verdict) (m : Msg) (p : Pairing)
    → (check_paired v m p).0.authed ≡ false
    → (check_paired v m p).1 ≡ p
unfolding check_paired refuse admit
paired-plain missing m p h = refl
paired-plain bad_auth m p h = refl
paired-plain (verified c) m p h =
    let a = admit-authed m true c in
    elim (Bool-cases (leb c p.last_counter)) [
      | inl e ↦ ground arith
      | inr e ↦ absurd (ground arith)
    ]

module _ (hmac : Bytes → Bytes → Bytes) where
  unfoldable pub step : PairingOp → Pairing → Pairing
  step (request frame m) p = (check hmac frame m p).1
  step forgotten p = forget p

  unfoldable pub steps : List PairingOp → Pairing → Pairing
  steps [] p = p
  steps (o ∷ os) p = steps os (step o p)

  check-paired :
      (frame : Bytes) (m : Msg) (p : Pairing)
      → p.paired ≡ true
      → check hmac frame m p ≡ check_paired (verify hmac frame m p.key p.nonce) m p
  unfolding check
  check-paired frame m p e = ground arith

  check-unpaired :
      (frame : Bytes) (m : Msg) (p : Pairing)
      → p.paired ≡ false
      → ((check hmac frame m p).0.authed ≡ false) × ((check hmac frame m p).1 ≡ p)
  unfolding check refuse
  check-unpaired frame m p e = let a = admit-authed m false 0 in ground arith

  unpaired-type :
      (frame : Bytes) (m : Msg) (p : Pairing)
      → p.paired ≡ false
      → IsIn (check hmac frame m p).0.verdict
      → (m.type ≡ bwp_status) ⊎ ((m.type ≡ bwp_scan) ⊎ (m.type ≡ bwp_pair))
  unfolding check refuse IsIn
  unpaired-type frame m p e h = ground arith

  -- A request that is let in without being authenticated finds the bridge unpaired, and asks for its
  -- state, for a scan, or for a pairing.
  pub check-open :
      (frame : Bytes) (m : Msg) (p : Pairing)
      → IsIn (check hmac frame m p).0.verdict
      → (check hmac frame m p).0.authed ≡ false
      → (p.paired ≡ false) × ((m.type ≡ bwp_status) ⊎ ((m.type ≡ bwp_scan) ⊎ (m.type ≡ bwp_pair)))
  check-open frame m p h a = elim (Bool-cases p.paired) [
    | inl e ↦
        let q = check-paired frame m p e in
        let t =
          paired-IsIn (verify hmac frame m p.key p.nonce) m p (subst (λ r. IsIn r.0.verdict) q h) in
        let t' : (check hmac frame m p).0.authed ≡ true = ap (λ r. r.0.authed) q ∙ t in absurd (cc)
    | inr e ↦ (e, unpaired-type frame m p e h)
  ]

  -- A request is let in as authenticated exactly when the bridge is paired, bwp_verify accepts its
  -- MAC, and its counter is above the last one, which it then becomes.
  pub authed_iff :
      (frame : Bytes) (m : Msg) (p : Pairing)
      → ((check hmac frame m p).0.authed ≡ true) ↔ (
          (p.paired ≡ true)
          × ((c : ℕ) × (verify hmac frame m p.key p.nonce ≡ verified c)
              × (p.last_counter < c)
              × ((check hmac frame m p).1 ≡ record p { last_counter = c })))
  authed_iff frame m p = elim (Bool-cases p.paired) [
    | inl e ↦
        let q = check-paired frame m p e in
        (
          λ h.
              let (c, v, f, k, s) =
                paired-authed (verify hmac frame m p.key p.nonce) m p
                  (ap (λ r. r.0.authed) (sym q) ∙ h) in
              (e, (c, v, f, ap (λ r. r.1) q ∙ s)),
          λ (e', (c, v, f, s)).
              ap (λ r. r.0.authed) (q ∙ ap (λ v. check_paired v m p) v) ∙ paired-fresh c m p f,
        )
    | inr e ↦
        let (a, s) = check-unpaired frame m p e in (λ h. absurd (cc), λ h. absurd (ground arith))
  ]

  -- What is not authenticated leaves the pairing as it was.
  pub check-plain :
      (frame : Bytes) (m : Msg) (p : Pairing)
      → (check hmac frame m p).0.authed ≡ false
      → (check hmac frame m p).1 ≡ p
  check-plain frame m p h = elim (Bool-cases p.paired) [
    | inl e ↦
        let q = check-paired frame m p e in
        let v = verify hmac frame m p.key p.nonce in
        ap (λ r. r.1) q ∙ paired-plain v m p (ap (λ r. r.0.authed) (sym q) ∙ h)
    | inr e ↦ (check-unpaired frame m p e).1
  ]

  check-Kept : (frame : Bytes) (m : Msg) (p : Pairing) → Kept p (check hmac frame m p).1
  unfolding Kept
  check-Kept frame m p = elim (Bool-cases p.paired) [
    | inl e ↦
        let k = paired-Kept (verify hmac frame m p.key p.nonce) m p in
        subst (λ r. Kept p r.1) (sym (check-paired frame m p e)) k
    | inr e ↦ subst (Kept p) (sym (check-unpaired frame m p e).1) (refl, refl, refl, omega arith)
  ]

  step-Seen :
      (o : PairingOp) (k n : Bytes) (c : ℕ) (p : Pairing) → Seen k n c p → Seen k n c (step o p)
  unfolding step Seen Kept
  step-Seen (request frame m) k n c p (l, same) =
      let (ep, ek, en, el) = check-Kept frame m p in
      (omega arith, λ h. let (sk, sn) = same (sym ep ∙ h) in (ek ∙ sk, en ∙ sn))
  step-Seen forgotten k n c p (l, same) = (l, λ h. absurd (cc))

  steps-Seen :
      (os : List PairingOp) (k n : Bytes) (c : ℕ) (p : Pairing)
      → Seen k n c p
      → Seen k n c (steps os p)
  unfolding steps
  steps-Seen [] k n c p s = s
  steps-Seen (o ∷ os) k n c p s = steps-Seen os k n c (step o p) (step-Seen o k n c p s)

  -- A request that was let in as authenticated is never let in as authenticated again, whatever
  -- requests come between and whether or not the pairing is forgotten, until a key is set.
  pub replay_lem :
      (frame : Bytes) (m : Msg) (p : Pairing) (os : List PairingOp)
      → (check hmac frame m p).0.authed ≡ true
      → (check hmac frame m (steps os (check hmac frame m p).1)).0.authed ≡ false
  unfolding Seen
  replay_lem frame m p os h =
      let (e, (c, v, f, s)) = (authed_iff frame m p).0 h in
      let q = steps os (check hmac frame m p).1 in
      let start : Seen p.key p.nonce c (check hmac frame m p).1 =
        subst (Seen p.key p.nonce c) (sym s) (omega arith, λ x. (refl, refl)) in
      let (l, same) = steps-Seen os p.key p.nonce c (check hmac frame m p).1 start in
      elim (Bool-cases (check hmac frame m q).0.authed) [
        | inl again ↦
            let (eq, (d, vq, fq, sq)) = (authed_iff frame m q).0 again in
            let (sk, sn) = same eq in
            let vp : verify hmac frame m q.key q.nonce ≡ verified c = rw (sk, sn) v in
            absurd (ground arith)
        | inr again ↦ again
      ]
