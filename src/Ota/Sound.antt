-- ===== src/Ota/Sound.antt =====
-- stm32h563/src/ota.c: what a session has been through, whatever the transports call.
pub mod Call
use mathlib.Core.Path.{subst}
use benchpod_firmware.Ota.{
  Session, Phase, idle, receiving, verified, failed, installed, Target, World, data_in,
}
use benchpod_firmware.Ota.Begin.{IsLetIn}
use benchpod_firmware.Ota.Owner.{sig_decode, begin, finish, Event, call}
use benchpod_firmware.Access.FwSign.{Policy}
use benchpod_firmware.Ota.End.{read_image, same, other, unreadable, staged_hash_check}
use benchpod_firmware.Base.{
  ℕ, ◌-◌, ◌≤◌, max, ◌≡◌, refl, sym, ◌⊎◌, inl, inr, Bool, not, ◌&&◌, ◌||◌, Option, none, some, List,
  [], ◌∷◌, arith, ltb, ◌==◌, Bool-cases, Option-cases, Bytes, str_eq, str_eq_iff,
}

-- An event is one of these.
unfoldable pub Happened : Event → List Event → Type 0
Happened e [] = ⊥
Happened e (x ∷ xs) = (e ≡ x) ⊎ Happened e xs

-- The manifest that a begin is given, decoded; one that cannot be is a byte.
abbrev pub sig_of : Bytes → Bytes
sig_of b64 = elim (sig_decode b64) [ none ↦ 0 ∷ [] | some got ↦ got ]

-- A begin among the events was let in for this image, under the policy and with the manifest that it
-- came with.
unfoldable pub IsBegun : World → List Event → Target → ℕ → Bytes → Type 0
IsBegun w es target size expect =
    (who : ℕ) × (policy : Policy) × (hex : Bytes) × (version : ℕ) × (b64 : Bytes) × Happened
      (call who (begin policy size hex target version b64)) es
    × IsLetIn w policy size hex target (sig_of b64) expect

unfoldable pub IsTaken : World → List Event → Target → ℕ → ℕ → Bytes → Type 0
IsTaken w es target size received expect = (received ≤ size) × IsBegun w es target size expect

-- An end among the events read back an image of this size, which has this hash.
unfoldable pub IsHashed : World → List Event → ℕ → Bytes → Type 0
IsHashed w es size expect =
    (who : ℕ) × (policy : Policy) × (read : ℕ → ℕ → Option Bytes) × (invalid : Option Bytes)
    × (image : Bytes) × Happened (call who (finish policy read invalid)) es
    × (read_image read size size 0 ≡ some image)
    × (w.sha256 image ≡ expect)

-- The fields that a session's image is in: the target, the size, what was received, the hash.
abbrev pub Core : Type 0
Core = Phase × (Target × (ℕ × (ℕ × Bytes)))

abbrev pub core : Session → Core
core s = (s.phase, (s.target, (s.size, (s.received, s.expect))))

unfoldable pub IsSoundIn : World → List Event → Core → Type 0
IsSoundIn w es (receiving, (target, (size, (received, expect)))) =
    IsTaken w es target size received expect
IsSoundIn w es (verified, (target, (size, (received, expect)))) =
    IsTaken w es target size received expect × (size ≤ received) × IsHashed w es size expect
IsSoundIn w es (installed, (target, (size, (received, expect)))) =
    IsTaken w es target size received expect × (size ≤ received) × IsHashed w es size expect
IsSoundIn w es (idle, c) = Unit
IsSoundIn w es (failed, c) = Unit

unfoldable pub IsSound : World → List Event → Session → Type 0
IsSound w es s = IsSoundIn w es (core s)

pub Phase-cases :
    (p : Phase)
    → (p ≡ receiving) ⊎ ((p ≡ verified) ⊎ ((p ≡ idle) ⊎ ((p ≡ failed) ⊎ (p ≡ installed))))
Phase-cases receiving = inl refl
Phase-cases verified = inr (inl refl)
Phase-cases idle = inr (inr (inl refl))
Phase-cases failed = inr (inr (inr (inl refl)))
Phase-cases installed = inr (inr (inr (inr refl)))

module _ (w : World) (es : List Event) where
  pub failed-IsSound : (s : Session) → s.phase ≡ failed → IsSound w es s
  unfolding IsSound IsSoundIn
  failed-IsSound s e = subst (λ p. IsSoundIn w es (p, (core s).1)) (sym e) tt

  pub idle-IsSound : (s : Session) → s.phase ≡ idle → IsSound w es s
  unfolding IsSound IsSoundIn
  idle-IsSound s e = subst (λ p. IsSoundIn w es (p, (core s).1)) (sym e) tt

  pub core-IsSound : (s s' : Session) → core s' ≡ core s → IsSound w es s → IsSound w es s'
  unfolding IsSound
  core-IsSound s s' e v = subst (IsSoundIn w es) (sym e) v

  pub receiving-IsTaken :
      (s : Session)
      → s.phase ≡ receiving
      → IsSound w es s
      → IsTaken w es s.target s.size s.received s.expect
  unfolding IsSound IsSoundIn
  receiving-IsTaken s e v =
      subst (λ p. IsSoundIn w es (p, (s.target, (s.size, (s.received, s.expect))))) e v

  data_in-cases :
      (offset len : ℕ) (wrote : Bool) (s : Session)
      → ((data_in offset len wrote s).1.phase ≡ failed)
        ⊎ ((s.phase ≡ receiving)
            × (top : ℕ) × (top ≤ max s.received s.size)
            × (core (data_in offset len wrote s).1
                ≡ (receiving, (s.target, (s.size, (top, s.expect))))))
  unfolding data_in
  data_in-cases offset len wrote s = elim (Phase-cases s.phase) [
    | inr p ↦ inl (ground arith)
    | inl p ↦
        elim (Bool-cases
          (not (len == 0) && (ltb s.size offset || ltb (s.size - offset) len || not wrote))) [
            | inl bad ↦ inl (ground arith)
            | inr good ↦
                inr (p, (data_in offset len wrote s).1.received, ground arith, ground arith)
          ]
  ]

  pub data_in-IsSound :
      (offset len : ℕ) (wrote : Bool) (s : Session)
      → IsSound w es s
      → IsSound w es (data_in offset len wrote s).1
  unfolding IsSound IsSoundIn IsTaken
  data_in-IsSound offset len wrote s v = elim (data_in-cases offset len wrote s) [
    | inl e ↦ failed-IsSound (data_in offset len wrote s).1 e
    | inr (p, top, le, e) ↦
        let (got, begun) = receiving-IsTaken s p v in
        subst (IsSoundIn w es) (sym e) (omega arith, begun)
  ]

  pub hash_check-cases :
      (read : ℕ → ℕ → Option Bytes) (s : Session)
      → (((staged_hash_check w read s).0 ≡ same)
          × ((staged_hash_check w read s).1 ≡ s)
          × (image : Bytes) × (read_image read s.size s.size 0 ≡ some image)
          × (w.sha256 image ≡ s.expect))
        ⊎ ((((staged_hash_check w read s).0 ≡ other) × ((staged_hash_check w read s).1 ≡ s))
            ⊎ (((staged_hash_check w read s).0 ≡ unreadable)
                × ((staged_hash_check w read s).1.phase ≡ failed)))
  unfolding staged_hash_check
  hash_check-cases read s = elim (Option-cases (read_image read s.size s.size 0)) [
    | inl e ↦ inr (inr (rw (e, staged_hash_check) refl, rw (e, staged_hash_check) refl))
    | inr (image, e) ↦ elim (Bool-cases (str_eq (w.sha256 image) s.expect)) [
      | inl k ↦ inl (
        rw (e, k, staged_hash_check) refl,
        rw (e, staged_hash_check) refl,
        image,
        e,
        (str_eq_iff (w.sha256 image) s.expect).0 k,
      )
      | inr k ↦ inr (inl (rw (e, k, staged_hash_check) refl, rw (e, staged_hash_check) refl))
    ]
  ]
