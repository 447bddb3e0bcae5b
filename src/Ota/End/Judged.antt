-- ===== src/Ota/End/Judged.antt =====
-- stm32h563/src/ota.c: the checks of a staged image let it be or fail the session.
use benchpod_firmware.Ota.{Session, failed, World, is_config, is_firmware}
use benchpod_firmware.Ota.End.{
  staged_fits, keeps_enforcement, validated, staged_ok, required_kb, info_flags, info_of,
}
use benchpod_firmware.Access.FwSign.{Policy, audit, permissive, required}
use benchpod_firmware.Base.{
  ℕ, ◌%◌, ◌≡◌, refl, ◌⊎◌, inl, inr, Bool, true, false, Option, none, some, [], ◌∷◌, ltb, ◌==◌,
  Bool-cases, Option-cases, Bytes,
}

-- A check that passes and leaves the session alone, or fails it.
abbrev pub Judged : Session → Bool × Session → Type 0
Judged s r = ((r.0 ≡ true) × (r.1 ≡ s)) ⊎ ((r.0 ≡ false) × (r.1.phase ≡ failed))

module _ (w : World) where
  fits-Judged : (read : ℕ → ℕ → Option Bytes) (s : Session) → Judged s (staged_fits w read s)
  unfolding staged_fits
  fits-Judged read s = elim (Option-cases (info_of read s)) [
    | inl e ↦ inr (rw (e, staged_fits) refl, rw (e, staged_fits) refl)
    | inr (info, e) ↦ elim (Bool-cases (ltb w.pod.flash_kb (required_kb info))) [
      | inl k ↦ inr (rw (e, k, staged_fits) refl, rw (e, k, staged_fits) refl)
      | inr k ↦ inl (rw (e, k, staged_fits) refl, rw (e, k, staged_fits) refl)
    ]
  ]

  enforcement-Judged :
      (policy : Policy) (read : ℕ → ℕ → Option Bytes) (s : Session)
      → Judged s (keeps_enforcement policy read s)
  unfolding keeps_enforcement
  enforcement-Judged audit read s = inl (refl, refl)
  enforcement-Judged permissive read s = inl (refl, refl)
  enforcement-Judged required read s = elim (Option-cases (info_of read s)) [
    | inl e ↦ inr (rw (e, keeps_enforcement) refl, rw (e, keeps_enforcement) refl)
    | inr (info, e) ↦ elim (Bool-cases (info_flags info % 2 == 1)) [
      | inl k ↦ inl (rw (e, k, keeps_enforcement) refl, rw (e, k, keeps_enforcement) refl)
      | inr k ↦ inr (rw (e, k, keeps_enforcement) refl, rw (e, k, keeps_enforcement) refl)
    ]
  ]

  validated-Judged : (invalid : Option Bytes) (s : Session) → Judged s (validated invalid s)
  unfolding validated
  validated-Judged none s = inl (refl, refl)
  validated-Judged (some []) s = inr (refl, refl)
  validated-Judged (some (b ∷ why)) s = inr (refl, refl)

  pub staged_ok-Judged :
      (policy : Policy) (read : ℕ → ℕ → Option Bytes) (invalid : Option Bytes) (s : Session)
      → Judged s (staged_ok w policy read invalid s)
  unfolding staged_ok
  staged_ok-Judged policy read invalid s = elim (Bool-cases (is_firmware s.target)) [
    | inl f ↦ elim (fits-Judged read s) [
      | inl (yes_fits, same_s) ↦
          rw (f, staged_ok, yes_fits, same_s) (enforcement-Judged policy read s)
      | inr (no_fit, k) ↦ rw (f, staged_ok, no_fit) (inr (refl, k))
    ]
    | inr f ↦ elim (Bool-cases (is_config s.target)) [
      | inl c ↦ rw (f, c, staged_ok) (validated-Judged invalid s)
      | inr c ↦ rw (f, c, staged_ok) (inl (refl, refl))
    ]
  ]
