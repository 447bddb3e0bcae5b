-- ===== src/Bridge/Update/Trusted.antt =====
-- What an update of the bridge leaves to be booted.
use benchpod_firmware.Base.{ℕ, ◌^◌, ◌<◌, ◌≡◌, refl, Bool, Option, some, List, [], ◌∷◌, All, Bytes}
use benchpod_firmware.Access.FwSign.{Crypto}
use benchpod_firmware.Bridge.Update.{
  Update, EndOutcome, update_init, abort, poll, ota_begin, ota_data, ota_end,
}
use benchpod_firmware.Bridge.Update.Valid.{
  IsTrusted, IsValid, idle-IsValid, abort-IsValid, poll-IsValid, ota_begin-IsValid,
  ota_data-IsValid, ota_end-IsValid,
}

-- What the bridge is asked, and what its flash answers.
pub data UpdateOp : Type 0 where
  begins : ℕ → Option Bytes → Option ℕ → Bool → ℕ → UpdateOp
  chunk : ℕ → Bytes → Bool → ℕ → UpdateOp
  ends : EndOutcome → Bool → UpdateOp
  aborts : UpdateOp
  polled : ℕ → UpdateOp

-- A size is a 32-bit number.
unfoldable pub IsOp : UpdateOp → Type 0
IsOp (begins size m part erased now) = size < 2 ^ 32
IsOp _ = Unit

module _ (c : Crypto) (keys : List Bytes) (sha256 : Bytes → Bytes) (project_name : Bytes) where
  unfoldable pub update_step : UpdateOp → Update → Update
  update_step (begins size m part erased now) u =
      (ota_begin c keys sha256 project_name size m part erased now u).1
  update_step (chunk offset bytes wrote now) u =
      (ota_data c keys sha256 project_name offset bytes wrote now u).1
  update_step (ends outcome booted) u = (ota_end c keys sha256 project_name outcome booted u).1
  update_step aborts u = abort u
  update_step (polled now) u = poll now u

  unfoldable pub update_steps : List UpdateOp → Update → Update
  update_steps [] u = u
  update_steps (o ∷ os) u = update_steps os (update_step o u)

  -- Every operation leaves a transfer in order, and nothing but trusted images to be booted.
  pub update_step-IsValid :
      (o : UpdateOp) (u : Update)
      → IsOp o
      → IsValid c keys sha256 project_name u
      → IsValid c keys sha256 project_name (update_step o u)
  unfolding update_step IsOp
  update_step-IsValid (begins size m part erased now) u h v =
      ota_begin-IsValid c keys sha256 project_name size m part erased now u h v
  update_step-IsValid (chunk offset bytes wrote now) u h v =
      ota_data-IsValid c keys sha256 project_name offset bytes wrote now u v
  update_step-IsValid (ends outcome booted) u h v =
      ota_end-IsValid c keys sha256 project_name outcome booted u v
  update_step-IsValid aborts u h v = abort-IsValid c keys sha256 project_name u v
  update_step-IsValid (polled now) u h v = poll-IsValid c keys sha256 project_name now u v

  update_steps-IsValid :
      (os : List UpdateOp) (u : Update)
      → All IsOp os
      → IsValid c keys sha256 project_name u
      → IsValid c keys sha256 project_name (update_steps os u)
  unfolding update_steps
  update_steps-IsValid [] u h v = v
  update_steps-IsValid (o ∷ os) u (h, hs) v =
      update_steps-IsValid os (update_step o u) hs (update_step-IsValid o u h v)

  -- Whatever order the operations of an update come in, and however the flash answers: an image that
  -- is set to be booted has the size and the hash of a manifest for the bridge that is signed under a
  -- listed key.
  pub boots-IsTrusted :
      (os : List UpdateOp) (image : Bytes)
      → All IsOp os
      → (update_steps os update_init).boots ≡ some image
      → IsTrusted c keys sha256 project_name image
  unfolding IsValid
  boots-IsTrusted os image h e =
      (update_steps-IsValid os update_init h
          (idle-IsValid c keys sha256 project_name update_init refl (λ i x. absurd (cc)))).1
        image e
