-- ===== src/Xfer/Idle.antt =====
-- stm32h563/src/xfer.c: in what state a transfer leaves the peripheral.
use benchpod_firmware.Base.{
  ℕ, ◌≡◌, ◌⊎◌, refl, Bool, true, false, some, Bool-cases, ◌==◌, inl, inr, Bytes,
}
use benchpod_firmware.Xfer.{
  Backend, Code, ok, err, timeout, finish_dma, settle, use_dma, block, transfer, refuse_empty, tx,
}

-- What the hooks of one direction promise of the states in which the peripheral is idle, and of those
-- in which a transfer runs.
pub record Keeps {W : Type 0} (Idle Running : W → Type 0) (start : W → Bool × W)
    (wait : ℕ → W → Code × W) (abort : W → W) (run : W → Code × W) : Type 0 where
  pub started : (w : W) → Idle w → (start w).0 ≡ true → Running (start w).1
  pub not_started : (w : W) → Idle w → (start w).0 ≡ false → Idle (start w).1
  pub completed : (t : ℕ) (w : W) → Running w → (wait t w).0 ≡ ok → Idle (wait t w).1
  pub aborted : (t : ℕ) (w : W) → Running w → Idle (abort (wait t w).1)
  pub blocked : (w : W) → Idle w → Idle (run w).1

Code-cases : (c : Code) → (c ≡ ok) ⊎ ((c ≡ err) ⊎ (c ≡ timeout))
Code-cases ok = inl refl
Code-cases err = inr (inl refl)
Code-cases timeout = inr (inr refl)

module _ {W : Type 0} (Idle Running : W → Type 0) (be : Backend W) (start : W → Bool × W)
    (wait : ℕ → W → Code × W) (abort : W → W) (run : W → Code × W)
    (k : Keeps Idle Running start wait abort run) where
  finish_dma-Idle : (w : W) → be.abort ≡ some abort → Running w → Idle (finish_dma be wait w).1
  unfolding finish_dma settle
  finish_dma-Idle w a h = elim (Code-cases (wait be.timeout_ms w).0) [
    | inl r ↦ rw (a, r) (k.completed be.timeout_ms w h r)
    | inr (inl r) ↦ rw (a, r) (k.aborted be.timeout_ms w h)
    | inr (inr r) ↦ rw (a, r) (k.aborted be.timeout_ms w h)
  ]

  -- A transfer leaves the peripheral idle whatever its result, where it could be aborted.
  pub transfer-Idle :
      (n : ℕ) (w : W)
      → be.abort ≡ some abort
      → Idle w
      → Idle (transfer be (some start) (some wait) (some run) n w).1
  unfolding transfer block
  transfer-Idle n w a h = elim (Bool-cases (use_dma be n w)) [
    | inl d ↦ elim (Bool-cases (start w).0) [
      | inl s ↦ rw (d, s) (finish_dma-Idle (start w).1 a (k.started w h s))
      | inr s ↦ rw (d, s) (k.blocked (start w).1 (k.not_started w h s))
    ]
    | inr d ↦ rw (d) (k.blocked w h)
  ]

-- A transmit, an empty one too, leaves the peripheral idle whatever its result, where the hooks it
-- uses are there and keep what they promise.
pub tx-Idle :
    {W : Type 0} (Idle Running : W → Type 0) (be : Backend W) (start : Bytes → ℕ → W → Bool × W)
    (wait : ℕ → W → Code × W) (abort : W → W) (run : Bytes → ℕ → ℕ → W → Code × W) (out : Bytes)
    (n : ℕ) (w : W)
    → Keeps Idle Running (start out n) wait abort (run out n be.timeout_ms)
    → be.start_tx ≡ some start
    → be.wait ≡ some wait
    → be.abort ≡ some abort
    → be.block_tx ≡ some run
    → Idle w
    → Idle (tx be out n w).1
unfolding tx refuse_empty transfer use_dma finish_dma
tx-Idle Idle Running be start wait abort run out n w k s t a b h = elim (Bool-cases (n == 0)) [
  | inl z ↦ rw (z) h
  | inr z ↦
      rw (z, s, t, b)
        (transfer-Idle Idle Running be (start out n) wait abort (run out n be.timeout_ms) k n w a h)
]
