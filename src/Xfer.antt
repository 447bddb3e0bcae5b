-- ===== src/Xfer.antt =====
-- stm32h563/src/xfer.c: a transfer by DMA or by the blocking calls. The hooks of the backend are the
-- fields of `Backend`, over the state `W` of the peripheral and of the buffers its hooks reach; a
-- hook that is NULL is `none`. Buffers that are written are part of `W`.
pub mod Idle
mod Tests
use mathlib.Core.Option
use benchpod_firmware.Base.{
  ℕ, ◌≤◌, ◌<◌, ◌≡◌, refl, Bool, true, false, not, ◌&&◌, ◌||◌, Option, none, some, arith, ltb, leb,
  ◌==◌, if◌then◌else◌, Bytes,
}

-- XFER_OK, XFER_ERR, XFER_TIMEOUT.
pub data Code : Type 0 where
  ok : Code
  err : Code
  timeout : Code

-- `xfer_backend_t`. A start hook says whether the transfer was started.
pub record Backend (W : Type 0) : Type 0 where
  pub start_txrx : Option (Bytes → ℕ → W → Bool × W)
  pub start_tx : Option (Bytes → ℕ → W → Bool × W)
  pub start_rx : Option (ℕ → W → Bool × W)
  pub wait : Option (ℕ → W → Code × W)
  pub abort : Option (W → W)
  pub block_txrx : Option (Bytes → ℕ → ℕ → W → Code × W)
  pub block_tx : Option (Bytes → ℕ → ℕ → W → Code × W)
  pub block_rx : Option (ℕ → ℕ → W → Code × W)
  pub dma_ready : Option (W → Bool)
  pub dma_min : ℕ
  pub timeout_ms : ℕ

-- The abort hook is called on any result but XFER_OK.
unfoldable pub settle : {W : Type 0} → Option (W → W) → Code → W → W
settle none r w = w
settle (some abort) ok w = w
settle (some abort) err w = abort w
settle (some abort) timeout w = abort w

-- `finish_dma`, of the wait hook.
unfoldable pub finish_dma : {W : Type 0} → Backend W → (ℕ → W → Code × W) → W → Code × W
finish_dma be wait w = let (r, w') = wait be.timeout_ms w in (r, settle be.abort r w')

-- `use_dma`, of hooks that are there: `dma_ready` is asked last.
unfoldable pub use_dma : {W : Type 0} → Backend W → ℕ → W → Bool
use_dma be n w = not (ltb n be.dma_min) && elim be.dma_ready [ none ↦ false | some ready ↦ ready w ]

-- The blocking call, where its hook is there.
unfoldable pub block : {W : Type 0} → Option (W → Code × W) → W → Code × W
block none w = (err, w)
block (some run) w = run w

-- The body the three transfers share, of the start hook, the wait hook and the blocking hook of the
-- direction at hand.
unfoldable pub transfer :
    {W : Type 0}
    → Backend W
    → Option (W → Bool × W)
    → Option (ℕ → W → Code × W)
    → Option (W → Code × W)
    → ℕ
    → W
    → Code × W
unfolding block
transfer be none wait blocking n w = block blocking w
transfer be (some start) none blocking n w = block blocking w
transfer be (some start) (some wait) blocking n w =
    if use_dma be n w
    then (let (started, w') = start w in
        if started then finish_dma be wait w' else block blocking w')
    else block blocking w

-- An empty transfer is refused.
unfoldable pub refuse_empty : {W : Type 0} → ℕ → W → Code × W → Code × W
refuse_empty n w r = if n == 0 then (err, w) else r

unfoldable pub txrx : {W : Type 0} → Backend W → Bytes → ℕ → W → Code × W
txrx be tx n w = refuse_empty n w (
    transfer be (Option.map (λ f. f tx n) be.start_txrx) be.wait
      (Option.map (λ f. f tx n be.timeout_ms) be.block_txrx) n w)

unfoldable pub tx : {W : Type 0} → Backend W → Bytes → ℕ → W → Code × W
tx be out n w = refuse_empty n w (
    transfer be (Option.map (λ f. f out n) be.start_tx) be.wait
      (Option.map (λ f. f out n be.timeout_ms) be.block_tx) n w)

unfoldable pub rx : {W : Type 0} → Backend W → ℕ → W → Code × W
rx be n w = refuse_empty n w (
    transfer be (Option.map (λ f. f n) be.start_rx) be.wait
      (Option.map (λ f. f n be.timeout_ms) be.block_rx) n w)
