-- ===== src/Xfer/Tests.antt =====
-- stm32h563/src/xfer.c: the test's peripheral counts; 0 is idle, 1 a transfer that runs.
use benchpod_firmware.Base.{ℕ, ◌≡◌, ◌==◌, refl, true, some, none, [], ◌∷◌}
use benchpod_firmware.Xfer.{
  Backend, ok, err, timeout, tx, rx, transfer, use_dma, finish_dma, settle, block, refuse_empty,
}

-- A DMA that starts when the peripheral is idle and never completes.
abbrev stuck : Backend ℕ
stuck = record {
  start_txrx = none;
  start_tx = some (λ out n w. (w == 0, 1));
  start_rx = none;
  wait = some (λ t w. (timeout, w));
  abort = some (λ w. 0);
  block_txrx = none;
  block_tx = some (λ out n t w. (ok, w));
  block_rx = none;
  dma_ready = some (λ w. true);
  dma_min = 2;
  timeout_ms = 100;
}

short-blocking : tx stuck (7 ∷ []) 1 0 ≡ (ok, 0)
unfolding tx transfer use_dma block refuse_empty
short-blocking = refl

long-timeout : tx stuck (7 ∷ 8 ∷ []) 2 0 ≡ (timeout, 0)
unfolding tx transfer use_dma finish_dma settle block refuse_empty
long-timeout = refl

no_start-blocking : tx stuck (7 ∷ 8 ∷ []) 2 1 ≡ (ok, 1)
unfolding tx transfer use_dma block refuse_empty
no_start-blocking = refl

no_hooks : rx stuck 2 0 ≡ (err, 0)
unfolding rx transfer block refuse_empty
no_hooks = refl
