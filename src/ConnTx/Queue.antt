-- ===== src/ConnTx/Queue.antt =====
-- What a connection's ring promises: a FIFO of bytes that holds at most `ring_mask` of them and
-- takes a reply whole or not at all.
use benchpod_firmware.Base.{ℕ, ◌+◌, List, ◌++◌, ltb, if◌then◌else◌, length}
use benchpod_firmware.ConnTx.{ring_mask}

unfoldable pub offer : List ℕ → List ℕ → ℕ × List ℕ
offer q src = if ltb ring_mask (length q + length src) then (0, q) else (length src, q ++ src)
