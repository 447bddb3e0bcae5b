-- ===== src/ConnTx/Tests.antt =====
-- The rings of conn_tx.c at concrete inputs.
use benchpod_firmware.Base.{ℕ, ◌≡◌, refl, List, [], ◌∷◌, ◌++◌, arith, replicate, length-replicate}
use benchpod_firmware.ConnTx.{Ring, ring_write, ring_peek, ring_advance, copy}
use benchpod_firmware.ConnTx.Queue.{offer}
use benchpod_firmware.ConnTx.Refine.{IsValid, contents, ring_write_refines}
use benchpod_firmware.ConnTx.Stream.{step, send, pump, run, run_stream}

-- Two bytes below the end of the array, with the counters about to wrap as well.
abbrev late : Ring
late = record { head = 65534; tail = 65534; buf = replicate 2048 0 }

late-IsValid : IsValid late
late-IsValid = record {
  storage = length-replicate {A = ℕ} 2048 0;
  head_word = omega arith;
  tail_word = omega arith;
  room = omega arith;
}

abbrev reply : List ℕ
reply = 1 ∷ 2 ∷ 3 ∷ []

peek_at_the_end : ring_peek (ring_write late reply).1 ≡ (2, 2046)
unfolding ring_write ring_peek copy
peek_at_the_end = refl

stream_runs : run late (send reply ∷ pump 9 ∷ send (4 ∷ []) ∷ pump 1 ∷ []) ≡ (
  1 ∷ 2 ∷ 3 ∷ 4 ∷ [],
  1 ∷ 2 ∷ 3 ∷ [],
  record { head = 2; tail = 1; buf = 3 ∷ 4 ∷ (replicate 2044 0 ++ 1 ∷ 2 ∷ []) },
)
unfolding run step ring_write ring_peek ring_advance copy
stream_runs = refl

ring_write_refines_example :
    ((ring_write late reply).0, contents (ring_write late reply).1) ≡ offer (contents late) reply
ring_write_refines_example = ring_write_refines reply late-IsValid

run_stream_example :
    let (accepted, sent, r') = run late (send reply ∷ pump 2 ∷ []) in
    (sent ++ contents r' ≡ contents late ++ accepted) × IsValid r'
run_stream_example = run_stream late (send reply ∷ pump 2 ∷ []) late-IsValid
