-- ===== src/ConnTx/Stream.antt =====
-- The byte stream of one connection over any interleaving of the two tasks' calls: the worker's
-- `conn_tx_write`, and the net task's `conn_tx_peek` with `conn_tx_advance` by what lwIP took.
use benchpod_firmware.Base.{
  ℕ, zero, suc, ◌≤◌, ◌≡◌, refl, sym, ap, ◌∙◌, List, [], ◌∷◌, ◌++◌, arith, length, take, min, ltb,
  Bool-cases, inl, inr, take-append-drop, ◌+◌,
}
use mathlib.Core.List.{append-nil, append_assoc}
use benchpod_firmware.ConnTx.{Ring, ring_mask, ring_used, ring_write, ring_peek, ring_advance}
use benchpod_firmware.ConnTx.Queue.{offer}
use benchpod_firmware.ConnTx.Refine.{contents, IsValid, ring_write-IsValid, ring_write_refines}
use benchpod_firmware.ConnTx.Drain.{shown, peek_count, shown-prefix, ring_advance_lem}

-- `send` is a write of the worker; in `pump k` lwIP has room for `k` bytes.
pub data Event : Type 0 where
  send : List ℕ → Event
  pump : ℕ → Event

-- What an event adds to the accepted bytes and to the sent bytes, and the ring behind it.
unfoldable pub step : Ring → Event → List ℕ × List ℕ × Ring
step r (send src) = let (n, r') = ring_write r src in (take n src, [], r')
step r (pump k) = let n = min k (ring_peek r).0 in ([], take n (shown r), ring_advance r n)

unfoldable pub run : Ring → List Event → List ℕ × List ℕ × Ring
run r [] = ([], [], r)
run r (e ∷ es) =
    let (a, s, r') = step r e in let (as', ss, r'') = run r' es in (a ++ as', s ++ ss, r'')

take_all : (xs : List ℕ) → take (length xs) xs ≡ xs
take_all [] = refl
take_all (x ∷ xs) = ap (λ w. x ∷ w) (take_all xs)

take-take : (xs : List ℕ) (m n : ℕ) → m ≤ n → take m (take n xs) ≡ take m xs
take-take xs zero n h = refl
take-take [] (suc m) zero h = refl
take-take [] (suc m) (suc n) h = refl
take-take (x ∷ xs) (suc m) zero h = absurd (omega arith)
take-take (x ∷ xs) (suc m) (suc n) h = ap (λ w. x ∷ w) (take-take xs m n (omega arith))

-- An offer appends exactly the bytes that it reports as taken.
offer-accepted : (q src : List ℕ) → (offer q src).1 ≡ q ++ take (offer q src).0 src
unfolding offer
offer-accepted q src = elim (Bool-cases (ltb ring_mask (length q + length src))) [
  | inl full ↦ rw full (sym (append-nil q))
  | inr fits ↦ rw (fits, take_all src)
]

abbrev Keeps : Ring → List ℕ × List ℕ × Ring → Type 0
Keeps r (accepted, sent, r') = (sent ++ contents r' ≡ contents r ++ accepted) × IsValid r'

step-Keeps : (r : Ring) (e : Event) → IsValid r → Keeps r (step r e)
unfolding step
step-Keeps r (send src) v =
    let e = ring_write_refines src v in
    (
      ap (λ p. p.1) e
          ∙ offer-accepted (contents r) src
          ∙ ap (λ n. contents r ++ take n src) (sym (ap (λ p. p.0) e)),
      ring_write-IsValid src v,
    )
step-Keeps r (pump k) v =
    let n = min k (ring_peek r).0 in
    let small : n ≤ ring_used r = omega (arith, peek_count r) in
    let (valid, left, rest) = ring_advance_lem n v small in
    (
      rw
          (
            shown-prefix v,
            take-take (contents r) n (ring_peek r).0 (omega arith),
            rest,
            take-append-drop n (contents r),
          )
          (sym (append-nil (contents r))),
      valid,
    )

-- On a valid ring, whatever the order of the calls, the bytes sent and those still queued are the bytes that were
-- queued at first and those that the writes accepted: none is lost, repeated or reordered.
pub run_stream :
    (r : Ring) (es : List Event)
    → IsValid r
    → let (accepted, sent, r') = run r es in
      (sent ++ contents r' ≡ contents r ++ accepted) × IsValid r'
unfolding run
run_stream r [] v = (sym (append-nil (contents r)), v)
run_stream r (e ∷ es) v =
    let (now, v') = step-Keeps r e v in
    let (later, v'') = run_stream (step r e).2 es v' in
    (
      append_assoc (step r e).1 (run (step r e).2 es).1 _
          ∙ ap (λ w. (step r e).1 ++ w) later
          ∙ sym (append_assoc (step r e).1 _ _)
          ∙ ap (λ w. w ++ (run (step r e).2 es).0) now
          ∙ append_assoc (contents r) _ _,
      v'',
    )
