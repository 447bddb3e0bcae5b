-- ===== src/Worker/Turns/Whole.antt =====
-- stm32h563/src/hw_worker.c: where no call comes within the loop of apply_parked_teardowns, its test and
-- its turns are the whole function of Worker.Step.
use mathlib.Core.List.{append_assoc, append-nil}
use mathlib.Core.Path.{subst}
use benchpod_firmware.Worker.{Worker, pend_ids, bit, Pend, Kind, close_conn, reset_tunnel}
use benchpod_firmware.Worker.Step.{Call, apply_bit, unpark, apply_one, apply_below, apply_parked}
use benchpod_firmware.Worker.Turns.{Task, Move, tested, turn, take_turn, move, moves}
use benchpod_firmware.Base.{
  ℕ, zero, suc, ◌+◌, ◌≡◌, refl, sym, ap, ◌∙◌, inl, inr, true, false, none, some, List, [], ◌∷◌,
  ◌++◌, arith, ltb, ◌==◌, Bool-cases, length, Bytes,
}

-- The calls that were made before do not matter.
apply_bit-append :
    (k : Kind) (conn : ℕ) (p : Pend) (cs ds : List Call) (s : Worker)
    → apply_bit k conn p (cs ++ ds, s)
      ≡ (cs ++ (apply_bit k conn p (ds, s)).0, (apply_bit k conn p (ds, s)).1)
unfolding apply_bit
apply_bit-append k conn p cs ds s = elim (Bool-cases (bit k p)) [
  | inl b ↦ rw (b, append_assoc cs ds) refl
  | inr b ↦ rw b refl
]

apply_one-append :
    (n : ℕ) (r : List Call × Worker)
    → apply_one n r ≡ (r.0 ++ (apply_one n ([], r.1)).0, (apply_one n ([], r.1)).1)
unfolding apply_one
apply_one-append n r =
    let cs = r.0 in
    let s = r.1 in
    let p = s.parked n in
    let first = apply_bit close_conn n p ([], unpark n s) in
    ap (λ l. apply_bit reset_tunnel n p (apply_bit close_conn n p (l, unpark n s)))
      (sym (append-nil cs))
    ∙ ap (apply_bit reset_tunnel n p) (apply_bit-append close_conn n p cs [] (unpark n s))
    ∙ apply_bit-append reset_tunnel n p cs first.0 first.1

unfoldable turns : ℕ → List Move
turns zero = []
turns (suc n) = turn ∷ turns n

-- A run of `moves` from this task is what the loop does from here on, behind the calls made before.
unfoldable Finishes : List Call → List Call × Task → List Call × Worker → Type 0
Finishes before r whole = (before ++ r.0 ≡ whole.0) × (r.1 ≡ (whole.1, none))

apply_below-next :
    (n : ℕ) (s : Worker)
    → let done = apply_below n ([], s) in
      apply_below (suc n) ([], s)
      ≡ (done.0 ++ (apply_one n ([], done.1)).0, (apply_one n ([], done.1)).1)
unfolding apply_below
apply_below-next n s = apply_one-append n (apply_below n ([], s))

take_turn-below :
    (n : ℕ) (s : Worker)
    → ltb n pend_ids ≡ true
    → take_turn n s ≡ ((apply_one n ([], s)).0, ((apply_one n ([], s)).1, some (suc n)))
unfolding take_turn
take_turn-below n s g = rw g refl

turns-idle :
    (digits : ℕ → Bytes) (k : ℕ) (s : Worker) → moves digits (turns k) (s, none) ≡ ([], (s, none))
unfolding moves move turns
turns-idle digits zero s = refl
turns-idle digits (suc k) s = turns-idle digits k s

turns-Finishes :
    (digits : ℕ → Bytes) (k n : ℕ) (s : Worker)
    → n + k ≡ pend_ids
    → Finishes
        (apply_below n ([], s)).0
        (moves digits (turns (suc k)) ((apply_below n ([], s)).1, some n))
        (apply_below pend_ids ([], s))
unfolding moves move take_turn turns Finishes
turns-Finishes digits zero n s e =
    let last : n ≡ pend_ids = omega arith in
    let g : ltb n pend_ids ≡ false = ground arith in
    let done = apply_below n ([], s) in
    let same : done ≡ apply_below pend_ids ([], s) = ap (λ m. apply_below m ([], s)) last in
    rw g (append-nil done.0 ∙ ap (λ r. r.0) same, ap (λ (r : List Call × Worker). (r.1, none)) same)
turns-Finishes digits (suc k) n s e =
    let g : ltb n pend_ids ≡ true = ground arith in
    let done = apply_below n ([], s) in
    let one = apply_one n ([], done.1) in
    let next : apply_below (suc n) ([], s) ≡ (done.0 ++ one.0, one.1) = apply_below-next n s in
    let rest = turns-Finishes digits k (suc n) s (omega arith) in
    let after = moves digits (turns (suc k)) (one.1, some (suc n)) in
    let gone : Finishes (done.0 ++ one.0) after (apply_below pend_ids ([], s)) =
      subst
        (λ (r : List Call × Worker).
          Finishes r.0 (moves digits (turns (suc k)) (r.1, some (suc n)))
            (apply_below pend_ids ([], s)))
        next rest in
    subst
      (λ (t : List Call × Task).
        Finishes done.0 (let r = moves digits (turns (suc k)) t.1 in (t.0 ++ r.0, r.1))
          (apply_below pend_ids ([], s)))
      (sym (take_turn-below n done.1 g)) (sym (append_assoc done.0 one.0 after.0) ∙ gone.0, gone.1)

-- From outside of the loop, the test and a turn for each connection, with the one that leaves the
-- loop, make the calls of apply_parked and leave its state, outside of the loop again.
moves-apply_parked :
    (digits : ℕ → Bytes) (s : Worker)
    → Finishes [] (moves digits (tested ∷ turns (suc pend_ids)) (s, none)) (apply_parked s)
unfolding moves move apply_parked Finishes apply_below turns
moves-apply_parked digits s = elim (Bool-cases (length s.q == 0)) [
  | inl e ↦ rw e (turns-Finishes digits pend_ids 0 s refl)
  | inr e ↦
      let idle = turns-idle digits (suc pend_ids) s in
      rw e (ap (λ (r : List Call × Task). r.0) idle, ap (λ (r : List Call × Task). r.1) idle)
]
