-- ===== src/ConnTx/Drain.antt =====
-- The consumer's side of conn_tx.c: what `conn_tx_peek` shows, what `conn_tx_advance` and
-- `conn_tx_reset` give back, and that two rounds of peek and advance empty any ring.
use benchpod_firmware.Base.{
  ℕ, zero, suc, ◌+◌, ◌-◌, ◌%◌, ◌≤◌, ◌<◌, ◌≡◌, ◌≢◌, ◌⊎◌, refl, sym, ap, ◌∙◌, List, [], ◌∷◌, ◌++◌,
  arith, length, get_or, take, drop, min, add16, sub16, inl, inr, take-append-drop,
}
use mathlib.Core.Path.{ap₂}
use mathlib.Core.List.{append-nil}
use benchpod_firmware.ConnTx.{Ring, ring_size, ring_used, ring_peek, ring_advance, ring_reset}
use benchpod_firmware.ConnTx.Refine.{window, window_mod, contents, IsValid}

drop-window :
    (buf : List ℕ) (t k n : ℕ) → k ≤ n → drop k (window buf t n) ≡ window buf (t + k) (n - k)
drop-window buf t zero n h = ap₂ (window buf) (omega arith) (omega arith)
drop-window buf t (suc k) zero h = absurd (omega arith)
drop-window buf t (suc k) (suc n) h =
    drop-window buf (t + 1) k n (omega arith) ∙ ap₂ (window buf) (omega arith) (omega arith)

take-window : (buf : List ℕ) (t k n : ℕ) → k ≤ n → take k (window buf t n) ≡ window buf t k
take-window buf t zero n h = refl
take-window buf t (suc k) zero h = absurd (omega arith)
take-window buf t (suc k) (suc n) h =
    ap (λ w. get_or buf (t % ring_size) 0 ∷ w) (take-window buf (t + 1) k n (omega arith))

drop-get : (xs : List ℕ) (i : ℕ) → i < length xs → drop i xs ≡ get_or xs i 0 ∷ drop (i + 1) xs
drop-get [] i h = absurd (omega arith)
drop-get (x ∷ xs) zero h = refl
drop-get (x ∷ xs) (suc i) h =
    let e : i + 1 ≡ suc i = omega arith in
    let e' : suc i + 1 ≡ suc (i + 1) = omega arith in rw e' (drop-get xs i (omega arith))

-- A run of the array that does not go round the end is a window.
slice-window :
    (buf : List ℕ) (i t n : ℕ)
    → i ≡ t % ring_size
    → i + n ≤ length buf
    → length buf ≡ ring_size
    → take n (drop i buf) ≡ window buf t n
slice-window buf i t zero e h l = refl
slice-window buf i t (suc zero) e h l = rw (drop-get buf i (omega arith), e)
slice-window buf i t (suc (suc n)) e h l = rw (drop-get buf i (omega arith)) (
    ap₂ ◌∷◌ (ap (λ k. get_or buf k 0) e)
      (slice-window buf (i + 1) (t + 1) (suc n) (omega arith) (omega arith) l))

-- The bytes behind the pointer and length that `conn_tx_peek` hands out.
abbrev pub shown : Ring → List ℕ
shown r = let (n, at) = ring_peek r in take n (drop at r.buf)

-- The two results of a peek.
peek_cases :
    (r : Ring)
    → ((ring_used r ≡ 0) × (ring_peek r ≡ (0, 0)))
      ⊎ ((ring_used r ≢ 0)
          × (ring_peek r
              ≡ (min (ring_used r) (ring_size - r.tail % ring_size), r.tail % ring_size)))
unfolding ring_peek
peek_cases r = ground arith

pub peek_count : (r : Ring) → (ring_peek r).0 ≤ ring_used r
peek_count r = elim (peek_cases r) [
  | inl (z, e) ↦ rw e (omega arith)
  | inr (p, e) ↦ rw e (omega arith)
]

-- A peek shows a prefix of the queue, of the length that it reports.
pub shown-prefix : {r : Ring} → IsValid r → shown r ≡ take (ring_peek r).0 (contents r)
shown-prefix {r} v = elim (peek_cases r) [
  | inl (z, e) ↦ rw e
  | inr (p, e) ↦ rw e (
      slice-window r.buf (r.tail % ring_size) r.tail
        (min (ring_used r) (ring_size - r.tail % ring_size)) refl (omega (arith, v.storage))
        v.storage
      ∙ sym (
          take-window r.buf r.tail (min (ring_used r) (ring_size - r.tail % ring_size))
            (ring_used r) (omega arith)))
]

-- `conn_tx_advance` by what is queued at most drops that many of the oldest bytes.
pub ring_advance_lem :
    {r : Ring} (n : ℕ)
    → IsValid r
    → n ≤ ring_used r
    → IsValid (ring_advance r n)
      × (ring_used (ring_advance r n) ≡ ring_used r - n)
      × (contents (ring_advance r n) ≡ drop n (contents r))
unfolding ring_advance
ring_advance_lem {r} n v h =
    let left : sub16 r.head (add16 r.tail n) ≡ ring_used r - n = omega arith in
    (
      omega arith,
      left,
      rw left (
          window_mod r.buf (add16 r.tail n) (r.tail + n) (ring_used r - n) (omega arith)
          ∙ sym (drop-window r.buf r.tail n (ring_used r) h)),
    )

-- `conn_tx_reset` drops everything.
pub ring_reset_lem :
    {r : Ring} → IsValid r → IsValid (ring_reset r) × (contents (ring_reset r) ≡ [])
unfolding ring_reset
ring_reset_lem {r} v = (omega arith, let e : sub16 r.head r.head ≡ 0 = omega arith in rw e)

-- One round of the net task: show what is there, give it back.
abbrev pub drain_round : Ring → List ℕ × Ring
drain_round r = (shown r, ring_advance r (ring_peek r).0)

drain_round_lem :
    {r : Ring}
    → IsValid r
    → let (out, r') = drain_round r in (out ++ contents r' ≡ contents r) × IsValid r'
drain_round_lem {r} v =
    let (valid, left, rest) = ring_advance_lem (ring_peek r).0 v (peek_count r) in
    (rw (shown-prefix v, rest) (take-append-drop (ring_peek r).0 (contents r)), valid)

contents-empty : (r : Ring) → ring_used r ≡ 0 → contents r ≡ []
contents-empty r e = rw e

-- What a peek takes: the whole queue, or the run up to the end of the array.
peek_run :
    (r : Ring)
    → ((ring_peek r).0 ≡ ring_used r)
      ⊎ (((ring_peek r).0 ≡ ring_size - r.tail % ring_size) × ((ring_peek r).0 ≤ ring_used r))
peek_run r = elim (peek_cases r) [
  | inl (z, e) ↦ inl (rw e (sym z))
  | inr (p, e) ↦ rw e (omega arith)
]

-- After such a run what is left does not go round the end of the array.
second_run :
    {r : Ring} (n : ℕ)
    → IsValid r
    → (n ≡ ring_used r) ⊎ ((n ≡ ring_size - r.tail % ring_size) × (n ≤ ring_used r))
    → (ring_peek (ring_advance r n)).0 ≡ ring_used (ring_advance r n)
unfolding ring_advance
second_run {r} n v h = elim (peek_cases (ring_advance r n)) [
  | inl (z, e) ↦ rw e (sym z)
  | inr (p, e) ↦ rw e (omega arith)
]

second_peek : {r : Ring} → IsValid r → (ring_peek (drain_round r).1).0 ≡ ring_used (drain_round r).1
second_peek {r} v = second_run (ring_peek r).0 v (peek_run r)

-- On a valid ring two rounds of peek and advance show everything that was queued, in order, and
-- leave it empty.
pub drain_twice :
    {r : Ring}
    → IsValid r
    → let (first, r1) = drain_round r in
      let (second, r2) = drain_round r1 in (first ++ second ≡ contents r) × (contents r2 ≡ [])
drain_twice {r} v =
    let r1 = (drain_round r).1 in
    let (e1, v1) = drain_round_lem v in
    let (e2, v2) = drain_round_lem v1 in
    let (w, left, rest) = ring_advance_lem (ring_peek r1).0 v1 (peek_count r1) in
    let gone : contents (drain_round r1).1 ≡ [] =
      contents-empty _ (left ∙ omega (arith, second_peek v)) in
    (ap (λ w. shown r ++ w) (sym (append-nil (shown r1)) ∙ (rw gone at e2)) ∙ e1, gone)
