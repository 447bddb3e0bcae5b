-- ===== src/ConnTx/Refine.antt =====
-- One ring of conn_tx.c refines a bounded FIFO: the producer appends a whole write or nothing, the
-- consumer sees the oldest bytes and gives back what it sent.
use benchpod_firmware.Base.{
  ℕ, zero, suc, ◌+◌, ◌-◌, ◌%◌, ◌^◌, ◌≤◌, ◌<◌, ◌≡◌, refl, sym, ap, ◌∙◌, List, [], ◌∷◌, ◌++◌, arith,
  ltb, length, get_or, set, length-set, get_or-set_self, get_or-set_ne, add16, sub16, Bool-cases,
  inl, inr,
}
use mathlib.Core.Path.{ap₂}
use mathlib.Core.List.{append-nil, append_assoc}
use benchpod_firmware.ConnTx.{Ring, ring_size, ring_mask, ring_used, ring_free, copy, ring_write}
use benchpod_firmware.ConnTx.Queue.{offer}

-- The `n` bytes from the free-running position `t` on.
abbrev pub window : List ℕ → ℕ → ℕ → List ℕ
window buf t zero = []
window buf t (suc n) = get_or buf (t % ring_size) 0 ∷ window buf (t + 1) n

-- What is queued, oldest byte first.
abbrev pub contents : Ring → List ℕ
contents r = window r.buf r.tail (ring_used r)

pub record IsValid (r : Ring) : Type 0 where
  pub storage : length r.buf ≡ ring_size
  pub head_word : r.head < 2 ^ 16
  pub tail_word : r.tail < 2 ^ 16
  pub room : ring_used r ≤ ring_mask

pub length-window : (buf : List ℕ) (t n : ℕ) → length (window buf t n) ≡ n
length-window buf t zero = refl
length-window buf t (suc n) = ap suc (length-window buf (t + 1) n)

pub window_mod :
    (buf : List ℕ) (t u n : ℕ) → t % ring_size ≡ u % ring_size → window buf t n ≡ window buf u n
window_mod buf t u zero h = refl
window_mod buf t u (suc n) h =
    ap₂ ◌∷◌ (ap (λ k. get_or buf k 0) h) (window_mod buf (t + 1) (u + 1) n (omega arith))

window-set :
    (buf : List ℕ) (x t n p : ℕ)
    → length buf ≡ ring_size
    → n < ring_size
    → p ≡ (t + n) % ring_size
    → window (set buf p x) t (suc n) ≡ window buf t n ++ x ∷ []
window-set buf x t zero p l h e =
    let e' : p ≡ t % ring_size = omega arith in
    rw (← e') (ap (λ k. k ∷ []) (get_or-set_self buf p x 0 (omega arith)))
window-set buf x t (suc n) p l h e =
    ap₂ ◌∷◌ (get_or-set_ne buf {i = p} {j = t % ring_size} x 0 (omega arith))
      (window-set buf x (t + 1) n p l (omega arith) (omega arith))

-- The copying loop extends the window by what it copies.
window-copy :
    (src buf : List ℕ) (t n p : ℕ)
    → length buf ≡ ring_size
    → n + length src ≤ ring_size
    → p % ring_size ≡ (t + n) % ring_size
    → window (copy buf p src) t (n + length src) ≡ window buf t n ++ src
unfolding copy
window-copy [] buf t n p l h e =
    let e' : n + 0 ≡ n = omega arith in rw e' (sym (append-nil (window buf t n)))
window-copy (x ∷ xs) buf t n p l h e =
    let e' : n + suc (length xs) ≡ suc n + length xs = omega arith in
    rw e' (
      window-copy xs (set buf (p % ring_size) x) t (suc n) (p + 1)
        (length-set buf (p % ring_size) x ∙ l) (omega arith) (omega arith)
      ∙ ap (λ w. w ++ xs) (window-set buf x t n (p % ring_size) l (omega arith) e)
      ∙ append_assoc (window buf t n) (x ∷ []) xs)

length-copy : (src buf : List ℕ) (p : ℕ) → length (copy buf p src) ≡ length buf
unfolding copy
length-copy [] buf p = refl
length-copy (x ∷ xs) buf p =
    length-copy xs (set buf (p % ring_size) x) (p + 1) ∙ length-set buf (p % ring_size) x

pub length-contents : (r : Ring) → length (contents r) ≡ ring_used r
length-contents r = length-window r.buf r.tail (ring_used r)

-- The wrapping arithmetic of `conn_tx_free` never wraps on a valid ring.
pub ring_free-eq : {r : Ring} → IsValid r → ring_free r ≡ ring_mask - ring_used r
ring_free-eq v = omega arith

pub ring_write-IsValid : {r : Ring} (src : List ℕ) → IsValid r → IsValid (ring_write r src).1
unfolding ring_write
ring_write-IsValid {r} src v = ground (arith, length-copy src r.buf r.head)

-- What `conn_tx_used` reads after a write that fits.
used_grows :
    {r : Ring} (n : ℕ)
    → IsValid r
    → n ≤ ring_free r
    → sub16 (add16 r.head n) r.tail ≡ ring_used r + n
used_grows n v h = omega arith

-- The two tests agree: the code's on the free space, the queue's on the length.
same_test :
    {r : Ring} (n : ℕ) → IsValid r → ltb (ring_free r) n ≡ ltb ring_mask (length (contents r) + n)
same_test {r} n v = rw (ring_free-eq v, length-contents r) (ground (arith, v.room))

-- On a valid ring `conn_tx_write` returns what the queue's `offer` returns, and leaves the ring
-- holding its queue.
pub ring_write_refines :
    {r : Ring} (src : List ℕ)
    → IsValid r
    → let (n, r') = ring_write r src in (n, contents r') ≡ offer (contents r) src
unfolding ring_write offer
ring_write_refines {r} src v = elim (Bool-cases (ltb (ring_free r) (length src))) [
  | inl full ↦ rw (full, ← same_test (length src) v, full)
  | inr fits ↦
      let bound : length src ≤ ring_free r = ground arith in
      rw (fits, ← same_test (length src) v, fits)
        (ap (λ (q : List ℕ). (length src, q))
          (rw (used_grows (length src) v bound) (
            window-copy src r.buf r.tail (ring_used r) r.head v.storage (omega arith)
              (omega arith))))
]
