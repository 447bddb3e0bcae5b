-- ===== src/ConnTx/Slots.antt =====
-- The rings of different connections are apart.
use benchpod_firmware.Base.{
  ℕ, ◌<◌, ◌≡◌, ◌≢◌, refl, ap, none, some, List, arith, set, get_or-set_ne, Option-cases, inl, inr,
}
use benchpod_firmware.Base.Int.{ℤ, pos, negsuc}
use benchpod_firmware.ConnTx.{
  Ring, Rings, slots, slot, ring_at, write, advance, reset, peek, used, free,
}

-- A connection's slot is one of the array.
pub slot-lt : (id : ℤ) (s : ℕ) → slot id ≡ some s → s < slots
unfolding slot
slot-lt (negsuc n) s h = cc
slot-lt (pos n) s h = ground arith

-- No two connections share a ring.
pub slot_injective : (a b : ℤ) (s : ℕ) → slot a ≡ some s → slot b ≡ some s → a ≡ b
unfolding slot
slot_injective (negsuc m) b s h k = cc
slot_injective (pos m) (negsuc n) s h k = cc
slot_injective (pos m) (pos n) s h k = let e : m ≡ n = ground arith in ap pos e

set-elsewhere :
    (rs : Rings) (a b : ℤ) (s t : ℕ) (r : Ring)
    → a ≢ b
    → slot a ≡ some s
    → slot b ≡ some t
    → ring_at (set rs s r) t ≡ ring_at rs t
set-elsewhere rs a b s t r ne ha hb =
    get_or-set_ne rs {i = s} {j = t} r _ (λ e. ne (slot_injective a b t (rw e at ha) hb))

-- The calls of one connection leave the ring of another, that has one, as it was.
pub isolated :
    (rs : Rings) (a b : ℤ) (t : ℕ) (src : List ℕ) (n : ℕ)
    → a ≢ b
    → slot b ≡ some t
    → (ring_at (write rs a src).1 t ≡ ring_at rs t)
      × (ring_at (advance rs a n) t ≡ ring_at rs t)
      × (ring_at (reset rs a) t ≡ ring_at rs t)
unfolding write advance reset
isolated rs a b t src n ne hb = elim (Option-cases (slot a)) [
  | inl e ↦ rw (e, write, advance, reset) (refl, refl, refl)
  | inr (s, e) ↦
      rw (e, write, advance, reset)
        (
          set-elsewhere rs a b s t _ ne e hb,
          set-elsewhere rs a b s t _ ne e hb,
          set-elsewhere rs a b s t _ ne e hb,
        )
]

-- A connection with no ring takes nothing and shows nothing, and its calls change no ring.
pub no_ring :
    (rs : Rings) (id : ℤ) (src : List ℕ) (n : ℕ)
    → slot id ≡ none
    → (write rs id src ≡ (0, rs))
      × (peek rs id ≡ (0, 0))
      × (advance rs id n ≡ rs)
      × (reset rs id ≡ rs)
      × (used rs id ≡ 0)
      × (free rs id ≡ 0)
unfolding write peek advance reset used free
no_ring rs id src n e = ground arith
