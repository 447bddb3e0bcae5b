-- ===== src/Worker/Busy/Kinds.antt =====
-- stm32h563/src/hw_worker.c: the bits of the two kinds of teardown, and the items that wait.
use benchpod_firmware.Worker.{
  Work, Pend, Worker, Kind, close_conn, reset_tunnel, bit, submit, with_bit,
}
use benchpod_firmware.Worker.Fifo.{Item, sent, torn, behind, when}
use benchpod_firmware.Base.{
  ◌≡◌, refl, ◌⊎◌, inl, inr, Bool, true, false, ◌||◌, List, [], ◌∷◌, ◌++◌, arith,
}

abbrev pub same_kind : Kind → Kind → Bool
same_kind close_conn close_conn = true
same_kind close_conn reset_tunnel = false
same_kind reset_tunnel close_conn = false
same_kind reset_tunnel reset_tunnel = true

abbrev pub is_torn : Kind → Item → Bool
is_torn k (sent b) = false
is_torn k (torn j) = same_kind k j

unfoldable pub has : Kind → List Item → Bool
has k [] = false
has k (x ∷ xs) = is_torn k x || has k xs

pub has-append : (k : Kind) (xs ys : List Item) → has k (xs ++ ys) ≡ (has k xs || has k ys)
unfolding has
has-append k [] ys = refl
has-append k (x ∷ xs) ys = ground (arith, has-append k xs ys)

pub bit-cleared :
    (k j : Kind) (p : Pend)
    → bit k (with_bit j false p) ≡ true
    → (same_kind k j ≡ false) × (bit k p ≡ true)
bit-cleared close_conn close_conn p h = cc
bit-cleared close_conn reset_tunnel p h = (refl, h)
bit-cleared reset_tunnel close_conn p h = (refl, h)
bit-cleared reset_tunnel reset_tunnel p h = cc

pub bit-with_bit :
    (k j : Kind) (p : Pend)
    → bit k (with_bit j true p) ≡ true
    → (bit k p ≡ true) ⊎ (same_kind k j ≡ true)
bit-with_bit close_conn close_conn p h = inr refl
bit-with_bit close_conn reset_tunnel p h = inl h
bit-with_bit reset_tunnel close_conn p h = inl h
bit-with_bit reset_tunnel reset_tunnel p h = inr refl

pub same_kind_eq : (k j : Kind) → same_kind k j ≡ true → k ≡ j
same_kind_eq close_conn close_conn h = refl
same_kind_eq close_conn reset_tunnel h = cc
same_kind_eq reset_tunnel close_conn h = cc
same_kind_eq reset_tunnel reset_tunnel h = refl

pub submit-inflight : (w : Work) (s : Worker) → (submit w s).1.inflight ≡ s.inflight
unfolding submit
submit-inflight w s = ground arith

pub has-behind : (k : Kind) (p : Pend) → bit k p ≡ true → has k (behind p) ≡ true
unfolding has behind when
has-behind close_conn p h = ground arith
has-behind reset_tunnel p h = ground arith

pub or-true : (a b : Bool) → b ≡ true → (a || b) ≡ true
or-true a b h = ground arith

pub same_kind_refl : (k : Kind) → same_kind k k ≡ true
same_kind_refl close_conn = refl
same_kind_refl reset_tunnel = refl

pub has_self : (k : Kind) → has k (torn k ∷ []) ≡ true
unfolding has
has_self k = rw (same_kind_refl k) refl

pub has-left : (k : Kind) (xs ys : List Item) → has k xs ≡ true → has k (xs ++ ys) ≡ true
has-left k xs ys h = rw (has-append k xs ys, h) refl
