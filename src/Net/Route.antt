-- ===== src/Net/Route.antt =====
-- stm32h563/src/net_route.c: the interface of an outbound IPv4 packet. The array with its count is
-- a list, the index an option.
use benchpod_firmware.Base.{
  ℕ, zero, suc, bit_and, ◌≡◌, refl, ◌≢◌, ◌⊎◌, inl, inr, Bool, true, false, not, ◌&&◌, Option, none,
  some, List, [], ◌∷◌, arith, ◌==◌, if◌then◌else◌, Bool-cases, All,
}

pub record Iface : Type 0 where
  pub ip : ℕ
  pub mask : ℕ
  pub usable : Bool

abbrev next : Option ℕ → Option ℕ
next none = none
next (some i) = some (suc i)

-- The loop that all three scans are: the index of the first interface with the property.
first : (Iface → Bool) → List Iface → Option ℕ
first p [] = none
first p (x ∷ xs) = let rest = first p xs in if p x then some zero else next rest

abbrev pub has_source : ℕ → Iface → Bool
has_source src x = x.usable && x.ip == src

abbrev pub on_link : ℕ → Iface → Bool
on_link dest x = x.usable && not (x.ip == 0) && bit_and x.mask x.ip == bit_and x.mask dest

or_else : Option ℕ → Option ℕ → Option ℕ
or_else (some i) o = some i
or_else none o = o

pub route_pick : List Iface → ℕ → ℕ → Option ℕ
unfolding first or_else
route_pick ifs src dest =
    or_else (if src == 0 then none else first (has_source src) ifs) (first (on_link dest) ifs)

pub route_owner : List Iface → ℕ → Option ℕ
unfolding first
route_owner ifs local = if local == 0 then none else first (λ x. x.ip == local) ifs

-- The first element with a property, by its place.
pub data First (p : Iface → Bool) : List Iface → ℕ → Type 0 where
  here : (x : Iface) (xs : List Iface) → p x ≡ true → First p (x ∷ xs) zero
  there :
      (x : Iface) (xs : List Iface) (i : ℕ) → p x ≡ false → First p xs i → First p (x ∷ xs) (suc i)

abbrev pub Nowhere : (Iface → Bool) → List Iface → Type 0
Nowhere p xs = All (λ x. p x ≡ false) xs

first-cases :
    (p : Iface → Bool) (xs : List Iface)
    → ((first p xs ≡ none) × Nowhere p xs) ⊎ ((i : ℕ) × (first p xs ≡ some i) × First p xs i)
unfolding first
first-cases p [] = inl (refl, tt)
first-cases p (x ∷ xs) = elim (Bool-cases (p x)) [
  | inl e ↦ inr (zero, rw e refl, here x xs e)
  | inr e ↦ elim (first-cases p xs) [
    | inl (n, w) ↦ inl (rw (e, n) refl, (e, w))
    | inr (i, s, f) ↦ inr (suc i, rw (e, s) refl, there x xs i e f)
  ]
]

fall_back :
    (ifs : List Iface) (src dest : ℕ)
    → (if src == 0 then none else first (has_source src) ifs) ≡ none
    → ((i : ℕ) × (route_pick ifs src dest ≡ some i) × First (on_link dest) ifs i)
      ⊎ ((route_pick ifs src dest ≡ none) × Nowhere (on_link dest) ifs)
unfolding route_pick or_else
fall_back ifs src dest h = elim (first-cases (on_link dest) ifs) [
  | inl (n, w) ↦ inr (rw (h, n) refl, w)
  | inr (i, s, f) ↦ inl (i, rw (h, s) refl, f)
]

-- A packet from an address goes out of the first usable interface that holds it. Where none does,
-- or it has no address yet, it takes the first usable interface with an address on the
-- destination's network; with neither there is no opinion.
pub route_pick_cases :
    (ifs : List Iface) (src dest : ℕ)
    → ((src ≢ 0) × (i : ℕ) × (route_pick ifs src dest ≡ some i) × First (has_source src) ifs i)
      ⊎ (((src ≡ 0) ⊎ Nowhere (has_source src) ifs)
          × (((i : ℕ) × (route_pick ifs src dest ≡ some i) × First (on_link dest) ifs i)
              ⊎ ((route_pick ifs src dest ≡ none) × Nowhere (on_link dest) ifs)))
route_pick_cases ifs src dest = elim (Bool-cases (src == 0)) [
  | inl z ↦ inr (inl (ground arith), fall_back ifs src dest (rw z refl))
  | inr z ↦ elim (first-cases (has_source src) ifs) [
    | inl (n, w) ↦ inr (inr w, fall_back ifs src dest (rw (z, n) refl))
    | inr (i, s, f) ↦ inl (ground arith, i, unfold route_pick or_else in rw (z, s) refl, f)
  ]
]
