-- ===== src/Boot/Masks.antt =====
-- Sets of subsystems as masks of two bits: what a safe-mode boot turns off.
use benchpod_firmware.Base.{
  and-one, ◌*◌, ◌/◌, ◌||◌, ℕ, ◌%◌, ◌^◌, ◌-◌, ◌<◌, ◌≡◌, ◌≢◌, refl, arith, bit_and, Bool, true, not,
  ◌&&◌, ◌==◌, ltb, Option, holds_below, holds_below-at, and-three,
}
use Prim.Native.Nat.{bit_and-bitwise}
use Prim.Native.String.{String}
use benchpod_firmware.Boot.{sub_hw, sub_net, unfinished, culprit, off}

-- `a` is a subset of `b`.
abbrev pub Within : ℕ → ℕ → Type 0
Within a b = bit_and b a ≡ a

pub unfinished-lt : (started done : ℕ) → unfinished started done < 4
unfolding unfinished
unfinished-lt started done = omega (arith, and-three (bit_and started (2 ^ 32 - 1 - done)))

-- The culprit is a set of known subsystems, whatever the record holds.
pub culprit-lt : (started done : ℕ) (task : Option String) → culprit started done task < 4
unfolding culprit
culprit-lt started done task = ground (arith, unfinished-lt started done)

abbrev off_ok : ℕ → ℕ → Bool
off_ok p c = let o = off p c in (bit_and o p == p) && (bit_and o c == c) && ltb o 4 && not (o == 0)

off_table : holds_below (λ p. holds_below (off_ok p) 4) 4 ≡ true
unfolding holds_below off
off_table = refl

off_below : (p c : ℕ) → p < 4 → c < 4 → off_ok p c ≡ true
off_below p c hp hc =
    holds_below-at (off_ok p) c 4 hc
      (holds_below-at (λ q. holds_below (off_ok q) 4) p 4 hp off_table)

off-mask : (p c : ℕ) → off p c ≡ off (p % 4) c
unfolding off
off-mask p c =
    let e : bit_and 3 p ≡ bit_and 3 (p % 4) = omega (arith, and-three p, and-three (p % 4)) in
    rw (e, off)

-- What a safe-mode boot turns off: something, all that the boot before had turned off, and
-- the culprit.
pub off_lem :
    (prev c : ℕ)
    → c < 4
    → Within (prev % 4) (off prev c) × Within c (off prev c) × (off prev c < 4) × (off prev c ≢ 0)
off_lem prev c h =
    rw (off-mask prev c) (split (prev % 4) c (off_below (prev % 4) c (omega arith) h))
  where
    split :
        (p c : ℕ)
        → off_ok p c ≡ true
        → Within p (off p c) × Within c (off p c) × (off p c < 4) × (off p c ≢ 0)
    split p c h = ground arith

and-two : (x : ℕ) → bit_and 2 x ≡ x / 2 % 2 * 2
and-two x = omega (arith, bit_and-bitwise 2 x)

-- A set that is not empty holds one of the two subsystems.
pub some_off :
    (o : ℕ) → o < 4 → o ≢ 0 → (not (bit_and sub_net o == 0) || not (bit_and sub_hw o == 0)) ≡ true
some_off o h ne = ground (arith, and-one o, and-two o)

Within_table : holds_below (λ o. not (bit_and o 1 == 1) || not (bit_and 1 o == 0)) 4 ≡ true
unfolding holds_below
Within_table = refl

Within_table_hw : holds_below (λ o. not (bit_and o 2 == 2) || not (bit_and 2 o == 0)) 4 ≡ true
unfolding holds_below
Within_table_hw = refl

pub Within-net : (o : ℕ) → o < 4 → Within sub_net o → not (bit_and sub_net o == 0) ≡ true
Within-net o h w = ground (
  arith,
  holds_below-at (λ m. not (bit_and m 1 == 1) || not (bit_and 1 m == 0)) o 4 h Within_table,
)

pub Within-hw : (o : ℕ) → o < 4 → Within sub_hw o → not (bit_and sub_hw o == 0) ≡ true
Within-hw o h w = ground (
  arith,
  holds_below-at (λ m. not (bit_and m 2 == 2) || not (bit_and 2 m == 0)) o 4 h Within_table_hw,
)
