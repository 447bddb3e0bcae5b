-- ===== src/Base/Text.antt =====
-- C strings as lists of bytes with no NUL: a pointer into one is what is left from there, and
-- the byte at its end reads as 0.
use Prim.Native.Nat.{ℕ, compare, Ordering}
use Prim.Native.Char.{code}
use Prim.Native.String.{String}
use mathlib.Core.Path.{◌≡◌}
use mathlib.Core.Logic.{◌↔◌}
use mathlib.Core.Bool.{Bool, true, false, ◌&&◌}
use mathlib.Core.List.{List, [], ◌∷◌}
use native.Mathlib.Omega.{arith}

abbrev pub Bytes : Type 0
Bytes = List ℕ

-- The bytes of a text literal, which is ASCII here.
abbrev pub codes : String → Bytes
codes String.[] = []
codes (String.◌∷◌ c s) = code c ∷ codes s

abbrev same_byte : ℕ → ℕ → Bool
same_byte a b = elim (compare a b) [ Ordering.eq ↦ true | _ ↦ false ]

-- `strcmp(a, b) == 0`.
unfoldable pub str_eq : Bytes → Bytes → Bool
str_eq [] [] = true
str_eq (a ∷ as') (b ∷ bs) = same_byte a b && str_eq as' bs
str_eq _ _ = false

pub str_eq_iff : (a b : Bytes) → (str_eq a b ≡ true) ↔ (a ≡ b)
unfolding str_eq
str_eq_iff (x ∷ a) (y ∷ b) = ground (arith, str_eq_iff a b)
str_eq_iff _ _ = ground arith

-- `*p`.
abbrev pub head_or_nul : Bytes → ℕ
head_or_nul [] = 0
head_or_nul (c ∷ cs) = c

-- `p + 1`, only taken where `*p` is not the NUL.
abbrev pub tail_or_nil : Bytes → Bytes
tail_or_nil [] = []
tail_or_nil (c ∷ cs) = cs

-- Does `p` begin with `s`? (`strncmp(p, s, strlen(s)) == 0`.)
unfoldable pub starts_with : Bytes → Bytes → Bool
starts_with p [] = true
starts_with [] (c ∷ s) = false
starts_with (b ∷ p) (c ∷ s) = same_byte b c && starts_with p s
