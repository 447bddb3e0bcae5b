-- ===== src/Base/Check.antt =====
-- Facts about all small numbers, and about all rows of a table, by evaluation.
use Prim.Native.Nat.{ℕ, zero, suc, ◌<◌}
use mathlib.Core.Path.{◌≡◌}
use mathlib.Core.Bool.{Bool, true, ◌&&◌}
use mathlib.Core.List.{List, [], ◌∷◌}
use native.Mathlib.Omega.{arith}

-- Does the test hold of every number short of `top`?
unfoldable pub holds_below : (ℕ → Bool) → ℕ → Bool
holds_below test zero = true
holds_below test (suc top) = holds_below test top && test top

pub holds_below-at :
    (test : ℕ → Bool) (x top : ℕ) → x < top → holds_below test top ≡ true → test x ≡ true
unfolding holds_below
holds_below-at test x zero small checked = absurd (omega arith)
holds_below-at test x (suc top) small checked = ground (arith, holds_below-at test x top)

unfoldable pub all_rows {ℓ} : {A : Type ℓ} → (A → Bool) → List A → Bool
all_rows p [] = true
all_rows p (x ∷ xs) = p x && all_rows p xs
