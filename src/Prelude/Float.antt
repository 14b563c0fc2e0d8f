-- ===== src/Prelude/Float.antt =====
-- Python's `float`, its `math` functions and the order of its numbers, as an interface: what the
-- program relies on. The laws are those of IEEE numbers other than NaN.
use disposable_compute_platf.Prelude.Tests.{if◌then◌else◌}
use Prim.Native.Nat.{ℕ}
use mathlib.Core.Path.{◌≡◌}
use mathlib.Core.Bool.{Bool, true, false}
use mathlib.Core.List.{List, [], ◌∷◌}

pub record Float (F : Type 0) : Type 0 where
  -- `lit n k` is the literal n / 10 ^ k, so `lit 85 2` is 0.85.
  pub lit : ℕ → ℕ → F
  pub plus : F → F → F
  pub minus : F → F → F
  pub times : F → F → F
  pub over : F → F → F
  pub less : F → F → Bool
  pub sine : F → F
  pub cosine : F → F
  -- `math.sqrt`, of arguments that are not negative.
  pub square_root : F → F
  pub arc_tangent2 : F → F → F
  pub radians : F → F
  pub less_asym : (a b : F) → less a b ≡ true → less b a ≡ false
  pub not_less_trans : (a b c : F) → less b a ≡ false → less c b ≡ false → less c a ≡ false

-- Python's `max(a, b)` and `min(a, b)`: the first argument, unless the second is better.
module _ {F : Type 0} (fl : Float F) where
  open fl use {lit, less}

  unfoldable pub float_max : F → F → F
  float_max a b = if less a b then b else a

  unfoldable pub float_min : F → F → F
  float_min a b = if less b a then b else a

  -- `sum(xs)` adds from the left, from 0.
  unfoldable pub sum_from : F → List F → F
  sum_from acc [] = acc
  sum_from acc (x ∷ xs) = sum_from (fl.plus acc x) xs

  abbrev pub float_sum : List F → F
  float_sum xs = sum_from (lit 0 0) xs
