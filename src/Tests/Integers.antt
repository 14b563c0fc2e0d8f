-- ===== src/Tests/Integers.antt =====
-- The integers and nan, as Python's numbers.
use disposable_compute_platf.Prelude.{◌≡◌, refl, Bool, true, false, not, Option, none, some, arith}
use disposable_compute_platf.Prelude.Int.{ℤ, pos, ◌+ℤ◌, ◌-ℤ◌, ltb_ℤ, +ℤ_parts}
use disposable_compute_platf.Quota.Resources.{Numeric}

abbrev pub add : Option ℤ → Option ℤ → Option ℤ
add (some a) (some b) = some (a +ℤ b)
add _ _ = none

abbrev pub sub : Option ℤ → Option ℤ → Option ℤ
sub (some a) (some b) = some (a -ℤ b)
sub _ _ = none

abbrev pub below : Option ℤ → Option ℤ → Bool
below (some a) (some b) = ltb_ℤ a b
below _ _ = false

abbrev pub no_more : Option ℤ → Option ℤ → Bool
no_more (some a) (some b) = not (ltb_ℤ b a)
no_more _ _ = false

abbrev pub missing : Option ℤ → Bool
missing none = true
missing (some a) = false

pub below_nan : (a b : Option ℤ) → missing b ≡ true → (below a b ≡ false) × (below b a ≡ false)
below_nan none none h = (refl, refl)
below_nan (some a) none h = (refl, refl)
below_nan a (some b) h = cc

pub no_more_proper :
    (a b : Option ℤ) → no_more a b ≡ true → (missing a ≡ false) × (missing b ≡ false)
no_more_proper (some a) (some b) h = (refl, refl)
no_more_proper none b h = cc
no_more_proper (some a) none h = cc

pub not_below :
    (a b : Option ℤ)
    → missing a ≡ false
    → missing b ≡ false
    → below a b ≡ false
    → no_more b a ≡ true
not_below (some a) (some b) p q h = rw h refl
not_below none b p q h = cc
not_below (some a) none p q h = cc

pub no_more-below : (a b : Option ℤ) → no_more a b ≡ true → below b a ≡ false
no_more-below (some a) (some b) h = ground arith
no_more-below none b h = cc
no_more-below (some a) none h = cc

pub below-add_zero : (a b : Option ℤ) → below b (add a (some (pos 0))) ≡ below b a
below-add_zero none none = refl
below-add_zero none (some b) = refl
below-add_zero (some a) none = refl
below-add_zero (some a) (some b) = ground (arith, +ℤ_parts a (pos 0))

pub add_nonneg :
    (a b : Option ℤ)
    → no_more (some (pos 0)) a ≡ true
    → no_more (some (pos 0)) b ≡ true
    → no_more (some (pos 0)) (add a b) ≡ true
add_nonneg (some a) (some b) h k = ground (arith, +ℤ_parts a b)
add_nonneg none b h k = cc
add_nonneg (some a) none h k = cc

pub add_nan : (a b : Option ℤ) → missing b ≡ true → missing (add a b) ≡ true
add_nan none none h = refl
add_nan (some a) none h = refl
add_nan a (some b) h = cc

abbrev pub integers : Numeric (Option ℤ)
integers = record {
  whole = some;
  plus = add;
  minus = sub;
  less = below;
  at_most = no_more;
  is_nan = missing;
  less_whole = λ a b. refl;
  at_most_whole = λ a b. refl;
  minus_whole = λ a b. refl;
  whole_nan = λ a. refl;
  less_nan = below_nan;
  at_most_nan = no_more_proper;
  not_less = not_below;
  at_most_less = no_more-below;
  less_plus_zero = below-add_zero;
  plus_nonneg = add_nonneg;
  plus_nan = add_nan;
}
