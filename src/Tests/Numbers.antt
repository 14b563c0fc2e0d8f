-- ===== src/Tests/Numbers.antt =====
-- Numbers in thousandths that stop at 0, in the place of floats: an instance of their interface.
use disposable_compute_platf.Prelude.{ℕ, ◌+◌, ◌-◌, ◌*◌, ◌/◌, ◌^◌, ltb, ◌≡◌, true, false, arith}
use disposable_compute_platf.Prelude.Float.{Float}

abbrev pub thousandths : ℕ → ℕ → ℕ
thousandths n k = n * 1000 / 10 ^ k

pub asym : (a b : ℕ) → ltb a b ≡ true → ltb b a ≡ false
asym a b h = ground arith

pub trans : (a b c : ℕ) → ltb b a ≡ false → ltb c b ≡ false → ltb c a ≡ false
trans a b c h k = ground arith

abbrev pub numbers : Float ℕ
numbers = record {
  lit = thousandths;
  plus = λ a b. a + b;
  minus = λ a b. a - b;
  times = λ a b. a * b / 1000;
  over = λ a b. a * 1000 / b;
  less = ltb;
  sine = λ a. a;
  cosine = λ a. a;
  square_root = λ a. a;
  arc_tangent2 = λ a b. a;
  radians = λ a. a;
  less_asym = asym;
  not_less_trans = trans;
}
