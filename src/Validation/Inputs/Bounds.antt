-- ===== src/Validation/Inputs/Bounds.antt =====
-- The numbers that `validate_ttl` and `validate_pr_number` of src/utils/input_validation.py return.
use disposable_compute_platf.Prelude.{
  String, ◌≡◌, inl, inr, Option, none, some, arith, Option-cases,
}
use disposable_compute_platf.Prelude.Int.{ℤ, pos, ◌≤ℤ◌}
use disposable_compute_platf.Validation.Inputs.{
  Raw, integer, text, infinite, validate_ttl, validate_pr_number,
}

module _ (int : String → Option ℤ) where
  pub validate_ttl_bounds :
      (ttl : Option Raw) (n : ℤ) (message : String)
      → validate_ttl int ttl ≡ some (n, message)
      → (pos 5 ≤ℤ n) × (n ≤ℤ pos 1440)
  unfolding validate_ttl
  validate_ttl_bounds none n message h = ground arith
  validate_ttl_bounds (some infinite) n message h = cc
  validate_ttl_bounds (some (integer m)) n message h = ground arith
  validate_ttl_bounds (some (text s)) n message h = elim (Option-cases (int s)) [
    | inl e ↦ ground arith
    | inr (m, e) ↦ ground arith
  ]

  -- A PR number that is kept is in the range.
  pub validate_pr_number_bounds :
      (raw : Raw) (n : ℤ) (message : String)
      → validate_pr_number int (some raw) ≡ some (some n, message)
      → (pos 1 ≤ℤ n) × (n ≤ℤ pos 1000000)
  unfolding validate_pr_number
  validate_pr_number_bounds infinite n message h = cc
  validate_pr_number_bounds (integer m) n message h = ground arith
  validate_pr_number_bounds (text s) n message h = elim (Option-cases (int s)) [
    | inl e ↦ ground arith
    | inr (m, e) ↦ ground arith
  ]
