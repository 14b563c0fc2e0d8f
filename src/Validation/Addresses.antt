-- ===== src/Validation/Addresses.antt =====
-- `ip_to_int` and `is_private_ip` of src/utils/input_validation.py. Python's `int` on a text is an
-- argument; none is its exception. Negative parts, which no resolver writes, are left out.
use Prim.Native.Char.{code}
use disposable_compute_platf.Prelude.{
  ℕ, ◌+◌, ◌*◌, String, Bool, true, false, Option, none, some, List, [], ◌∷◌, ◌==◌, ◌&&◌, ◌||◌,
  if◌then◌else◌,
}
use disposable_compute_platf.Prelude.Text.{between}

-- `s.split('.')`: the first part beside the others.
unfoldable pub split_dots : String → String × List String
split_dots String.[] = ("", [])
split_dots (String.◌∷◌ c s) =
    let (part, parts) = split_dots s in
    if code c == b'.' then ("", part ∷ parts) else (String.◌∷◌ c part, parts)

-- The number of four bytes, the first the highest.
abbrev pub join_bytes : ℕ → ℕ → ℕ → ℕ → ℕ
join_bytes a b c d = a * 16777216 + b * 65536 + c * 256 + d

-- `PRIVATE_IP_RANGES`
abbrev pub private_ip_ranges : List (ℕ × ℕ)
private_ip_ranges =
    (join_bytes 10 0 0 0, join_bytes 10 255 255 255)
    ∷ (join_bytes 172 16 0 0, join_bytes 172 31 255 255)
    ∷ (join_bytes 192 168 0 0, join_bytes 192 168 255 255)
    ∷ (join_bytes 127 0 0 0, join_bytes 127 255 255 255)
    ∷ (join_bytes 169 254 0 0, join_bytes 169 254 255 255)
    ∷ (join_bytes 0 0 0 0, join_bytes 0 255 255 255)
    ∷ []

abbrev pub in_ranges : List (ℕ × ℕ) → ℕ → Bool
in_ranges [] n = false
in_ranges ((start, end) ∷ rest) n = if between start end n then true else in_ranges rest n

abbrev or_zero : Option ℕ → ℕ
or_zero none = 0
or_zero (some n) = n

module _ (int : String → Option ℕ) where
  -- A part that is no number makes the whole 0.
  abbrev sum_bytes : Option ℕ → Option ℕ → Option ℕ → Option ℕ → Option ℕ
  sum_bytes (some a) (some b) (some c) (some d) = some (join_bytes a b c d)
  sum_bytes _ _ _ _ = none

  abbrev pub join_parts : String × List String → ℕ
  join_parts (a, b ∷ c ∷ d ∷ []) = or_zero (sum_bytes (int a) (int b) (int c) (int d))
  join_parts _ = 0

  unfoldable pub ip_to_int : String → ℕ
  unfolding split_dots
  ip_to_int ip = join_parts (split_dots ip)

  unfoldable pub is_private_ip : String → Bool
  unfolding ip_to_int
  is_private_ip ip = in_ranges private_ip_ranges (ip_to_int ip)

-- The networks of the table, by the bytes of the address.
abbrev pub private_bytes : ℕ → ℕ → Bool
private_bytes a b =
    a == 10
    || (a == 172 && between 16 31 b)
    || (a == 192 && b == 168)
    || a == 127
    || (a == 169 && b == 254)
    || a == 0
