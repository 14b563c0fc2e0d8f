-- ===== src/Prelude/Dict.antt =====
-- Python's `dict` with `str` keys: an association list in insertion order.
use disposable_compute_platf.Prelude.Tests.{str_eq, str_eq_refl, if◌then◌else◌, Bool-cases}
use disposable_compute_platf.Prelude.Lists.{All, All-imp}
use Prim.Native.Nat.{ℕ, ◌+◌}
use Prim.Native.String.{String}
use mathlib.Core.Path.{◌≡◌, refl}
use mathlib.Core.Logic.{◌⊎◌, inl, inr}
use mathlib.Core.Bool.{Bool, true, false}
use mathlib.Core.Option.{Option, none, some}
use mathlib.Core.List.{List, [], ◌∷◌}
use native.Mathlib.Omega.{arith}
use text.Mathlib.TextEquality.{eq_iff}

abbrev pub Dict {ℓ} : Type ℓ → Type ℓ
Dict V = List (String × V)

module _ {ℓ} {V : Type ℓ} where
  -- `d.get(k)`
  unfoldable pub get : String → Dict V → Option V
  get k [] = none
  get k ((j, v) ∷ d) = if str_eq j k then some v else get k d

  -- `k in d`
  abbrev pub is_some : Option V → Bool
  is_some none = false
  is_some (some v) = true

  -- `d[k] = v`: a new key goes to the end, an old one keeps its place.
  unfoldable pub put : String → V → Dict V → Dict V
  put k v [] = (k, v) ∷ []
  put k v ((j, w) ∷ d) = if str_eq j k then (j, v) ∷ d else (j, w) ∷ put k v d

  -- `del d[k]`
  unfoldable pub del : String → Dict V → Dict V
  del k [] = []
  del k ((j, v) ∷ d) = let rest = del k d in if str_eq j k then rest else (j, v) ∷ rest

  abbrev pub values : Dict V → List V
  values [] = []
  values ((k, v) ∷ d) = v ∷ values d

  -- The sum of a measure over the values.
  unfoldable pub total : (V → ℕ) → Dict V → ℕ
  total f [] = 0
  total f ((k, v) ∷ d) = f v + total f d

  -- No key twice, which every dict of Python's has.
  abbrev pub Distinct : Dict V → Type ℓ
  Distinct [] = Unit
  Distinct ((k, v) ∷ d) = (get k d ≡ none) × Distinct d

  pub get-put :
      (k j : String) (v : V) (d : Dict V)
      → get j (put k v d) ≡ (if str_eq k j then some v else get j d)
  unfolding get put
  get-put k j v [] = refl
  get-put k j v ((i, w) ∷ d) = ground (arith, eq_iff k j, eq_iff i k, eq_iff i j, get-put k j v d)

  pub get-del :
      (k j : String) (d : Dict V) → get j (del k d) ≡ (if str_eq k j then none else get j d)
  unfolding get del
  get-del k j [] = ground arith
  get-del k j ((i, w) ∷ d) = ground (arith, eq_iff k j, eq_iff i k, eq_iff i j, get-del k j d)

  pub put-Distinct : (k : String) (v : V) (d : Dict V) → Distinct d → Distinct (put k v d)
  unfolding put
  put-Distinct k v [] h = (unfold get in refl, tt)
  put-Distinct k v ((i, w) ∷ d) h = elim (Bool-cases (str_eq i k)) [
    | inl e ↦ rw e h
    | inr e ↦ rw e (ground (arith, get-put k i v d, eq_iff k i, eq_iff i k), put-Distinct k v d h.1)
  ]

  pub del-Distinct : (k : String) (d : Dict V) → Distinct d → Distinct (del k d)
  unfolding del
  del-Distinct k [] h = tt
  del-Distinct k ((i, w) ∷ d) h = elim (Bool-cases (str_eq i k)) [
    | inl e ↦ rw e (del-Distinct k d h.1)
    | inr e ↦ rw e (ground (arith, get-del k i d), del-Distinct k d h.1)
  ]

  pub total-put_new :
      (f : V → ℕ) (k : String) (v : V) (d : Dict V)
      → get k d ≡ none
      → total f (put k v d) ≡ total f d + f v
  unfolding get put total
  total-put_new f k v [] h = omega arith
  total-put_new f k v ((i, w) ∷ d) h = ground (arith, total-put_new f k v d)

  pub total-put :
      (f : V → ℕ) (k : String) (v w : V) (d : Dict V)
      → get k d ≡ some w
      → total f (put k v d) + f w ≡ total f d + f v
  unfolding get put total
  total-put f k v w [] h = cc
  total-put f k v w ((i, u) ∷ d) h = ground (arith, total-put f k v w d)

  pub del_absent : (k : String) (d : Dict V) → get k d ≡ none → del k d ≡ d
  unfolding get del
  del_absent k [] h = refl
  del_absent k ((i, w) ∷ d) h = ground (arith, del_absent k d)

  pub total-del :
      (f : V → ℕ) (k : String) (v : V) (d : Dict V)
      → Distinct d
      → get k d ≡ some v
      → total f (del k d) + f v ≡ total f d
  unfolding get del total
  total-del f k v [] h e = cc
  total-del f k v ((i, w) ∷ d) h e =
      ground (arith, total-del f k v d h.1, eq_iff i k, del_absent k d)

  -- What is added under a new key and taken away again leaves the dict as it was.
  pub del-put : (k : String) (v : V) (d : Dict V) → get k d ≡ none → del k (put k v d) ≡ d
  unfolding get put del
  del-put k v [] h = ground (arith, eq_iff k k)
  del-put k v ((i, w) ∷ d) h = ground (arith, del-put k v d)

  pub put-put : (k : String) (v w : V) (d : Dict V) → put k v (put k w d) ≡ put k v d
  unfolding put
  put-put k v w [] = ground (arith, eq_iff k k)
  put-put k v w ((i, u) ∷ d) = ground (arith, put-put k v w d)

  -- Each item of a dict is found under its key.
  get_tail :
      (k : String) (v : V) (d : Dict V) (e : String × V)
      → get k d ≡ none
      → get e.0 d ≡ some e.1
      → get e.0 ((k, v) ∷ d) ≡ some e.1
  unfolding get
  get_tail k v d e h p = ground (arith, eq_iff k e.0)

  pub All-get : (d : Dict V) → Distinct d → All (λ e. get e.0 d ≡ some e.1) d
  All-get [] h = tt
  All-get ((k, v) ∷ d) h =
      (unfold get in rw (str_eq_refl k) refl, All-imp d (λ e. get_tail k v d e h.0) (All-get d h.1))

  -- Where an entry of an updated dict comes from.
  pub put-cases :
      (k j : String) (v w : V) (d : Dict V)
      → get j (put k v d) ≡ some w
      → ((k ≡ j) × (v ≡ w)) ⊎ ((str_eq k j ≡ false) × (get j d ≡ some w))
  put-cases k j v w d h = elim (Bool-cases (str_eq k j)) [
    | inl e ↦ inl ((eq_iff k j).0 e, ground (arith, get-put k j v d))
    | inr e ↦ inr (e, ground (arith, get-put k j v d))
  ]

  pub del-cases :
      (k j : String) (w : V) (d : Dict V)
      → get j (del k d) ≡ some w
      → (str_eq k j ≡ false) × (get j d ≡ some w)
  del-cases k j w d h = ground (arith, get-del k j d)
