-- ===== src/Scheduler/Queue/Permutations.antt =====
-- Taking an item out of a list, up to the order of the rest.
use mathlib.Core.Path.{subst}
use mathlib.Core.List.{Permᴰ}
use mathlib.Core.List.Permᴰ
use disposable_compute_platf.Prelude.{◌≡◌, sym, ◌∙◌, List, ◌∷◌, All}

-- The first list with one occurrence taken out is the second.
pub data Removes {A : Type 0} (m : A) : List A → List A → Type 0 where
  here : {x : A} {xs : List A} → m ≡ x → Removes m (x ∷ xs) xs
  there : {x : A} {xs ys : List A} → Removes m xs ys → Removes m (x ∷ xs) (x ∷ ys)

pub Removes-Perm :
    {A : Type 0} {m : A} {k l k' : List A}
    → Permᴰ k l
    → Removes m k k'
    → (l' : List A) × Removes m l l' × Permᴰ k' l'
Removes-Perm Permᴰ.nil r = elim r [ ]
Removes-Perm (Permᴰ.cons {l₂ = l} e p) (here h) = (l, here (h ∙ e), p)
Removes-Perm (Permᴰ.cons {b = b} e p) (there r) =
    let (l', q, d) = Removes-Perm p r in (b ∷ l', there q, Permᴰ.cons e d)
Removes-Perm (Permᴰ.swap {a' = a'} {l = l} e f) (here h) =
    (a' ∷ l, there (here (h ∙ e)), Permᴰ.cons f (Permᴰ.refl l))
Removes-Perm (Permᴰ.swap {b' = b'} {l = l} e f) (there (here h)) =
    (b' ∷ l, here (h ∙ f), Permᴰ.cons e (Permᴰ.refl l))
Removes-Perm (Permᴰ.swap {a' = a'} {b' = b'} {l = l} e f) (there (there {ys = ys} r)) =
    (a' ∷ b' ∷ ys, there (there r), Permᴰ.swap e f)
Removes-Perm (Permᴰ.trans p q) r =
    let (k, r1, d) = Removes-Perm p r in
    let (l, r2, e) = Removes-Perm q r1 in (l, r2, Permᴰ.trans d e)

pub All-Perm : {A : Type 0} (P : A → Type 0) {k l : List A} → Permᴰ k l → All P k → All P l
All-Perm P Permᴰ.nil h = tt
All-Perm P (Permᴰ.cons e p) h = (subst P e h.0, All-Perm P p h.1)
All-Perm P (Permᴰ.swap e f) h = (subst P f h.1.0, (subst P e h.0, h.1.1))
All-Perm P (Permᴰ.trans p q) h = All-Perm P q (All-Perm P p h)

pub All-Removes :
    {A : Type 0} (P : A → Type 0) {m : A} {k l : List A} → Removes m k l → All P k → P m
All-Removes P (here e) h = subst P (sym e) h.0
All-Removes P (there r) h = All-Removes P r h.1
