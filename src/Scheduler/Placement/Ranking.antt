-- ===== src/Scheduler/Placement/Ranking.antt =====
-- The ranking of nodes by score in `schedule` of src/scheduler/scheduler.py, and the loop over them.
use disposable_compute_platf.Prelude.{
  ◌≡◌, refl, true, false, List, [], ◌∷◌, arith, inl, inr, Bool-cases, All, All-imp,
}
use disposable_compute_platf.Prelude.Float.{Float}
use disposable_compute_platf.Scheduler.Types.{Node, PodRequest}
use disposable_compute_platf.Scheduler.Reservation.{short, take_resources}
use disposable_compute_platf.Scheduler.Placement.{
  Scheduler, Clock, fail, commit_best, insert_scored, sort_scored, reserve_best,
}

module _ {F : Type 0} (fl : Float F) where
  open fl use {lit, less, less_asym, not_less_trans}

  -- At least as good as every one of a list.
  abbrev pub Tops : F → List (Node F × F) → Type 0
  Tops v xs = All (λ e. less v e.1 ≡ false) xs

  abbrev pub IsDescending : List (Node F × F) → Type 0
  IsDescending [] = Unit
  IsDescending (x ∷ xs) = Tops x.1 xs × IsDescending xs

  Tops-trans : (v w : F) (xs : List (Node F × F)) → less v w ≡ false → Tops w xs → Tops v xs
  Tops-trans v w xs h t = All-imp xs (λ e k. not_less_trans e.1 w v k h) t

  module _ (P : Node F × F → Type 0) where
    insert_scored-All :
        (x : Node F × F) (xs : List (Node F × F)) → P x → All P xs → All P (insert_scored fl x xs)
    unfolding insert_scored
    insert_scored-All x [] p h = (p, tt)
    insert_scored-All x (y ∷ ys) p h = elim (Bool-cases (less x.1 y.1)) [
      | inl e ↦ rw e (h.0, insert_scored-All x ys p h.1)
      | inr e ↦ rw e (p, h)
    ]

    All-insert_scored :
        (x : Node F × F) (xs : List (Node F × F)) → All P (insert_scored fl x xs) → P x × All P xs
    unfolding insert_scored
    All-insert_scored x [] h = h
    All-insert_scored x (y ∷ ys) h = elim (Bool-cases (less x.1 y.1)) [
      | inl e ↦
          let k : All P (y ∷ insert_scored fl x ys) = rw (e, insert_scored) at h in
          let r = All-insert_scored x ys k.1 in (r.0, (k.0, r.1))
      | inr e ↦ let k : All P (x ∷ y ∷ ys) = rw (e, insert_scored) at h in k
    ]

    pub sort_scored-All : (xs : List (Node F × F)) → All P xs → All P (sort_scored fl xs)
    unfolding sort_scored
    sort_scored-All [] h = tt
    sort_scored-All (x ∷ xs) h =
        insert_scored-All x (sort_scored fl xs) h.0 (sort_scored-All xs h.1)

    pub All-sort_scored : (xs : List (Node F × F)) → All P (sort_scored fl xs) → All P xs
    unfolding sort_scored
    All-sort_scored [] h = tt
    All-sort_scored (x ∷ xs) h =
        let r = All-insert_scored x (sort_scored fl xs) h in (r.0, All-sort_scored xs r.1)

  insert_scored-IsDescending :
      (x : Node F × F) (xs : List (Node F × F))
      → IsDescending xs
      → IsDescending (insert_scored fl x xs)
  unfolding insert_scored
  insert_scored-IsDescending x [] h = (tt, tt)
  insert_scored-IsDescending x (y ∷ ys) h = elim (Bool-cases (less x.1 y.1)) [
    | inl e ↦ rw e (
      insert_scored-All (λ z. less y.1 z.1 ≡ false) x ys (less_asym x.1 y.1 e) h.0,
      insert_scored-IsDescending x ys h.1,
    )
    | inr e ↦ rw e ((e, Tops-trans x.1 y.1 ys e h.0), h)
  ]

  pub sort_scored-IsDescending : (xs : List (Node F × F)) → IsDescending (sort_scored fl xs)
  unfolding sort_scored
  sort_scored-IsDescending [] = tt
  sort_scored-IsDescending (x ∷ xs) =
      insert_scored-IsDescending x (sort_scored fl xs) (sort_scored-IsDescending xs)

  pub below : (v w : F) → less v w ≡ false → less v (lit 1 1) ≡ true → less w (lit 1 1) ≡ true
  below v w h k = elim (Bool-cases (less w (lit 1 1))) [
    | inl e ↦ e
    | inr e ↦ cc (not_less_trans (lit 1 1) w v e h)
  ]

  module _ (clock : Clock F) (s : Scheduler F) (request : PodRequest F) where
    pub reserve_best_low :
        (xs : List (Node F × F))
        → All (λ e. less e.1 (lit 1 1) ≡ true) xs
        → reserve_best fl clock s request xs
          ≡ fail s request "Failed to reserve resources on any node" "Failed to reserve resources"
    unfolding reserve_best
    reserve_best_low [] h = refl
    reserve_best_low (x ∷ xs) h = rw (h.0, reserve_best) (reserve_best_low xs h.1)

    pub reserve_best_head :
        (x : Node F × F) (xs : List (Node F × F))
        → less x.1 (lit 1 1) ≡ false
        → short fl x.0 request ≡ false
        → reserve_best fl clock s request (x ∷ xs)
          ≡ commit_best fl clock s request x.0 (take_resources fl clock.reserved x.0 request)
    unfolding reserve_best
    reserve_best_head x xs h k = ground arith
