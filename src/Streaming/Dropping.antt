-- ===== src/Streaming/Dropping.antt =====
-- Input events that nothing takes out of the queue of src/streaming/streaming_server.py.
use mathlib.Core.List.{append-nil, append_assoc}
use disposable_compute_platf.Prelude.{
  ℕ, ◌≤◌, String, ◌≡◌, refl, sym, ap, ◌∙◌, some, List, [], ◌∷◌, ◌++◌, suc, zero, leb, length,
  length-append, take, arith, Bool-cases, inl, inr, eq_iff,
}
use disposable_compute_platf.Prelude.Dict.{get, get-put}
use disposable_compute_platf.Streaming.{
  StreamSession, InputEvent, StreamServer, put_nowait, queue_input, handle_client_input,
}

take-append : {A : Type 0} (n : ℕ) (xs ys : List A) → length xs ≡ n → take n (xs ++ ys) ≡ xs
take-append zero [] ys h = refl
take-append zero (x ∷ xs) ys h = absurd (omega (arith, h))
take-append (suc n) [] ys h = absurd (omega (arith, h))
take-append (suc n) (x ∷ xs) ys h = ap (λ (l : List _). x ∷ l) (take-append n xs ys (omega arith))

take_all : {A : Type 0} (n : ℕ) (xs : List A) → length xs ≤ n → take n xs ≡ xs
take_all zero [] h = refl
take_all zero (x ∷ xs) h = absurd (omega (arith, h))
take_all (suc n) [] h = refl
take_all (suc n) (x ∷ xs) h = ap (λ (l : List _). x ∷ l) (take_all n xs (omega arith))

length-put_nowait :
    (q : List InputEvent) (e : InputEvent) → length q ≤ 100 → length (put_nowait q e) ≤ 100
length-put_nowait q e h = ground (arith, length-append q (e ∷ []))

take-put_nowait :
    (q : List InputEvent) (e : InputEvent) (es : List InputEvent)
    → length q ≤ 100
    → take 100 (put_nowait q e ++ es) ≡ take 100 (q ++ e ∷ es)
take-put_nowait q e es h = elim (Bool-cases (leb 100 (length q))) [
  | inl full ↦
      let all : length q ≡ 100 = ground arith in
      rw full (take-append 100 q es all ∙ sym (take-append 100 q (e ∷ es) all))
  | inr free ↦ rw free (ap (take 100) (append_assoc q (e ∷ []) es))
]

unfoldable pub handle_inputs : StreamServer → String → List InputEvent → StreamServer
handle_inputs s i [] = s
handle_inputs s i (e ∷ es) = handle_inputs (handle_client_input s i e) i es

module _ (i : String) (session : StreamSession) where
  one_input :
      (s : StreamServer) (q : List InputEvent) (e : InputEvent)
      → get i s.sessions ≡ some session
      → get i s.input_queues ≡ some q
      → (get i (handle_client_input s i e).sessions ≡ some session)
        × (get i (handle_client_input s i e).input_queues ≡ some (put_nowait q e))
  unfolding handle_client_input queue_input
  one_input s q e g h = (
    rw (g, handle_client_input) (rw (h, queue_input) g),
    rw (g, handle_client_input)
        (rw (h, queue_input)
          (ground (arith, eq_iff i i, get-put i i (put_nowait q e) s.input_queues))),
  )

  -- When a session is in the table and has a queue of at most 100 events, then after any inputs of
  -- its client, one after another, its queue is the first 100 of the old events followed by the
  -- new ones: no input takes an event out, and those beyond 100 are lost.
  pub handle_inputs-take :
      (s : StreamServer) (q es : List InputEvent)
      → get i s.sessions ≡ some session
      → get i s.input_queues ≡ some q
      → length q ≤ 100
      → get i (handle_inputs s i es).input_queues ≡ some (take 100 (q ++ es))
  unfolding handle_inputs
  handle_inputs-take s q [] g h l =
      h
      ∙ ap some (sym (take_all 100 q l))
      ∙ ap (λ (x : List InputEvent). some (take 100 x)) (sym (append-nil q))
  handle_inputs-take s q (e ∷ es) g h l =
      let (g', h') = one_input s q e g h in
      handle_inputs-take (handle_client_input s i e) (put_nowait q e) es g' h'
        (length-put_nowait q e l)
      ∙ ap some (take-put_nowait q e es l)
