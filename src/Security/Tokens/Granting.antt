-- ===== src/Security/Tokens/Granting.antt =====
-- Histories of `AccessController` of src/utils/security.py in which a new token is one that is not
-- in use.
use mathlib.Core.Bool.{true≢false}
use disposable_compute_platf.Prelude.{
  ℕ, ◌+◌, ◌*◌, ◌≤◌, String, ◌≡◌, sym, ap, ◌∙◌, true, false, Option, none, some, ltb, str_eq, eq_iff,
  arith, Bool-cases, Option-cases, inl, inr,
}
use disposable_compute_platf.Prelude.Dict.{get, del, get-put, get-del, put-cases, del-cases}
use disposable_compute_platf.Security.Tokens.{
  AccessController, new_controller, generate_access_token, check_expiration, validate_access_token,
  revoke_access_token,
}

-- Every token of a session has an expiration, and no two sessions share one.
pub record IsControlled (c : AccessController) : Type 0 where
  pub expires :
      (s t : String)
      → get s c.session_tokens ≡ some t
      → (e : ℕ) × (get t c.token_expiration ≡ some e)
  pub own :
      (s r t : String)
      → get s c.session_tokens ≡ some t
      → get r c.session_tokens ≡ some t
      → str_eq s r ≡ true

pub data Step (c : AccessController) : AccessController → Type 0 where
  generate :
      (now : ℕ) (session_id : String) (ttl_minutes : ℕ) (token : String)
      → get token c.token_expiration ≡ none
      → Step c (generate_access_token now c session_id ttl_minutes token)
  validated :
      (now : ℕ) (session_id token : String)
      → Step c (validate_access_token now c session_id token).0
  revoke : (session_id : String) → Step c (revoke_access_token c session_id)

pub data Reaches (c : AccessController) : AccessController → Type 0 where
  here : Reaches c c
  next : {d k : AccessController} → Reaches c d → Step d k → Reaches c k

none-some : {A : Type 0} {a : A} → none ≡ some a → ⊥
none-some h = true≢false (cc)

module _ (c : AccessController) (h : IsControlled c) where
  -- A token without an expiration belongs to no session.
  unused :
      (token s t : String)
      → get token c.token_expiration ≡ none
      → get s c.session_tokens ≡ some t
      → str_eq token t ≡ false
  unused token s t n e = elim (Bool-cases (str_eq token t)) [
    | inl same ↦
        let (x, k) = h.expires s t e in absurd (true≢false (ground (arith, eq_iff token t)))
    | inr other ↦ other
  ]

  generate-IsControlled :
      (now : ℕ) (i : String) (ttl : ℕ) (token : String)
      → get token c.token_expiration ≡ none
      → IsControlled (generate_access_token now c i ttl token)
  unfolding generate_access_token
  generate-IsControlled now i ttl token n = record {
    expires = λ s t e. elim (put-cases i s token t c.session_tokens e) [
      | inl (i_s, same) ↦ (
        now + ttl * 60000000,
        ground (arith, get-put token t (now + ttl * 60000000) c.token_expiration, eq_iff token t),
      )
      | inr (other, old) ↦
          let (x, k) = h.expires s t old in
          (
            x,
            ground (
              arith,
              get-put token t (now + ttl * 60000000) c.token_expiration,
              unused token s t n old,
            ),
          )
    ];
    own = λ s r t e f. elim (put-cases i s token t c.session_tokens e) [
      | inl (i_s, same) ↦ elim (put-cases i r token t c.session_tokens f) [
        | inl (i_r, same') ↦ (eq_iff s r).1 (sym i_s ∙ i_r)
        | inr (other, old) ↦
            absurd (true≢false (sym ((eq_iff token t).1 same) ∙ unused token r t n old))
      ]
      | inr (other, old) ↦ elim (put-cases i r token t c.session_tokens f) [
        | inl (i_r, same) ↦
            absurd (true≢false (sym ((eq_iff token t).1 same) ∙ unused token s t n old))
        | inr (other', old') ↦ h.own s r t old old'
      ]
    ];
  }

  -- A session's token and its expiration go together.
  forget-IsControlled :
      (i token : String)
      → get i c.session_tokens ≡ some token
      → IsControlled (record {
        session_tokens = del i c.session_tokens;
        token_expiration = del token c.token_expiration;
      })
  forget-IsControlled i token e = record {
    expires = λ s t k.
        let (other, old) = del-cases i s t c.session_tokens k in
        let (x, there) = h.expires s t old in
        (
          x,
          ground
              (arith, get-del token t c.token_expiration, eq_iff token t, eq_iff i s, h.own i s t),
        );
    own = λ s r t k l.
        h.own s r t (del-cases i s t c.session_tokens k).1 (del-cases i r t c.session_tokens l).1;
  }

  check-IsControlled :
      (now : ℕ) (i token : String) (x : Option ℕ)
      → get i c.session_tokens ≡ some token
      → IsControlled (check_expiration now c i token x).0
  check-IsControlled now i token none e = h
  check-IsControlled now i token (some x) e = elim (Bool-cases (ltb x now)) [
    | inl late ↦ rw late (forget-IsControlled i token e)
    | inr fresh ↦ rw fresh h
  ]

  validate-IsControlled :
      (now : ℕ) (i token : String) → IsControlled (validate_access_token now c i token).0
  unfolding validate_access_token
  validate-IsControlled now i token = elim (Option-cases (get i c.session_tokens)) [
    | inl n ↦ rw (n, validate_access_token) h
    | inr (stored, e) ↦ elim (Bool-cases (str_eq token stored)) [
      | inl same ↦
          let mine : get i c.session_tokens ≡ some token =
            e ∙ ap some (sym ((eq_iff token stored).0 same)) in
          rw (e, validate_access_token)
            (rw same (check-IsControlled now i token (get token c.token_expiration) mine))
      | inr other ↦ rw (e, validate_access_token) (rw other h)
    ]
  ]

  revoke-IsControlled : (i : String) → IsControlled (revoke_access_token c i)
  unfolding revoke_access_token
  revoke-IsControlled i = elim (Option-cases (get i c.session_tokens)) [
    | inl n ↦ rw (n, revoke_access_token) h
    | inr (token, e) ↦ rw (e, revoke_access_token) (forget-IsControlled i token e)
  ]

  granted :
      (now : ℕ) (i token : String)
      → (validate_access_token now c i token).1 ≡ true
      → (get i c.session_tokens ≡ some token)
        × (x : ℕ) × (get token c.token_expiration ≡ some x)
        × (now ≤ x)
  unfolding validate_access_token
  granted now i token v = elim (Option-cases (get i c.session_tokens)) [
    | inl n ↦ absurd (true≢false (ground arith))
    | inr (stored, e) ↦ elim (Bool-cases (str_eq token stored)) [
      | inl same ↦
          let mine : get i c.session_tokens ≡ some token =
            e ∙ ap some (sym ((eq_iff token stored).0 same)) in
          let (x, k) = h.expires i token mine in (mine, x, k, ground arith)
      | inr other ↦ absurd (true≢false (ground arith))
    ]
  ]

new-IsControlled : IsControlled new_controller
unfolding get
new-IsControlled = record {
  expires = λ s t e. absurd (none-some e);
  own = λ s r t e f. absurd (none-some e);
}

Reaches-IsControlled : {c : AccessController} → Reaches new_controller c → IsControlled c
Reaches-IsControlled here = new-IsControlled
Reaches-IsControlled (next {d} r (generate now i ttl token n)) =
    generate-IsControlled d (Reaches-IsControlled r) now i ttl token n
Reaches-IsControlled (next {d} r (validated now i token)) =
    validate-IsControlled d (Reaches-IsControlled r) now i token
Reaches-IsControlled (next {d} r (revoke i)) = revoke-IsControlled d (Reaches-IsControlled r) i

-- After any sequence of generations of tokens that have no expiration recorded, validations and
-- revocations from a new controller, a token that `validate_access_token` accepts for a session is
-- the one stored for that session, and it has a recorded expiration that has not passed.
pub validate_access_token-Reaches :
    {c : AccessController} (now : ℕ) (i token : String)
    → Reaches new_controller c
    → (validate_access_token now c i token).1 ≡ true
    → (get i c.session_tokens ≡ some token)
      × (x : ℕ) × (get token c.token_expiration ≡ some x)
      × (now ≤ x)
validate_access_token-Reaches {c} now i token r v = granted c (Reaches-IsControlled r) now i token v
