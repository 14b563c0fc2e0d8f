-- ===== src/Validation/Urls/Safety.antt =====
-- What a URL that `validate_repo_url` of src/utils/input_validation.py accepts is like.
use Prim.Native.String.{◌++◌}
use mathlib.Core.Bool.{true≢false}
use disposable_compute_platf.Prelude.{
  ℕ, String, ◌≡◌, refl, sym, ap, ◌∙◌, true, false, some, List, [], ◌∷◌, ◌⊎◌, inl, inr, arith, map,
  contains, All, Option-cases,
}
use disposable_compute_platf.Prelude.Text.{has_char, at_end}
use disposable_compute_platf.Prelude.Patterns.{has_char-append}
use disposable_compute_platf.Validation.Addresses.{is_private_ip}
use disposable_compute_platf.Validation.Urls.{
  Parsed, Library, valid, allowed_repo_hosts, dangerous_chars, repo_url_pattern, is_dangerous,
  has_private, resolves_privately, check_host, check_parsed, validate_repo_url,
}
use disposable_compute_platf.Validation.Urls.Shape.{IsRepoPath, IsRepoUrl, repo_url_pattern_lem}

Sum-cases : {A B : Type 0} (x : A ⊎ B) → ((a : A) × (x ≡ inl a)) ⊎ ((b : B) × (x ≡ inr b))
Sum-cases (inl a) = inl (a, refl)
Sum-cases (inr b) = inr (b, refl)

no_dangerous :
    (cs : List ℕ) (url : String)
    → is_dangerous cs url ≡ false
    → All (λ c. has_char c url ≡ false) cs
unfolding is_dangerous
no_dangerous [] url h = tt
no_dangerous (c ∷ cs) url h = (ground arith, no_dangerous cs url (ground arith))

at_end_cases : (s : String) → at_end s ≡ true → (s ≡ "") ⊎ (has_char 10 s ≡ true)
unfolding has_char
at_end_cases String.[] h = inl refl
at_end_cases (String.◌∷◌ c String.[]) h = inr (ground arith)
at_end_cases (String.◌∷◌ c (String.◌∷◌ d s)) h = cc

feed_later : (p r : String) → has_char 10 r ≡ true → has_char 10 (p ++ r) ≡ true
feed_later p r h = ground (arith, has_char-append 10 p r)

feed_in_path : (s : String) (p : IsRepoPath s) → has_char 10 p.end ≡ true → has_char 10 s ≡ true
feed_in_path s p h =
    ap (has_char 10) p.parts
    ∙ feed_later "/" _ (
        feed_later p.owner _
          (feed_later "/" _ (feed_later p.repo _ (feed_later p.git _ (feed_later p.slash _ h)))))

feed_in_url :
    (url : String) (u : IsRepoUrl url) → has_char 10 u.repo_path.end ≡ true → has_char 10 url ≡ true
feed_in_url url u h =
    ap (has_char 10) u.parts
    ∙ feed_later "http" _ (
        feed_later u.secure _
          (feed_later "://" _ (feed_later u.host _ (feed_in_path u.path u.repo_path h))))

-- The line feed that `$` allows at the end is a dangerous character.
nothing_at_end : (url : String) (u : IsRepoUrl url) → has_char 10 url ≡ false → u.repo_path.end ≡ ""
nothing_at_end url u h = elim (at_end_cases u.repo_path.end u.repo_path.at_end) [
  | inl e ↦ e
  | inr f ↦ absurd (true≢false (sym (feed_in_url url u f) ∙ h))
]

no_line_feed : (url : String) → is_dangerous dangerous_chars url ≡ false → has_char 10 url ≡ false
unfolding is_dangerous
no_line_feed url h = ground arith

module _ (library : Library) where
  not_private :
      (ips : List String)
      → has_private library ips ≡ false
      → All (λ ip. is_private_ip library.int ip ≡ false) ips
  unfolding has_private
  not_private [] h = tt
  not_private (ip ∷ ips) h = (ground arith, not_private ips (ground arith))

  pub record IsSafe (url : String) : Type 0 where
    pub shape : IsRepoUrl url
    pub nothing_after : shape.repo_path.end ≡ ""
    pub harmless : All (λ c. has_char c url ≡ false) dangerous_chars
    pub parsed : Parsed
    pub hostname : String
    pub is_parsed : library.urlparse url ≡ inr parsed
    pub is_hostname : parsed.hostname ≡ some hostname
    pub is_allowed : contains (map library.lower allowed_repo_hosts) (library.lower hostname) ≡ true
    pub public :
        (ips : List String)
        → library.gethostbyname_ex hostname ≡ some ips
        → All (λ ip. is_private_ip library.int ip ≡ false) ips

  check_host→ :
      (url hostname : String)
      → check_host library url hostname ≡ valid
      → (contains (map library.lower allowed_repo_hosts) (library.lower hostname) ≡ true)
        × (resolves_privately library (library.gethostbyname_ex hostname) ≡ false)
        × (repo_url_pattern url ≡ true)
  unfolding check_host
  check_host→ url hostname h = ground arith

  check_named :
      (url : String) (parsed : Parsed) (hostname : String)
      → parsed.hostname ≡ some hostname
      → check_parsed library url parsed ≡ valid
      → check_host library url hostname ≡ valid
  unfolding check_parsed
  check_named url parsed String.[] e h = ground arith
  check_named url parsed (String.◌∷◌ c s) e h = ground arith

  check_parsed→ :
      (url : String) (parsed : Parsed)
      → check_parsed library url parsed ≡ valid
      → (hostname : String) × (parsed.hostname ≡ some hostname)
        × (check_host library url hostname ≡ valid)
  unfolding check_parsed
  check_parsed→ url parsed h = elim (Option-cases parsed.hostname) [
    | inl e ↦ ground arith
    | inr (hostname, e) ↦ (hostname, e, check_named url parsed hostname e h)
  ]

  validate_repo_url→ :
      (url : String)
      → validate_repo_url library url ≡ valid
      → (parsed : Parsed) × (library.urlparse url ≡ inr parsed)
        × (is_dangerous dangerous_chars url ≡ false)
        × (check_parsed library url parsed ≡ valid)
  unfolding validate_repo_url
  validate_repo_url→ String.[] h = cc
  validate_repo_url→ (String.◌∷◌ c s) h = elim (Sum-cases (library.urlparse (String.◌∷◌ c s))) [
    | inl (e, p) ↦ ground arith
    | inr (parsed, p) ↦ (parsed, p, ground arith, ground arith)
  ]

  -- A URL that `validate_repo_url` accepts is http or https, an allowed host, an owner and a
  -- repository of the permitted characters, perhaps .git and a slash, and nothing after, not even
  -- a line feed; it has none of the dangerous characters; and the host name that `urlparse` finds
  -- in it is an allowed one in lower case and, when it resolves, resolves to no address that
  -- `is_private_ip` calls private.
  pub validate_repo_url-IsSafe : (url : String) → validate_repo_url library url ≡ valid → IsSafe url
  validate_repo_url-IsSafe url h =
      let (parsed, p, clean, h1) = validate_repo_url→ url h in
      let (hostname, n, h2) = check_parsed→ url parsed h1 in
      let (allowed, far, matched) = check_host→ url hostname h2 in
      let harmless = no_dangerous dangerous_chars url clean in
      let shape = (repo_url_pattern_lem url).0 matched in
      record {
        shape = shape;
        nothing_after = nothing_at_end url shape (no_line_feed url clean);
        harmless = harmless;
        parsed = parsed;
        hostname = hostname;
        is_parsed = p;
        is_hostname = n;
        is_allowed = allowed;
        public = λ ips e. not_private ips (ground arith);
      }
