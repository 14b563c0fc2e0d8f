-- ===== src/Validation/Urls/Shape.antt =====
-- The texts that `REPO_URL_PATTERN` of src/utils/input_validation.py describes.
use Prim.Native.String.{◌++◌}
use disposable_compute_platf.Prelude.{String, ◌≡◌, ◌↔◌, ap, ◌∙◌, Bool, true, [], ◌∷◌, contains}
use disposable_compute_platf.Prelude.Text.{literal, some_of, maybe, one_of, at_end}
use disposable_compute_platf.Prelude.Patterns.{
  some_chars, literal-append, literal-splits, some_of-append, some_of-Splits, one_of-append,
  one_of-Splits, maybe-append, maybe-Splits,
}
use disposable_compute_platf.Validation.Urls.{
  allowed_repo_hosts, is_owner_char, is_repo_char, after_repo, after_host, repo_url_pattern,
}

abbrev pub path_of : String → String → String → String → String → String
path_of owner repo git slash end = "/" ++ owner ++ "/" ++ repo ++ git ++ slash ++ end

-- http or https, an allowed host, an owner, a repository, ".git" or not, a slash or not.
pub record IsRepoPath (s : String) : Type 0 where
  pub owner : String
  pub repo : String
  pub git : String
  pub slash : String
  pub end : String
  pub owner_chars : some_chars is_owner_char owner ≡ true
  pub repo_chars : some_chars is_repo_char repo ≡ true
  pub git_or_not : contains (".git" ∷ "" ∷ []) git ≡ true
  pub slash_or_not : contains ("/" ∷ "" ∷ []) slash ≡ true
  pub at_end : at_end end ≡ true
  pub parts : s ≡ path_of owner repo git slash end

pub record IsRepoUrl (url : String) : Type 0 where
  pub secure : String
  pub host : String
  pub path : String
  pub secure_or_not : contains ("s" ∷ "" ∷ []) secure ≡ true
  pub is_allowed : contains allowed_repo_hosts host ≡ true
  pub repo_path : IsRepoPath path
  pub parts : url ≡ "http" ++ secure ++ "://" ++ host ++ path

abbrev end_of_path : String → Bool
end_of_path = maybe (literal "/") at_end

abbrev after_owner : String → Bool
after_owner = literal "/" (some_of is_repo_char after_repo)

after_host→ : (s : String) → after_host s ≡ true → IsRepoPath s
after_host→ s h =
    let (s1, q1, h1) = literal-splits (some_of is_owner_char after_owner) "/" s h in
    let (owner, s2, t2, q2, h2) = some_of-Splits after_owner is_owner_char s1 h1 in
    let (s3, q3, h3) = literal-splits (some_of is_repo_char after_repo) "/" s2 h2 in
    let (repo, s4, t4, q4, h4) = some_of-Splits after_repo is_repo_char s3 h3 in
    let (git, s5, t5, q5, h5) = maybe-Splits end_of_path ".git" s4 h4 in
    let (slash, end, t6, q6, h6) = maybe-Splits at_end "/" s5 h5 in
    record {
      owner = owner;
      repo = repo;
      git = git;
      slash = slash;
      end = end;
      owner_chars = t2;
      repo_chars = t4;
      git_or_not = t5;
      slash_or_not = t6;
      at_end = h6;
      parts = cc;
    }

→after_host : (s : String) → IsRepoPath s → after_host s ≡ true
→after_host s p =
    let e5 = maybe-append at_end "/" p.slash p.end p.slash_or_not p.at_end in
    let e4 = maybe-append end_of_path ".git" p.git (p.slash ++ p.end) p.git_or_not e5 in
    let e3 =
      some_of-append after_repo is_repo_char p.repo (p.git ++ p.slash ++ p.end) p.repo_chars e4 in
    let e2 =
      literal-append (some_of is_repo_char after_repo) "/" (p.repo ++ p.git ++ p.slash ++ p.end)
      ∙ e3 in
    let e1 =
      some_of-append after_owner is_owner_char p.owner ("/" ++ p.repo ++ p.git ++ p.slash ++ p.end)
        p.owner_chars e2 in
    ap after_host p.parts
    ∙ literal-append (some_of is_owner_char after_owner) "/"
        (p.owner ++ "/" ++ p.repo ++ p.git ++ p.slash ++ p.end)
    ∙ e1

abbrev after_scheme : String → Bool
after_scheme = literal "://" (one_of allowed_repo_hosts after_host)

pattern→ : (url : String) → repo_url_pattern url ≡ true → IsRepoUrl url
unfolding repo_url_pattern
pattern→ url h =
    let (s1, q1, h1) = literal-splits (maybe (literal "s") after_scheme) "http" url h in
    let (secure, s2, t2, q2, h2) = maybe-Splits after_scheme "s" s1 h1 in
    let (s3, q3, h3) = literal-splits (one_of allowed_repo_hosts after_host) "://" s2 h2 in
    let (host, path, t4, q4, h4) = one_of-Splits after_host allowed_repo_hosts s3 h3 in
    record {
      secure = secure;
      host = host;
      path = path;
      secure_or_not = t2;
      is_allowed = t4;
      repo_path = after_host→ path h4;
      parts = cc;
    }

→pattern : (url : String) → IsRepoUrl url → repo_url_pattern url ≡ true
unfolding repo_url_pattern
→pattern url u =
    let e4 =
      one_of-append after_host allowed_repo_hosts u.host u.path u.is_allowed
        (→after_host u.path u.repo_path) in
    let e3 = literal-append (one_of allowed_repo_hosts after_host) "://" (u.host ++ u.path) ∙ e4 in
    let e2 =
      maybe-append after_scheme "s" u.secure ("://" ++ u.host ++ u.path) u.secure_or_not e3 in
    ap repo_url_pattern u.parts
    ∙ literal-append (maybe (literal "s") after_scheme) "http"
        (u.secure ++ "://" ++ u.host ++ u.path)
    ∙ e2

-- `REPO_URL_PATTERN` matches exactly the texts that are http or https, "://", an allowed host,
-- "/", one or more characters of an owner, "/", one or more characters of a repository, ".git" or
-- nothing, "/" or nothing, and an end that is empty or one line feed.
pub repo_url_pattern_lem : (url : String) → (repo_url_pattern url ≡ true) ↔ IsRepoUrl url
repo_url_pattern_lem url = (pattern→ url, →pattern url)
