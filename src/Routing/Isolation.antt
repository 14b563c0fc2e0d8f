-- ===== src/Routing/Isolation.antt =====
-- Which routes of src/networking/router.py the other sessions leave alone.
use Prim.Native.String.{◌++◌}
use Prim.Native.Char.{code}
use mathlib.Core.Bool.{true≢false}
use text.Mathlib.TextLemmas.{
  nil-append, cons-append, head-eq_of_cons-eq, append_cancel_left, append_cancel_right,
}
use disposable_compute_platf.Prelude.{
  ℕ, String, ◌≡◌, ◌≢◌, sym, ap, ◌∙◌, Bool, true, false, some, arith, Bool-cases, Option-cases, inl,
  inr, eq_iff, str_eq,
}
use disposable_compute_platf.Prelude.Text.{has_char, has_prefix}
use disposable_compute_platf.Prelude.Dict.{get, put, get-put, get-del}
use disposable_compute_platf.Routing.{
  Route, IngressRouter, subdomain_of, generate_config, config_dir, config_path, save_config,
  remove_config, external_url, register_route, unregister_route, create_external_access,
}

str_ne→false : (s t : String) → s ≢ t → str_eq s t ≡ false
str_ne→false s t h = elim (Bool-cases (str_eq s t)) [
  | inl e ↦ absurd (h ((eq_iff s t).0 e))
  | inr e ↦ e
]

-- The two directories begin with different characters.
cross : (s t : String) → str_eq ("/etc/nginx/conf.d/" ++ s) ("./nginx_configs/" ++ t) ≡ false
cross s t = str_ne→false ("/etc/nginx/conf.d/" ++ s) ("./nginx_configs/" ++ t) (λ e. absurd (
    omega (
      arith,
      ap code (
          head-eq_of_cons-eq (
            sym (cons-append "/" "etc/nginx/conf.d/" s) ∙ e ∙ cons-append "." "/nginx_configs/" t)),
    )))

-- The subdomain is a file's name, and no path: it has no slash.
abbrev pub IsPlain : String → Type 0
IsPlain session_id = has_char b'/' (subdomain_of session_id) ≡ false

plain_start :
    (s t : String)
    → has_prefix "/" t ≡ false
    → has_char b'/' s ≡ false
    → has_prefix "/" (s ++ t) ≡ false
unfolding has_prefix has_char
plain_start String.[] t h k = rw (nil-append t) h
plain_start (String.◌∷◌ c s) t h k = rw (cons-append c s t) (ground arith)

module _ (show : ℕ → String) where
  config_path_plain :
      (v : Bool) (i : String)
      → IsPlain i
      → config_path show v i ≡ config_dir show v ++ (subdomain_of i ++ ".conf")
  unfolding config_path
  config_path_plain v i h =
      ground (arith, plain_start (subdomain_of i) ".conf" (unfold has_prefix in λ _. false) h)

  plain_path-inj :
      (v w : Bool) (i j : String)
      → subdomain_of i ≢ subdomain_of j
      → str_eq
          (config_dir show v ++ (subdomain_of i ++ ".conf"))
          (config_dir show w ++ (subdomain_of j ++ ".conf"))
        ≡ false
  plain_path-inj true true i j h = str_ne→false _ _ (λ e. h (
      append_cancel_right (subdomain_of i) (subdomain_of j) ".conf" (
        append_cancel_left "/etc/nginx/conf.d/" (subdomain_of i ++ ".conf")
          (subdomain_of j ++ ".conf") e)))
  plain_path-inj true false i j h = cross (subdomain_of i ++ ".conf") (subdomain_of j ++ ".conf")
  plain_path-inj false true i j h = str_ne→false _ _ (λ e. absurd (
      true≢false (
        sym (
          (eq_iff ("/etc/nginx/conf.d/" ++ (subdomain_of j ++ ".conf"))
              ("./nginx_configs/" ++ (subdomain_of i ++ ".conf"))).1
            (sym e))
        ∙ cross (subdomain_of j ++ ".conf") (subdomain_of i ++ ".conf"))))
  plain_path-inj false false i j h = str_ne→false _ _ (λ e. h (
      append_cancel_right (subdomain_of i) (subdomain_of j) ".conf" (
        append_cancel_left "./nginx_configs/" (subdomain_of i ++ ".conf")
          (subdomain_of j ++ ".conf") e)))

  config_path-inj :
      (v w : Bool) (i j : String)
      → IsPlain i
      → IsPlain j
      → subdomain_of i ≢ subdomain_of j
      → str_eq (config_path show v i) (config_path show w j) ≡ false
  config_path-inj v w i j p q h =
      rw (config_path_plain v i p, config_path_plain w j q) (plain_path-inj v w i j h)

  -- The route is registered, and its file is the one written for it.
  pub record IsServed (w : Bool) (r : Route) (s : IngressRouter) : Type 0 where
    pub is_routed : get (external_url show r) s.routes ≡ some r
    pub is_configured :
        get (config_path show w r.session_id) s.files ≡ some (generate_config show r)

  -- A step of another subdomain: the URL of a route that is registered is another one.
  pub data Step (r : Route) : IngressRouter → IngressRouter → Type 0 where
    register :
        (writable works : Bool) (s : IngressRouter) (q : Route)
        → IsPlain q.session_id
        → subdomain_of q.session_id ≢ subdomain_of r.session_id
        → external_url show q ≢ external_url show r
        → Step r s (register_route show writable works s q).0
    unregister :
        (writable works : Bool) (s : IngressRouter) (url : String)
        → ((q : Route)
            → get url s.routes ≡ some q
            → IsPlain q.session_id × (subdomain_of q.session_id ≢ subdomain_of r.session_id))
        → Step r s (unregister_route show writable works s url).0

  pub data Steps (r : Route) (s : IngressRouter) : IngressRouter → Type 0 where
    here : Steps r s s
    next : {k l : IngressRouter} → Steps r s k → Step r k l → Steps r s l

  register-IsServed :
      (w writable works : Bool) (r q : Route) (s : IngressRouter)
      → IsPlain r.session_id
      → IsPlain q.session_id
      → subdomain_of q.session_id ≢ subdomain_of r.session_id
      → external_url show q ≢ external_url show r
      → IsServed w r s
      → IsServed w r (register_route show writable works s q).0
  unfolding register_route save_config
  register-IsServed w writable works r q s plain plain' h k v = record {
    is_routed = ground (
      arith,
      v.is_routed,
      get-put (external_url show q) (external_url show r) q s.routes,
      str_ne→false (external_url show q) (external_url show r) k,
    );
    is_configured = ground (
      arith,
      v.is_configured,
      get-put (config_path show writable q.session_id) (config_path show w r.session_id)
          (generate_config show q) s.files,
      config_path-inj writable w q.session_id r.session_id plain' plain h,
    );
  }

  same_route :
      (url : String) (r q : Route) (s : IngressRouter)
      → url ≡ external_url show r
      → get url s.routes ≡ some q
      → get (external_url show r) s.routes ≡ some r
      → q ≡ r
  same_route url r q s u e f = cc

  unregister-IsServed :
      (w writable works : Bool) (r : Route) (s : IngressRouter) (url : String)
      → IsPlain r.session_id
      → ((q : Route)
          → get url s.routes ≡ some q
          → IsPlain q.session_id × (subdomain_of q.session_id ≢ subdomain_of r.session_id))
      → IsServed w r s
      → IsServed w r (unregister_route show writable works s url).0
  unfolding unregister_route remove_config
  unregister-IsServed w writable works r s url plain h v = elim (Option-cases (get url s.routes)) [
    | inl e ↦ record {
      is_routed = ground (arith, v.is_routed);
      is_configured = ground (arith, v.is_configured);
    }
    | inr (q, e) ↦
        let other : url ≢ external_url show r = λ u.
          (h q e).1 (
            ap (λ (x : Route). subdomain_of x.session_id) (same_route url r q s u e v.is_routed)) in
        record {
          is_routed = ground (
            arith,
            v.is_routed,
            get-del url (external_url show r) s.routes,
            str_ne→false url (external_url show r) other,
          );
          is_configured = ground (
            arith,
            v.is_configured,
            get-del (config_path show writable q.session_id) (config_path show w r.session_id)
                s.files,
            config_path-inj writable w q.session_id r.session_id (h q e).0 plain (h q e).1,
          );
        }
  ]

  -- A route whose subdomain has no slash, that is registered and whose file in a directory is the
  -- one generated for it, stays so after every history of registrations, of routes with another
  -- URL and another subdomain without a slash, and removals of URLs at which the route that is
  -- registered, if any, has another subdomain without a slash, whichever calls of the file system
  -- work.
  pub Steps-IsServed :
      (w : Bool) (r : Route) {s k : IngressRouter}
      → IsPlain r.session_id
      → IsServed w r s
      → Steps r s k
      → IsServed w r k
  Steps-IsServed w r plain h here = h
  Steps-IsServed w r plain h (next t (register writable works s q p d u)) =
      register-IsServed w writable works r q s plain p d u (Steps-IsServed w r plain h t)
  Steps-IsServed w r plain h (next t (unregister writable works s url d)) =
      unregister-IsServed w writable works r s url plain d (Steps-IsServed w r plain h t)

  pub register_route-IsServed :
      (w : Bool) (r : Route) (s : IngressRouter) → IsServed w r (register_route show w true s r).0
  unfolding register_route save_config
  register_route-IsServed w r s =
      let url = external_url show r in
      let path = config_path show w r.session_id in
      record {
        is_routed = ground (arith, get-put url url r s.routes, eq_iff url url);
        is_configured =
            ground (arith, get-put path path (generate_config show r) s.files, eq_iff path path);
      }

  abbrev pub access : String → ℕ → String → Route
  access session_id service_port domain = record {
    path = "/";
    target_port = service_port;
    session_id = session_id;
    service_name = "main";
    domain = domain;
  }

  routes-register_route :
      (writable works : Bool) (s : IngressRouter) (r : Route)
      → (register_route show writable works s r).0.routes ≡ put (external_url show r) r s.routes
  unfolding register_route save_config
  routes-register_route writable works s r = ground arith

  found :
      (writable works : Bool) (s : IngressRouter) (r : Route) (url : String)
      → url ≡ external_url show r
      → get url (register_route show writable works s r).0.routes ≡ some r
  found writable works s r url e =
      rw (routes-register_route writable works s r, e)
        (ground (
          arith,
          get-put (external_url show r) (external_url show r) r s.routes,
          eq_iff (external_url show r) (external_url show r),
        ))

  -- When the ids of two sessions agree in their first 8 characters, giving both external access on
  -- one domain returns the same URL, and the route there is the second session's.
  pub create_external_access_clash :
      (writable works writable' works' : Bool) (s : IngressRouter) (a b : String) (p q : ℕ)
      (domain : String)
      → subdomain_of a ≡ subdomain_of b
      → let (s1, url) = create_external_access show writable works s a p domain in
        let (s2, url') = create_external_access show writable' works' s1 b q domain in
        (url ≡ url') × (get url s2.routes ≡ some (access b q domain))
  unfolding create_external_access
  create_external_access_clash v w v' w' s a b p q domain h =
      let url = external_url show (access a p domain) in
      let url' = external_url show (access b q domain) in
      let s1 = (register_route show v w s (access a p domain)).0 in
      let same : url ≡ url' =
        unfold external_url in ap (λ (x : String). "https://" ++ x ++ "." ++ domain ++ "/") h in
      (
        unfold register_route in same,
        unfold register_route in found v' w' s1 (access b q domain) url same,
      )
