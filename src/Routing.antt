-- ===== src/Routing.antt =====
-- src/networking/router.py. Whether the configuration directory can be written, whether a file
-- system call works, and the decimal text of a number are arguments. What Docker does with a
-- network is not part of the state. A file stands under its path as it is written: where two paths
-- lead to one file, which takes a slash in the subdomain, they count as two files.
pub mod Isolation
pub mod Backends
use Prim.Native.String.{◌++◌}
use disposable_compute_platf.Prelude.{
  ℕ, String, Bool, true, false, Option, none, some, List, [], ◌∷◌, ltb, if◌then◌else◌,
}
use disposable_compute_platf.Prelude.Dict.{Dict, get, put, del, is_some}
use disposable_compute_platf.Prelude.Text.{prefix, has_prefix}

pub record Route : Type 0 where
  pub path : String
  pub target_port : ℕ
  pub session_id : String
  pub service_name : String
  pub domain : String

-- `IngressRouter`, beside the configuration files by their paths.
pub record IngressRouter : Type 0 where
  pub routes : Dict Route
  pub files : Dict String

abbrev pub subdomain_of : String → String
subdomain_of session_id = prefix 8 session_id

module _ (show : ℕ → String) where
  unfoldable pub generate_config : Route → String
  unfolding prefix
  generate_config route =
      "\nserver {\n    listen 80;\n    server_name "
      ++ subdomain_of route.session_id
      ++ "."
      ++ route.domain
      ++ ";\n\n    location "
      ++ route.path
      ++ " {\n        proxy_pass http://127.0.0.1:"
      ++ show route.target_port
      ++ ";\n        proxy_set_header Host \\$host;\n        proxy_set_header X-Real-IP \\$remote_addr;\n"
      ++ "        proxy_set_header X-Forwarded-For \\$proxy_add_x_forwarded_for;\n"
      ++ "        proxy_set_header X-Forwarded-Proto \\$scheme;\n        \n"
      ++ "        # WebSocket support\n        proxy_http_version 1.1;\n"
      ++ "        proxy_set_header Upgrade \\$http_upgrade;\n"
      ++ "        proxy_set_header Connection \"upgrade\";\n    }\n}\n"

  -- The directory of the files, or the one that stands in for it.
  abbrev pub config_dir : Bool → String
  config_dir writable = if writable then "/etc/nginx/conf.d/" else "./nginx_configs/"

  -- The path of a session's file. `os.path.join` drops the directory before an absolute path.
  unfoldable pub config_path : Bool → String → String
  unfolding has_prefix
  config_path writable session_id =
      let file = subdomain_of session_id ++ ".conf" in
      if has_prefix "/" file then file else config_dir writable ++ file

  -- What the file system raises is passed over.
  unfoldable pub save_config : Bool → Bool → IngressRouter → Route → IngressRouter
  unfolding generate_config prefix
  save_config writable works s route =
      if works
      then record s {
        files = put (config_path writable route.session_id) (generate_config route) s.files;
      }
      else s

  -- None is the exception of `os.remove`.
  unfoldable pub remove_config : Bool → Bool → IngressRouter → String → Option IngressRouter
  unfolding prefix
  remove_config writable works s session_id = elim (get (config_path writable session_id) s.files) [
    | none ↦ some s
    | some config ↦
        if works
        then some (record s { files = del (config_path writable session_id) s.files })
        else none
  ]

  unfoldable pub external_url : Route → String
  unfolding prefix
  external_url route =
      "https://" ++ subdomain_of route.session_id ++ "." ++ route.domain ++ route.path

  unfoldable pub register_route : Bool → Bool → IngressRouter → Route → IngressRouter × String
  unfolding external_url save_config
  register_route writable works s route =
      let s1 : IngressRouter = record s { routes = put (external_url route) route s.routes } in
      (save_config writable works s1 route, external_url route)

  -- False when the exception is raised on: then the route stays.
  unfoldable pub unregister_route : Bool → Bool → IngressRouter → String → IngressRouter × Bool
  unfolding remove_config
  unregister_route writable works s url = elim (get url s.routes) [
    | none ↦ (s, true)
    | some route ↦ elim (remove_config writable works s route.session_id) [
      | none ↦ (s, false)
      | some s1 ↦ (record s1 { routes = del url s1.routes }, true)
    ]
  ]

  unfoldable pub create_external_access :
      Bool → Bool → IngressRouter → String → ℕ → String → IngressRouter × String
  unfolding register_route
  create_external_access writable works s session_id service_port domain =
      register_route writable works s (record {
        path = "/";
        target_port = service_port;
        session_id = session_id;
        service_name = "main";
        domain = domain;
      })

  -- The loop of `cleanup_network_with_retry`, which an exception leaves.
  unfoldable pub unregister_routes :
      Bool → Bool → IngressRouter → List String → IngressRouter × Bool
  unfolding unregister_route
  unregister_routes writable works s [] = (s, true)
  unregister_routes writable works s (url ∷ urls) =
      let (s1, goes_on) = unregister_route writable works s url in
      let rest = unregister_routes writable works s1 urls in if goes_on then rest else (s1, false)

-- `setup_internal_dns`: each service's name, or "default".
abbrev service_name_of : Option String → String
service_name_of none = "default"
service_name_of (some name) = name

unfoldable pub setup_internal_dns : String → List (Option String) → Dict String → Dict String
setup_internal_dns network_name [] dns_mapping = dns_mapping
setup_internal_dns network_name (service ∷ services) dns_mapping =
    let name = service_name_of service in
    setup_internal_dns network_name services
      (put name (name ++ "." ++ network_name ++ ".internal") dns_mapping)
