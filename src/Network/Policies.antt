-- ===== src/Network/Policies.antt =====
-- `NetworkPolicyManager`, `ServiceMeshManager` and `CDNManager` of
-- src/networking_advanced/network_manager.py. Applying a policy and invalidating a cache only log.
-- The rules, labels and dates of a policy, which nothing reads, are left out.
use disposable_compute_platf.Prelude.{ℕ, String, Bool, true, false, none, some, List, if◌then◌else◌}
use disposable_compute_platf.Prelude.Dict.{Dict, get, put, del, is_some}

pub record NetworkPolicy : Type 0 where
  pub id : String
  pub name : String
  pub description : String
  pub enabled : Bool

unfoldable pub create_policy : Dict NetworkPolicy → NetworkPolicy → Dict NetworkPolicy
create_policy policies policy = put policy.id policy policies

unfoldable pub update_policy :
    Dict NetworkPolicy → String → NetworkPolicy → Dict NetworkPolicy × Bool
update_policy policies policy_id policy =
    if is_some (get policy_id policies)
    then (put policy_id policy policies, true)
    else (policies, false)

unfoldable pub delete_policy : Dict NetworkPolicy → String → Dict NetworkPolicy × Bool
delete_policy policies policy_id =
    if is_some (get policy_id policies) then (del policy_id policies, true) else (policies, false)

-- A policy that is not enabled is skipped, with the same answer.
unfoldable pub apply_policy_to_pod : Dict NetworkPolicy → String → String → Bool
apply_policy_to_pod policies pod_id policy_id = is_some (get policy_id policies)

pub record ServiceMeshConfig : Type 0 where
  pub mtls : Bool
  pub tracing : Bool
  pub circuit_breaker : Bool
  pub rate_limiting : Bool
  pub traffic_encryption : String

unfoldable pub configure_mesh :
    Dict ServiceMeshConfig → String → ServiceMeshConfig → Dict ServiceMeshConfig
configure_mesh configs service_id config = put service_id config configs

unfoldable pub enable_mtls : Dict ServiceMeshConfig → String → Dict ServiceMeshConfig
enable_mtls configs service_id = elim (get service_id configs) [
  | some config ↦ put service_id (record config { mtls = true }) configs
  | none ↦
      put service_id
        (record {
          mtls = true;
          tracing = false;
          circuit_breaker = false;
          rate_limiting = false;
          traffic_encryption = "strict";
        })
        configs
]

unfoldable pub enable_tracing : Dict ServiceMeshConfig → String → Dict ServiceMeshConfig
enable_tracing configs service_id = elim (get service_id configs) [
  | some config ↦ put service_id (record config { tracing = true }) configs
  | none ↦
      put service_id
        (record {
          mtls = false;
          tracing = true;
          circuit_breaker = false;
          rate_limiting = false;
          traffic_encryption = "none";
        })
        configs
]

pub record CdnConfig : Type 0 where
  pub enabled : Bool
  pub provider : String
  pub cache_ttl : ℕ
  pub allowed_origins : List String
  pub compression_enabled : Bool

unfoldable pub configure_cdn : Dict CdnConfig → String → CdnConfig → Dict CdnConfig
configure_cdn configs service_id config = put service_id config configs
