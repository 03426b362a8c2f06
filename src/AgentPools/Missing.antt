-- ===== src/AgentPools/Missing.antt =====
-- The answer of the agent pool service for a pool that is not there.
use gpu_provisioner.Base.{◌≡◌, true}
use gpu_provisioner.Base.Text.{codes, same_iff, same_refl}
use gpu_provisioner.Base.Result.{
  Context, Err, response, external, wrap, response_code, name_too_long, no_instance_type,
  node_missing, no_agent_pools, instance_missing, pool_name_mismatch, sub_id_mismatch,
  subscription_missing, tenant_missing, node_resource_group_missing, status_code, no_prices,
  machine_not_found, create_calls_exceeded, federation_missing, nil_config, overlay_version_missing,
  malformed_cert,
}
use gpu_provisioner.AgentPools.{is_not_found}

-- A `ResponseError` with the code `NotFound`, with any errors wrapped around it.
pub data IsNotFound : Err → Type 0 where
  answered : IsNotFound (response (codes "NotFound"))
  wrapped : {c : Context} {e : Err} → IsNotFound e → IsNotFound (wrap c e)

pub is_not_found-of : {e : Err} → IsNotFound e → is_not_found e ≡ true
unfolding is_not_found response_code
is_not_found-of answered = same_refl (codes "NotFound")
is_not_found-of (wrapped m) = is_not_found-of m

pub IsNotFound-of : (e : Err) → is_not_found e ≡ true → IsNotFound e
unfolding is_not_found response_code
IsNotFound-of (response code) h =
    let eq : code ≡ codes "NotFound" = (same_iff code (codes "NotFound")).0 h in rw eq answered
IsNotFound-of (wrap c e) h = wrapped (IsNotFound-of e h)
IsNotFound-of (external s) h = cc
IsNotFound-of (name_too_long n s) h = cc
IsNotFound-of no_instance_type h = cc
IsNotFound-of node_missing h = cc
IsNotFound-of no_agent_pools h = cc
IsNotFound-of instance_missing h = cc
IsNotFound-of (pool_name_mismatch s) h = cc
IsNotFound-of (sub_id_mismatch s) h = cc
IsNotFound-of subscription_missing h = cc
IsNotFound-of tenant_missing h = cc
IsNotFound-of node_resource_group_missing h = cc
IsNotFound-of (status_code n) h = cc
IsNotFound-of no_prices h = cc
IsNotFound-of (machine_not_found s) h = cc
IsNotFound-of create_calls_exceeded h = cc
IsNotFound-of (federation_missing s t) h = cc
IsNotFound-of nil_config h = cc
IsNotFound-of overlay_version_missing h = cc
IsNotFound-of malformed_cert h = cc
