-- ===== src/Config/Laws.antt =====
-- When a configuration is built, and what it holds.
use gpu_provisioner.Base.{◌≡◌, ◌≢◌, Bool, false, []}
use gpu_provisioner.Base.Text.{codes}
use gpu_provisioner.Base.Result.{Result, ok, ◌>>=◌}
use gpu_provisioner.Config.{Config, Env, getenv, trimmed, validate}

-- What is read from the environment. The location and the identity are not trimmed.
abbrev pub read : Env → Bool → Config
read env enabled = record {
  location = getenv env (codes "LOCATION");
  tenant_id = trimmed (getenv env (codes "AZURE_TENANT_ID"));
  subscription_id = trimmed (getenv env (codes "ARM_SUBSCRIPTION_ID"));
  resource_group = trimmed (getenv env (codes "ARM_RESOURCE_GROUP"));
  user_assigned_identity_id = getenv env (codes "AZURE_CLIENT_ID");
  cluster_name = trimmed (getenv env (codes "AZURE_CLUSTER_NAME"));
  node_resource_group = trimmed (getenv env (codes "AZURE_NODE_RESOURCE_GROUP"));
  enable_dynamic_sku_cache = enabled;
  enable_detailed_cse_message = false;
  enable_force_delete = false;
  enable_get_vmss = false;
  get_vmss_size_refresh_period = 0;
  enable_partial_scaling = false;
}

abbrev pub IsBuilt : Env → Result Bool → Config → Type 0
IsBuilt env r cfg =
    (enabled : Bool) × (r ≡ ok enabled)
    × (cfg ≡ read env enabled)
    × (trimmed (getenv env (codes "ARM_SUBSCRIPTION_ID")) ≢ [])
    × (trimmed (getenv env (codes "AZURE_TENANT_ID")) ≢ [])
    × (trimmed (getenv env (codes "AZURE_NODE_RESOURCE_GROUP")) ≢ [])

abbrev built : Env → Result Bool → Result Config
built env r = r >>= λ enabled. validate (read env enabled) >>= λ _. ok (read env enabled)
