-- ===== src/Config.antt =====
-- pkg/auth/config.go: the configuration, read from the environment.
pub mod Laws
use gpu_provisioner.Base.{
  ℕ, Bool, true, false, ◌||◌, Option, none, some, List, [], ◌∷◌, ◌++◌, if◌then◌else◌, ◌==◌, leb,
  ◌&&◌,
}
use gpu_provisioner.Base.Text.{Bytes, codes, same}
use gpu_provisioner.Base.Result.{
  Err, Result, ok, err, wrapping, parsing_sku_cache, subscription_missing, tenant_missing,
  node_resource_group_missing, external, ◌>>=◌,
}

pub record ClientConfig (Authorizer : Type 0) : Type 0 where
  pub cloud_name : Bytes
  pub location : Bytes
  pub subscription_id : Bytes
  pub resource_manager_endpoint : Bytes
  pub authorizer : Authorizer
  pub user_agent : Bytes

pub record Config : Type 0 where
  pub location : Bytes
  pub tenant_id : Bytes
  pub subscription_id : Bytes
  pub resource_group : Bytes
  pub user_assigned_identity_id : Bytes
  pub cluster_name : Bytes
  pub node_resource_group : Bytes
  pub enable_dynamic_sku_cache : Bool
  pub enable_detailed_cse_message : Bool
  pub enable_force_delete : Bool
  pub enable_get_vmss : Bool
  pub get_vmss_size_refresh_period : ℕ
  pub enable_partial_scaling : Bool

abbrev pub empty_config : Config
empty_config = record {
  location = [];
  tenant_id = [];
  subscription_id = [];
  resource_group = [];
  user_assigned_identity_id = [];
  cluster_name = [];
  node_resource_group = [];
  enable_dynamic_sku_cache = false;
  enable_detailed_cse_message = false;
  enable_force_delete = false;
  enable_get_vmss = false;
  get_vmss_size_refresh_period = 0;
  enable_partial_scaling = false;
}

-- `os.Getenv` and `os.LookupEnv`: a variable that is not set is the empty text for the first.
abbrev pub Env : Type 0
Env = Bytes → Option Bytes

abbrev or_nothing : Option Bytes → Bytes
or_nothing none = []
or_nothing (some v) = v

abbrev pub getenv : Env → Bytes → Bytes
getenv env k = or_nothing (env k)

unfoldable is_any_of : Bytes → List Bytes → Bool
unfolding same
is_any_of s [] = false
is_any_of s (t ∷ ts) = same s t || is_any_of s ts

-- strconv.ParseBool
unfoldable pub parse_bool : Bytes → Result Bool
unfolding is_any_of
parse_bool s =
    if is_any_of s
      (codes "1" ∷ codes "t" ∷ codes "T" ∷ codes "TRUE" ∷ codes "true" ∷ codes "True" ∷ [])
    then ok true
    else if is_any_of s
        (codes "0" ∷ codes "f" ∷ codes "F" ∷ codes "FALSE" ∷ codes "false" ∷ codes "False" ∷ [])
    then ok false
    else err (external (codes "invalid syntax"))

-- `WithDefaultBool` of pkg/utils/utils.go
unfoldable pub with_default_bool : Env → Bytes → Bool → Bool
unfolding parse_bool
with_default_bool env k default = elim (env k) [
  | none ↦ default
  | some val ↦ elim (parse_bool val) [ ok b ↦ b | _ ↦ default ]
]

-- unicode.IsSpace, on ASCII
abbrev pub is_space : ℕ → Bool
is_space c = (c == 32) || (leb 9 c && leb c 13)

unfoldable trim_left : Bytes → Bytes
trim_left [] = []
trim_left (c ∷ s) = let rest = trim_left s in if is_space c then rest else c ∷ s

-- the text without the spaces at its end
abbrev cons_trimmed : ℕ → Bytes → Bytes
cons_trimmed c [] = if is_space c then [] else c ∷ []
cons_trimmed c (d ∷ s) = c ∷ d ∷ s

unfoldable trim_right : Bytes → Bytes
trim_right [] = []
trim_right (c ∷ s) = cons_trimmed c (trim_right s)

-- strings.TrimSpace
unfoldable pub trimmed : Bytes → Bytes
unfolding trim_left trim_right
trimmed s = trim_right (trim_left s)

unfoldable pub base_vars : Env → Config → Config
base_vars env cfg = record cfg {
  location = getenv env (codes "LOCATION");
  resource_group = getenv env (codes "ARM_RESOURCE_GROUP");
  tenant_id = getenv env (codes "AZURE_TENANT_ID");
  user_assigned_identity_id = getenv env (codes "AZURE_CLIENT_ID");
  cluster_name = getenv env (codes "AZURE_CLUSTER_NAME");
  node_resource_group = getenv env (codes "AZURE_NODE_RESOURCE_GROUP");
  subscription_id = getenv env (codes "ARM_SUBSCRIPTION_ID");
}

unfoldable pub trim_space : Config → Config
unfolding trimmed
trim_space cfg = record cfg {
  tenant_id = trimmed cfg.tenant_id;
  subscription_id = trimmed cfg.subscription_id;
  resource_group = trimmed cfg.resource_group;
  cluster_name = trimmed cfg.cluster_name;
  node_resource_group = trimmed cfg.node_resource_group;
}

abbrev pub required : Bytes → Err → Result (Unit {0})
required [] e = err e
required (_ ∷ _) e = ok tt

unfoldable pub validate : Config → Result (Unit {0})
validate cfg = do
  _ ← required cfg.subscription_id subscription_missing
  _ ← required cfg.tenant_id tenant_missing
  required cfg.node_resource_group node_resource_group_missing

abbrev pub dynamic_sku_cache_default : Bool
dynamic_sku_cache_default = false

-- The value of the variable is empty, or has to be a Boolean.
unfoldable pub sku_cache_enabled : Bytes → Result Bool
unfolding parse_bool
sku_cache_enabled [] = ok dynamic_sku_cache_default
sku_cache_enabled (c ∷ s) = wrapping (parsing_sku_cache (c ∷ s)) (parse_bool (c ∷ s))

unfoldable pub build_azure_config : Env → Result Config
unfolding base_vars trim_space validate sku_cache_enabled
build_azure_config env = do
  enabled ← sku_cache_enabled (getenv env (codes "AZURE_ENABLE_DYNAMIC_SKU_CACHE"))
  let cfg = trim_space (record (base_vars env empty_config) { enable_dynamic_sku_cache = enabled })
  _ ← validate cfg
  ok cfg

-- `env.ResourceManagerEndpoint` is the last argument.
unfoldable pub get_azure_client_config :
    {Authorizer : Type 0} → Config → Authorizer → Bytes → ClientConfig Authorizer
get_azure_client_config cfg authorizer endpoint = record {
  cloud_name = [];
  location = cfg.location;
  subscription_id = cfg.subscription_id;
  resource_manager_endpoint = endpoint;
  authorizer = authorizer;
  user_agent = [];
}
