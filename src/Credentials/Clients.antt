-- ===== src/Credentials/Clients.antt =====
-- pkg/providers/instance/azure_client.go and pkg/utils/opts/armopts.go: the clients of the Azure SDK.
pub mod Laws
use gpu_provisioner.Base.{
  ℕ, ◌≡◌, Bool, true, false, Option, none, some, List, [], ◌∷◌, ◌++◌, if◌then◌else◌,
}
use gpu_provisioner.Base.Text.{Bytes, codes}
use gpu_provisioner.Base.Dict.{Dict, insert}
use gpu_provisioner.Base.Result.{Result, ok, err, panic, out_of_fuel, deref}
use gpu_provisioner.Base.Effect.{M, ◌>>=◌, lift, pure}
use gpu_provisioner.Config.{Config, Env, ClientConfig, with_default_bool, get_azure_client_config}
use gpu_provisioner.Credentials.{
  System, Confidential, ClientAssertionCredential, Heap, Pem, AuthResult, new_authorizer,
  new_credential,
}

abbrev pub rp_referer : Bytes
rp_referer = codes "rp.e2e.ig.e2e-aks.azure.com"

-- `http.Header`, as `PolicySetHeaders`
abbrev pub PolicySetHeaders : Type 0
PolicySetHeaders = Dict (List Bytes)

-- `Do`: the headers of the policy go over those of the request.
unfoldable pub set_headers : PolicySetHeaders → Dict (List Bytes) → Dict (List Bytes)
unfolding insert
set_headers [] header = header
set_headers ((k, v) ∷ p) header = set_headers p (insert k v header)

-- `cloud.ServiceConfiguration`
pub record ServiceConfiguration : Type 0 where
  pub audience : Bytes
  pub endpoint : Bytes

-- The fields of `arm.ClientOptions` that are set. A map of Go may be nil.
pub record ClientOptions : Type 0 where
  pub per_call_policies : List PolicySetHeaders
  pub services : Option (Dict ServiceConfiguration)
  pub application_id : Bytes
  pub max_retries : ℕ
  pub retry_delay : ℕ
  pub has_transport : Bool

-- `GetUserAgentExtension`, of the version that is set when the program is built
unfoldable pub get_user_agent_extension : Bytes → Bytes
get_user_agent_extension version = codes "gpu-provisioner-aks/v" ++ version

abbrev pub empty_options : ClientOptions
empty_options = record {
  per_call_policies = [];
  services = none;
  application_id = [];
  max_retries = 0;
  retry_delay = 0;
  has_transport = false;
}

-- Delays are in milliseconds.
unfoldable pub default_arm_opts : Bytes → ClientOptions
unfolding get_user_agent_extension
default_arm_opts version = record empty_options {
  application_id = get_user_agent_extension version;
  max_retries = 20;
  retry_delay = 5000;
  has_transport = true;
}

-- `maps.Clone`: the clone of a nil map is nil.
abbrev pub clone_map {ℓ} : {V : Type ℓ} → Option (Dict V) → Option (Dict V)
clone_map none = none
clone_map (some m) = some m

-- `m[k] = v` panics where the map is nil.
abbrev pub put {ℓ} : {V : Type ℓ} → Bytes → V → Option (Dict V) → Result (Dict V)
put k v none = panic
put k v (some m) = ok (insert k v m)

abbrev pub resource_manager : Bytes
resource_manager = codes "resourceManager"

abbrev pub with_services :
    List PolicySetHeaders → Result (Dict ServiceConfiguration) → Result ClientOptions
with_services policies (ok services) =
    ok (record empty_options { per_call_policies = policies; services = some services })
with_services policies (err e) = err e
with_services policies panic = panic
with_services policies out_of_fuel = out_of_fuel

-- By a new identifier for the requests, and the audience of the resource manager in the public cloud.
unfoldable pub set_arm_client_options : (uuid audience : Bytes) → Result ClientOptions
set_arm_client_options uuid audience =
    with_services
      (((codes "Referer", rp_referer ∷ []) ∷ [])
        ∷ ((codes "x-ms-correlation-request-id", uuid ∷ []) ∷ [])
        ∷ [])
      (put resource_manager
        (record { audience = audience; endpoint = codes "https://" ++ rp_referer })
        (clone_map empty_options.services))

-- The clients of the Azure SDK, package uuid, and two constants of the public cloud.
pub record Sdk (W Pointer : Type 0) : Type 1 where
  pub AgentPoolsClient : Type 0
  pub InterfacesClient : Type 0
  pub SkuClient : Type 0
  pub new_agent_pools_client : Bytes → Pointer → ClientOptions → Result AgentPoolsClient
  pub new_interfaces_client : Bytes → Pointer → ClientOptions → Result InterfacesClient
  pub new_resource_skus_client : Bytes → SkuClient
  pub with_authorizer : AuthResult → SkuClient → SkuClient
  pub new_uuid : W → Bytes × W
  pub public_endpoint : Bytes
  pub public_audience : Bytes

pub record AzClient (AgentPoolsClient SkuClient : Type 0) : Type 0 where
  pub agent_pools_client : AgentPoolsClient
  pub sku_client : SkuClient

unfoldable pub new_az_client_from_api :
    {AgentPoolsClient SkuClient : Type 0}
    → AgentPoolsClient
    → SkuClient
    → AzClient AgentPoolsClient SkuClient
new_az_client_from_api pools skus = record { agent_pools_client = pools; sku_client = skus }

module _ {W : Type 0} (S : System W) (A : Confidential W)
    (H : Heap W (ClientAssertionCredential A.Client))
    (get_secret : AuthResult → (vault name : Bytes) → M W (Option Bytes)) (P : Pem)
    (key_pair : (cert key : Bytes) → Result A.Certificate) (K : Sdk W H.Pointer) (version : Bytes)
    (env : Env) where
  unfoldable pub e2e_options : M W ClientOptions
  unfolding set_arm_client_options
  e2e_options w = let (uuid, v) = K.new_uuid w in (set_arm_client_options uuid K.public_audience, v)

  abbrev pub arm_options : Bool → M W ClientOptions
  arm_options true = e2e_options
  arm_options false = pure (default_arm_opts version)

  -- from the agreement on the options on
  unfoldable pub make_clients :
      Config → AuthResult → H.Pointer → M W (AzClient K.AgentPoolsClient K.SkuClient)
  unfolding e2e_options with_default_bool default_arm_opts
  make_clients cfg authorizer cred = do
    opts ← arm_options (with_default_bool env (codes "E2E_TEST_MODE") false)
    pools ← lift (K.new_agent_pools_client cfg.subscription_id cred opts)
    interfaces ← lift (K.new_interfaces_client cfg.subscription_id cred opts)
    pure (record {
      agent_pools_client = pools;
      sku_client = K.with_authorizer authorizer (K.new_resource_skus_client cfg.subscription_id);
    })

  unfoldable pub client_config : Config → AuthResult → Bytes → ClientConfig AuthResult
  unfolding get_azure_client_config get_user_agent_extension
  client_config cfg authorizer endpoint = record (get_azure_client_config cfg authorizer endpoint) {
    user_agent = get_user_agent_extension version;
  }

  -- `GetAzureClientConfig` dereferences the configuration.
  unfoldable pub new_az_client :
      Option Config → Bytes → M W (AzClient K.AgentPoolsClient K.SkuClient)
  unfolding new_authorizer new_credential make_clients client_config
  new_az_client nullable endpoint = do
    authorizer ← new_authorizer S A env nullable endpoint
    cfg ← lift (deref nullable)
    let config = client_config cfg authorizer endpoint
    cred ← new_credential S A H get_secret P key_pair env nullable config.authorizer
    make_clients cfg config.authorizer cred

  unfoldable pub create_az_client : Option Config → M W (AzClient K.AgentPoolsClient K.SkuClient)
  unfolding new_az_client
  create_az_client cfg = new_az_client cfg K.public_endpoint
