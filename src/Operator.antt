-- ===== src/Operator.antt =====
-- pkg/operator/operator.go, and the constructors that it calls: how the providers are put together.
-- The controllers of Karpenter, the cluster and the clients of the SDK are parameters.
pub mod Laws
use gpu_provisioner.Base.{ℕ, ◌≡◌, Option, none, some, List, [], ◌∷◌}
use gpu_provisioner.Base.Text.{Bytes, codes}
use gpu_provisioner.Base.Dict.{Dict}
use gpu_provisioner.Base.Result.{Result, ok, err, panic, out_of_fuel, deref}
use gpu_provisioner.Base.Effect.{M, ◌>>=◌, continue, lift, pure}
use gpu_provisioner.Config.{Config, Env, build_azure_config}
use gpu_provisioner.Credentials.{
  System, Confidential, ClientAssertionCredential, Heap, Pem, AuthResult,
}
use gpu_provisioner.Credentials.Clients.{Sdk, AzClient, create_az_client}
use gpu_provisioner.Instance as Instances
use gpu_provisioner.InstanceTypes.Listing as Types
use gpu_provisioner.InstanceTypes.Listing.{Skewer, ValueCache, instance_types_cache_ttl}
use gpu_provisioner.InstanceTypes.Skus.{Sku}
use gpu_provisioner.Offerings.{
  Cache, UnavailableOfferings, new_unavailable_offerings, default_cleanup_interval,
}
use gpu_provisioner.Pricing as Prices
use gpu_provisioner.Pricing.{new_provider}

-- `NewProvider` of pkg/providers/instancetype
unfoldable pub new_instance_type_provider :
    {W Price Time Float : Type 0} {C : Cache W}
    → Bytes
    → ValueCache W (Dict (Sku Float))
    → Skewer W Float
    → (W → Prices.Provider Price Time)
    → UnavailableOfferings C
    → Types.Provider Price Time Float C
new_instance_type_provider region cache skewer pricing offerings = record {
  region = region;
  skewer = skewer;
  pricing_provider = pricing;
  unavailable_offerings = offerings;
  cache = cache;
}

-- `Provider` of pkg/providers/instance; `names` holds the fields that its operations read besides the
-- clients. The client of the cluster is left out.
pub record InstanceProvider {W : Type 0} (Price Time Float Client : Type 0) (C : Cache W)
    : Type 1 where
  pub az_client : Client
  pub instance_type_provider : Types.Provider Price Time Float C
  pub names : Instances.Provider
  pub unavailable_offerings : UnavailableOfferings C

-- `NewProvider` of pkg/providers/instance
unfoldable pub new_instance_provider :
    {W Price Time Float Client : Type 0} {C : Cache W}
    → Client
    → Types.Provider Price Time Float C
    → UnavailableOfferings C
    → (resource_group node_resource_group cluster_name : Bytes)
    → InstanceProvider Price Time Float Client C
new_instance_provider az_client types offerings resource_group node_resource_group cluster_name =
    record {
      az_client = az_client;
      instance_type_provider = types;
      names = record {
        resource_group = resource_group;
        node_resource_group = node_resource_group;
        cluster_name = cluster_name;
      };
      unavailable_offerings = offerings;
    }

-- `Operator`, less the embedded operator of Karpenter.
pub record Operator {W : Type 0} (Price Time Float Client PricingPointer : Type 0) (C : Cache W)
    : Type 1 where
  pub unavailable_offerings_cache : UnavailableOfferings C
  pub pricing_provider : PricingPointer
  pub instance_types_provider : Types.Provider Price Time Float C
  pub instance_provider : InstanceProvider Price Time Float Client C

unfoldable pub get_az_config : Env → Result Config
unfolding build_azure_config
get_az_config env = elim (build_azure_config env) [
  | ok cfg ↦ ok cfg
  | err e ↦ err e
  | panic ↦ panic
  | out_of_fuel ↦ out_of_fuel
]

-- An error is logged, and its nil configuration stays in use.
abbrev pub or_nil : Result Config → Result (Option Config)
or_nil (ok cfg) = ok (some cfg)
or_nil (err e) = ok none
or_nil panic = panic
or_nil out_of_fuel = out_of_fuel

-- An error ends the program by a panic.
abbrev pub or_panic : {W A : Type 0} → Result A × W → Result A × W
or_panic (ok a, w) = (ok a, w)
or_panic (err e, w) = (panic, w)
or_panic (panic, w) = (panic, w)
or_panic (out_of_fuel, w) = (out_of_fuel, w)

-- What the operator gets from elsewhere: the static prices and their time, the pricing providers on the
-- heap, `cache.New`, and package skewer over the client for sizes.
pub record Surroundings (W Price Time Float SkuClient : Type 0) : Type 1 where
  pub prices : Heap W (Prices.Provider Price Time)
  pub initial_on_demand_prices : Dict (Dict Price)
  pub initial_price_update : Time
  pub new_cache : (ttl interval : ℕ) → ValueCache W (Dict (Sku Float))
  pub skewer : SkuClient → Skewer W Float

module _ {W Price Time Float : Type 0} (C : Cache W) (S : System W) (A : Confidential W)
    (H : Heap W (ClientAssertionCredential A.Client))
    (get_secret : AuthResult → (vault name : Bytes) → M W (Option Bytes)) (P : Pem)
    (key_pair : (cert key : Bytes) → Result A.Certificate) (K : Sdk W H.Pointer) (version : Bytes)
    (env : Env) (E : Surroundings W Price Time Float K.SkuClient) where
  abbrev pub Client : Type 0
  Client = AzClient K.AgentPoolsClient K.SkuClient

  unfoldable pub operator_of :
      Config
      → Client
      → UnavailableOfferings C
      → E.prices.Pointer
      → Operator Price Time Float Client E.prices.Pointer C
  unfolding new_instance_provider new_instance_type_provider
  operator_of cfg client offerings pricing =
      let types =
        new_instance_type_provider cfg.location
          (E.new_cache instance_types_cache_ttl default_cleanup_interval)
          (E.skewer client.sku_client) (E.prices.load pricing) offerings in
      record {
        unavailable_offerings_cache = offerings;
        pricing_provider = pricing;
        instance_types_provider = types;
        instance_provider =
            new_instance_provider client types offerings cfg.resource_group cfg.node_resource_group
              cfg.cluster_name;
      }

  abbrev pub new_offerings : M W (UnavailableOfferings C)
  new_offerings w = let (offerings, v) = new_unavailable_offerings C w in (ok offerings, v)

  abbrev pub new_pricing_provider : Bytes → M W E.prices.Pointer
  new_pricing_provider region w =
      let (p, v) =
        E.prices.alloc (new_provider E.initial_on_demand_prices E.initial_price_update region) w in
      (ok p, v)

  -- from the client on; `azConfig.Location` dereferences the configuration
  abbrev pub finish :
      Option Config → Client → M W (Operator Price Time Float Client E.prices.Pointer C)
  finish az_config client = do
    offerings ← new_offerings
    cfg ← lift (deref az_config)
    pricing ← new_pricing_provider cfg.location
    pure (operator_of cfg client offerings pricing)

  abbrev pub create_client : Option Config → M W Client
  create_client az_config w =
      or_panic (create_az_client S A H get_secret P key_pair K version env az_config w)

  unfoldable pub new_operator : M W (Operator Price Time Float Client E.prices.Pointer C)
  unfolding get_az_config create_az_client operator_of new_provider new_unavailable_offerings
  new_operator = do
    az_config ← lift (or_nil (get_az_config env))
    client ← create_client az_config
    finish az_config client
