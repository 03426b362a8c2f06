-- ===== src/Tests/Azure.antt =====
-- Examples for the credentials, the clients and the operator (pkg/auth, pkg/operator,
-- pkg/providers/instance/azure_client.go).
use gpu_provisioner.Base.{
  false, true, ℕ, ◌+◌, ◌≤◌, ◌<◌, length, ◌≡◌, refl, ap, Option, none, some, List, [], ◌∷◌, arith,
}
use gpu_provisioner.Base.Text.{Bytes, codes, same}
use gpu_provisioner.Base.Dict.{lookup}
use gpu_provisioner.Base.Result.{Err, external, Result, ok, err, panic, out_of_fuel}
use gpu_provisioner.Base.Effect.{M}
use gpu_provisioner.Config.{Env, build_azure_config, empty_config, with_default_bool}
use gpu_provisioner.Credentials.{
  PrivateKey, parsed_rsa, key_bytes, System, Token, Confidential, ClientAssertionCredential, Heap,
  Pem, AuthResult, split_pem_block, read_jwt_from_fs,
}
use gpu_provisioner.Credentials.Laws.{
  IsPem, IsRead, texts, certificate, private_key, split_pem_block_lem, IsHeap, IsFresh,
  read_jwt_from_fs-IsFresh,
}
use gpu_provisioner.Credentials.Clients.{Sdk, new_az_client}
use gpu_provisioner.Credentials.Clients.Laws.{IsConfidential, new_az_client-e2e}
use gpu_provisioner.Offerings.{Cache}
use gpu_provisioner.Operator.{Operator, Surroundings, Client, get_az_config, new_operator}
use gpu_provisioner.Operator.Laws.{IsOutcome, new_operator_lem}
use gpu_provisioner.Pricing as Prices

-- The world: the time, and the one credential that there is.
abbrev World : Type 0
World = ℕ × ClientAssertionCredential (Unit {0})

-- Looking at the clock takes a millisecond.
abbrev system : System World
system = record { now = λ (t, c). (t, (t + 1, c)); read_file = λ path w. (ok (codes "jwt"), w) }

abbrev token : Token
token = record {
  access_token = codes "token";
  expires_on = 9;
  granted_scopes = [];
  declined_scopes = [];
}

abbrev no_rsa_key : Err
no_rsa_key = external (codes "no RSA key")

abbrev rsa_only : PrivateKey → Result (Unit {0})
rsa_only (parsed_rsa n) = ok tt
rsa_only (key_bytes s) = err no_rsa_key

abbrev confidential : Confidential World
confidential = record {
  Credential = Unit {0};
  Client = Unit {0};
  Certificate = Bytes;
  from_callback = λ f. tt;
  from_cert = λ cert key. rsa_only key;
  new = λ authority client_id credential w. (ok tt, w);
  acquire_token = λ client scopes w. (ok token, w);
}

abbrev heap : Heap World (ClientAssertionCredential (Unit {0}))
heap = record {
  Pointer = Unit {0};
  alloc = λ x (t, c). (tt, (t, x));
  load = λ p (t, c). c;
  store = λ p x (t, c). (t, x);
}

heap-IsHeap : IsHeap system heap
heap-IsHeap = record { load_store = λ p x w. refl; load_now = λ p w. refl }

abbrev credential : (assertion : Bytes) (last_read : ℕ) → ClientAssertionCredential (Unit {0})
credential assertion last_read = record {
  assertion = assertion;
  file = codes "/var/run/token";
  client = none;
  last_read = last_read;
}

-- The first call reads the file.
abbrev first_world : World
first_world = (1000000, credential [] 0)

abbrev second_world : World
second_world = (1000001, credential (codes "jwt") 1000000)

first_call :
    read_jwt_from_fs system confidential heap tt first_world ≡ (ok (codes "jwt"), second_world)
unfolding read_jwt_from_fs
first_call = refl

read_jwt_from_fs-IsFresh_example :
    IsFresh system confidential heap tt 1000000 second_world (codes "jwt")
    × ((u : World)
        → u.1 ≡ credential (codes "jwt") 1000000
        → u.0 ≤ 1300000
        → read_jwt_from_fs system confidential heap tt u ≡ (ok (codes "jwt"), (system.now u).1))
read_jwt_from_fs-IsFresh_example =
    read_jwt_from_fs-IsFresh system confidential heap heap-IsHeap tt (codes "jwt") first_world
      second_world first_call

-- The whole text is one certificate.
abbrev decode : Bytes → Option Bytes × Bytes
decode [] = (none, [])
decode (b ∷ s) = (some (b ∷ s), [])

abbrev pem : Pem
pem = record {
  Block = Bytes;
  block_type = λ block. codes "CERTIFICATE";
  decode = decode;
  encode = λ block. block;
}

pem-IsPem : IsPem pem
pem-IsPem = shorter
  where
    shorter : (s block rest : Bytes) → decode s ≡ (some block, rest) → length rest < length s
    shorter [] block rest e = cc
    shorter (b ∷ s) block rest e =
        let empty : [] ≡ rest = ap (λ (x : Option Bytes × Bytes). x.1) e in
        omega (arith, ap length empty)

split_pem_block_lem_example :
    (bs : List Bytes) × IsRead pem (pem.decode (codes "cert")) bs
    × (split_pem_block pem (codes "cert") ≡ ok (texts pem certificate bs, texts pem private_key bs))
split_pem_block_lem_example = split_pem_block_lem pem pem-IsPem (codes "cert")

abbrev vault : AuthResult → (vault_name name : Bytes) → M World (Option Bytes)
vault authorizer url name w = (ok (some (codes "cert")), w)

abbrev env : Env
env k = lookup k (
    (codes "E2E_TEST_MODE", codes "true")
    ∷ (codes "AZURE_FEDERATED_TOKEN_FILE", codes "/var/run/token")
    ∷ (codes "AZURE_AUTHORITY_HOST", codes "https://login/")
    ∷ (codes "AKS_E2E_OVERLAY_RESOURCE_VERSION", codes "7")
    ∷ [])

abbrev sdk : Sdk World (Unit {0})
sdk = record {
  AgentPoolsClient = Unit {0};
  InterfacesClient = Unit {0};
  SkuClient = Unit {0};
  new_agent_pools_client = λ id cred opts. ok tt;
  new_interfaces_client = λ id cred opts. ok tt;
  new_resource_skus_client = λ id. tt;
  with_authorizer = λ authorizer client. client;
  new_uuid = λ w. (codes "uuid", w);
  public_endpoint = codes "https://management/";
  public_audience = codes "audience";
}

abbrev pair : (cert key : Bytes) → Result Bytes
pair cert key = ok cert

in_e2e : with_default_bool env (codes "E2E_TEST_MODE") false ≡ true
unfolding with_default_bool lookup codes
in_e2e = refl

confidential-IsConfidential : IsConfidential confidential
confidential-IsConfidential = record { bytes_refused = λ cert key. (no_rsa_key, refl) }

new_az_client-e2e_example : ¬ (
    (new_az_client system confidential heap vault pem pair sdk
      (codes "1")
      env
      (some empty_config)
      (codes "https://management/")
      first_world).0
    ≡ ok (record { agent_pools_client = tt; sku_client = tt }))
new_az_client-e2e_example =
    new_az_client-e2e system confidential heap vault pem pair sdk (codes "1") env
      confidential-IsConfidential in_e2e (some empty_config) (codes "https://management/")
      first_world (record { agent_pools_client = tt; sku_client = tt })

abbrev offerings : Cache World
offerings = record {
  Handle = Unit {0};
  make = λ ttl interval w. (tt, w);
  found = λ h k w. false;
  set_default = λ h k w. w;
  flush = λ h w. w;
}

abbrev surroundings : Surroundings World ℕ ℕ ℕ (Unit {0})
surroundings = record {
  prices = record {
    Pointer = Prices.Provider ℕ ℕ;
    alloc = λ p w. (p, w);
    load = λ p w. p;
    store = λ p x w. w;
  };
  initial_on_demand_prices = [];
  initial_price_update = 0;
  new_cache = λ ttl interval. record { get = λ k w. none; set_default = λ k v w. w };
  skewer = λ client. record {
    SkuCache = Unit {0};
    new_cache = λ region w. (ok tt, w);
    list_virtual_machines = λ cache. [];
  };
}

-- An environment with all that is read.
abbrev configured : Env
configured k = lookup k (
    (codes "LOCATION", codes "westus")
    ∷ (codes "AZURE_TENANT_ID", codes "tenant")
    ∷ (codes "ARM_SUBSCRIPTION_ID", codes "1")
    ∷ (codes "AZURE_CLIENT_ID", codes "id")
    ∷ (codes "AZURE_NODE_RESOURCE_GROUP", codes "nodes")
    ∷ (codes "ARM_RESOURCE_GROUP", codes "rg")
    ∷ (codes "AZURE_CLUSTER_NAME", codes "cluster")
    ∷ (codes "AZURE_FEDERATED_TOKEN_FILE", codes "/var/run/token")
    ∷ (codes "AZURE_AUTHORITY_HOST", codes "https://login/")
    ∷ [])

abbrev region_of :
    Result (
        Operator ℕ ℕ ℕ
          (Client offerings system confidential heap vault pem pair sdk
            (codes "1")
            configured
            surroundings)
          (Prices.Provider ℕ ℕ)
          offerings)
      × World
    → Option Bytes
region_of (ok op, w) = some op.instance_types_provider.region
region_of (err e, w) = none
region_of (panic, w) = none
region_of (out_of_fuel, w) = none

makes_operator :
    region_of (
      new_operator offerings system confidential heap vault pem pair sdk
        (codes "1")
        configured
        surroundings
        first_world)
    ≡ some (codes "westus")
unfolding new_operator get_az_config build_azure_config lookup codes same
makes_operator = refl

new_operator_lem_example :
    IsOutcome offerings system confidential heap vault pem pair sdk
      (codes "1")
      configured
      surroundings
      (new_operator offerings system confidential heap vault pem pair sdk
        (codes "1")
        configured
        surroundings
        first_world)
    × ((e : Err)
        → build_azure_config configured ≡ err e
        → new_operator offerings system confidential heap vault pem pair sdk
            (codes "1")
            configured
            surroundings
            first_world
          ≡ (panic, first_world))
new_operator_lem_example =
    new_operator_lem offerings system confidential heap vault pem pair sdk (codes "1") configured
      surroundings first_world
