-- ===== src/Operator/Laws.antt =====
-- Which operator there is, and when there is none.
use gpu_provisioner.Base.{◌≡◌, ◌∙◌, ◌||◌, Bool-cases, inl, inr, refl, ap, Option, none, some}
use gpu_provisioner.Base.Text.{Bytes}
use gpu_provisioner.Base.Result.{Err, Result, ok, err, panic, out_of_fuel}
use gpu_provisioner.Base.Effect.{M, continue}
use gpu_provisioner.Config.{Config, Env, build_azure_config}
use gpu_provisioner.Credentials.{
  System, Confidential, ClientAssertionCredential, Heap, Pem, AuthResult, token_file,
  authority_host, is_empty, new_authorizer,
}
use gpu_provisioner.Credentials.Clients.{Sdk, create_az_client, new_az_client}
use gpu_provisioner.Offerings.{Cache}
use gpu_provisioner.Operator.{
  Operator, Surroundings, Client, or_nil, or_panic, get_az_config, operator_of,
  new_instance_provider, new_instance_type_provider, finish, create_client, new_operator,
}

module _ {W Price Time Float : Type 0} (C : Cache W) (S : System W) (A : Confidential W)
    (H : Heap W (ClientAssertionCredential A.Client))
    (get_secret : AuthResult → (vault name : Bytes) → M W (Option Bytes)) (P : Pem)
    (key_pair : (cert key : Bytes) → Result A.Certificate) (K : Sdk W H.Pointer) (version : Bytes)
    (env : Env) (E : Surroundings W Price Time Float K.SkuClient) where
  -- The names and the region are those of a configuration that was read.
  abbrev pub IsConfigured :
      Operator Price Time Float
        (Client C S A H get_secret P key_pair K version env E)
        E.prices.Pointer
        C
      → Type 0
  IsConfigured op =
      (cfg : Config) × (build_azure_config env ≡ ok cfg)
      × (op.instance_provider.names.resource_group ≡ cfg.resource_group)
      × (op.instance_provider.names.node_resource_group ≡ cfg.node_resource_group)
      × (op.instance_provider.names.cluster_name ≡ cfg.cluster_name)
      × (op.instance_types_provider.region ≡ cfg.location)
      × (op.instance_types_provider.unavailable_offerings ≡ op.unavailable_offerings_cache)
      × (op.instance_provider.unavailable_offerings ≡ op.unavailable_offerings_cache)
      × (op.instance_provider.instance_type_provider.unavailable_offerings
          ≡ op.unavailable_offerings_cache)

  abbrev pub IsOutcome :
      Result (
          Operator Price Time Float
            (Client C S A H get_secret P key_pair K version env E)
            E.prices.Pointer
            C)
        × W
      → Type 0
  IsOutcome (ok op, w) = IsConfigured op
  IsOutcome (err e, w) = ⊥
  IsOutcome (panic, w) = Unit
  IsOutcome (out_of_fuel, w) = Unit

  -- the clients of a nil configuration
  create_client-none :
      (w : W) → create_client C S A H get_secret P key_pair K version env E none w ≡ (panic, w)
  unfolding create_az_client new_az_client new_authorizer
  create_client-none w =
      elim (Bool-cases (is_empty (token_file env) || is_empty (authority_host env))) [
        | inl e ↦ rw e refl
        | inr e ↦ rw e refl
      ]

  get_az_config_lem : get_az_config env ≡ build_azure_config env
  unfolding get_az_config
  get_az_config_lem = by_result (build_azure_config env)
    where
      by_result :
          (r : Result Config)
          → elim r as (λ _. Result Config) [
            | ok cfg ↦ ok cfg
            | err e ↦ err e
            | panic ↦ panic
            | out_of_fuel ↦ out_of_fuel
          ]
            ≡ r
      by_result (ok cfg) = refl
      by_result (err e) = refl
      by_result panic = refl
      by_result out_of_fuel = refl

  finish-IsOutcome :
      (cfg : Config) (client : Client C S A H get_secret P key_pair K version env E) (w : W)
      → build_azure_config env ≡ ok cfg
      → IsOutcome (finish C S A H get_secret P key_pair K version env E (some cfg) client w)
  unfolding operator_of new_instance_provider new_instance_type_provider
  finish-IsOutcome cfg client w e = (cfg, e, refl, refl, refl, refl, refl, refl, refl)

  by_client :
      (cfg : Config)
      → build_azure_config env ≡ ok cfg
      → (x : Result (Client C S A H get_secret P key_pair K version env E) × W)
      → IsOutcome
          (continue (or_panic x) (finish C S A H get_secret P key_pair K version env E (some cfg)))
  by_client cfg e (ok client, w) = finish-IsOutcome cfg client w e
  by_client cfg e (err x, w) = tt
  by_client cfg e (panic, w) = tt
  by_client cfg e (out_of_fuel, w) = tt

  abbrev behind_config :
      Result Config
      → W
      → Result (
          Operator Price Time Float
            (Client C S A H get_secret P key_pair K version env E)
            E.prices.Pointer
            C)
        × W
  behind_config r w =
      continue (or_nil r, w)
        λ az_config v.
          continue (create_client C S A H get_secret P key_pair K version env E az_config v)
            (finish C S A H get_secret P key_pair K version env E az_config)

  behind_none : (e : Err) (w : W) → behind_config (err e) w ≡ (panic, w)
  behind_none e w =
      ap
        (λ (x : Result (Client C S A H get_secret P key_pair K version env E) × W).
          continue x (finish C S A H get_secret P key_pair K version env E none))
        (create_client-none w)

  by_config :
      (r : Result Config) (w : W) → build_azure_config env ≡ r → IsOutcome (behind_config r w)
  by_config (ok cfg) w e =
      by_client cfg e (create_az_client S A H get_secret P key_pair K version env (some cfg) w)
  by_config (err x) w e = rw (behind_none x w) tt
  by_config panic w e = tt
  by_config out_of_fuel w e = tt

  -- `NewOperator` returns no error: where it returns an operator, its region and its names are those of
  -- the configuration that was read from the environment; the operator, the instance type provider and
  -- the instance provider hold the same one cache of unavailable offerings. Where the configuration cannot be read, it
  -- panics before any service is called.
  pub new_operator_lem :
      (w : W)
      → IsOutcome (new_operator C S A H get_secret P key_pair K version env E w)
        × ((e : Err)
            → build_azure_config env ≡ err e
            → new_operator C S A H get_secret P key_pair K version env E w ≡ (panic, w))
  unfolding new_operator
  new_operator_lem w =
      let same_config : behind_config (get_az_config env) w
          ≡ behind_config (build_azure_config env) w =
        ap (λ (r : Result Config). behind_config r w) get_az_config_lem in
      (
        rw same_config (by_config (build_azure_config env) w refl),
        λ e failed.
            same_config ∙ ap (λ (r : Result Config). behind_config r w) failed ∙ behind_none e w,
      )
