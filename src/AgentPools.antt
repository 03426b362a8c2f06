-- ===== src/AgentPools.antt =====
-- The agent pool service of Azure as pkg/providers/instance/azure_client.go declares it, and the calls
-- of pkg/providers/instance/armutils.go. The service is a parameter.
pub mod Laws
pub mod Store
pub mod Missing
use gpu_provisioner.Base.{
  ℕ, zero, suc, Bool, true, false, Option, none, some, List, [], ◌∷◌, ◌++◌, if◌then◌else◌,
}
use gpu_provisioner.Base.Text.{Bytes, codes, same}
use gpu_provisioner.Base.Dict.{Dict}
use gpu_provisioner.Base.Result.{Err, Result, ok, err, panic, out_of_fuel, response_code}
use gpu_provisioner.Base.Effect.{M, pure, fail, continue, ◌>>=◌, ◌>>◌}

-- `ManagedClusterAgentPoolProfileProperties`; an `int32` is given by its 32 bits.
pub record PoolProperties : Type 0 where
  pub node_labels : Dict (Option Bytes)
  pub node_taints : List (Option Bytes)
  pub pool_type : Option Bytes
  pub vm_size : Option Bytes
  pub os_type : Option Bytes
  pub count : Option ℕ
  pub os_disk_size_gb : Option ℕ
  pub vnet_subnet_id : Option Bytes
  pub tags : Dict (Option Bytes)
  pub provisioning_state : Option Bytes

pub record AgentPool : Type 0 where
  pub id : Option Bytes
  pub name : Option Bytes
  pub properties : Option PoolProperties

-- `AgentPoolsAPI`: resource group, cluster and pool name, in the order of the calls.
pub record AgentPoolsApi (W : Type 0) : Type 1 where
  pub CreatePoller : Type 0
  pub DeletePoller : Type 0
  pub Pager : Type 0
  pub begin_create_or_update : Bytes → Bytes → Bytes → AgentPool → M W CreatePoller
  pub created : CreatePoller → M W AgentPool
  pub get : Bytes → Bytes → Bytes → M W AgentPool
  pub begin_delete : Bytes → Bytes → Bytes → M W DeletePoller
  pub deleted : DeletePoller → M W (Unit {0})
  pub new_list_pager : Bytes → Bytes → Pager
  pub more : Pager → Bool
  pub next_page : Pager → M W (List (Option AgentPool) × Pager)

-- `azErr != nil && azErr.ErrorCode == "NotFound"`
unfoldable pub is_not_found : Err → Bool
unfolding response_code same
is_not_found e = elim (response_code e) [ some code ↦ same code (codes "NotFound") | none ↦ false ]

-- An error that says that the pool is not there ends the deletion without an error.
module _ {W : Type 0} {A : Type 0} where
  unfoldable pub gone_or : Result A × W → (A → M W (Unit {0})) → Result (Unit {0}) × W
  unfolding is_not_found
  gone_or (ok a, w) next = next a w
  gone_or (err e, w) next = if is_not_found e then (ok tt, w) else (err e, w)
  gone_or (panic, w) next = (panic, w)
  gone_or (out_of_fuel, w) next = (out_of_fuel, w)

  abbrev pub unless_gone : M W A → (A → M W (Unit {0})) → M W (Unit {0})
  unless_gone m next w = gone_or (m w) next

module _ {W : Type 0} (api : AgentPoolsApi W) (rg : Bytes) where
  unfoldable pub create_agent_pool : (ap_name cluster : Bytes) → AgentPool → M W AgentPool
  create_agent_pool ap_name cluster ap = do
    poller ← api.begin_create_or_update rg cluster ap_name ap
    api.created poller

  unfoldable pub delete_agent_pool : (ap_name cluster : Bytes) → M W (Unit {0})
  unfolding gone_or
  delete_agent_pool ap_name cluster =
      unless_gone (api.begin_delete rg cluster ap_name)
        λ poller. unless_gone (api.deleted poller) (λ _. pure tt)

  unfoldable pub get_agent_pool : (ap_name cluster : Bytes) → M W AgentPool
  get_agent_pool ap_name cluster = api.get rg cluster ap_name

  -- the loop over the pages, with the pools that were read so far
  unfoldable pub list_loop : ℕ → api.Pager → List (Option AgentPool) → M W (List (Option AgentPool))
  list_loop zero pager ap_list w = (out_of_fuel, w)
  list_loop (suc n) pager ap_list w = elim (api.more pager) [
    | false ↦ (ok ap_list, w)
    | true ↦
        continue (api.next_page pager w) (λ (page, pager'). list_loop n pager' (ap_list ++ page))
  ]

  unfoldable pub list_agent_pools : ℕ → (cluster : Bytes) → M W (List (Option AgentPool))
  unfolding list_loop
  list_agent_pools fuel cluster = list_loop fuel (api.new_list_pager rg cluster) []
