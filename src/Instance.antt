-- ===== src/Instance.antt =====
-- pkg/providers/instance: machines as agent pools of one virtual machine. The state is the world `W`
-- that the services read and change; the provider's own fields do not change.
pub mod Pool
pub mod Creation
pub mod Requests
pub mod Listing
pub mod Laws
use gpu_provisioner.Base.{
  ℕ, ◌≡◌, Bool, true, false, Option, none, some, List, [], ◌∷◌, ◌++◌, if◌then◌else◌, ltb, length,
}
use gpu_provisioner.Base.Text.{Bytes, codes, to_lower, head_after}
use gpu_provisioner.Base.Dict.{Dict, insert, map_values}
use gpu_provisioner.Base.Result.{
  Err, Result, ok, err, panic, out_of_fuel, deref, from_ptr, name_too_long, no_instance_type,
  node_missing, no_agent_pools, getting_pool_name, pool_get, listing_pools, pool_delete,
  begin_create,
}
use gpu_provisioner.Base.Effect.{M, lift, pure, fail, in_context, continue, ◌>>=◌, ◌>>◌}
use gpu_provisioner.Ids.{parse_agent_pool_name_from_id, parse_sub_id_from_id}
use gpu_provisioner.Cluster.{
  Machine, NodeSelectorRequirement, Node, is_ready, KubeClient, Retry, Backoff, default_backoff,
  default_retry,
}
use gpu_provisioner.AgentPools.{
  AgentPool, PoolProperties, AgentPoolsApi, create_agent_pool, delete_agent_pool, get_agent_pool,
  list_agent_pools,
}
use gpu_provisioner.Instance.Pool.{new_agent_pool_object}

-- `Instance` of types.go.
pub record Instance : Type 0 where
  pub name : Option Bytes
  pub state : Option Bytes
  pub id : Option Bytes
  pub image_id : Option Bytes
  pub type_name : Option Bytes
  pub capacity_type : Option Bytes
  pub subnet_id : Option Bytes
  pub tags : Dict (Option Bytes)
  pub labels : Dict Bytes

pub record Provider : Type 0 where
  pub resource_group : Bytes
  pub node_resource_group : Bytes
  pub cluster_name : Bytes

unfoldable pub get_vmss_node_provider_id : Provider → Bytes → Bytes → Bytes
get_vmss_node_provider_id p subscription scale_set =
    codes "/subscriptions/"
    ++ (subscription
        ++ (codes "/resourceGroups/"
            ++ (to_lower p.node_resource_group
                ++ (codes "/providers/Microsoft.Compute/virtualMachineScaleSets/"
                    ++ (scale_set ++ codes "/virtualMachines/0")))))

-- The literal at the end of `fromAgentPoolToInstance`.
unfoldable pub to_instance : Provider → AgentPool → PoolProperties → Bytes → Node → Instance
unfolding get_vmss_node_provider_id
to_instance p ap props subscription node = record {
  name = ap.name;
  state = props.provisioning_state;
  id = some (
      codes "azure://"
      ++ get_vmss_node_provider_id p subscription (head_after node.name (codes "-vmss")));
  image_id = none;
  type_name = props.vm_size;
  capacity_type = none;
  subnet_id = props.vnet_subnet_id;
  tags = props.tags;
  labels = map_values from_ptr props.node_labels;
}

-- The looks for the node of a new pool: fifteen, about a second apart.
abbrev pub node_backoff : Backoff
node_backoff = record { steps = 15; duration = 1000; factor = 10; jitter = 1 }

module _ {W : Type 0} (kube : KubeClient W) (retry : Retry W) (p : Provider) where
  abbrev first_node : List Node → Option Node
  first_node [] = none
  first_node (n ∷ _) = some n

  unfoldable pub get_node_by_name : Bytes → M W (Option Node)
  unfolding insert
  get_node_by_name ap_name = do
    let selector =
        insert (codes "agentpool") ap_name
          (insert (codes "kubernetes.azure.com/agentpool") ap_name [])
    nodes ← retry.on_error (List Node) default_retry (λ _. true) (kube.list_nodes selector)
    pure (first_node nodes)

  -- `nil, nil` where there is no node, or it is not ready
  unfoldable pub with_node : AgentPool → Bytes → Option Node → Result (Option Instance)
  unfolding to_instance
  with_node ap subscription none = ok none
  with_node ap subscription (some node) =
      if is_ready node
      then elim ap.properties [
        | none ↦ panic
        | some props ↦ ok (some (to_instance p ap props subscription node))
      ]
      else ok none

  unfoldable pub from_agent_pool_to_instance : Option AgentPool → M W (Option Instance)
  unfolding get_node_by_name with_node
  from_agent_pool_to_instance ap_obj = do
    ap ← lift (deref ap_obj)
    subscription ← lift (parse_sub_id_from_id (from_ptr ap.id))
    node ← get_node_by_name (from_ptr ap.name)
    lift (with_node ap subscription node)

  abbrev keep : List Instance → Option Instance → List Instance
  keep instances none = instances
  keep instances (some i) = instances ++ i ∷ []

  unfoldable pub collect : List (Option AgentPool) → List Instance → M W (List Instance)
  collect [] instances w = (ok instances, w)
  collect (ap ∷ aps) instances w =
      continue (from_agent_pool_to_instance ap w) (λ i. collect aps (keep instances i))

  unfoldable pub from_ap_list_to_instances : List (Option AgentPool) → M W (List Instance)
  unfolding collect
  from_ap_list_to_instances [] = fail no_agent_pools
  from_ap_list_to_instances (ap ∷ aps) = collect (ap ∷ aps) []

  -- `requirement_values` is `NewNodeSelectorRequirements(…).Get(key).Values()` of package scheduling.
  module _ (api : AgentPoolsApi W)
      (requirement_values : List NodeSelectorRequirement → Bytes → List Bytes) where
    -- The function of the first `retry.OnError`; its result is the captured `ap`. The log line behind
    -- the call reads the identifier of the pool.
    unfoldable pub create_attempt : Machine → M W AgentPool
    unfolding new_agent_pool_object create_agent_pool
    create_attempt machine =
        elim (requirement_values machine.requirements (codes "node.kubernetes.io/instance-type")) [
          | [] ↦ fail no_instance_type
          | vm_size ∷ _ ↦ do
            ap ← in_context (begin_create machine.name) (
                create_agent_pool api p.resource_group machine.name p.cluster_name
                  (new_agent_pool_object vm_size machine))
            _ ← lift (deref ap.id)
            pure ap
        ]

    -- The function of the second one; its result is the captured `instance`.
    unfoldable pub find_instance : AgentPool → M W (Option Instance)
    find_instance ap = do
      instance_found ← from_agent_pool_to_instance (some ap)
      elim instance_found [ none ↦ fail node_missing | some i ↦ pure (some i) ]

    unfoldable pub await_instance : AgentPool → Option Instance → M W (Option Instance)
    unfolding find_instance
    await_instance ap (some i) = pure (some i)
    await_instance ap none =
        retry.on_error (Option Instance) node_backoff (λ _. true) (find_instance ap)

    unfoldable pub create : Machine → M W (Option Instance)
    unfolding create_attempt await_instance
    create machine =
        if ltb 11 (length machine.name)
        then fail (name_too_long (length machine.name) machine.name)
        else do
          ap ← retry.on_error AgentPool default_backoff (λ _. false) (create_attempt machine)
          found ← from_agent_pool_to_instance (some ap)
          await_instance ap found

    unfoldable pub get : Bytes → M W (Option Instance)
    unfolding get_agent_pool
    get id = do
      ap_name ← in_context getting_pool_name (lift (parse_agent_pool_name_from_id id))
      ap ←
          in_context (pool_get ap_name) (get_agent_pool api p.resource_group ap_name p.cluster_name)
      from_agent_pool_to_instance (some ap)

    -- `fuel` bounds the number of pages.
    unfoldable pub list : ℕ → M W (List Instance)
    unfolding list_agent_pools from_ap_list_to_instances
    list fuel = do
      aps ← in_context listing_pools (list_agent_pools api p.resource_group fuel p.cluster_name)
      from_ap_list_to_instances aps

    unfoldable pub delete : Bytes → M W (Unit {0})
    unfolding delete_agent_pool
    delete id = do
      ap_name ← in_context getting_pool_name (lift (parse_agent_pool_name_from_id id))
      in_context (pool_delete ap_name)
          (delete_agent_pool api p.resource_group ap_name p.cluster_name)
