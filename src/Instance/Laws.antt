-- ===== src/Instance/Laws.antt =====
-- The identity of an instance: what `Get` and `Delete` read from the identifier that the provider gives.
use gpu_provisioner.Base.{◌≡◌, refl, ap, ◌∙◌, some, List, ◌∷◌, ◌++◌, arith}
use gpu_provisioner.Base.Text.{
  Bytes, codes, Lacks, to_lower, head_after, to_lower-Lacks_slash, to_lower-Lacks_newline,
}
use gpu_provisioner.Base.Result.{ok, pool_get, pool_delete}
use gpu_provisioner.Base.Effect.{in_context, continue}
use gpu_provisioner.Ids.{parse_agent_pool_name_from_id}
use gpu_provisioner.Ids.Fields.{IsField}
use gpu_provisioner.Ids.Laws.{machine_id, parse-machine_id_named}
use gpu_provisioner.Cluster.{KubeClient, Retry, Node, NodeSelectorRequirement}
use gpu_provisioner.AgentPools.{
  AgentPool, PoolProperties, AgentPoolsApi, delete_agent_pool, get_agent_pool,
}
use gpu_provisioner.Instance.{
  Provider, get_vmss_node_provider_id, to_instance, get, delete, from_agent_pool_to_instance,
}

-- A node of an AKS agent pool: up to `-vmss` its name is the name of the scale set, whose parts
-- between dashes are a prefix, the name of the pool and more.
pub record IsNodeOf (pool : Bytes) (node : Node) : Type 0 where
  pub prefix : Bytes
  pub suffix : Bytes
  pub scale_set : head_after node.name (codes "-vmss") ≡ prefix ++ b'-' ∷ (pool ++ b'-' ∷ suffix)
  pub prefix_plain : Lacks b'-' prefix
  pub pool_plain : Lacks b'-' pool
  pub is_field : IsField (head_after node.name (codes "-vmss"))

module _ (p : Provider) (ap_obj : AgentPool) (props : PoolProperties) (sub : Bytes)
    (node : Node) where
  instance_id :
      (to_instance p ap_obj props sub node).id
      ≡ some (
          machine_id sub
            (to_lower p.node_resource_group)
            (head_after node.name (codes "-vmss"))
            (codes "0"))
  unfolding to_instance codes
  instance_id = refl

module _ (p : Provider) (sub pool : Bytes) (node : Node) where
  -- The identifier that `fromAgentPoolToInstance` writes for a pool, its prefix `azure://` included.
  abbrev pub instance_id_of : Bytes
  instance_id_of =
      codes "azure://" ++ get_vmss_node_provider_id p sub (head_after node.name (codes "-vmss"))

  same_id :
      instance_id_of
      ≡ machine_id sub
          (to_lower p.node_resource_group)
          (head_after node.name (codes "-vmss"))
          (codes "0")
  unfolding get_vmss_node_provider_id codes
  same_id = refl

  -- Reading the pool's name back from the identifier that was made from its node.
  pub parse-instance_id :
      IsField sub
      → IsField p.node_resource_group
      → IsNodeOf pool node
      → parse_agent_pool_name_from_id instance_id_of ≡ ok pool
  parse-instance_id hs hr h =
      ap parse_agent_pool_name_from_id same_id
      ∙ parse-machine_id_named sub (to_lower p.node_resource_group)
          (head_after node.name (codes "-vmss")) (codes "0") h.prefix pool h.suffix h.scale_set
          h.prefix_plain h.pool_plain hs
          (to_lower-Lacks_slash _ hr.0, to_lower-Lacks_newline _ hr.1) h.is_field
          (unfold codes in omega arith)

module _ {W : Type 0} (kube : KubeClient W) (retry : Retry W) (p : Provider) (api : AgentPoolsApi W)
    (requirement_values : List NodeSelectorRequirement → Bytes → List Bytes) (sub pool : Bytes)
    (node : Node) (hs : IsField sub) (hr : IsField p.node_resource_group) (hn : IsNodeOf pool node)
    (w : W) where
  -- `Delete` by the identifier of an instance deletes the agent pool that the instance was made of, if the
  -- subscription and the node resource group hold no slash and no end of line and the node is named
  -- after the pool as AKS does.
  pub delete-instance :
      delete kube retry p api requirement_values (instance_id_of p sub pool node) w
      ≡ in_context (pool_delete pool) (delete_agent_pool api p.resource_group pool p.cluster_name) w
  unfolding delete
  delete-instance = rw (parse-instance_id p sub pool node hs hr hn)

  -- `Get` by the identifier of an instance asks the service for the pool that it was made of and goes on
  -- with the answer, if the subscription and the node resource group hold no slash and no end of line
  -- and the node is named after the pool as AKS does.
  pub get-instance :
      get kube retry p api requirement_values (instance_id_of p sub pool node) w
      ≡ continue
          (in_context (pool_get pool) (get_agent_pool api p.resource_group pool p.cluster_name) w)
          (λ ap_obj. from_agent_pool_to_instance kube retry p (some ap_obj))
  unfolding get
  get-instance = rw (parse-instance_id p sub pool node hs hr hn)
