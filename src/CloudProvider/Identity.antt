-- ===== src/CloudProvider/Identity.antt =====
-- That a machine is found again by its identifier (`Get` of pkg/cloudprovider/cloudprovider.go).
use gpu_provisioner.Base.{◌≡◌, refl, ap, ◌∙◌, true, Option, some, List}
use gpu_provisioner.Base.Text.{Bytes}
use gpu_provisioner.Base.Result.{Result, ok, from_ptr, getting_instance, pool_get}
use gpu_provisioner.Base.Effect.{in_context, continue}
use gpu_provisioner.Cluster.{Machine, NodeSelectorRequirement, KubeClient, Retry, Node, is_ready}
use gpu_provisioner.AgentPools.{AgentPool, PoolProperties, AgentPoolsApi, get_agent_pool}
use gpu_provisioner.Ids.{parse_sub_id_from_id}
use gpu_provisioner.Ids.Fields.{IsField}
use gpu_provisioner.Instance as Instances
use gpu_provisioner.Instance.{
  Instance, Provider, to_instance, with_node, get_node_by_name, from_agent_pool_to_instance,
}
use gpu_provisioner.Instance.Laws.{IsNodeOf, get-instance}
use gpu_provisioner.CloudProvider.Machines.{instance_to_machine}
use gpu_provisioner.CloudProvider.Laws.{instance_to_machine-IsMachineOf}
use gpu_provisioner.CloudProvider.{get, machine_or_missing}

module _ {W : Type 0} (kube : KubeClient W) (retry : Retry W) (p : Provider) (api : AgentPoolsApi W)
    (requirement_values : List NodeSelectorRequirement → Bytes → List Bytes) (ap_obj : AgentPool)
    (props : PoolProperties) (sub pool : Bytes) (node : Node) (m : Machine) (j : Instance)
    (w u v : W)
    (made : instance_to_machine (some (to_instance p ap_obj props sub node)) ≡ ok (m, j))
    (hs : IsField sub) (hr : IsField p.node_resource_group) (hn : IsNodeOf pool node)
    (kept : get_agent_pool api p.resource_group pool p.cluster_name w ≡ (ok ap_obj, u))
    (with_props : ap_obj.properties ≡ some props)
    (of_sub : parse_sub_id_from_id (from_ptr ap_obj.id) ≡ ok sub)
    (seen : get_node_by_name kube retry p (from_ptr ap_obj.name) u ≡ (ok (some node), v))
    (ready : is_ready node ≡ true) where
  abbrev found : Option Instance
  found = some (to_instance p ap_obj props sub node)

  seen_again : from_agent_pool_to_instance kube retry p (some ap_obj) u ≡ (ok found, v)
  unfolding from_agent_pool_to_instance with_node
  seen_again = rw (of_sub, seen, ready, with_props) refl

  instance_again : Instances.get kube retry p api requirement_values m.provider_id w ≡ (ok found, v)
  unfolding to_instance
  instance_again =
      ap (λ (id : Bytes). Instances.get kube retry p api requirement_values id w)
        (instance_to_machine-IsMachineOf (to_instance p ap_obj props sub node) j m made).provider_id
      ∙ get-instance kube retry p api requirement_values sub pool node hs hr hn w
      ∙ ap
          (λ (x : Result AgentPool × W).
            continue (in_context (pool_get pool) (λ (_ : W). x) w)
              (λ a. from_agent_pool_to_instance kube retry p (some a)))
          kept
      ∙ seen_again

  -- `Get` of the identifier of the machine that `instanceToMachine` makes of an instance returns that
  -- machine, if the service still has the pool of the instance, with its properties and an identifier
  -- of which the subscription can be read, and the look for its node finds the same node, ready; the
  -- subscription and the node resource group hold no slash and no end of line and the node is named
  -- after the pool as AKS does.
  pub get-machine : get kube retry p api requirement_values m.provider_id w ≡ (ok m, v)
  unfolding get machine_or_missing
  get-machine =
      ap
        (λ (x : Result (Option Instance) × W).
          continue (in_context getting_instance (λ (_ : W). x) w)
            (machine_or_missing kube retry p api requirement_values))
        instance_again
      ∙ rw made refl
