-- ===== src/CloudProvider/Store.antt =====
-- What the cloud provider (pkg/cloudprovider/cloudprovider.go) leaves in the agent pool service.
use gpu_provisioner.Base.{◌≡◌, ap, sym, refl, ◌∙◌, Option, none, some, List, if◌then◌else◌}
use gpu_provisioner.Base.Text.{Bytes, same, same_refl}
use gpu_provisioner.Base.Result.{
  Result, Err, ok, err, panic, out_of_fuel, wrap, wrapping, Context, pool_delete, pool_get,
  getting_instance,
}
use gpu_provisioner.Base.Effect.{M, in_context, continue}
use gpu_provisioner.Cluster.{Machine, NodeSelectorRequirement, KubeClient, Retry, Node}
use gpu_provisioner.AgentPools.{
  AgentPool, PoolProperties, AgentPoolsApi, delete_agent_pool, get_agent_pool,
}
use gpu_provisioner.AgentPools.Store.{Store, delete_agent_pool-pool}
use gpu_provisioner.Ids.Fields.{IsField}
use gpu_provisioner.Instance as Instances
use gpu_provisioner.Instance.{Instance, Provider, to_instance, from_agent_pool_to_instance}
use gpu_provisioner.Instance.Laws.{IsNodeOf, get-instance}
use gpu_provisioner.CloudProvider.Machines.{instance_to_machine}
use gpu_provisioner.CloudProvider.Laws.{delete-machine, instance_to_machine-IsMachineOf}
use gpu_provisioner.CloudProvider.{get, delete, machine_or_missing}

module _ {W A : Type 0} (c : Context) (w : W) where
  wrapped_ok :
      (x : Result A × W) {a : A} {v : W} → in_context c (λ _. x) w ≡ (ok a, v) → x ≡ (ok a, v)
  wrapped_ok (ok a, z) h = h
  wrapped_ok (err e, z) h = cc
  wrapped_ok (panic, z) h = cc
  wrapped_ok (out_of_fuel, z) h = cc

  wrapped_fails :
      (x : Result A × W) {e : Err} → x.0 ≡ err e → (in_context c (λ _. x) w).0 ≡ err (wrap c e)
  wrapped_fails (r, z) h = ap (wrapping c) h

module _ {W A B : Type 0} (f : A → M W B) where
  continue_fails : (x : Result A × W) {e : Err} → x.0 ≡ err e → (continue x f).0 ≡ err e
  continue_fails (ok a, z) h = cc
  continue_fails (err e, z) h = cc
  continue_fails (panic, z) h = cc
  continue_fails (out_of_fuel, z) h = cc

module _ {W : Type 0} (kube : KubeClient W) (retry : Retry W) (p : Provider) (api : AgentPoolsApi W)
    (requirement_values : List NodeSelectorRequirement → Bytes → List Bytes) (store : Store api)
    (ap_obj : AgentPool) (props : PoolProperties) (sub pool : Bytes) (node : Node) (m : Machine)
    (j : Instance) (w v : W)
    (made : instance_to_machine (some (to_instance p ap_obj props sub node)) ≡ ok (m, j))
    (hs : IsField sub) (hr : IsField p.node_resource_group) (hn : IsNodeOf pool node)
    (deleted : delete kube retry p api requirement_values m w ≡ (ok tt, v)) where
  pool_deleted : delete_agent_pool api p.resource_group pool p.cluster_name w ≡ (ok tt, v)
  pool_deleted =
      wrapped_ok (pool_delete pool) w (delete_agent_pool api p.resource_group pool p.cluster_name w)
        (sym (
            delete-machine kube retry p api requirement_values ap_obj props sub pool node m j w made
              hs hr hn)
          ∙ deleted)

  -- Behind a `Delete` that returns no error, of the machine that `instanceToMachine` makes of an
  -- instance, the agent pool service has every pool of the cluster that it had before, but the pool of
  -- that instance; if the service keeps its pools as documented, the subscription and the node
  -- resource group hold no slash and no end of line and the node is named after the pool as AKS does.
  pub pool-delete :
      (other : Bytes)
      → store.pool p.resource_group p.cluster_name other v
        ≡ (if same pool other then none else store.pool p.resource_group p.cluster_name other w)
  pool-delete other =
      delete_agent_pool-pool api store p.resource_group p.cluster_name pool w v other pool_deleted

  pool_gone : store.pool p.resource_group p.cluster_name pool v ≡ none
  pool_gone = pool-delete pool ∙ rw (same_refl pool) refl

  instance_gone :
      (e : Err) × ((Instances.get kube retry p api requirement_values m.provider_id v).0 ≡ err e)
  unfolding to_instance get_agent_pool
  instance_gone =
      let (e, h) = store.absent p.resource_group p.cluster_name pool v pool_gone in
      (
        wrap (pool_get pool) e,
        ap (λ (id : Bytes). (Instances.get kube retry p api requirement_values id v).0)
              (instance_to_machine-IsMachineOf (to_instance p ap_obj props sub node) j m
                made).provider_id
            ∙ ap (λ (x : Result (Option Instance) × W). x.0)
                (get-instance kube retry p api requirement_values sub pool node hs hr hn v)
            ∙ continue_fails (λ found. from_agent_pool_to_instance kube retry p (some found)) _
                (wrapped_fails (pool_get pool) v
                  (get_agent_pool api p.resource_group pool p.cluster_name v) h),
      )

  -- Behind such a `Delete`, `Get` of the machine's identifier returns an error, under the same
  -- conditions: if `Delete` of the machine that `instanceToMachine` makes of an instance returned no
  -- error, the service keeps its pools as documented, the subscription and the node resource group hold
  -- no slash and no end of line and the node is named after the pool as AKS does.
  pub get-delete : (e : Err) × ((get kube retry p api requirement_values m.provider_id v).0 ≡ err e)
  unfolding get
  get-delete =
      let (e, h) = instance_gone in
      (
        wrap getting_instance e,
        continue_fails (machine_or_missing kube retry p api requirement_values) _ (
            wrapped_fails getting_instance v
              (Instances.get kube retry p api requirement_values m.provider_id v) h),
      )
