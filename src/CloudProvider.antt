-- ===== src/CloudProvider.antt =====
-- pkg/cloudprovider: the interface that Karpenter's controllers call, over the instance provider.
pub mod Machines
pub mod Laws
pub mod Store
pub mod Identity
use gpu_provisioner.Base.{Bool, false, Option, none, some, List, [], ◌∷◌, ◌++◌, ℕ}
use gpu_provisioner.Base.Text.{Bytes, codes}
use gpu_provisioner.Base.Dict.{assign}
use gpu_provisioner.Base.Result.{creating_instance, getting_instance, instance_missing}
use gpu_provisioner.Base.Effect.{M, lift, pure, fail, in_context, continue, ◌>>=◌}
use gpu_provisioner.Cluster.{Machine, NodeSelectorRequirement, KubeClient, Retry}
use gpu_provisioner.AgentPools.{AgentPoolsApi}
use gpu_provisioner.Instance as Instances
use gpu_provisioner.Instance.{Instance, Provider}
use gpu_provisioner.CloudProvider.Machines.{instance_to_machine}

module _ {W : Type 0} (kube : KubeClient W) (retry : Retry W) (p : Provider) (api : AgentPoolsApi W)
    (requirement_values : List NodeSelectorRequirement → Bytes → List Bytes) where
  -- The labels of the new machine are those of its map and of the instance's, which is the same map.
  unfoldable pub new_machine : Option Instance → M W Machine
  unfolding instance_to_machine assign
  new_machine found = do
    (m, i) ← lift (instance_to_machine found)
    pure (record m { labels = assign m.labels i.labels })

  unfoldable pub create : Machine → M W Machine
  unfolding new_machine
  create machine = do
    found ←
        in_context creating_instance (Instances.create kube retry p api requirement_values machine)
    new_machine found

  -- The loop over the instances, with the machines so far.
  unfoldable pub list_loop : List Instance → List Machine → M W (List Machine)
  unfolding instance_to_machine
  list_loop [] machines w = pure machines w
  list_loop (i ∷ is) machines w =
      continue (lift (instance_to_machine (some i)) w) (λ (m, _). list_loop is (machines ++ m ∷ []))

  unfoldable pub list : ℕ → M W (List Machine)
  unfolding list_loop
  list fuel = do
    instances ← Instances.list kube retry p api requirement_values fuel
    list_loop instances []

  unfoldable pub machine_or_missing : Option Instance → M W Machine
  unfolding instance_to_machine
  machine_or_missing none = fail instance_missing
  machine_or_missing (some i) = do (m, _) ← lift (instance_to_machine (some i)); pure m

  unfoldable pub get : Bytes → M W Machine
  unfolding machine_or_missing
  get provider_id = do
    found ←
        in_context getting_instance (Instances.get kube retry p api requirement_values provider_id)
    machine_or_missing found

  unfoldable pub delete : Machine → M W (Unit {0})
  delete machine = Instances.delete kube retry p api requirement_values machine.provider_id

  unfoldable pub is_machine_drifted : Machine → M W Bool
  is_machine_drifted machine = pure false

  -- There is no instance type to choose from: the machine names its own.
  unfoldable pub get_instance_types : M W (List Bytes)
  get_instance_types = pure []
