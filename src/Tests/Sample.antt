-- ===== src/Tests/Sample.antt =====
-- Services over a small world: how many agent pool calls were made. The node of the pool is
-- ready from the third look on.
use gpu_provisioner.Base.{
  ℕ, zero, suc, ◌*◌, ◌^◌, ◌≡◌, ap, Bool, none, some, List, [], ◌∷◌, ltb, if◌then◌else◌,
}
use gpu_provisioner.Base.Text.{Bytes, codes}
use gpu_provisioner.Base.Result.{Err, ok, err, panic, response}
use gpu_provisioner.Base.Effect.{M}
use gpu_provisioner.Cluster.{
  Machine, Node, NodeSelectorRequirement, KubeClient, Retry, IsRetry, tries,
}
use gpu_provisioner.AgentPools.{AgentPool, PoolProperties, AgentPoolsApi}
use gpu_provisioner.Instance.{Provider}

abbrev pub properties : PoolProperties
properties = record {
  node_labels = (codes "team", some (codes "ml")) ∷ [];
  node_taints = [];
  pool_type = none;
  vm_size = some (codes "Standard_NC6s_v3");
  os_type = none;
  count = some 1;
  os_disk_size_gb = none;
  vnet_subnet_id = none;
  tags = [];
  provisioning_state = none;
}

abbrev pub pool : AgentPool
pool = record {
  id = some (codes "/subscriptions/sub-1/resourcegroups/rg/providers/Microsoft.X/p");
  name = some (codes "pool1");
  properties = some properties;
}

abbrev pub node : Node
node = record {
  name = codes "aks-pool1-123-vmss0000";
  conditions = (record { type_name = codes "Ready"; status = codes "True" }) ∷ [];
}

abbrev pub kube : KubeClient ℕ
kube = record { list_nodes = λ selector w. (ok (if ltb w 3 then [] else node ∷ []), suc w) }

abbrev pub run : {W A : Type 0} → ℕ → (Err → Bool) → M W A → M W A
run zero retriable f w = (panic, w)
run (suc n) retriable f w = tries (λ _ u. u) retriable f n w

abbrev pub retry : Retry ℕ
retry = record { on_error = λ A b. run b.steps }

pub run-suc :
    {W : Type 0} (A : Type 0) (k n : ℕ) (retriable : Err → Bool) (f : M W A)
    → k ≡ suc n
    → (w : W) → run k retriable f w ≡ tries (λ _ u. u) retriable f n w
run-suc A k n retriable f e w = ap (λ (m : ℕ). run m retriable f w) e

abbrev pub retry-IsRetry : IsRetry retry
retry-IsRetry = record {
  pause = λ b n w. w;
  on_error_lem = λ A b n retriable f e w. run-suc A b.steps n retriable f e w;
}

abbrev pub provider : Provider
provider = record {
  resource_group = codes "rg";
  node_resource_group = codes "MC_Rg";
  cluster_name = codes "cluster";
}

-- Two pages of one pool each; a deletion finds nothing.
abbrev pub api : AgentPoolsApi ℕ
api = record {
  CreatePoller = Unit {0};
  DeletePoller = Unit {0};
  Pager = ℕ;
  begin_create_or_update = λ rg cluster name ap_obj w. (ok tt, suc w);
  created = λ poller w. (ok pool, w);
  get = λ rg cluster name w. (ok pool, w);
  begin_delete = λ rg cluster name w. (err (response (codes "NotFound")), suc w);
  deleted = λ poller w. (ok tt, w);
  new_list_pager = λ rg cluster. 0;
  more = λ n. ltb n 2;
  next_page = λ n w. (ok (some pool ∷ [], suc n), w);
}

abbrev pub requirement_values : List NodeSelectorRequirement → Bytes → List Bytes
requirement_values [] key = []
requirement_values (r ∷ _) key = r.values

abbrev pub machine : Machine
machine = record {
  name = codes "pool1";
  labels = (codes "kaito.sh/workspace", codes "w") ∷ [];
  annotations = [];
  taints = [];
  requirements =
      (record {
        key = codes "node.kubernetes.io/instance-type";
        operator = codes "In";
        values = codes "Standard_NC6s_v3" ∷ [];
      })
      ∷ [];
  requests = some ((codes "storage", 30 * 2 ^ 30) ∷ []);
  provider_id = [];
}
