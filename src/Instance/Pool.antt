-- ===== src/Instance/Pool.antt =====
-- `newAgentPoolObject`: the agent pool that a machine asks for.
pub mod Laws
use gpu_provisioner.Base.{
  ℕ, ◌+◌, ◌*◌, ◌%◌, ◌^◌, ◌≡◌, ◌∙◌, Bool, true, false, Option, none, some, List, [], ◌∷◌, ◌++◌,
  if◌then◌else◌, arith,
}
use gpu_provisioner.Base.Text.{Bytes, codes, same, contains}
use gpu_provisioner.Base.Dict.{Dict, lookup, insert, assign, map_values}
use gpu_provisioner.Cluster.{Taint, Machine}
use gpu_provisioner.AgentPools.{AgentPool, PoolProperties}

abbrev pub label_machine_type : Bytes
label_machine_type = codes "kaito.sh/machine-type"

abbrev pub provisioner_name_label_key : Bytes
provisioner_name_label_key = codes "karpenter.sh/provisioner-name"

unfoldable pub taint_text : Taint → Bytes
taint_text t = t.key ++ (codes "=" ++ (t.value ++ (codes ":" ++ t.effect)))

unfoldable pub taint_texts : List Taint → List (Option Bytes)
unfolding taint_text
taint_texts [] = []
taint_texts (t ∷ ts) = some (taint_text t) ∷ taint_texts ts

unfoldable pub machine_type : Bytes → Bytes
machine_type vm_size = if contains vm_size (codes "Standard_N") then codes "gpu" else codes "cpu"

unfoldable pub pool_labels : Bytes → Machine → Dict (Option Bytes)
unfolding insert assign map_values
pool_labels vm_size machine =
    let own = insert provisioner_name_label_key (some (codes "default")) [] in
    let all = assign own (map_values some machine.labels) in
    assign all (insert label_machine_type (some (machine_type vm_size)) [])

-- `Requests.Storage()`: the quantity under `storage`, or zero
abbrev or_zero : Option ℕ → ℕ
or_zero none = 0
or_zero (some q) = q

unfoldable pub storage : Option (Dict ℕ) → ℕ
storage none = 0
storage (some requests) = or_zero (lookup (codes "storage") requests)

-- `int32(v)` of 64 bits
unfoldable pub to_int32 : ℕ → ℕ
to_int32 v = v % 2 ^ 32

unfoldable pub new_agent_pool_object : Bytes → Machine → AgentPool
unfolding taint_texts pool_labels storage to_int32
new_agent_pool_object vm_size machine = record {
  id = none;
  name = none;
  properties = some (record {
    node_labels = pool_labels vm_size machine;
    node_taints = taint_texts machine.taints;
    pool_type = some (codes "VirtualMachineScaleSets");
    vm_size = some vm_size;
    os_type = some (codes "Linux");
    count = some 1;
    os_disk_size_gb = some (to_int32 (storage machine.requests));
    vnet_subnet_id = none;
    tags = [];
    provisioning_state = none;
  });
}
