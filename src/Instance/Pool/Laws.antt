-- ===== src/Instance/Pool/Laws.antt =====
-- What the agent pool of a machine carries.
use gpu_provisioner.Base.{
  ℕ, ◌*◌, ◌%◌, ◌^◌, ◌≡◌, ◌≢◌, ap, sym, ◌∙◌, ◌++◌, false≢true, inl, inr, Bool-cases, Option, none,
  some, if◌then◌else◌, arith,
}
use gpu_provisioner.Base.Text.{Bytes, codes, same, contains}
use gpu_provisioner.Base.Substrings.{contains-split, contains-append}
use gpu_provisioner.Base.Dict.{
  Dict, lookup, map_option, or_else, lookup-assign, lookup-insert, lookup-map_values,
}
use gpu_provisioner.Cluster.{Machine}
use gpu_provisioner.AgentPools.{AgentPool}
use gpu_provisioner.Instance.Pool.{
  label_machine_type, provisioner_name_label_key, machine_type, pool_labels, storage, to_int32,
  new_agent_pool_object,
}

abbrev pub default_labels : Bytes → Option (Option Bytes)
default_labels k = if same provisioner_name_label_key k then some (some (codes "default")) else none

-- `gpu` for the sizes with `Standard_N` somewhere in their name, `cpu` for the others.
pub data IsMachineType (vm_size : Bytes) : Bytes → Type 0 where
  gpu :
      (before after : Bytes)
      → vm_size ≡ before ++ (codes "Standard_N" ++ after)
      → IsMachineType vm_size (codes "gpu")
  cpu :
      ((before after : Bytes) → vm_size ≢ before ++ (codes "Standard_N" ++ after))
      → IsMachineType vm_size (codes "cpu")

machine_type-IsMachineType : (vm_size : Bytes) → IsMachineType vm_size (machine_type vm_size)
unfolding machine_type
machine_type-IsMachineType vm_size = elim (Bool-cases (contains vm_size (codes "Standard_N"))) [
  | inl e ↦ rw e (
      let (before, after, split) = contains-split vm_size (codes "Standard_N") e in
      gpu before after split)
  | inr e ↦ rw e (
      cpu λ before after split. false≢true (
        sym e
        ∙ ap (λ (s : Bytes). contains s (codes "Standard_N")) split
        ∙ contains-append before (codes "Standard_N") after))
]

abbrev LabelAt : (vm_size t : Bytes) → Machine → Bytes → Type 0
LabelAt vm_size t machine k = lookup k (pool_labels vm_size machine) ≡ (
    if same label_machine_type k
    then some (some t)
    else or_else (map_option some (lookup k machine.labels)) (default_labels k))

at_machine_type :
    (vm_size : Bytes) (machine : Machine) (k : Bytes)
    → LabelAt vm_size (machine_type vm_size) machine k
unfolding pool_labels
at_machine_type vm_size machine k =
    simp (lookup-assign, lookup-insert, lookup-map_values) (unfold lookup in ground arith)

-- Which value each label of the pool has: the machine type goes over the labels of the machine, and these
-- go over the provisioner's name `default`. The machine type is `gpu` if the size has `Standard_N`
-- somewhere in its name, and `cpu` otherwise.
pub lookup-pool_labels :
    (vm_size : Bytes) (machine : Machine)
    → (t : Bytes) × IsMachineType vm_size t
      × ((k : Bytes)
          → lookup k (pool_labels vm_size machine) ≡ (
              if same label_machine_type k
              then some (some t)
              else or_else (map_option some (lookup k machine.labels)) (default_labels k)))
lookup-pool_labels vm_size machine =
    (machine_type vm_size, machine_type-IsMachineType vm_size, at_machine_type vm_size machine)

-- The field `OSDiskSizeGB` of a pool.
abbrev pub disk_size : AgentPool → Option ℕ
disk_size a = elim a.properties [ none ↦ none | some props ↦ props.os_disk_size_gb ]

-- A machine whose requests hold `n` GiB of storage asks for a pool with the `OSDiskSizeGB`
-- `(n mod 4) * 2^30`.
pub os_disk-gib :
    (vm_size : Bytes) (machine : Machine) (requests : Dict ℕ) (n : ℕ)
    → machine.requests ≡ some requests
    → lookup (codes "storage") requests ≡ some (n * 2 ^ 30)
    → disk_size (new_agent_pool_object vm_size machine) ≡ some ((n % 4) * 2 ^ 30)
unfolding new_agent_pool_object
os_disk-gib vm_size machine requests n e h =
    let stored : storage machine.requests ≡ n * 2 ^ 30 =
      ap storage e ∙ (unfold storage in rw (h, storage)) in
    let low : to_int32 (n * 2 ^ 30) ≡ (n % 4) * 2 ^ 30 = unfold to_int32 in omega arith in
    ap (λ (v : ℕ). some (to_int32 v)) stored ∙ ap some low
