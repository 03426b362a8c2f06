-- ===== src/InstanceTypes/Requirements.antt =====
-- `computeRequirements`: the labels of an instance type, with the values that a node may have.
pub mod Laws
pub mod Total
use gpu_provisioner.Base.{
  ℕ, ◌≡◌, Bool, true, false, Option, none, some, List, [], ◌∷◌, ◌++◌, ◌&&◌, not, map, if◌then◌else◌,
}
use gpu_provisioner.Base.Text.{Bytes, codes, same}
use gpu_provisioner.Base.Dict.{Dict, lookup}
use gpu_provisioner.Base.Result.{Err, Result, ok, err, panic, out_of_fuel, deref, ◌>>=◌}
use gpu_provisioner.Base.Int.{ℤ, sprint}
use gpu_provisioner.Labels
use gpu_provisioner.Labels.{sku_feature_to_label, feature_label, azure_to_kube_architectures}
use gpu_provisioner.Skus.{is_nvidia_enabled_sku}
use gpu_provisioner.InstanceTypes.Skus.{
  Sku, VmSizeType, Quantities, Floats, Scheduling, Operator, op_in, op_does_not_exist,
}
use gpu_provisioner.InstanceTypes.Reserved.{cpu, memory, gpu_nvidia_count}

-- `cloudprovider.Offering`
pub record Offering (Price : Type 0) : Type 0 where
  pub zone : Bytes
  pub capacity_type : Bytes
  pub price : Price
  pub available : Bool

-- The capacity types of `offerings.Available()`.
unfoldable pub available_capacity_types : {Price : Type 0} → List (Offering Price) → List Bytes
available_capacity_types [] = []
available_capacity_types (o ∷ offerings) =
    let rest = available_capacity_types offerings in
    if o.available then o.capacity_type ∷ rest else rest

-- the value that the map has, or the name itself
abbrev pub or_itself : Bytes → Option Bytes → Bytes
or_itself architecture none = architecture
or_itself architecture (some known) = known

-- The labels that no node has, unless a value is inserted later on.
abbrev pub absent_labels : List Bytes
absent_labels =
    Labels.label_sku_gpu_manufacturer ∷ Labels.label_sku_gpu_name ∷ Labels.label_sku_tier
    ∷ Labels.label_sku_name ∷ Labels.label_sku_size ∷ Labels.label_sku_series
    ∷ Labels.label_sku_family ∷ Labels.label_sku_subfamily ∷ Labels.label_sku_cpu_constrained
    ∷ Labels.label_sku_accelerator ∷ Labels.label_sku_version
    ∷ Labels.label_sku_storage_premium_capable ∷ Labels.label_sku_encryption_at_host_supported
    ∷ Labels.label_sku_ephemeral_os_disk_supported ∷ Labels.label_sku_accelerated_networking
    ∷ Labels.label_sku_hyperv_generation ∷ Labels.label_sku_cached_disk_size
    ∷ Labels.label_sku_max_resource_volume ∷ []

abbrev pub true_text : Bytes
true_text = codes "true"

module _ (S : Scheduling) where
  open S use {Requirement, Requirements, new_requirement, add, insert_value}

  abbrev pub absent : Bytes → Requirement
  absent label = new_requirement label op_does_not_exist []

  unfoldable pub absent_all : List Bytes → List Requirement
  absent_all [] = []
  absent_all (label ∷ labels) = absent label ∷ absent_all labels

  -- an insertion under a condition, of an optional value, and of a number beside an error
  unfoldable pub insert_if : Bool → Bytes → Bytes → Requirements → Result Requirements
  insert_if b label value rs = if b then insert_value label value rs else ok rs

  unfoldable pub insert_some : Bytes → Option Bytes → Requirements → Result Requirements
  insert_some label none rs = ok rs
  insert_some label (some value) rs = insert_value label value rs

  unfoldable pub insert_number : Bytes → Result ℤ → Requirements → Result Requirements
  unfolding sprint
  insert_number label (ok n) rs = insert_value label (sprint n) rs
  insert_number label _ rs = ok rs

  -- the loop over `SkuFeatureToLabel`
  unfoldable pub add_features : List (ℕ × Bytes) → Requirements → Requirements
  add_features [] rs = rs
  add_features ((c, label) ∷ features) rs = add_features features (add (absent label) rs)

  -- the loop over the additive features of the size
  unfoldable pub insert_features : List ℕ → Requirements → Result Requirements
  unfolding insert_some feature_label
  insert_features [] rs = ok rs
  insert_features (c ∷ cs) rs =
      elim (feature_label c sku_feature_to_label) [
        | none ↦ ok rs
        | some label ↦ insert_value label true_text rs
      ]
      >>= insert_features cs

  module _ {Float : Type 0} (sku : Sku Float) where
    -- what follows the additive features
    unfoldable pub insert_capabilities : VmSizeType → Requirements → Result Requirements
    unfolding insert_if insert_some insert_number is_nvidia_enabled_sku same
    insert_capabilities vm_size r0 = do
      r1 ← insert_if sku.is_premium_io Labels.label_sku_storage_premium_capable true_text r0
      r2 ←
          insert_if sku.is_encryption_at_host_supported
            Labels.label_sku_encryption_at_host_supported true_text r1
      r3 ←
          insert_if
            (sku.is_ephemeral_os_disk_supported && not (same vm_size.series (codes "Dlds_v5")))
            Labels.label_sku_ephemeral_os_disk_supported true_text r2
      r4 ←
          insert_if sku.is_accelerated_networking_supported Labels.label_sku_accelerated_networking
            true_text r3
      r5 ← insert_if sku.is_hyperv_gen1_supported Labels.label_sku_hyperv_generation (codes "V1") r4
      r6 ← insert_if sku.is_hyperv_gen2_supported Labels.label_sku_hyperv_generation (codes "V2") r5
      let nvidia = is_nvidia_enabled_sku sku.get_name
      r7 ← insert_if nvidia Labels.label_sku_gpu_manufacturer (codes "nvidia") r6
      r8 ←
          insert_some Labels.label_sku_gpu_name (if nvidia then vm_size.accelerator_type else none)
            r7
      r9 ← insert_number Labels.label_sku_cached_disk_size sku.max_cached_disk_bytes r8
      r10 ← insert_number Labels.label_sku_max_resource_volume sku.max_resource_volume_mb r9
      r11 ← insert_some Labels.label_sku_accelerator vm_size.accelerator_type r10
      insert_value Labels.label_sku_version vm_size.version r11

    -- what the parsed name of the size gives
    unfoldable pub insert_vm_size : Result VmSizeType → Requirements → Result Requirements
    unfolding insert_capabilities insert_some add_features insert_features
    insert_vm_size (ok vm_size) r0 = do
      r1 ← insert_value Labels.label_sku_series vm_size.series r0
      r2 ← insert_value Labels.label_sku_family vm_size.family r1
      r3 ← insert_some Labels.label_sku_subfamily vm_size.subfamily r2
      r4 ← insert_some Labels.label_sku_cpu_constrained vm_size.cpus_constrained r3
      r5 ← insert_features vm_size.additive_features (add_features sku_feature_to_label r4)
      insert_capabilities vm_size r5
    insert_vm_size (err e) r0 = ok r0
    insert_vm_size panic r0 = panic
    insert_vm_size out_of_fuel r0 = out_of_fuel

module _ (Q : Quantities) (F : Floats) (S : Scheduling) where
  open F use {Float}
  open S use {Requirement, Requirements, new_requirement, new_requirements, insert_value}

  unfoldable pub get_architecture : Sku Float → Bytes
  unfolding lookup
  get_architecture sku =
      or_itself sku.cpu_architecture_type
        (lookup sku.cpu_architecture_type azure_to_kube_architectures)

  abbrev pub one_of : Bytes → List Bytes → Requirement
  one_of label values = new_requirement label op_in values

  -- The argument list of `NewRequirements`, of which the quantities are computed first.
  unfoldable pub requirement_list :
      {Price : Type 0}
      → Sku Float
      → List (Offering Price)
      → Bytes
      → (cores bytes gpus : Q.Quantity) → List Requirement
  unfolding sprint get_architecture available_capacity_types absent_all
  requirement_list sku offerings region cores bytes gpus =
      one_of (codes "node.kubernetes.io/instance-type") (sku.get_name ∷ [])
      ∷ one_of (codes "kubernetes.io/arch") (get_architecture sku ∷ [])
      ∷ one_of (codes "kubernetes.io/os") (codes "linux" ∷ [])
      ∷ one_of (codes "topology.kubernetes.io/region") (region ∷ [])
      ∷ one_of (codes "karpenter.sh/capacity-type") (available_capacity_types offerings)
      ∷ one_of Labels.label_sku_cpu (sprint (Q.value cores) ∷ [])
      ∷ one_of Labels.label_sku_memory (sprint (Q.mega_value bytes) ∷ [])
      ∷ one_of Labels.label_sku_gpu_count (sprint (Q.value gpus) ∷ [])
      ∷ absent_all S absent_labels

  unfoldable pub declared :
      {Price : Type 0} → Sku Float → List (Offering Price) → Bytes → Result (List Requirement)
  unfolding cpu memory gpu_nvidia_count requirement_list
  declared sku offerings region = do
    cores ← cpu Q F sku
    bytes ← memory Q F sku
    gpus ← gpu_nvidia_count Q F sku
    ok (requirement_list sku offerings region cores bytes gpus)

  unfoldable pub compute_requirements :
      {Price : Type 0} → Sku Float → List (Offering Price) → Bytes → Result Requirements
  unfolding declared insert_vm_size
  compute_requirements sku offerings region = do
    requirements ← declared sku offerings region
    named ← insert_value Labels.label_sku_name sku.get_name (new_requirements requirements)
    size ← deref sku.size
    sized ← insert_value Labels.label_sku_size size named
    insert_vm_size S sku sku.get_vm_size sized
