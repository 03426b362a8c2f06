-- ===== src/Labels.antt =====
-- pkg/apis/v1alpha1/register.go: the labels of virtual machine sizes, and which of them are well known.
pub mod Laws
use gpu_provisioner.Base.{
  Bool-cases, inl, inr, refl, String, Bool, true, false, ◌≡◌, sym, Option, none, some, List, [],
  ◌∷◌, ◌++◌, ◌&&◌, ◌||◌, ◌==◌, if◌then◌else◌, arith, ℕ,
}
use gpu_provisioner.Base.Text.{Bytes, codes, same}
use gpu_provisioner.Base.Dict.{Dict, lookup, has_key}

abbrev pub label_domain : String
label_domain = "karpenter.k8s.azure"

abbrev labelled : String → Bytes
labelled name = codes label_domain ++ codes name

abbrev pub alternative_label_topology_zone : Bytes
alternative_label_topology_zone = labelled "/zone"

abbrev pub label_sku_tier : Bytes
label_sku_tier = labelled "/sku-tier"

abbrev pub label_sku_name : Bytes
label_sku_name = labelled "/sku-name"

abbrev pub label_sku_size : Bytes
label_sku_size = labelled "/sku-size"

abbrev pub label_sku_series : Bytes
label_sku_series = labelled "/sku-series"

abbrev pub label_sku_family : Bytes
label_sku_family = labelled "/sku-family"

abbrev pub label_sku_subfamily : Bytes
label_sku_subfamily = labelled "/sku-subfamily"

abbrev pub label_sku_cpu : Bytes
label_sku_cpu = labelled "/sku-cpu"

abbrev pub label_sku_cpu_constrained : Bytes
label_sku_cpu_constrained = labelled "/sku-cpu-constrained"

abbrev pub label_sku_accelerator : Bytes
label_sku_accelerator = labelled "/sku-accelerator"

abbrev pub label_sku_version : Bytes
label_sku_version = labelled "/sku-version"

abbrev pub label_sku_cpu_type_amd : Bytes
label_sku_cpu_type_amd = labelled "/sku-cpu-type-amd"

abbrev pub label_sku_storage_block_performance : Bytes
label_sku_storage_block_performance = labelled "/sku-storage-block-performance"

abbrev pub label_sku_confidential : Bytes
label_sku_confidential = labelled "/sku-confidential"

abbrev pub label_sku_storage_diskful : Bytes
label_sku_storage_diskful = labelled "/sku-storage-diskful"

abbrev pub label_sku_isolated_size : Bytes
label_sku_isolated_size = labelled "/sku-isolated-size"

abbrev pub label_sku_memory_low : Bytes
label_sku_memory_low = labelled "/sku-memory-low"

abbrev pub label_sku_memory_intensive : Bytes
label_sku_memory_intensive = labelled "/sku-memory-intensive"

abbrev pub label_sku_memory_tiny : Bytes
label_sku_memory_tiny = labelled "/sku-memory-tiny"

abbrev pub label_sku_storage_premium_capable : Bytes
label_sku_storage_premium_capable = labelled "/sku-storage-premium-capable"

abbrev pub label_sku_memory : Bytes
label_sku_memory = labelled "/sku-memory"

abbrev pub label_sku_hyperv_generation : Bytes
label_sku_hyperv_generation = labelled "/sku-hyperv-generation"

abbrev pub label_sku_accelerated_networking : Bytes
label_sku_accelerated_networking = labelled "/sku-networking-accelerated"

abbrev pub label_sku_encryption_at_host_supported : Bytes
label_sku_encryption_at_host_supported = labelled "/sku-encryptionathost-capable"

abbrev pub label_sku_ephemeral_os_disk_supported : Bytes
label_sku_ephemeral_os_disk_supported = labelled "/sku-storage-os-ephemeral-capable"

abbrev pub label_sku_cached_disk_size : Bytes
label_sku_cached_disk_size = labelled "/sku-storage-cache-maxsize"

abbrev pub label_sku_max_resource_volume : Bytes
label_sku_max_resource_volume = labelled "/sku-storage-temp-maxsize"

abbrev pub label_sku_gpu_name : Bytes
label_sku_gpu_name = labelled "/sku-gpu-name"

abbrev pub label_sku_gpu_manufacturer : Bytes
label_sku_gpu_manufacturer = labelled "/sku-gpu-manufacturer"

abbrev pub label_sku_gpu_count : Bytes
label_sku_gpu_count = labelled "/sku-gpu-count"

-- `SkuFeatureToLabel`
abbrev pub sku_feature_to_label : List (ℕ × Bytes)
sku_feature_to_label =
    (b'a', label_sku_cpu_type_amd)
    ∷ (b'b', label_sku_storage_block_performance)
    ∷ (b'c', label_sku_confidential)
    ∷ (b'd', label_sku_storage_diskful)
    ∷ (b'i', label_sku_isolated_size)
    ∷ (b'l', label_sku_memory_low)
    ∷ (b'm', label_sku_memory_intensive)
    ∷ (b't', label_sku_memory_tiny)
    ∷ (b's', label_sku_storage_premium_capable)
    ∷ []

-- `label, ok := SkuFeatureToLabel[feature]`
unfoldable pub feature_label : ℕ → List (ℕ × Bytes) → Option Bytes
feature_label c [] = none
feature_label c ((d, l) ∷ rest) = if d == c then some l else feature_label c rest

-- `AzureToKubeArchitectures`, with the values of package v1alpha5
abbrev pub azure_to_kube_architectures : Dict Bytes
azure_to_kube_architectures = (codes "x64", codes "amd64") ∷ (codes "Arm64", codes "arm64") ∷ []

abbrev pub restricted_label_domains : List Bytes
restricted_label_domains = codes label_domain ∷ []

-- The labels that `init` adds to the well-known ones.
abbrev pub well_known_labels : List Bytes
well_known_labels =
    label_sku_tier ∷ label_sku_name ∷ label_sku_size ∷ label_sku_series ∷ label_sku_family
    ∷ label_sku_subfamily ∷ label_sku_cpu ∷ label_sku_cpu_constrained ∷ label_sku_accelerator
    ∷ label_sku_version ∷ label_sku_cpu_type_amd ∷ label_sku_storage_block_performance
    ∷ label_sku_confidential ∷ label_sku_storage_diskful ∷ label_sku_isolated_size
    ∷ label_sku_memory_low ∷ label_sku_memory_intensive ∷ label_sku_memory_tiny
    ∷ label_sku_storage_premium_capable ∷ label_sku_memory ∷ label_sku_hyperv_generation
    ∷ label_sku_accelerated_networking ∷ label_sku_encryption_at_host_supported
    ∷ label_sku_ephemeral_os_disk_supported ∷ label_sku_cached_disk_size
    ∷ label_sku_max_resource_volume ∷ label_sku_gpu_name ∷ label_sku_gpu_manufacturer
    ∷ label_sku_gpu_count ∷ []

-- `init`: what becomes of the restricted domains and of the well-known labels of Karpenter.
unfoldable pub register : (domains labels : List Bytes) → List Bytes × List Bytes
register domains labels = (restricted_label_domains ++ domains, well_known_labels ++ labels)
