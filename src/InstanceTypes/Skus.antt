-- ===== src/InstanceTypes/Skus.antt =====
-- What pkg/providers/instancetype uses of packages that are not part of this repository: the sizes of
-- package skewer, the quantities of Kubernetes, floating point, and the requirements of Karpenter's
-- package scheduling.
use gpu_provisioner.Base.{ℕ, Bool, Option, List}
use gpu_provisioner.Base.Text.{Bytes}
use gpu_provisioner.Base.Dict.{Dict}
use gpu_provisioner.Base.Result.{Result}
use gpu_provisioner.Base.Int.{ℤ}

-- `skewer.VMSizeType`
pub record VmSizeType : Type 0 where
  pub family : Bytes
  pub subfamily : Option Bytes
  pub cpus_constrained : Option Bytes
  pub additive_features : List ℕ
  pub accelerator_type : Option Bytes
  pub version : Bytes
  pub series : Bytes

-- `skewer.SKU`: two fields, and what its methods return. Where the code ignores an error, the value is
-- the one that is returned beside it.
pub record Sku (Float : Type 0) : Type 0 where
  pub name : Option Bytes
  pub size : Option Bytes
  pub get_name : Bytes
  pub get_vm_size : Result VmSizeType
  pub vcpu : ℤ
  pub memory : Float
  pub gpu : Result ℤ
  pub cpu_architecture_type : Bytes
  pub is_premium_io : Bool
  pub is_encryption_at_host_supported : Bool
  pub is_ephemeral_os_disk_supported : Bool
  pub is_accelerated_networking_supported : Bool
  pub is_hyperv_gen1_supported : Bool
  pub is_hyperv_gen2_supported : Bool
  pub max_cached_disk_bytes : Result ℤ
  pub max_resource_volume_mb : Result ℤ

-- `resource.Quantity`. `must_parse` panics on a text that is no quantity.
pub record Quantities : Type 1 where
  pub Quantity : Type 0
  pub must_parse : Bytes → Result Quantity
  pub value : Quantity → ℤ
  pub milli_value : Quantity → ℤ
  pub mega_value : Quantity → ℤ
  pub giga : ℤ → Quantity
  pub milli : ℤ → Quantity
  pub zero_quantity : Quantity
  pub add : Quantity → Quantity → Quantity
  pub max_resources : Dict Quantity → Dict Quantity → Dict Quantity

-- float64. `decimal m e` is the constant m / 10^e.
pub record Floats : Type 1 where
  pub Float : Type 0
  pub of_int : ℤ → Float
  pub to_int : Float → ℤ
  pub decimal : ℕ → ℕ → Float
  pub times : Float → Float → Float
  pub over : Float → Float → Float
  pub ceil : Float → Float
  pub equal : Float → Float → Bool
  pub parse_float : Bytes → Result Float
  pub sprint_float : Float → Bytes
  pub format_f : Float → Bytes

pub data Operator : Type 0 where
  op_in op_does_not_exist : Operator

-- `scheduling.Requirement` and the map `scheduling.Requirements`. `insert_value` is
-- `requirements[label].Insert(value)`, which dereferences a nil pointer where the label is missing.
pub record Scheduling : Type 1 where
  pub Requirement : Type 0
  pub Requirements : Type 0
  pub new_requirement : Bytes → Operator → List Bytes → Requirement
  pub new_requirements : List Requirement → Requirements
  pub add : Requirement → Requirements → Requirements
  pub insert_value : Bytes → Bytes → Requirements → Result Requirements
  pub has_label : Requirements → Bytes → Bool
