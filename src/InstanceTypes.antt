-- ===== src/InstanceTypes.antt =====
-- pkg/providers/instancetype/instancetype.go: the instance type of a virtual machine size.
pub mod Skus
pub mod Reserved
pub mod Requirements
pub mod Listing
use gpu_provisioner.Base.{Option, List, [], ◌∷◌}
use gpu_provisioner.Base.Text.{Bytes}
use gpu_provisioner.Base.Dict.{Dict}
use gpu_provisioner.Base.Result.{Result, ok, ◌>>=◌}
use gpu_provisioner.InstanceTypes.Skus.{Sku, Quantities, Floats, Scheduling}
use gpu_provisioner.InstanceTypes.Reserved.{
  KubeletConfiguration, cpu, memory, pods, compute_capacity, kube_reserved_resources,
  system_reserved_resources, eviction_threshold,
}
use gpu_provisioner.InstanceTypes.Requirements.{Offering, compute_requirements}

module _ (Q : Quantities) (F : Floats) (S : Scheduling) where
  open Q use {Quantity}
  open F use {Float}
  open S use {Requirements}

  pub record Overhead : Type 0 where
    pub kube_reserved : Dict Quantity
    pub system_reserved : Dict Quantity
    pub eviction_threshold : Dict Quantity

  pub record InstanceType (Price : Type 0) : Type 0 where
    pub name : Bytes
    pub requirements : Requirements
    pub offerings : List (Offering Price)
    pub capacity : Dict Quantity
    pub overhead : Overhead

  unfoldable pub new_instance_type :
      {Price : Type 0}
      → Sku Float
      → Option (KubeletConfiguration Q)
      → Bytes
      → List (Offering Price)
      → Result (InstanceType Price)
  unfolding compute_requirements compute_capacity kube_reserved_resources
  new_instance_type sku kc region offerings = do
    requirements ← compute_requirements Q F S sku offerings region
    capacity ← compute_capacity Q F sku kc
    cpus ← cpu Q F sku
    pod_count ← pods Q F sku kc
    kube_reserved ← kube_reserved_resources Q F cpus pod_count kc
    system_reserved ← system_reserved_resources Q kc
    available ← memory Q F sku
    threshold ← eviction_threshold Q F available kc
    ok (record {
      name = sku.get_name;
      requirements = requirements;
      offerings = offerings;
      capacity = capacity;
      overhead = record {
        kube_reserved = kube_reserved;
        system_reserved = system_reserved;
        eviction_threshold = threshold;
      };
    })
