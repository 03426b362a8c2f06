-- ===== src/StaticProvisioner.antt =====
-- pkg/staticprovisioner/provisioner.go: the provisioner of the machines with a GPU. The other fields of the
-- specification have their zero values.
use gpu_provisioner.Base.{Bool, false, Option, some, List, [], ◌∷◌}
use gpu_provisioner.Base.Text.{Bytes, codes}
use gpu_provisioner.Cluster.{Taint}

pub record ProvisionerSpec : Type 0 where
  -- of `Consolidation`
  pub enabled : Option Bool
  pub taints : List Taint
  -- the name in `ProviderRef`
  pub provider_ref : Option Bytes

abbrev pub sp : ProvisionerSpec
sp = record {
  enabled = some false;
  taints = record { key = codes "sku"; value = codes "gpu"; effect = codes "NoSchedule" } ∷ [];
  provider_ref = some (codes "default");
}
