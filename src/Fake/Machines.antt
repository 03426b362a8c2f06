-- ===== src/Fake/Machines.antt =====
-- pkg/fake/cloudprovider.go: a cloud provider of machines that stand in a map. The types of instances
-- that `Create` chooses from are not part of this model. Copies of machines are the machines.
pub mod Created
pub mod Zone
pub mod Creation
use gpu_provisioner.Base.{
  ℕ, ◌^◌, ◌-◌, ◌≡◌, refl, ap, Bool, false, Option, none, some, List, [], ◌∷◌, ◌++◌,
}
use gpu_provisioner.Base.Text.{Bytes}
use gpu_provisioner.Base.Dict.{Dict, lookup, remove, lookup-remove}
use gpu_provisioner.Base.Result.{Result, ok, err, machine_not_found}
use gpu_provisioner.Base.Effect.{M}
use gpu_provisioner.Cluster.{Machine}
use gpu_provisioner.InstanceTypes.Listing.{values}

pub record CloudProvider : Type 0 where
  pub create_calls : List Machine
  pub created_machines : Dict Machine
  pub delete_calls : List Machine
  pub drifted : Bool
  pub allowed_create_calls : ℕ

unfoldable pub new_cloud_provider : CloudProvider
new_cloud_provider = record {
  create_calls = [];
  created_machines = [];
  delete_calls = [];
  drifted = false;
  allowed_create_calls = 2 ^ 63 - 1;
}

unfoldable pub reset : CloudProvider → CloudProvider
reset c = record c {
  create_calls = [];
  created_machines = [];
  delete_calls = [];
  drifted = false;
  allowed_create_calls = 2 ^ 63 - 1;
}

abbrev pub found_or_missing : Bytes → Option Machine → Result Machine
found_or_missing id none = err (machine_not_found id)
found_or_missing id (some machine) = ok machine

unfoldable pub get : Bytes → M CloudProvider Machine
unfolding lookup
get id c = (found_or_missing id (lookup id c.created_machines), c)

unfoldable pub list : M CloudProvider (List Machine)
unfolding values
list c = (ok (values c.created_machines), c)

abbrev pub delete_found : Bytes → Option Machine → M CloudProvider (Unit {0})
delete_found id none c = (err (machine_not_found id), c)
delete_found id (some machine) c =
    (ok tt, record c { created_machines = remove id c.created_machines })

unfoldable pub delete : Machine → M CloudProvider (Unit {0})
unfolding lookup remove
delete machine c =
    delete_found machine.provider_id (lookup machine.provider_id c.created_machines)
      (record c { delete_calls = c.delete_calls ++ machine ∷ [] })

unfoldable pub is_machine_drifted : Machine → M CloudProvider Bool
is_machine_drifted machine c = (ok c.drifted, c)

-- After `Delete`, whether it found the machine or not, `Get` does not find it.
pub get-delete :
    (machine : Machine) (c : CloudProvider)
    → (get machine.provider_id (delete machine c).1).0 ≡ err (machine_not_found machine.provider_id)
unfolding get delete
get-delete machine c = by_lookup (lookup machine.provider_id c.created_machines) refl
  where
    by_lookup :
        (o : Option Machine)
        → lookup machine.provider_id c.created_machines ≡ o
        → found_or_missing machine.provider_id (
            lookup machine.provider_id
              (delete_found machine.provider_id o
                (record c { delete_calls = c.delete_calls ++ machine ∷ [] })).1.created_machines)
          ≡ err (machine_not_found machine.provider_id)
    by_lookup none e = ap (found_or_missing machine.provider_id) e
    by_lookup (some m) e =
        ap (found_or_missing machine.provider_id)
          (lookup-remove machine.provider_id c.created_machines)
