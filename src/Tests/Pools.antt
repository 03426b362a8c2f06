-- ===== src/Tests/Pools.antt =====
-- Examples for the agent pool calls and objects (pkg/providers/instance).
use gpu_provisioner.Base.{◌*◌, ◌^◌, ◌%◌, ◌≡◌, ◌↔◌, refl, some, [], ◌∷◌, arith, if◌then◌else◌}
use gpu_provisioner.Base.Text.{Bytes, codes, same, contains}
use gpu_provisioner.Base.Dict.{lookup, or_else, map_option}
use gpu_provisioner.Base.Result.{ok}
use gpu_provisioner.AgentPools.{delete_agent_pool, list_agent_pools}
use gpu_provisioner.AgentPools.Laws.{
  Deletes, Pages, done, page, delete_agent_pool-ok_iff, list_agent_pools-Pages,
}
use gpu_provisioner.Instance.Pool.{
  label_machine_type, machine_type, pool_labels, new_agent_pool_object,
}
use gpu_provisioner.Instance.Pool.Laws.{
  IsMachineType, disk_size, default_labels, lookup-pool_labels, os_disk-gib,
}
use gpu_provisioner.Tests.Sample.{api, pool, machine}

delete_agent_pool-ok_iff_example :
    (delete_agent_pool api (codes "rg") (codes "p") (codes "c") 0 ≡ (ok tt, 1))
    ↔ Deletes api (codes "rg") (codes "p") (codes "c") 0 1
delete_agent_pool-ok_iff_example =
    delete_agent_pool-ok_iff api (codes "rg") (codes "p") (codes "c") 0 1

deleted_already : (delete_agent_pool api (codes "rg") (codes "p") (codes "c") 0).0 ≡ ok tt
unfolding delete_agent_pool codes
deleted_already = refl

pub two-Pages : Pages api 0 5 2 (ok (some pool ∷ some pool ∷ [])) 5
two-Pages = page refl refl (page refl refl (done refl))

list_agent_pools-Pages_example :
    list_agent_pools api (codes "rg") 3 (codes "c") 5 ≡ (ok (some pool ∷ some pool ∷ []), 5)
list_agent_pools-Pages_example =
    list_agent_pools-Pages api (codes "rg") (codes "c") 5 3 two-Pages (omega arith)

lookup-pool_labels_example :
    (t : Bytes) × IsMachineType (codes "Standard_NC6s_v3") t
    × ((k : Bytes)
        → lookup k (pool_labels (codes "Standard_NC6s_v3") machine) ≡ (
            if same label_machine_type k
            then some (some t)
            else or_else (map_option some (lookup k machine.labels)) (default_labels k)))
lookup-pool_labels_example = lookup-pool_labels (codes "Standard_NC6s_v3") machine

gpu_label :
    lookup label_machine_type (pool_labels (codes "Standard_NC6s_v3") machine)
    ≡ some (some (codes "gpu"))
unfolding lookup pool_labels machine_type codes same contains
gpu_label = refl

stored : lookup (codes "storage") ((codes "storage", 30 * 2 ^ 30) ∷ []) ≡ some (30 * 2 ^ 30)
unfolding lookup codes same
stored = refl

-- 30 GiB are passed on as -2147483648.
os_disk-gib_example :
    disk_size (new_agent_pool_object (codes "Standard_NC6s_v3") machine) ≡ some ((30 % 4) * 2 ^ 30)
os_disk-gib_example =
    os_disk-gib (codes "Standard_NC6s_v3") machine ((codes "storage", 30 * 2 ^ 30) ∷ []) 30 refl
      stored
