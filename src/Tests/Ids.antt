-- ===== src/Tests/Ids.antt =====
-- Examples for the identifier readers (pkg/utils/utils.go).
use gpu_provisioner.Base.{◌≡◌, refl, false, ◌++◌, arith, get_elem?, ◌↔◌}
use gpu_provisioner.Base.Text.{Bytes, codes, contains, split}
use gpu_provisioner.Base.Result.{ok, err, deref, pool_name_mismatch}
use gpu_provisioner.Ids.{pool_name_pattern, parse_agent_pool_name_from_id, parse_sub_id_from_id}
use gpu_provisioner.Ids.Regex.Sound.{Occurs}
use gpu_provisioner.Ids.Laws.{machine_id, parse-machine_id, pool_name_mismatch_iff}
use gpu_provisioner.Ids.SubId.{resource_id, parse-resource_id}

abbrev sub : Bytes
sub = codes "00000000-0000-0000-0000-000000000000"

abbrev vmss : Bytes
vmss = codes "aks-agentpool0-20562481-vmss"

parse-machine_id_example :
    parse_agent_pool_name_from_id (machine_id sub (codes "nodeRG") vmss (codes "0"))
    ≡ deref (get_elem? (split vmss b'-') 1)
unfolding codes
parse-machine_id_example =
    parse-machine_id sub (codes "nodeRG") vmss (codes "0") (omega arith) (omega arith) (omega arith)
      (omega arith)

pool_name_mismatch_iff_example :
    (parse_agent_pool_name_from_id (codes "azure:///")
      ≡ err (pool_name_mismatch (codes "azure:///")))
    ↔ ((g : Bytes) → ¬ Occurs pool_name_pattern (codes "azure:///") g)
pool_name_mismatch_iff_example = pool_name_mismatch_iff (codes "azure:///")

once :
    contains
      (codes "resourcegroups/"
        ++ (codes "rg" ++ (codes "/providers/" ++ codes "Microsoft.X/pools/p")))
      (codes "/resourcegroups/")
    ≡ false
unfolding contains codes
once = refl

parse-resource_id_example :
    parse_sub_id_from_id (resource_id sub (codes "rg") (codes "Microsoft.X/pools/p")) ≡ ok sub
parse-resource_id_example =
    parse-resource_id sub (codes "rg") (codes "Microsoft.X/pools/p") (unfold codes in omega arith)
      (unfold codes in omega arith) once

-- The identifiers of the unit tests.
agent_pool_0 :
    parse_agent_pool_name_from_id (
      codes
        "azure:///subscriptions/0/resourceGroups/nodeRG/providers/Microsoft.Compute/virtualMachineScaleSets/aks-agentpool0-20562481-vmss/virtualMachines/0")
    ≡ ok (codes "agentpool0")
unfolding parse_agent_pool_name_from_id codes
agent_pool_0 = refl

no_scale_set :
    parse_agent_pool_name_from_id (
      codes
        "azure:///subscriptions/0/resourceGroups/nodeRG/providers/Microsoft.Compute/virtualMachineScaleSets/virtualMachines/0")
    ≡ err (
        pool_name_mismatch (
          codes
            "azure:///subscriptions/0/resourceGroups/nodeRG/providers/Microsoft.Compute/virtualMachineScaleSets/virtualMachines/0"))
unfolding parse_agent_pool_name_from_id codes
no_scale_set = refl
