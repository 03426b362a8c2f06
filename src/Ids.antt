-- ===== src/Ids.antt =====
-- pkg/utils/utils.go: agent pool names and subscriptions read from resource identifiers.
pub mod Regex
pub mod Fields
pub mod Laws
pub mod SubId
pub mod SingleValued
use gpu_provisioner.Base.{Option, none, some, List, [], ◌∷◌, ◌++◌, get_elem?}
use gpu_provisioner.Base.Text.{Bytes, codes, split}
use gpu_provisioner.Base.Result.{Result, ok, err, deref, pool_name_mismatch, sub_id_mismatch}
use gpu_provisioner.Ids.Regex.{Atom, many, group, Pattern, text, find_submatch}

-- The expression of `ParseAgentPoolNameFromID`.
abbrev pub pool_name_pattern : Pattern
pool_name_pattern =
    text (codes "azure:///subscriptions/")
    ++ many ∷ text (codes "/resourceGroups/")
    ++ many ∷ text (codes "/providers/Microsoft.Compute/virtualMachineScaleSets/")
    ++ group ∷ text (codes "/virtualMachines/")
    ++ many ∷ []

-- The expression of `ParseSubIDFromID`.
abbrev pub sub_id_pattern : Pattern
sub_id_pattern =
    text (codes "/subscriptions/")
    ++ group ∷ text (codes "/resourcegroups/")
    ++ many ∷ text (codes "/providers/")
    ++ many ∷ []

-- `agentPoolName[1]`: the test before it is for an empty split, which does not occur.
unfoldable pub second_part : Bytes → Result Bytes
unfolding split
second_part vmss_name = deref (get_elem? (split vmss_name b'-') 1)

unfoldable pub parse_agent_pool_name_from_id : Bytes → Result Bytes
unfolding second_part find_submatch text
parse_agent_pool_name_from_id id = elim (find_submatch pool_name_pattern id) [
  | none ↦ err (pool_name_mismatch id)
  | some vmss_name ↦ second_part vmss_name
]

unfoldable pub parse_sub_id_from_id : Bytes → Result Bytes
unfolding find_submatch text
parse_sub_id_from_id id = elim (find_submatch sub_id_pattern id) [
  | none ↦ err (sub_id_mismatch id)
  | some subscription ↦ ok subscription
]
