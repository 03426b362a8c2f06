-- ===== src/Ids/Laws.antt =====
-- Which identifiers are read, and what is read from them.
use gpu_provisioner.Base.{
  ◌≡◌, ◌≢◌, sym, ◌∙◌, ◌↔◌, inl, inr, Option-cases, ◌+◌, none, some, [], ◌∷◌, ◌++◌, arith, get_elem?,
}
use gpu_provisioner.Base.Text.{Bytes, codes, Lacks, split, split-append, split-Lacks}
use gpu_provisioner.Base.Result.{ok, err, panic, deref, pool_name_mismatch}
use gpu_provisioner.Ids.Regex.{byte, many, group, Pattern, match_here, find_submatch, text}
use gpu_provisioner.Ids.Fields.{
  IsField, slashes, needs, slashes-field, slashes-Lacks, match_here-text, match_here-many,
  match_here-group, match_here-trailing, find_submatch-start,
}
use gpu_provisioner.Ids.Regex.Sound.{Occurs, find_submatch-Decides}
use gpu_provisioner.Ids.{pool_name_pattern, second_part, parse_agent_pool_name_from_id}

found :
    (id g : Bytes)
    → find_submatch pool_name_pattern id ≡ some g
    → parse_agent_pool_name_from_id id ≡ second_part g
unfolding parse_agent_pool_name_from_id
found id g e = rw (e, parse_agent_pool_name_from_id)

missed :
    (id : Bytes)
    → find_submatch pool_name_pattern id ≡ none
    → parse_agent_pool_name_from_id id ≡ err (pool_name_mismatch id)
unfolding parse_agent_pool_name_from_id
missed id e = rw (e, parse_agent_pool_name_from_id)

second_part-ne-mismatch : (g id : Bytes) → second_part g ≢ err (pool_name_mismatch id)
unfolding second_part
second_part-ne-mismatch g id h = ground arith

module _ (sub rg vmss vm : Bytes) where
  -- The identifier of a machine of a scale set.
  abbrev pub machine_id : Bytes
  machine_id =
      codes "azure:///subscriptions/"
      ++ (sub
          ++ (codes "/resourceGroups/"
              ++ (rg
                  ++ (codes "/providers/Microsoft.Compute/virtualMachineScaleSets/"
                      ++ (vmss ++ (codes "/virtualMachines/" ++ vm))))))

  find_submatch-machine_id :
      IsField sub
      → IsField rg
      → IsField vmss
      → Lacks b'/' vm
      → find_submatch pool_name_pattern machine_id ≡ some vmss
  unfolding codes text slashes needs
  find_submatch-machine_id hs hr hv hm =
      let vms = codes "virtualMachines/" in
      let sets = codes "providers/Microsoft.Compute/virtualMachineScaleSets/" in
      let groups = codes "resourceGroups/" in
      let p3 : Pattern = group ∷ byte b'/' ∷ (text vms ++ many ∷ []) in
      let p2 : Pattern = many ∷ byte b'/' ∷ (text sets ++ p3) in
      let p1 : Pattern = many ∷ byte b'/' ∷ (text groups ++ p2) in
      let r3 = vmss ++ b'/' ∷ (vms ++ vm) in
      let r2 = rg ++ b'/' ∷ (sets ++ r3) in
      let r1 = sub ++ b'/' ∷ (groups ++ r2) in
      let n0 : slashes vm ≡ 0 = slashes-Lacks vm hm in
      let n3 : slashes r3 ≡ 2 + slashes vm = slashes-field vmss (b'/' ∷ vms) vm hv in
      let n2 : slashes r2 ≡ 4 + slashes r3 = slashes-field rg (b'/' ∷ sets) r3 hr in
      let e3 : match_here p3 r3 ≡ some vmss =
        match_here-group (many ∷ []) vms vm [] (omega arith) (omega arith) (match_here-trailing vm)
          vmss hv in
      let e2 : match_here p2 r2 ≡ some vmss =
        match_here-many p3 sets r3 vmss (omega arith) (omega arith) e3 rg hr in
      let e1 : match_here p1 r1 ≡ some vmss =
        match_here-many p2 groups r2 vmss (omega arith) (omega arith) e2 sub hs in
      find_submatch-start pool_name_pattern machine_id vmss
        (match_here-text p1 (codes "azure:///subscriptions/") r1 (omega arith) ∙ e1)

  -- An identifier `azure:///subscriptions/S/resourceGroups/R/…/virtualMachineScaleSets/V/virtualMachines/M`,
  -- whose S, R and V hold no slash and no end of line and whose M holds no slash, is read as the
  -- second of the parts that dashes make of V, and panics where V has one part only.
  pub parse-machine_id :
      IsField sub
      → IsField rg
      → IsField vmss
      → Lacks b'/' vm
      → parse_agent_pool_name_from_id machine_id ≡ deref (get_elem? (split vmss b'-') 1)
  unfolding second_part
  parse-machine_id hs hr hv hm = found machine_id vmss (find_submatch-machine_id hs hr hv hm)

  pub parse-machine_id_named :
      (prefix name rest : Bytes)
      → vmss ≡ prefix ++ b'-' ∷ (name ++ b'-' ∷ rest)
      → Lacks b'-' prefix
      → Lacks b'-' name
      → IsField sub
      → IsField rg
      → IsField vmss
      → Lacks b'/' vm
      → parse_agent_pool_name_from_id machine_id ≡ ok name
  parse-machine_id_named prefix name rest e hp hn hs hr hv hm =
      parse-machine_id hs hr hv hm
      ∙ rw (e, split-append b'-' prefix (name ++ b'-' ∷ rest) hp, split-append b'-' name rest hn)

  -- An identifier of that shape whose scale set name V has no dash makes the call panic: the index 1
  -- is out of range.
  parse-machine_id_panics :
      Lacks b'-' vmss
      → IsField sub
      → IsField rg
      → IsField vmss
      → Lacks b'/' vm
      → parse_agent_pool_name_from_id machine_id ≡ panic
  parse-machine_id_panics h hs hr hv hm =
      parse-machine_id hs hr hv hm ∙ rw (split-Lacks b'-' vmss h)

-- An identifier is refused with the error that names it exactly where the expression has no match in it.
pub pool_name_mismatch_iff :
    (id : Bytes)
    → (parse_agent_pool_name_from_id id ≡ err (pool_name_mismatch id))
      ↔ ((g : Bytes) → ¬ Occurs pool_name_pattern id g)
pool_name_mismatch_iff id = elim (Option-cases (find_submatch pool_name_pattern id)) [
  | inl e ↦ (λ _. rw e at (find_submatch-Decides pool_name_pattern id), λ _. missed id e)
  | inr (g, e) ↦ (
    λ h. absurd (second_part-ne-mismatch g id (sym (found id g e) ∙ h)),
    λ h. absurd (h g (rw e at (find_submatch-Decides pool_name_pattern id))),
  )
]
