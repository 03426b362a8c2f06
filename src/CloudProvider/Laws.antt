-- ===== src/CloudProvider/Laws.antt =====
-- What the controllers see.
use gpu_provisioner.Base.{◌≡◌, ap, ◌∙◌, Bool, true, false, Option, none, some, List, arith}
use gpu_provisioner.Base.Text.{Bytes, same}
use gpu_provisioner.Base.Dict.{Dict, lookup, assign, or_else, lookup-assign, lookup-insert}
use gpu_provisioner.Base.Result.{
  Result, ok, err, panic, out_of_fuel, from_ptr, creating_instance, getting_instance,
  instance_missing, pool_delete, ◌>>=◌,
}
use gpu_provisioner.Base.Effect.{continue, in_context}
use gpu_provisioner.Cluster.{Machine, NodeSelectorRequirement, KubeClient, Retry, Node}
use gpu_provisioner.AgentPools.{AgentPool, PoolProperties, AgentPoolsApi, delete_agent_pool}
use gpu_provisioner.Ids.Fields.{IsField}
use gpu_provisioner.Instance as Instances
use gpu_provisioner.Instance.{Instance, Provider, to_instance}
use gpu_provisioner.Instance.Laws.{IsNodeOf, delete-instance}
use gpu_provisioner.Instance.Pool.{provisioner_name_label_key}
use gpu_provisioner.CloudProvider.Machines.{
  label_capacity_type, copied, copy_tag, with_capacity_type, made, instance_to_machine,
}
use gpu_provisioner.CloudProvider.{create, new_machine, get, delete, machine_or_missing}

abbrev joined : Option (Option Bytes) → Option Bytes
joined none = none
joined (some o) = o

-- The value of a tag, where its pointer is not nil.
abbrev pub tag : Bytes → Dict (Option Bytes) → Option Bytes
tag key tags = joined (lookup key tags)

abbrev pub only : Bool → Option Bytes → Option Bytes
only true o = o
only false o = none

copied_lem :
    (key : Bytes) (o : Option (Option Bytes)) (m l : Dict Bytes) (k : Bytes)
    → copied key o m ≡ ok l
    → lookup k l ≡ or_else (only (same key k) (joined o)) (lookup k m)
unfolding copied
copied_lem key none m l k h = ground arith
copied_lem key (some none) m l k h = cc
copied_lem key (some (some v)) m l k h = ground (arith, lookup-insert key k v m)

copy_tag_lem :
    (key : Bytes) (tags : Dict (Option Bytes)) (m l : Dict Bytes) (k : Bytes)
    → copy_tag key tags m ≡ ok l
    → lookup k l ≡ or_else (only (same key k) (tag key tags)) (lookup k m)
unfolding copy_tag
copy_tag_lem key tags m l k h = copied_lem key (lookup key tags) m l k h

with_capacity_type_lem :
    (c : Option Bytes) (m : Dict Bytes) (k : Bytes)
    → lookup k (with_capacity_type c m) ≡ or_else (only (same label_capacity_type k) c) (lookup k m)
unfolding with_capacity_type lookup
with_capacity_type_lem none m k = ground arith
with_capacity_type_lem (some c) m k = ground arith

-- What a conversion that succeeds went through.
pub record IsMachineOf (i : Instance) (m : Machine) (j : Instance) : Type 0 where
  pub labels :
      copy_tag provisioner_name_label_key i.tags (with_capacity_type i.capacity_type i.labels)
      ≡ ok m.labels
  pub same_labels : j.labels ≡ m.labels
  pub name : m.name ≡ from_ptr i.name
  pub provider_id : m.provider_id ≡ from_ptr i.id

steps :
    (i j : Instance) (m : Machine) (x y : Result (Dict Bytes))
    → (x >>= λ labels. y >>= λ annotations. ok (made i labels annotations)) ≡ ok (m, j)
    → (x ≡ ok m.labels)
      × (j.labels ≡ m.labels)
      × (m.name ≡ from_ptr i.name)
      × (m.provider_id ≡ from_ptr i.id)
unfolding made
steps i j m (ok l) (ok a) h = ground arith
steps i j m (ok l) (err e) h = cc
steps i j m (ok l) panic h = cc
steps i j m (ok l) out_of_fuel h = cc
steps i j m (err e) y h = cc
steps i j m panic y h = cc
steps i j m out_of_fuel y h = cc

pub instance_to_machine-IsMachineOf :
    (i j : Instance) (m : Machine) → instance_to_machine (some i) ≡ ok (m, j) → IsMachineOf i m j
unfolding instance_to_machine
instance_to_machine-IsMachineOf i j m h =
    let (l, s, n, d) = steps i j m _ _ h in
    record { labels = l; same_labels = s; name = n; provider_id = d }

-- Where `instanceToMachine` gives a machine, which value each of its labels has: the tag with the
-- provisioner's name goes over the capacity type, and this over the label of the instance. The
-- machine has the instance's name and identifier.
pub machine-labels :
    (i j : Instance) (m : Machine) (k : Bytes)
    → instance_to_machine (some i) ≡ ok (m, j)
    → (lookup k m.labels
        ≡ or_else
            (only (same provisioner_name_label_key k) (tag provisioner_name_label_key i.tags))
            (or_else (only (same label_capacity_type k) i.capacity_type) (lookup k i.labels)))
      × (m.name ≡ from_ptr i.name)
      × (m.provider_id ≡ from_ptr i.id)
machine-labels i j m k h =
    let s = instance_to_machine-IsMachineOf i j m h in
    (
      copy_tag_lem _ i.tags _ m.labels k s.labels
          ∙ rw (with_capacity_type_lem i.capacity_type i.labels k),
      s.name,
      s.provider_id,
    )

module _ {W : Type 0} (kube : KubeClient W) (retry : Retry W) (p : Provider) (api : AgentPoolsApi W)
    (requirement_values : List NodeSelectorRequirement → Bytes → List Bytes) where
  -- Where the instance provider's `Get` finds no instance (the node of the pool is missing or not
  -- ready), `Get` returns an error.
  get_missing :
      (id : Bytes) (w v : W)
      → Instances.get kube retry p api requirement_values id w ≡ (ok none, v)
      → get kube retry p api requirement_values id w ≡ (err instance_missing, v)
  unfolding get
  get_missing id w v e =
      ap
        (λ (x : Result (Option Instance) × W).
          continue (in_context getting_instance (λ (_ : W). x) x.1)
            (machine_or_missing kube retry p api requirement_values))
        e

  new_machine-labels :
      (i j : Instance) (m : Machine) (k : Bytes)
      → instance_to_machine (some i) ≡ ok (m, j)
      → lookup k (assign m.labels j.labels) ≡ lookup k m.labels
  new_machine-labels i j m k h =
      let s = instance_to_machine-IsMachineOf i j m h in
      rw (lookup-assign k m.labels j.labels, s.same_labels) (ground arith)

  abbrev behind_create : Result (Option Instance) × W → Result Machine × W
  behind_create x =
      continue (in_context creating_instance (λ (_ : W). x) x.1)
        (new_machine kube retry p api requirement_values)

  -- If the instance provider makes an instance and `instanceToMachine` gives its machine, `Create`
  -- returns a machine with the name and the identifier of the instance and the labels of that
  -- machine: the final merge of the two label maps changes no label.
  pub create-machine :
      (machine : Machine) (w v : W) (i j : Instance) (m : Machine)
      → Instances.create kube retry p api requirement_values machine w ≡ (ok (some i), v)
      → instance_to_machine (some i) ≡ ok (m, j)
      → (n : Machine) × (create kube retry p api requirement_values machine w ≡ (ok n, v))
        × (n.name ≡ from_ptr i.name)
        × (n.provider_id ≡ from_ptr i.id)
        × ((k : Bytes) → lookup k n.labels ≡ lookup k m.labels)
  create-machine machine w v i j m e h =
      let s = instance_to_machine-IsMachineOf i j m h in
      (
        record m { labels = assign m.labels j.labels },
        unfold create in ap behind_create e ∙ (unfold new_machine in rw h),
        s.name,
        s.provider_id,
        λ k. new_machine-labels i j m k h,
      )

  -- `Delete` of the machine that `instanceToMachine` makes of an instance deletes the agent pool of that
  -- instance, with any error wrapped, if the subscription and the node resource group hold no slash
  -- and no end of line and the node is named after the pool as AKS does.
  pub delete-machine :
      (ap_obj : AgentPool) (props : PoolProperties) (sub pool : Bytes) (node : Node) (m : Machine)
      (j : Instance) (w : W)
      → instance_to_machine (some (to_instance p ap_obj props sub node)) ≡ ok (m, j)
      → IsField sub
      → IsField p.node_resource_group
      → IsNodeOf pool node
      → delete kube retry p api requirement_values m w
        ≡ in_context
            (pool_delete pool)
            (delete_agent_pool api p.resource_group pool p.cluster_name)
            w
  unfolding to_instance delete
  delete-machine ap_obj props sub pool node m j w h hs hr hn =
      ap (λ (id : Bytes). Instances.delete kube retry p api requirement_values id w)
        (instance_to_machine-IsMachineOf (to_instance p ap_obj props sub node) j m h).provider_id
      ∙ delete-instance kube retry p api requirement_values sub pool node hs hr hn w
