-- ===== src/Fake/Machines/Creation.antt =====
-- Create of pkg/fake/cloudprovider.go, over the types that GetInstanceTypes answers. Of the status of
-- the machine that it makes, only the provider identifier is modelled.
use gpu_provisioner.Base.{Bool, List, [], ◌∷◌, ◌++◌, length, ltb, if◌then◌else◌}
use gpu_provisioner.Base.Text.{Bytes, codes}
use gpu_provisioner.Base.Dict.{Dict, insert, assign}
use gpu_provisioner.Base.Result.{Result, ok, err, panic, out_of_fuel, ◌>>=◌, create_calls_exceeded}
use gpu_provisioner.Base.Effect.{M}
use gpu_provisioner.Cluster.{Machine, NodeSelectorRequirement}
use gpu_provisioner.InstanceTypes.Requirements.{Offering}
use gpu_provisioner.Fake.Machines.{CloudProvider}

-- A requirement of a type: whether its operator is `In`, and its values.
pub record Requirement : Type 0 where
  pub is_in : Bool
  pub values : List Bytes

pub record InstanceType (Price : Type 0) : Type 0 where
  pub name : Bytes
  pub requirements : Dict Requirement
  pub offerings : List (Offering Price)

-- Package scheduling of Karpenter, the prices of offerings, `sort.Slice` and
-- `test.RandomProviderID`.
pub record Karpenter (W Price : Type 0) : Type 1 where
  pub Requirements : Type 0
  pub new_node_selector_requirements : List NodeSelectorRequirement → Requirements
  pub has_value : Requirements → (label value : Bytes) → Bool
  pub is_compatible : Requirements → (zone capacity_type : Bytes) → Bool
  -- the price of `offerings.Requirements(reqs).Cheapest()`
  pub cheapest_price : Requirements → List (Offering Price) → Price
  pub is_less : Price → Price → Bool
  pub sort_slice :
      (InstanceType Price → InstanceType Price → Bool)
      → List (InstanceType Price)
      → List (InstanceType Price)
  pub random_provider_id : W → Bytes × W

abbrev pub label_topology_zone : Bytes
label_topology_zone = codes "topology.kubernetes.io/zone"

abbrev pub label_capacity_type : Bytes
label_capacity_type = codes "karpenter.sh/capacity-type"

-- `lo.Filter`
unfoldable pub filter : {A : Type 0} → (A → Bool) → List A → List A
filter f [] = []
filter f (x ∷ xs) = let rest = filter f xs in if f x then x ∷ rest else rest

-- `instanceTypes[0]`
abbrev pub first : {A : Type 0} → List A → Result A
first [] = panic
first (x ∷ xs) = ok x

-- one round of the loop over the requirements of the type
abbrev pub add_first_value : Bytes → Requirement → Dict Bytes → Result (Dict Bytes)
add_first_value key r labels =
    if r.is_in then first r.values >>= (λ v. ok (insert key v labels)) else ok labels

unfoldable pub first_values : Dict Requirement → Dict Bytes → Result (Dict Bytes)
unfolding insert
first_values [] labels = ok labels
first_values ((key, r) ∷ requirements) labels =
    add_first_value key r labels >>= first_values requirements

module _ {W Price : Type 0} (K : Karpenter W Price) where
  -- the labels of the first available offering that fits
  unfoldable pub with_offering : K.Requirements → List (Offering Price) → Dict Bytes → Dict Bytes
  unfolding insert
  with_offering requirements [] labels = labels
  with_offering requirements (o ∷ offerings) labels =
      let rest = with_offering requirements offerings labels in
      if K.is_compatible requirements o.zone o.capacity_type
      then insert label_capacity_type o.capacity_type (insert label_topology_zone o.zone labels)
      else rest

  -- the types that fit, the cheapest one first
  unfoldable pub candidates : K.Requirements → List (InstanceType Price) → List (InstanceType Price)
  unfolding filter
  candidates requirements types =
      let price : InstanceType Price → Price =
        λ t. K.cheapest_price requirements (filter (λ o. o.available) t.offerings) in
      K.sort_slice (λ s t. K.is_less (price s) (price t))
        (filter (λ t. K.has_value requirements (codes "node.kubernetes.io/instance-type") t.name)
          types)

  unfoldable pub new_labels : K.Requirements → List (InstanceType Price) → Result (Dict Bytes)
  unfolding candidates first_values with_offering filter
  new_labels requirements types = do
    t ← first (candidates requirements types)
    labels ← first_values t.requirements []
    ok (with_offering requirements (filter (λ o. o.available) t.offerings) labels)

  abbrev pub with_labels : Machine → Result (Dict Bytes) → M (CloudProvider × W) Machine
  with_labels machine (ok labels) (c, w) =
      let (id, v) = K.random_provider_id w in
      let created : Machine = record machine {
        labels = assign labels machine.labels;
        provider_id = id;
      } in
      (ok created, (record c { created_machines = insert id created c.created_machines }, v))
  with_labels machine (err e) s = (err e, s)
  with_labels machine panic s = (panic, s)
  with_labels machine out_of_fuel s = (out_of_fuel, s)

  unfoldable pub create : List (InstanceType Price) → Machine → M (CloudProvider × W) Machine
  unfolding new_labels insert assign
  create types machine (c, w) =
      let called = record c { create_calls = c.create_calls ++ machine ∷ [] } in
      if ltb c.allowed_create_calls (length called.create_calls)
      then (err create_calls_exceeded, (called, w))
      else with_labels machine
          (new_labels (K.new_node_selector_requirements machine.requirements) types) (called, w)
