-- ===== src/Fake/Machines/Zone.antt =====
-- The zone and the capacity type of a machine that Create of the fake cloud provider makes.
use gpu_provisioner.Base.{
  ◌≡◌, ◌∙◌, refl, sym, ap, inl, inr, Bool-cases, true, false, List, [], ◌∷◌, ◌++◌, length, ltb,
  some,
}
use gpu_provisioner.Base.Text.{Bytes, codes, same}
use gpu_provisioner.Base.Dict.{Dict, lookup, insert, assign, or_else, lookup-assign, lookup-insert}
use gpu_provisioner.Base.Result.{Result, ok, err, panic, out_of_fuel, ◌>>=◌, create_calls_exceeded}
use gpu_provisioner.Cluster.{Machine}
use gpu_provisioner.InstanceTypes.Requirements.{Offering}
use gpu_provisioner.Fake.Machines.{CloudProvider}
use gpu_provisioner.Fake.Machines.Creation.{
  InstanceType, Karpenter, first_values, candidates, filter, with_offering, new_labels, with_labels,
  create, label_topology_zone, label_capacity_type,
}

module _ {W Price : Type 0} (K : Karpenter W Price) (requirements : K.Requirements) where
  -- The first offering that is available and fits.
  pub data IsFirstFit : List (Offering Price) → Offering Price → Type 0 where
    fits :
        {o : Offering Price} {offerings : List (Offering Price)}
        → o.available ≡ true
        → K.is_compatible requirements o.zone o.capacity_type ≡ true
        → IsFirstFit (o ∷ offerings) o
    sold_out :
        {p o : Offering Price} {offerings : List (Offering Price)}
        → p.available ≡ false
        → IsFirstFit offerings o
        → IsFirstFit (p ∷ offerings) o
    unfit :
        {p o : Offering Price} {offerings : List (Offering Price)}
        → p.available ≡ true
        → K.is_compatible requirements p.zone p.capacity_type ≡ false
        → IsFirstFit offerings o
        → IsFirstFit (p ∷ offerings) o

  abbrev available : List (Offering Price) → List (Offering Price)
  available = filter (λ o. o.available)

  abbrev zoned : Offering Price → Dict Bytes → Dict Bytes
  zoned o labels =
      insert label_capacity_type o.capacity_type (insert label_topology_zone o.zone labels)

  with_offering-IsFirstFit :
      {offerings : List (Offering Price)} {o : Offering Price} (labels : Dict Bytes)
      → IsFirstFit offerings o
      → with_offering K requirements (available offerings) labels ≡ zoned o labels
  unfolding with_offering filter
  with_offering-IsFirstFit labels (fits a c) = rw a (rw c refl)
  with_offering-IsFirstFit labels (sold_out a m) = rw a (with_offering-IsFirstFit labels m)
  with_offering-IsFirstFit labels (unfit a c m) = rw a (rw c (with_offering-IsFirstFit labels m))

  lookup-zoned :
      (o : Offering Price) (labels : Dict Bytes)
      → (lookup label_topology_zone (zoned o labels) ≡ some o.zone)
        × (lookup label_capacity_type (zoned o labels) ≡ some o.capacity_type)
  unfolding lookup insert codes same
  lookup-zoned o labels = (
    lookup-insert label_capacity_type label_topology_zone o.capacity_type
          (insert label_topology_zone o.zone labels)
        ∙ lookup-insert label_topology_zone label_topology_zone o.zone labels,
    lookup-insert label_capacity_type label_capacity_type o.capacity_type
        (insert label_topology_zone o.zone labels),
  )

  after_values :
      (t : InstanceType Price) (r : Result (Dict Bytes)) (labels : Dict Bytes)
      → (r >>= λ values. ok (with_offering K requirements (available t.offerings) values))
        ≡ ok labels
      → (values : Dict Bytes) × (with_offering K requirements (available t.offerings) values
          ≡ labels)
  after_values t (ok values) labels h = (values, cc)
  after_values t (err e) labels h = cc
  after_values t panic labels h = cc
  after_values t out_of_fuel labels h = cc

  new_labels-zoned :
      (types : List (InstanceType Price)) (t : InstanceType Price) (ts : List (InstanceType Price))
      (o : Offering Price) (labels : Dict Bytes)
      → candidates K requirements types ≡ t ∷ ts
      → IsFirstFit t.offerings o
      → new_labels K requirements types ≡ ok labels
      → (values : Dict Bytes) × (labels ≡ zoned o values)
  unfolding new_labels
  new_labels-zoned types t ts o labels e m h =
      let (values, same_labels) =
        after_values t (first_values t.requirements []) labels (rw e at h) in
      (values, sym same_labels ∙ with_offering-IsFirstFit values m)

refused :
    {W : Type 0} {m : Machine} {x v : CloudProvider × W}
    → ◌≡◌ {A = Result Machine × (CloudProvider × W)} (err create_calls_exceeded, x) (ok m, v)
    → ⊥
refused g = cc

module _ {W Price : Type 0} (K : Karpenter W Price) where
  made_labels :
      (machine m : Machine) (r : Result (Dict Bytes)) (s v : CloudProvider × W)
      → with_labels K machine r s ≡ (ok m, v)
      → (labels : Dict Bytes) × (r ≡ ok labels) × (m.labels ≡ assign labels machine.labels)
  made_labels machine m (ok labels) s v h = (labels, refl, cc)
  made_labels machine m (err e) s v h = cc
  made_labels machine m panic s v h = cc
  made_labels machine m out_of_fuel s v h = cc

  -- A machine that `Create` makes of a type has the zone and the capacity type of the first offering of this
  -- type that is available and fits the requirements of the wanted machine, unless the labels of the
  -- wanted machine name another one; the type is the first of the candidates.
  pub create-IsFirstFit :
      (types : List (InstanceType Price)) (t : InstanceType Price) (ts : List (InstanceType Price))
      (o : Offering Price) (machine m : Machine) (c : CloudProvider) (w : W) (v : CloudProvider × W)
      → candidates K (K.new_node_selector_requirements machine.requirements) types ≡ t ∷ ts
      → IsFirstFit K (K.new_node_selector_requirements machine.requirements) t.offerings o
      → create K types machine (c, w) ≡ (ok m, v)
      → (lookup label_topology_zone m.labels
          ≡ or_else (lookup label_topology_zone machine.labels) (some o.zone))
        × (lookup label_capacity_type m.labels
            ≡ or_else (lookup label_capacity_type machine.labels) (some o.capacity_type))
  unfolding create
  create-IsFirstFit types t ts o machine m c w v e fit h =
      elim (Bool-cases (ltb c.allowed_create_calls (length (c.create_calls ++ machine ∷ [])))) [
        | inl many ↦ absurd (refused (rw many at h))
        | inr few ↦ by_labels (made_labels machine m _ _ v (rw few at h))
      ]
    where
      requirements : K.Requirements
      requirements = K.new_node_selector_requirements machine.requirements

      by_labels :
          (labels : Dict Bytes) × (new_labels K requirements types ≡ ok labels)
            × (m.labels ≡ assign labels machine.labels)
          → (lookup label_topology_zone m.labels
              ≡ or_else (lookup label_topology_zone machine.labels) (some o.zone))
            × (lookup label_capacity_type m.labels
                ≡ or_else (lookup label_capacity_type machine.labels) (some o.capacity_type))
      by_labels (labels, made, merged) =
          let (values, l) = new_labels-zoned K requirements types t ts o labels e fit made in
          let (zone, capacity) = lookup-zoned K requirements o values in
          (
            ap (lookup label_topology_zone) merged
                ∙ lookup-assign label_topology_zone labels machine.labels
                ∙ ap (or_else (lookup label_topology_zone machine.labels))
                    (ap (lookup label_topology_zone) l ∙ zone),
            ap (lookup label_capacity_type) merged
                ∙ lookup-assign label_capacity_type labels machine.labels
                ∙ ap (or_else (lookup label_capacity_type machine.labels))
                    (ap (lookup label_capacity_type) l ∙ capacity),
          )
