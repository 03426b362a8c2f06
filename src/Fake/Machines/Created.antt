-- ===== src/Fake/Machines/Created.antt =====
-- What Create of the fake cloud provider leaves behind.
use gpu_provisioner.Base.{
  ◌<◌, ◌≤◌, ◌≡◌, ◌∙◌, refl, ap, inl, inr, Bool-cases, List, [], ◌∷◌, ◌++◌, length, ltb, arith, some,
}
use gpu_provisioner.Base.Text.{Bytes, same_refl}
use gpu_provisioner.Base.Dict.{Dict, lookup, insert, or_else, lookup-assign}
use gpu_provisioner.Base.Result.{Result, ok, err, panic, out_of_fuel, ◌>>=◌}
use gpu_provisioner.Cluster.{Machine}
use gpu_provisioner.Fake.Machines.{CloudProvider, get}
use gpu_provisioner.Fake.Machines.Creation.{
  Requirement, InstanceType, Karpenter, first, add_first_value, first_values, candidates,
  new_labels, with_labels, create,
}

-- a value or a panic
abbrev IsSettled : {A : Type 0} → Result A → Type 0
IsSettled (ok a) = Unit
IsSettled (err e) = ⊥
IsSettled panic = Unit
IsSettled out_of_fuel = ⊥

IsSettled-bind :
    {A B : Type 0} (m : Result A) (f : A → Result B)
    → IsSettled m
    → ((a : A) → IsSettled (f a))
    → IsSettled (m >>= f)
IsSettled-bind (ok a) f h k = k a
IsSettled-bind (err e) f h k = elim h [ ]
IsSettled-bind panic f h k = tt
IsSettled-bind out_of_fuel f h k = elim h [ ]

first-IsSettled : {A : Type 0} (xs : List A) → IsSettled (first xs)
first-IsSettled [] = tt
first-IsSettled (x ∷ xs) = tt

add_first_value-IsSettled :
    (key : Bytes) (r : Requirement) (labels : Dict Bytes) → IsSettled (add_first_value key r labels)
add_first_value-IsSettled key r labels = elim (Bool-cases r.is_in) [
  | inl e ↦ rw e (IsSettled-bind (first r.values) _ (first-IsSettled r.values) (λ v. tt))
  | inr e ↦ rw e tt
]

first_values-IsSettled :
    (requirements : Dict Requirement) (labels : Dict Bytes)
    → IsSettled (first_values requirements labels)
unfolding first_values
first_values-IsSettled [] labels = tt
first_values-IsSettled ((key, r) ∷ requirements) labels =
    IsSettled-bind (add_first_value key r labels) (first_values requirements)
      (add_first_value-IsSettled key r labels) (first_values-IsSettled requirements)

module _ {W Price : Type 0} (K : Karpenter W Price) where
  -- What a call leaves behind. `Get` finds a machine that was made, which has the labels of the wanted one;
  -- an error means that there were too many calls, and it makes no machine.
  abbrev pub IsCreated : Machine → CloudProvider → Result Machine × (CloudProvider × W) → Type 0
  IsCreated machine c (ok created, (d, w)) =
      (get created.provider_id d ≡ (ok created, d))
      × (d.create_calls ≡ c.create_calls ++ machine ∷ [])
      × (length d.create_calls ≤ c.allowed_create_calls)
      × (created.name ≡ machine.name)
      × ((k v : Bytes) → lookup k machine.labels ≡ some v → lookup k created.labels ≡ some v)
  IsCreated machine c (err e, (d, w)) =
      (c.allowed_create_calls < length d.create_calls)
      × (d.created_machines ≡ c.created_machines)
      × (d.create_calls ≡ c.create_calls ++ machine ∷ [])
  IsCreated machine c (panic, (d, w)) = d.create_calls ≡ c.create_calls ++ machine ∷ []
  IsCreated machine c (out_of_fuel, (d, w)) = ⊥

  new_labels-IsSettled :
      (requirements : K.Requirements) (types : List (InstanceType Price))
      → IsSettled (new_labels K requirements types)
  unfolding new_labels
  new_labels-IsSettled requirements types =
      IsSettled-bind (first (candidates K requirements types)) _
        (first-IsSettled (candidates K requirements types))
        λ t.
          IsSettled-bind (first_values t.requirements []) _
            (first_values-IsSettled t.requirements []) (λ labels. tt)

  with_labels-IsCreated :
      (machine : Machine) (c : CloudProvider) (w : W) (r : Result (Dict Bytes))
      → IsSettled r
      → length (c.create_calls ++ machine ∷ []) ≤ c.allowed_create_calls
      → IsCreated machine c
          (with_labels K machine r (record c { create_calls = c.create_calls ++ machine ∷ [] }, w))
  unfolding get lookup insert
  with_labels-IsCreated machine c w (ok labels) h few = (
    rw (same_refl (K.random_provider_id w).0) refl,
    refl,
    few,
    refl,
    λ k v e. lookup-assign k labels machine.labels ∙ ap (λ o. or_else o (lookup k labels)) e,
  )
  with_labels-IsCreated machine c w (err e) h few = elim h [ ]
  with_labels-IsCreated machine c w panic h few = refl
  with_labels-IsCreated machine c w out_of_fuel h few = elim h [ ]

  -- Every call is recorded. `Create` makes a machine or panics as long as there are no
  -- more calls than are allowed, and returns an error without a machine after that; a machine that
  -- was made is found by `Get`, and carries the name and all labels of the wanted one.
  pub create-IsCreated :
      (types : List (InstanceType Price)) (machine : Machine) (c : CloudProvider) (w : W)
      → IsCreated machine c (create K types machine (c, w))
  unfolding create
  create-IsCreated types machine c w =
      elim (Bool-cases (ltb c.allowed_create_calls (length (c.create_calls ++ machine ∷ [])))) [
        | inl e ↦ rw e (ground (arith, e), refl, refl)
        | inr e ↦
            rw e (
              with_labels-IsCreated machine c w _ (new_labels-IsSettled _ types)
                (ground (arith, e)))
      ]
