-- ===== src/Ids/SingleValued.antt =====
-- GetAllSingleValuedRequirementLabels of pkg/utils/utils.go.
use gpu_provisioner.Base.{
  ℕ, ◌==◌, ◌≡◌, refl, ap, ◌∙◌, Option, none, some, List, [], ◌∷◌, Bool-cases, inl, inr, arith,
  if◌then◌else◌,
}
use gpu_provisioner.Base.Text.{Bytes}
use gpu_provisioner.Base.Dict.{Dict, insert}
use gpu_provisioner.Base.Result.{Result, ok, panic, ◌>>=◌}

-- `scheduling.Requirement`, as far as it is asked: `Len` and `Values`.
module _ {Requirement : Type 0} (len : Requirement → ℕ) (values : Requirement → List Bytes) where
  -- The index is out of range where there are no values.
  abbrev pub first_value : List Bytes → Result Bytes
  first_value [] = panic
  first_value (v ∷ vs) = ok v

  abbrev pub add_label : Bytes → Requirement → Dict Bytes → Result (Dict Bytes)
  add_label key req labels =
      if len req == 1
      then (first_value (values req) >>= λ v. ok (insert key v labels))
      else ok labels

  -- the loop, over the entries of the map
  unfoldable pub add_labels : List (Bytes × Requirement) → Dict Bytes → Result (Dict Bytes)
  unfolding insert
  add_labels [] labels = ok labels
  add_labels ((key, req) ∷ requirements) labels =
      add_label key req labels >>= add_labels requirements

  -- By the requirements of the instance type, which may be nil.
  unfoldable pub get_all_single_valued_requirement_labels :
      Option (List (Bytes × Requirement)) → Result (Dict Bytes)
  unfolding add_labels
  get_all_single_valued_requirement_labels none = ok []
  get_all_single_valued_requirement_labels (some requirements) = add_labels requirements []

  -- A requirement of length one has a value: nothing is out of range.
  abbrev pub HasValues : Type 0
  HasValues =
      (req : Requirement) → len req ≡ 1 → (v : Bytes) × (vs : List Bytes) × (values req ≡ v ∷ vs)

  module _ (laws : HasValues) where
    add_label-total :
        (key : Bytes) (req : Requirement) (labels : Dict Bytes)
        → (found : Dict Bytes) × (add_label key req labels ≡ ok found)
    add_label-total key req labels = elim (Bool-cases (len req == 1)) [
      | inl e ↦
          let (v, vs, first) = laws req (ground (arith, e)) in
          (insert key v labels, rw (e, first) refl)
      | inr e ↦ (labels, rw e refl)
    ]

    -- If every requirement of length one has a value, the labels are returned.
    pub add_labels-total :
        (requirements : List (Bytes × Requirement)) (labels : Dict Bytes)
        → (found : Dict Bytes) × (add_labels requirements labels ≡ ok found)
    unfolding add_labels
    add_labels-total [] labels = (labels, refl)
    add_labels-total ((key, req) ∷ requirements) labels =
        let (next, e) = add_label-total key req labels in
        let (found, rest) = add_labels-total requirements next in
        (found, ap (λ (r : Result (Dict Bytes)). r >>= add_labels requirements) e ∙ rest)
