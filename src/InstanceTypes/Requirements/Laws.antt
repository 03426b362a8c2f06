-- ===== src/InstanceTypes/Requirements/Laws.antt =====
-- `computeRequirements` inserts values only under labels that it declared before.
use gpu_provisioner.Base.{
  ℕ, ◌≡◌, ◌∙◌, inl, inr, refl, sym, Bool, Bool-cases, true, false, not, ◌&&◌, ◌||◌, Option, none,
  some, List, [], ◌∷◌, ◌++◌, ◌==◌, arith,
}
use gpu_provisioner.Base.Text.{Bytes, codes, same, same_refl}
use gpu_provisioner.Base.Dict.{has_key}
use gpu_provisioner.Base.Result.{Result, ok, err, panic, out_of_fuel, ◌>>=◌}
use gpu_provisioner.Base.Int.{ℤ, sprint}
use gpu_provisioner.Labels
use gpu_provisioner.Labels.{sku_feature_to_label, feature_label}
use gpu_provisioner.InstanceTypes.Skus.{Scheduling, Operator, op_does_not_exist}
use gpu_provisioner.InstanceTypes.Requirements.{
  absent_labels, true_text, insert_if, insert_some, insert_number, add_features, insert_features,
}

-- The deprecated labels that package v1alpha5 of Karpenter replaces (`NormalizedLabels`).
abbrev pub normalized_labels : List Bytes
normalized_labels =
    codes "failure-domain.beta.kubernetes.io/zone"
    ∷ codes "beta.kubernetes.io/arch"
    ∷ codes "beta.kubernetes.io/os"
    ∷ codes "beta.kubernetes.io/instance-type"
    ∷ codes "failure-domain.beta.kubernetes.io/region"
    ∷ []

abbrev pub are_plain : List Bytes → Bool
are_plain [] = true
are_plain (l ∷ labels) = not (has_key l normalized_labels) && are_plain labels

pub are_plain-head :
    (l : Bytes) (labels : List Bytes)
    → are_plain (l ∷ labels) ≡ true
    → (has_key l normalized_labels ≡ false) × (are_plain labels ≡ true)
are_plain-head l labels h = by_head (has_key l normalized_labels) h
  where
    by_head :
        (b : Bool) → (not b && are_plain labels) ≡ true → (b ≡ false) × (are_plain labels ≡ true)
    by_head true g = cc
    by_head false g = (refl, g)

-- The documented behaviour of the requirements: a deprecated label is replaced, which labels a new map has, and that a value can be
-- inserted under a label that it has.
pub record IsScheduling (S : Scheduling) : Type 0 where
  -- the label that a requirement for a label goes by
  pub normal : Bytes → Bytes
  pub plain : (l : Bytes) → has_key l normalized_labels ≡ false → normal l ≡ l
  pub has_new :
      (l : Bytes) (op : Operator) (vs : List Bytes) (rs : List S.Requirement) (k : Bytes)
      → S.has_label (S.new_requirements (S.new_requirement l op vs ∷ rs)) k
        ≡ (same (normal l) k || S.has_label (S.new_requirements rs) k)
  pub has_add :
      (l : Bytes) (op : Operator) (vs : List Bytes) (rs : S.Requirements) (k : Bytes)
      → S.has_label (S.add (S.new_requirement l op vs) rs) k
        ≡ (same (normal l) k || S.has_label rs k)
  pub insert_known :
      (k v : Bytes) (rs : S.Requirements)
      → S.has_label rs k ≡ true
      → (rs' : S.Requirements) × (S.insert_value k v rs ≡ ok rs')
        × ((j : Bytes) → S.has_label rs' j ≡ S.has_label rs j)

-- The labels of the additive features.
abbrev pub labels_of : List (ℕ × Bytes) → List Bytes
labels_of [] = []
labels_of ((c, l) ∷ features) = l ∷ labels_of features

-- The labels of a size that do not stand for features.
abbrev pub declared_labels : List Bytes
declared_labels =
    Labels.label_sku_cpu ∷ Labels.label_sku_memory ∷ Labels.label_sku_gpu_count ∷ absent_labels

abbrev pub all_labels : List Bytes
all_labels = labels_of sku_feature_to_label ++ declared_labels

pub has_key-append :
    (k : Bytes) (xs ys : List Bytes) → has_key k (xs ++ ys) ≡ (has_key k xs || has_key k ys)
unfolding has_key
has_key-append k [] ys = refl
has_key-append k (x ∷ xs) ys = ground (arith, has_key-append k xs ys)

pub or_true : (b : Bool) → (b || true) ≡ true
or_true true = refl
or_true false = refl

has_key-labels_of :
    (c : ℕ) (l : Bytes) (features : List (ℕ × Bytes))
    → feature_label c features ≡ some l
    → has_key l (labels_of features) ≡ true
unfolding has_key feature_label
has_key-labels_of c l [] e = cc
has_key-labels_of c l ((d, j) ∷ features) e = elim (Bool-cases (d == c)) [
  | inl here ↦ let r : some j ≡ some l = rw here at e in let s : j ≡ l = cc in rw (s, same_refl l)
  | inr other ↦ rw (has_key-labels_of c l features (rw other at e)) (or_true (same j l))
]

features_plain : are_plain (labels_of sku_feature_to_label) ≡ true
unfolding has_key codes same
features_plain = refl

module _ {S : Scheduling} (laws : IsScheduling S) where
  abbrev pub Knows : List Bytes → S.Requirements → Type 0
  Knows labels rs = (k : Bytes) → has_key k labels ≡ true → S.has_label rs k ≡ true

  -- The call returns requirements, with a label for each of the list.
  pub data Succeeds (labels : List Bytes) : Result S.Requirements → Type 0 where
    succeeds : {rs : S.Requirements} → Knows labels rs → Succeeds labels (ok rs)

  pub Succeeds-bind :
      (labels : List Bytes) {labels' : List Bytes} (m : Result S.Requirements)
      (f : S.Requirements → Result S.Requirements)
      → Succeeds labels m
      → ((rs : S.Requirements) → Knows labels rs → Succeeds labels' (f rs))
      → Succeeds labels' (m >>= f)
  Succeeds-bind labels (ok rs) f (succeeds k) h = h rs k
  Succeeds-bind labels (err e) f m h = elim m [ ]
  Succeeds-bind labels panic f m h = elim m [ ]
  Succeeds-bind labels out_of_fuel f m h = elim m [ ]

  pub Succeeds-ok :
      {labels : List Bytes} (r : Result S.Requirements)
      → Succeeds labels r
      → (rs : S.Requirements) × (r ≡ ok rs) × Knows labels rs
  Succeeds-ok (ok rs) (succeeds k) = (rs, refl, k)
  Succeeds-ok (err e) m = elim m [ ]
  Succeeds-ok panic m = elim m [ ]
  Succeeds-ok out_of_fuel m = elim m [ ]

  module _ {labels : List Bytes} where
    pub insert_value-Succeeds :
        (k v : Bytes) (rs : S.Requirements)
        → has_key k labels ≡ true
        → Knows labels rs
        → Succeeds labels (S.insert_value k v rs)
    insert_value-Succeeds k v rs h known =
        let (rs', e, same_labels) = laws.insert_known k v rs (known k h) in
        rw e (succeeds (λ j m. same_labels j ∙ known j m))

    pub insert_if-Succeeds :
        (b : Bool) (k v : Bytes) (rs : S.Requirements)
        → has_key k labels ≡ true
        → Knows labels rs
        → Succeeds labels (insert_if S b k v rs)
    unfolding insert_if
    insert_if-Succeeds true k v rs h known = insert_value-Succeeds k v rs h known
    insert_if-Succeeds false k v rs h known = succeeds known

    pub insert_some-Succeeds :
        (k : Bytes) (o : Option Bytes) (rs : S.Requirements)
        → has_key k labels ≡ true
        → Knows labels rs
        → Succeeds labels (insert_some S k o rs)
    unfolding insert_some
    insert_some-Succeeds k none rs h known = succeeds known
    insert_some-Succeeds k (some v) rs h known = insert_value-Succeeds k v rs h known

    pub insert_number-Succeeds :
        (k : Bytes) (r : Result ℤ) (rs : S.Requirements)
        → has_key k labels ≡ true
        → Knows labels rs
        → Succeeds labels (insert_number S k r rs)
    unfolding insert_number
    insert_number-Succeeds k (ok n) rs h known = insert_value-Succeeds k (sprint n) rs h known
    insert_number-Succeeds k (err e) rs h known = succeeds known
    insert_number-Succeeds k panic rs h known = succeeds known
    insert_number-Succeeds k out_of_fuel rs h known = succeeds known

  add_features-keeps :
      (features : List (ℕ × Bytes)) (rs : S.Requirements) (k : Bytes)
      → S.has_label rs k ≡ true
      → S.has_label (add_features S features rs) k ≡ true
  unfolding add_features
  add_features-keeps [] rs k h = h
  add_features-keeps ((c, l) ∷ features) rs k h =
      add_features-keeps features (S.add (S.new_requirement l op_does_not_exist []) rs) k
        (laws.has_add l op_does_not_exist [] rs k ∙ rw h (or_true (same (laws.normal l) k)))

  has_label-add_features :
      (features : List (ℕ × Bytes)) (rs : S.Requirements) (k : Bytes)
      → are_plain (labels_of features) ≡ true
      → has_key k (labels_of features) ≡ true
      → S.has_label (add_features S features rs) k ≡ true
  unfolding add_features has_key
  has_label-add_features [] rs k plain h = cc
  has_label-add_features ((c, l) ∷ features) rs k plain h = elim (Bool-cases (same l k)) [
    | inl here ↦
        add_features-keeps features (S.add (S.new_requirement l op_does_not_exist []) rs) k (
          laws.has_add l op_does_not_exist [] rs k
          ∙ rw (laws.plain l (are_plain-head l (labels_of features) plain).0) (rw here refl))
    | inr other ↦
        has_label-add_features features (S.add (S.new_requirement l op_does_not_exist []) rs) k
          (are_plain-head l (labels_of features) plain).1 (rw other at h)
  ]

  pub add_features-Knows :
      (rs : S.Requirements)
      → Knows declared_labels rs
      → Knows all_labels (add_features S sku_feature_to_label rs)
  add_features-Knows rs known k h = elim (Bool-cases (has_key k (labels_of sku_feature_to_label))) [
    | inl here ↦ has_label-add_features sku_feature_to_label rs k features_plain here
    | inr other ↦ add_features-keeps sku_feature_to_label rs k (
        known k (
          rw other at
            (sym (has_key-append k (labels_of sku_feature_to_label) declared_labels) ∙ h)))
  ]

  pub insert_features-Succeeds :
      (cs : List ℕ) (rs : S.Requirements)
      → Knows all_labels rs
      → Succeeds all_labels (insert_features S cs rs)
  unfolding insert_features
  insert_features-Succeeds [] rs known = succeeds known
  insert_features-Succeeds (c ∷ cs) rs known =
      Succeeds-bind all_labels _ (insert_features S cs)
        (one (feature_label c sku_feature_to_label) refl) (insert_features-Succeeds cs)
    where
      one :
          (o : Option Bytes)
          → feature_label c sku_feature_to_label ≡ o
          → Succeeds all_labels
              (elim o [ none ↦ ok rs | some label ↦ S.insert_value label true_text rs ])
      one none e = succeeds known
      one (some l) e =
          insert_value-Succeeds l true_text rs
            (has_key-append l (labels_of sku_feature_to_label) declared_labels
              ∙ rw (has_key-labels_of c l sku_feature_to_label e))
            known
