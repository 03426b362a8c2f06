-- ===== src/Labels/Laws.antt =====
-- Which labels the features of a virtual machine size have.
use gpu_provisioner.Base.{
  ℕ, Bool, Bool-cases, inl, inr, true, ◌≡◌, refl, sym, some, List, [], ◌∷◌, ◌&&◌, ◌==◌, arith,
}
use gpu_provisioner.Base.Text.{Bytes, codes, same}
use gpu_provisioner.Base.Dict.{has_key}
use gpu_provisioner.Labels.{sku_feature_to_label, feature_label, well_known_labels}

abbrev all_known : List (ℕ × Bytes) → Bool
all_known [] = true
all_known ((c, l) ∷ rest) = has_key l well_known_labels && all_known rest

features_known : all_known sku_feature_to_label ≡ true
unfolding codes has_key same
features_known = refl

has_key-features :
    (features : List (ℕ × Bytes)) (c : ℕ) (l : Bytes)
    → all_known features ≡ true
    → feature_label c features ≡ some l
    → has_key l well_known_labels ≡ true
unfolding feature_label
has_key-features [] c l h e = cc
has_key-features ((d, j) ∷ rest) c l h e = elim (Bool-cases (d == c)) [
  | inl same_feature ↦
      let s : j ≡ l = (let r : some j ≡ some l = rw same_feature at e in cc) in
      rw (sym s) (ground arith)
  | inr other ↦ has_key-features rest c l (ground arith) (rw other at e)
]

-- The label that a feature of a size has is one of the well-known labels.
has_key-feature_label :
    (c : ℕ) (l : Bytes)
    → feature_label c sku_feature_to_label ≡ some l
    → has_key l well_known_labels ≡ true
has_key-feature_label c l e = has_key-features sku_feature_to_label c l features_known e
