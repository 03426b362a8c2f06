-- ===== src/Base/Dict.antt =====
-- Go maps with string keys as association lists. A later write stands in front; Go's order of
-- iteration is not specified, so only what `lookup` shows is stated.
use gpu_provisioner.Base.{
  sym, Bool, Bool-cases, inl, inr, true, false, ◌||◌, ◌↔◌, ◌≡◌, refl, Option, none, some, List, [],
  ◌∷◌, arith, if◌then◌else◌,
}
use gpu_provisioner.Base.Text.{Bytes, same, same_iff, same_refl}

abbrev pub Dict {ℓ} : Type ℓ → Type ℓ
Dict V = List (Bytes × V)

unfoldable pub has_key : Bytes → List Bytes → Bool
unfolding same
has_key k [] = false
has_key k (j ∷ js) = same j k || has_key k js

module _ {ℓ} {V : Type ℓ} where
  -- v, ok := m[k]
  unfoldable pub lookup : Bytes → Dict V → Option V
  lookup k [] = none
  lookup k ((j, v) ∷ m) = if same j k then some v else lookup k m

  -- m[k] = v
  unfoldable pub insert : Bytes → V → Dict V → Dict V
  insert k v m = (k, v) ∷ m

  -- lo.Assign(a, b): the entries of b go over those of a
  unfoldable pub assign : Dict V → Dict V → Dict V
  unfolding insert
  assign a [] = a
  assign a ((k, v) ∷ m) = insert k v (assign a m)

  -- delete(m, k)
  unfoldable pub remove : Bytes → Dict V → Dict V
  remove k [] = []
  remove k ((j, v) ∷ m) = let rest = remove k m in if same j k then rest else (j, v) ∷ rest

  pub lookup-remove : (k : Bytes) (m : Dict V) → lookup k (remove k m) ≡ none
  unfolding lookup remove
  lookup-remove k [] = refl
  lookup-remove k ((j, v) ∷ m) = ground (arith, lookup-remove k m)

  pub lookup-remove_other :
      (k j : Bytes) (m : Dict V) → same k j ≡ false → lookup j (remove k m) ≡ lookup j m
  unfolding lookup remove
  lookup-remove_other k j [] h = refl
  lookup-remove_other k j ((i, v) ∷ m) h = elim (Bool-cases (same i k)) [
    | inl e ↦
        let other : same i j ≡ false = rw (← (same_iff i k).0 e) at h in
        rw (e, other) (lookup-remove_other k j m h)
    | inr e ↦ rw e (elim (Bool-cases (same i j)) [
      | inl f ↦ rw f refl
      | inr f ↦ rw f (lookup-remove_other k j m h)
    ])
  ]

  abbrev pub or_else : Option V → Option V → Option V
  or_else (some v) o = some v
  or_else none o = o

  -- lo.Keys: each key once
  unfoldable pub keys : Dict V → List Bytes
  unfolding has_key
  keys [] = []
  keys ((k, v) ∷ m) = let rest = keys m in if has_key k rest then rest else k ∷ rest

  pub lookup-insert :
      (k j : Bytes) (v : V) (m : Dict V)
      → lookup j (insert k v m) ≡ (if same k j then some v else lookup j m)
  unfolding lookup insert
  lookup-insert k j v m = refl

  pub lookup-assign :
      (j : Bytes) (a b : Dict V) → lookup j (assign a b) ≡ or_else (lookup j b) (lookup j a)
  unfolding lookup assign
  lookup-assign j a [] = refl
  lookup-assign j a ((k, v) ∷ m) = ground (arith, lookup-assign j a m)

module _ {ℓ κ} {V : Type ℓ} {U : Type κ} (f : V → U) where
  -- lo.MapValues
  unfoldable pub map_values : Dict V → Dict U
  map_values [] = []
  map_values ((k, v) ∷ m) = (k, f v) ∷ map_values m

  abbrev pub map_option : Option V → Option U
  map_option none = none
  map_option (some v) = some (f v)

  pub lookup-map_values :
      (j : Bytes) (m : Dict V) → lookup j (map_values m) ≡ map_option (lookup j m)
  unfolding lookup map_values
  lookup-map_values j [] = refl
  lookup-map_values j ((k, v) ∷ m) = ground (arith, lookup-map_values j m)

has_key-cons :
    (k j : Bytes) (js : List Bytes)
    → has_key k (if has_key j js then js else j ∷ js) ≡ (same j k || has_key k js)
unfolding has_key
has_key-cons k j js = elim (Bool-cases (has_key j js)) [
  | inl old ↦ elim (Bool-cases (same j k)) [
    | inl e ↦ rw (sym ((same_iff j k).0 e), old, same_refl j) old
    | inr e ↦ rw (old, e)
  ]
  | inr new ↦ rw new
]

-- A key is among the keys of a map exactly where the map has a value for it.
pub has_key-keys {ℓ} :
    (V : Type ℓ) (k : Bytes) (m : Dict V)
    → (has_key k (keys m) ≡ true) ↔ ((v : V) × (lookup k m ≡ some v))
unfolding keys lookup
has_key-keys V k [] = unfold has_key in (λ h. cc, λ (v, h). cc)
has_key-keys V k ((j, u) ∷ m) =
    rw (has_key-cons k j (keys m)) (either (same j k) (has_key-keys V k m))
  where
    either :
        (b : Bool)
        → (has_key k (keys m) ≡ true) ↔ ((v : V) × (lookup k m ≡ some v))
        → ((b || has_key k (keys m)) ≡ true)
          ↔ ((v : V) × ((if b then some u else lookup k m) ≡ some v))
    either true _ = (λ _. (u, refl), λ _. refl)
    either false h = h
