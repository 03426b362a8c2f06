-- ===== src/Hack/Skus/Laws.antt =====
-- The braces of the table of sizes.
use gpu_provisioner.Base.{ℕ, refl, Option, none, some, List, arith, length}
use gpu_provisioner.Base.Text.{Bytes, codes}
use gpu_provisioner.Base.Result.{Result, Ensures, from_ptr, returned, Ensures-map, Ensures-then}
use gpu_provisioner.Hack.Skus.{
  ResourceSku, Verbs, each, field_line, cost_text, restriction_text, capability_text, location_text,
  sku_lines, sku_text, write_sku_data,
}
use gpu_provisioner.Hack.Skus.Braces.{
  count, HasExcess, IsEven, excess, last, ◌⊕◌, HasExcess-concat, IsEven-line_end, even, opening,
  closing, Each, total, total_nought, total_one, Each-map, each-HasExcess,
}
use gpu_provisioner.Hack.Skus.Parts.{
  IsQuoting, IsPlain, quoted, IsEven-field_line, IsEven-text_lines, IsEven-capacity_text,
  IsEven-cost_text, IsEven-restriction_text, IsEven-capability_text, HasExcess-location_text,
}

each-IsEven :
    {A : Type 0} (f : A → Result Bytes) (xs : List (Option A))
    → Each (λ x. Ensures IsEven (f x)) xs
    → Ensures IsEven (each f xs)
each-IsEven f xs h =
    Ensures-map (λ s k. excess k (omega arith)) (each-HasExcess (λ x. 0) (λ x. 0) f xs h)

abbrev pub locations : {Float : Type 0} → Option (ResourceSku Float) → ℕ
locations none = 0
locations (some sku) = length sku.location_info

module _ {Float : Type 0} (V : Verbs Float) (laws : IsQuoting V) where
  field :
      (name : Bytes) (value : Option Bytes)
      → IsEven name
      → IsEven (from_ptr value)
      → IsEven (field_line V name value)
  field name value = IsEven-field_line V laws name value

  HasExcess-sku_lines :
      (n : ℕ) (location : Bytes) (sku : ResourceSku Float)
      (costs restrictions capabilities places : Bytes)
      → IsEven location
      → IsPlain V sku
      → IsEven costs
      → IsEven restrictions
      → IsEven capabilities
      → HasExcess n 0 places
      → HasExcess n 1 (sku_lines V location sku costs restrictions capabilities places)
  unfolding sku_lines count codes
  HasExcess-sku_lines n location sku costs restrictions capabilities places l h c r p z =
      excess
        (HasExcess-concat (
          opening refl
          ⊕ IsEven-line_end
          ⊕ field _ _ (even refl) h.0.0
          ⊕ field _ _ (even refl) h.0.1.0
          ⊕ field _ _ (even refl) h.0.1.1.0
          ⊕ field _ _ (even refl) h.0.1.1.1.0
          ⊕ field _ _ (even refl) h.0.1.1.1.1.0
          ⊕ field _ _ (even refl) h.0.1.1.1.1.1.0
          ⊕ opening refl
          ⊕ IsEven-line_end
          ⊕ IsEven-text_lines V laws _ _ sku.api_versions (even refl) (even refl) h.1
          ⊕ closing refl
          ⊕ IsEven-line_end
          ⊕ IsEven-capacity_text V laws sku.capacity
          ⊕ opening refl
          ⊕ c
          ⊕ closing refl
          ⊕ IsEven-line_end
          ⊕ opening refl
          ⊕ IsEven-line_end
          ⊕ r
          ⊕ closing refl
          ⊕ IsEven-line_end
          ⊕ opening refl
          ⊕ IsEven-line_end
          ⊕ p
          ⊕ closing refl
          ⊕ IsEven-line_end
          ⊕ opening refl
          ⊕ quoted V laws l
          ⊕ closing refl
          ⊕ opening refl
          ⊕ z
          ⊕ closing refl
          ⊕ IsEven-line_end
          ⊕ closing refl
          ⊕ IsEven-line_end
          ⊕ closing refl
          ⊕ IsEven-line_end
          ⊕ last))
        (omega arith)

  -- What is written for a size has one closing brace too many, and one opening brace too many for every
  -- location.
  HasExcess-sku_text :
      (location : Bytes) (sku : ResourceSku Float)
      → IsEven location
      → IsPlain V sku
      → Ensures (HasExcess (length sku.location_info) 1) (sku_text V location sku)
  unfolding sku_text
  HasExcess-sku_text location sku l h =
      let (names, versions, costs, restrictions, capabilities, zones) = h in
      Ensures-then (each (cost_text V) sku.costs) _
        (each-IsEven (cost_text V) sku.costs (Each-map (IsEven-cost_text V laws) sku.costs costs))
        λ c c_even.
          Ensures-then (each (restriction_text V) sku.restrictions) _
            (each-IsEven (restriction_text V) sku.restrictions
              (Each-map (IsEven-restriction_text V laws) sku.restrictions restrictions))
            λ r r_even.
              Ensures-then (each (capability_text V) sku.capabilities) _
                (each-IsEven (capability_text V) sku.capabilities
                  (Each-map (IsEven-capability_text V laws) sku.capabilities capabilities))
                λ p p_even.
                  Ensures-map (λ s k. k)
                    (Ensures-then (each (location_text V location) sku.location_info) _
                      (each-HasExcess (λ x. 1) (λ x. 0) (location_text V location) sku.location_info
                        (Each-map (λ z. HasExcess-location_text V laws location z l)
                          sku.location_info zones))
                      λ z z_open. returned (
                        HasExcess-sku_lines (length sku.location_info) location sku c r p z l h
                          c_even r_even p_even
                          (excess z_open (
                            omega (
                              arith,
                              total_nought sku.location_info,
                              total_one sku.location_info,
                            )))))

  -- What `writeSkuData` writes, if it does not panic, has one closing brace too many for every size and one
  -- opening brace too many for every location of a size, if every text of the sizes has as many braces of
  -- one kind as of the other and `%q` leaves braces as they are.
  pub write_sku_data-HasExcess :
      (license now location : Bytes) (skus : List (Option (ResourceSku Float)))
      → IsEven license
      → IsEven now
      → IsEven location
      → Each (IsPlain V) skus
      → Ensures
          (HasExcess (total locations skus) (length skus))
          (write_sku_data V license now location skus)
  unfolding write_sku_data count codes
  write_sku_data-HasExcess license now location skus i n l h =
      Ensures-then (each (sku_text V location) skus) _
        (each-HasExcess locations (λ x. 1) (sku_text V location) skus
          (Each-map (λ sku. HasExcess-sku_text location sku l) skus h))
        λ entries e. returned (
          excess
            (HasExcess-concat (
              even refl
              ⊕ IsEven-line_end
              ⊕ i
              ⊕ IsEven-line_end
              ⊕ even refl
              ⊕ IsEven-line_end
              ⊕ even refl
              ⊕ IsEven-line_end
              ⊕ even refl
              ⊕ IsEven-line_end
              ⊕ even refl
              ⊕ IsEven-line_end
              ⊕ even refl
              ⊕ IsEven-line_end
              ⊕ even refl
              ⊕ IsEven-line_end
              ⊕ even refl
              ⊕ n
              ⊕ even refl
              ⊕ even refl
              ⊕ IsEven-line_end
              ⊕ opening refl
              ⊕ IsEven-line_end
              ⊕ e
              ⊕ closing refl
              ⊕ IsEven-line_end
              ⊕ last))
            (omega (arith, total_one skus)))
