-- ===== src/Hack/Skus/Parts.antt =====
-- The braces in the parts of the text for a size.
use gpu_provisioner.Base.{ℕ, ◌≡◌, refl, Option, none, some, List, [], ◌∷◌, arith}
use gpu_provisioner.Base.Text.{Bytes, codes}
use gpu_provisioner.Base.Int.{ℤ}
use gpu_provisioner.Base.Result.{from_ptr, Ensures, returned, panicked}
use gpu_provisioner.Hack.Skus.{
  Capacity, Cost, Capability, ResourceSku, Verbs, int_or, float_or, field_line, text_lines,
  number_line, capacity_text, cost_text, restriction_text, capability_text, location_text,
}
use gpu_provisioner.Hack.Skus.Braces.{
  count, HasExcess, IsEven, excess, last, ◌⊕◌, HasExcess-concat, IsEven-line_end, even, opening,
  closing, IsEven-sprint, AllEven, Each,
}

module _ {Float : Type 0} (V : Verbs Float) where
  -- `%q` leaves braces as they are, and there are none in a number.
  pub record IsQuoting : Type 0 where
    pub opened : (s : Bytes) → count 123 (V.quoted s) ≡ count 123 s
    pub closed : (s : Bytes) → count 125 (V.quoted s) ≡ count 125 s
    pub float_opened : (x : Float) → count 123 (V.quoted_float x) ≡ 0
    pub float_closed : (x : Float) → count 125 (V.quoted_float x) ≡ 0

  -- Every text of the size has as many braces of one kind as of the other.
  abbrev pub IsPlain : ResourceSku Float → Type 0
  IsPlain sku =
      AllEven (sku.name ∷ sku.tier ∷ sku.kind ∷ sku.size ∷ sku.family ∷ sku.resource_type ∷ [])
      × AllEven sku.api_versions
      × Each (λ c. AllEven (c.meter_id ∷ c.extended_unit ∷ [])) sku.costs
      × Each AllEven sku.restrictions
      × Each (λ c. AllEven (c.name ∷ c.value ∷ [])) sku.capabilities
      × Each AllEven sku.location_info

  module _ (laws : IsQuoting) where
    pub quoted : {s : Bytes} → IsEven s → IsEven (V.quoted s)
    quoted {s} h = even (omega (arith, h.braces, laws.opened s, laws.closed s))

    quoted_float : (x : Float) → IsEven (V.quoted_float x)
    quoted_float x = even (omega (arith, laws.float_opened x, laws.float_closed x))

    pub IsEven-field_line :
        (name : Bytes) (value : Option Bytes)
        → IsEven name
        → IsEven (from_ptr value)
        → IsEven (field_line V name value)
    unfolding field_line count codes
    IsEven-field_line name value n h = HasExcess-concat (n ⊕ quoted h ⊕ even refl ⊕ last)

    -- What one of the texts around opens, the other closes.
    pub IsEven-text_lines :
        {a b : ℕ} (before after : Bytes) (ss : List (Option Bytes))
        → HasExcess a b before
        → HasExcess b a after
        → AllEven ss
        → IsEven (text_lines V before after ss)
    unfolding text_lines count
    IsEven-text_lines before after [] n k h = even refl
    IsEven-text_lines before after (s ∷ ss) n k (h, hs) =
        excess
          (HasExcess-concat (n ⊕ quoted h ⊕ k ⊕ IsEven-text_lines before after ss n k hs ⊕ last))
          (omega arith)

    IsEven-number_line : (name : Bytes) (n : Option ℤ) → IsEven name → IsEven (number_line V name n)
    unfolding number_line count codes
    IsEven-number_line name n h = HasExcess-concat (h ⊕ IsEven-sprint (int_or n) ⊕ even refl ⊕ last)

    pub IsEven-capacity_text : (c : Option Capacity) → IsEven (capacity_text V c)
    unfolding capacity_text count codes
    IsEven-capacity_text none = even refl
    IsEven-capacity_text (some c) =
        excess
          (HasExcess-concat (
            opening refl
            ⊕ IsEven-line_end
            ⊕ IsEven-number_line _ c.minimum (even refl)
            ⊕ IsEven-number_line _ c.maximum (even refl)
            ⊕ IsEven-number_line _ c.default_count (even refl)
            ⊕ closing refl
            ⊕ last))
          refl

    pub IsEven-cost_text :
        (c : Cost Float)
        → AllEven (c.meter_id ∷ c.extended_unit ∷ [])
        → Ensures IsEven (cost_text V c)
    unfolding cost_text count codes
    IsEven-cost_text c (h, ks) = returned (
        excess
          (HasExcess-concat (
            opening refl
            ⊕ h
            ⊕ even refl
            ⊕ quoted_float (float_or V c.quantity)
            ⊕ even refl
            ⊕ quoted ks.0
            ⊕ closing refl
            ⊕ last))
          refl)

    pub IsEven-restriction_text :
        (r : List (Option Bytes)) → AllEven r → Ensures IsEven (restriction_text V r)
    unfolding restriction_text count codes
    IsEven-restriction_text r h = returned (
        excess
          (HasExcess-concat (
            opening refl
            ⊕ IsEven-line_end
            ⊕ IsEven-text_lines _ _ r (opening refl) (closing refl) h
            ⊕ closing refl
            ⊕ IsEven-line_end
            ⊕ last))
          refl)

    pub IsEven-capability_text :
        (c : Capability) → AllEven (c.name ∷ c.value ∷ []) → Ensures IsEven (capability_text V c)
    unfolding capability_text count codes
    IsEven-capability_text c (h, ks) = by_values c.name c.value h ks.0
      where
        by_values :
            (name value : Option Bytes)
            → IsEven (from_ptr name)
            → IsEven (from_ptr value)
            → Ensures IsEven (capability_text V (record { name = name; value = value }))
        by_values none value h k = panicked
        by_values (some name) none h k = panicked
        by_values (some name) (some value) h k = returned (
            excess
              (HasExcess-concat
                (opening refl ⊕ quoted h ⊕ even refl ⊕ quoted k ⊕ closing refl ⊕ last))
              refl)

    -- A location opens a brace that nothing closes.
    pub HasExcess-location_text :
        (location : Bytes) (zones : List (Option Bytes))
        → IsEven location
        → AllEven zones
        → Ensures (HasExcess 1 0) (location_text V location zones)
    unfolding location_text count codes
    HasExcess-location_text location zones l h = returned (
        excess
          (HasExcess-concat (
            opening refl
            ⊕ quoted l
            ⊕ even refl
            ⊕ opening refl
            ⊕ IsEven-line_end
            ⊕ IsEven-text_lines _ _ zones (even refl) (even refl) h
            ⊕ closing refl
            ⊕ IsEven-line_end
            ⊕ last))
          refl)
