-- ===== src/Hack/Skus.antt =====
-- hack/code/instancetype_testdata_gen.go: the program that writes the table of sizes for the tests.
-- The sizes are those of package armcompute. What is printed on the terminal is left out; so is the type
-- of a restriction, which goes there and not into the file.
pub mod Braces
pub mod Laws
pub mod Listing
pub mod Main
pub mod Endless
pub mod Parts
use gpu_provisioner.Base.{◌≡◌, Option, none, some, List, [], ◌∷◌, ◌++◌}
use gpu_provisioner.Base.Text.{Bytes, codes}
use gpu_provisioner.Base.Result.{Result, ok, panic, deref, from_ptr, ◌>>=◌}
use gpu_provisioner.Base.Int.{ℤ, pos, sprint}

-- The fields that are read. Elements of lists are pointers.
pub record Capacity : Type 0 where
  pub minimum : Option ℤ
  pub maximum : Option ℤ
  pub default_count : Option ℤ

pub record Cost (Float : Type 0) : Type 0 where
  pub meter_id : Option Bytes
  pub quantity : Option Float
  pub extended_unit : Option Bytes

pub record Capability : Type 0 where
  pub name : Option Bytes
  pub value : Option Bytes

pub record ResourceSku (Float : Type 0) : Type 0 where
  pub name : Option Bytes
  pub tier : Option Bytes
  pub kind : Option Bytes
  pub size : Option Bytes
  pub family : Option Bytes
  pub resource_type : Option Bytes
  pub api_versions : List (Option Bytes)
  pub capacity : Option Capacity
  pub costs : List (Option (Cost Float))
  -- the values of each restriction
  pub restrictions : List (Option (List (Option Bytes)))
  pub capabilities : List (Option Capability)
  -- the zones of each location
  pub location_info : List (Option (List (Option Bytes)))

-- The verb `%q` of package fmt, on a text and on a floating point number.
pub record Verbs (Float : Type 0) : Type 0 where
  pub quoted : Bytes → Bytes
  pub quoted_float : Float → Bytes
  pub nought : Float

unfoldable pub concat : List Bytes → Bytes
concat [] = []
concat (s ∷ ss) = s ++ concat ss

-- the texts of all elements, of which none may be nil
unfoldable pub each : {A : Type 0} → (A → Result Bytes) → List (Option A) → Result Bytes
each f [] = ok []
each f (none ∷ xs) = panic
each f (some x ∷ xs) = do s ← f x; rest ← each f xs; ok (s ++ rest)

abbrev pub line_end : Bytes
line_end = 10 ∷ []

abbrev pub int_or : Option ℤ → ℤ
int_or none = pos 0
int_or (some n) = n

module _ {Float : Type 0} (V : Verbs Float) where
  -- a value in quotes behind a name, on a line of its own
  unfoldable pub field_line : Bytes → Option Bytes → Bytes
  field_line name value = concat (name ∷ V.quoted (from_ptr value) ∷ codes "),\n" ∷ [])

  -- the elements of a list of texts, each between two texts
  unfoldable pub text_lines : (before after : Bytes) → List (Option Bytes) → Bytes
  text_lines before after [] = []
  text_lines before after (s ∷ ss) =
      concat (before ∷ V.quoted (from_ptr s) ∷ after ∷ text_lines before after ss ∷ [])

  -- a number behind a name
  unfoldable pub number_line : Bytes → Option ℤ → Bytes
  number_line name n = concat (name ∷ sprint (int_or n) ∷ codes "),\n" ∷ [])

  unfoldable pub capacity_text : Option Capacity → Bytes
  capacity_text none = []
  capacity_text (some c) = concat (
      codes "\t\tCapacity: compute.ResourceSkuCapacity{"
      ∷ line_end
      ∷ number_line (codes "\t\t\tMinimum: lo.ToPtr(") c.minimum
      ∷ number_line (codes "\t\t\tMaximum: lo.ToPtr(") c.maximum
      ∷ number_line (codes "\t\t\tDefault: lo.ToPtr(") c.default_count
      ∷ codes "\t\t},"
      ∷ [])

  abbrev pub float_or : Option Float → Float
  float_or none = V.nought
  float_or (some x) = x

  unfoldable pub cost_text : Cost Float → Result Bytes
  cost_text c = ok (
      concat (
        codes "\t\t\t{MeterID: lo.ToPtr("
        ∷ from_ptr c.meter_id
        ∷ codes "), Quantity: lo.ToPtr("
        ∷ V.quoted_float (float_or c.quantity)
        ∷ codes "), ExtendedUnit: lo.ToPtr("
        ∷ V.quoted (from_ptr c.extended_unit)
        ∷ codes ")},"
        ∷ []))

  unfoldable pub restriction_text : List (Option Bytes) → Result Bytes
  restriction_text restricted = ok (
      concat (
        codes "\t\t\t{"
        ∷ line_end
        ∷ text_lines (codes "\t\t\t\tValues: &[]string{") (codes "},") restricted
        ∷ codes "\t\t\t},"
        ∷ line_end
        ∷ []))

  unfoldable pub capability_text : Capability → Result Bytes
  capability_text c = do
    name ← deref c.name
    value ← deref c.value
    ok (
        concat (
          codes "\t\t\t{Name: lo.ToPtr("
          ∷ V.quoted name
          ∷ codes "), Value: lo.ToPtr("
          ∷ V.quoted value
          ∷ codes ")},\n"
          ∷ []))

  unfoldable pub location_text : Bytes → List (Option Bytes) → Result Bytes
  location_text location zones = ok (
      concat (
        codes "\t\t\t{Location: lo.ToPtr("
        ∷ V.quoted location
        ∷ codes "),"
        ∷ codes "\t\t\tZones: &[]string{"
        ∷ line_end
        ∷ text_lines (codes "\t\t\t\t") (codes ",\n") zones
        ∷ codes "\t\t\t},"
        ∷ line_end
        ∷ []))

  -- One round of the loop over the sizes, with the texts of its inner loops.
  unfoldable pub sku_lines :
      (location : Bytes)
      → ResourceSku Float
      → (costs restrictions capabilities locations : Bytes) → Bytes
  sku_lines location sku costs restrictions capabilities locations = concat (
      codes "\t{"
      ∷ line_end
      ∷ field_line (codes "\t\tName:         lo.ToPtr(") sku.name
      ∷ field_line (codes "\t\tTier:         lo.ToPtr(") sku.tier
      ∷ field_line (codes "\t\tKind:         lo.ToPtr(") sku.kind
      ∷ field_line (codes "\t\tSize:         lo.ToPtr(") sku.size
      ∷ field_line (codes "\t\tFamily:       lo.ToPtr(") sku.family
      ∷ field_line (codes "\t\tResourceType: lo.ToPtr(") sku.resource_type
      ∷ codes "\t\tAPIVersions: &[]string{"
      ∷ line_end
      ∷ text_lines (codes "\t\t\tlo.ToPtr(") (codes "),\n") sku.api_versions
      ∷ codes "\t\t},"
      ∷ line_end
      ∷ capacity_text sku.capacity
      ∷ codes "\t\tCosts: &[]compute.ResourceSkuCosts{"
      ∷ costs
      ∷ codes "\t\t},"
      ∷ line_end
      ∷ codes "\t\tRestrictions: &[]compute.ResourceSkuRestrictions{"
      ∷ line_end
      ∷ restrictions
      ∷ codes "\t\t},"
      ∷ line_end
      ∷ codes "\t\tCapabilities: &[]compute.ResourceSkuCapabilities{"
      ∷ line_end
      ∷ capabilities
      ∷ codes "\t\t},"
      ∷ line_end
      ∷ codes "\t\tLocations: &[]string{"
      ∷ V.quoted location
      ∷ codes "},\n"
      ∷ codes "\t\tLocationInfo: &[]compute.ResourceSkuLocationInfo{"
      ∷ locations
      ∷ codes "\t\t\t},"
      ∷ line_end
      ∷ codes "\t},"
      ∷ line_end
      ∷ codes "},"
      ∷ line_end
      ∷ [])

  unfoldable pub sku_text : Bytes → ResourceSku Float → Result Bytes
  sku_text location sku = do
    costs ← each cost_text sku.costs
    restrictions ← each restriction_text sku.restrictions
    capabilities ← each capability_text sku.capabilities
    locations ← each (location_text location) sku.location_info
    ok (sku_lines location sku costs restrictions capabilities locations)

  unfoldable pub write_sku_data :
      (license now location : Bytes) → List (Option (ResourceSku Float)) → Result Bytes
  write_sku_data license now location skus = do
    entries ← each (sku_text location) skus
    ok (
        concat (
          codes "//go:build !ignore_autogenerated"
          ∷ line_end
          ∷ license
          ∷ line_end
          ∷ codes "package fake"
          ∷ line_end
          ∷ codes "import ("
          ∷ line_end
          ∷ codes "\t\"github.com/samber/lo\""
          ∷ line_end
          ∷ codes "\t\t// nolint SA1019 - deprecated package"
          ∷ line_end
          ∷ codes
              "\t\t\"github.com/Azure/azure-sdk-for-go/services/compute/mgmt/2022-08-01/compute\""
          ∷ line_end
          ∷ codes ")"
          ∷ line_end
          ∷ codes "// generated at "
          ∷ now
          ∷ codes "\n\n\n"
          ∷ codes "// ResourceSkus is a list of all available skus from azure"
          ∷ line_end
          ∷ codes "var ResourceSkus = []compute.ResourceSku{"
          ∷ line_end
          ∷ entries
          ∷ codes "}"
          ∷ line_end
          ∷ []))
