-- ===== src/Hack/Prices.antt =====
-- hack/code/prices/prices_gen.go: the program that writes the static price list.
pub mod Laws
pub mod Timeout
use gpu_provisioner.Base.{
  ℕ, zero, suc, ◌+◌, ◌%◌, ◌==◌, Bool, true, false, Option, none, some, List, [], ◌∷◌, ◌++◌, ltb,
  leb, if◌then◌else◌,
}
use gpu_provisioner.Base.Text.{Bytes, codes}
use gpu_provisioner.Base.Sort.{sort_strings}
use gpu_provisioner.Base.Result.{Result, ok, err, panic, out_of_fuel}
use gpu_provisioner.Base.Effect.{M}
use gpu_provisioner.Pricing.{Provider, instance_types, on_demand_price, on_demand_last_updated}

abbrev pub regions : List Bytes
regions =
    codes "australiacentral"
    ∷ codes "australiacentral2"
    ∷ codes "australiaeast"
    ∷ codes "australiasoutheast"
    ∷ codes "brazilsouth"
    ∷ codes "brazilsoutheast"
    ∷ codes "canadacentral"
    ∷ codes "canadaeast"
    ∷ codes "centralindia"
    ∷ codes "centralus"
    ∷ codes "eastasia"
    ∷ codes "eastus"
    ∷ codes "eastus2"
    ∷ codes "francecentral"
    ∷ codes "francesouth"
    ∷ codes "germanynorth"
    ∷ codes "germanywestcentral"
    ∷ codes "japaneast"
    ∷ codes "japanwest"
    ∷ codes "jioindiacentral"
    ∷ codes "jioindiawest"
    ∷ codes "koreacentral"
    ∷ codes "koreasouth"
    ∷ codes "northcentralus"
    ∷ codes "northeurope"
    ∷ codes "norwayeast"
    ∷ codes "norwaywest"
    ∷ codes "polandcentral"
    ∷ codes "qatarcentral"
    ∷ codes "southafricanorth"
    ∷ codes "southafricawest"
    ∷ codes "southcentralus"
    ∷ codes "southeastasia"
    ∷ codes "southindia"
    ∷ codes "swedencentral"
    ∷ codes "swedensouth"
    ∷ codes "switzerlandnorth"
    ∷ codes "switzerlandwest"
    ∷ codes "uaecentral"
    ∷ codes "uaenorth"
    ∷ codes "uksouth"
    ∷ codes "ukwest"
    ∷ codes "westcentralus"
    ∷ codes "westeurope"
    ∷ codes "westindia"
    ∷ codes "westus"
    ∷ codes "westus2"
    ∷ codes "westus3"
    ∷ []

-- The verbs `%q` and `%f` of package fmt.
pub record Verbs (Price : Type 0) : Type 0 where
  pub quoted : Bytes → Bytes
  pub fixed : Price → Bytes

abbrev pub line_end : Bytes
line_end = 10 ∷ []

abbrev pub quote_mark : Bytes
quote_mark = 34 ∷ []

module _ {Price : Type 0} (F : Verbs Price) where
  -- one line for a size that has a price
  unfoldable pub price_line : Bytes → Option Price → Bytes
  price_line name none = []
  price_line name (some price) =
      quote_mark
      ++ (name ++ (quote_mark ++ (codes ":" ++ (F.fixed price ++ (codes ", " ++ line_end)))))

  unfoldable pub price_lines : List Bytes → (Bytes → Option Price) → Bytes
  unfolding price_line
  price_lines [] get_price = []
  price_lines (name ∷ names) get_price =
      price_line name (get_price name) ++ price_lines names get_price

  abbrev pub region_heading : Bytes → Bytes
  region_heading region =
      codes "// "
      ++ (region
          ++ (line_end
              ++ (codes "initialOnDemandPrices["
                  ++ (F.quoted region ++ (codes "] = map[string]float64{" ++ line_end)))))

  abbrev pub region_end : Bytes
  region_end = line_end ++ (codes "}" ++ line_end)

  -- what is added to the source
  unfoldable pub write_pricing : List Bytes → Bytes → (Bytes → Option Price) → Bytes
  unfolding sort_strings price_lines
  write_pricing instance_names region get_price =
      region_heading region ++ (price_lines (sort_strings instance_names) get_price ++ region_end)

  -- The loop over the regions, with the providers that their channels give.
  unfoldable pub write_regions :
      {Time : Type 0} → List Bytes → (Bytes → Provider Price Time) → Bytes
  unfolding write_pricing instance_types on_demand_price
  write_regions [] provider = []
  write_regions (region ∷ rest) provider =
      write_pricing (sort_strings (instance_types (provider region))) region
        (on_demand_price (provider region))
      ++ write_regions rest provider

  unfoldable pub generated_source :
      {Time : Type 0} (license now : Bytes) → (Bytes → Provider Price Time) → Bytes
  unfolding write_regions
  generated_source license now provider =
      codes "//go:build !ignore_autogenerated"
      ++ (line_end
          ++ (license
              ++ (line_end
                  ++ (codes "package pricing"
                      ++ (line_end
                          ++ (codes "import \"time\""
                              ++ (line_end
                                  ++ (codes "// generated at "
                                      ++ (now
                                          ++ (line_end
                                              ++ (line_end
                                                  ++ (line_end
                                                      ++ (codes
                                                            "var initialPriceUpdate, _ = time.Parse(time.RFC3339, \""
                                                          ++ (now
                                                            ++ (codes "\")"
                                                            ++ (line_end
                                                            ++ (codes
                                                            "var initialOnDemandPrices = map[string]map[string]float64{}"
                                                            ++ (line_end
                                                            ++ (codes "func init() {"
                                                            ++ (line_end
                                                            ++ (write_regions regions provider
                                                            ++ (codes "}"
                                                            ++ line_end))))))))))))))))))))))

-- `format.Source` and `os.WriteFile`. `log.Fatalf` ends the program; it counts as a panic.
module _ {W : Type 0} (format_source : Bytes → Result Bytes)
    (write_file : (path text : Bytes) → M W (Unit {0})) where
  abbrev pub or_fatal : Result (Unit {0}) × W → Result (Unit {0}) × W
  or_fatal (ok u, w) = (ok u, w)
  or_fatal (err e, w) = (panic, w)
  or_fatal (panic, w) = (panic, w)
  or_fatal (out_of_fuel, w) = (out_of_fuel, w)

  -- A source that cannot be formatted is written as it is, before the program ends.
  unfoldable pub write_output : (path src : Bytes) → M W (Unit {0})
  write_output path src w = elim (format_source src) [
    | ok formatted ↦ or_fatal (write_file path formatted w)
    | _ ↦ (panic, (write_file path src w).1)
  ]

-- What a waiting goroutine sees and does: the clock, one second of sleep, and the provider, which its own
-- goroutine updates. Times are in milliseconds.
pub record Waiting (W Price : Type 0) : Type 0 where
  pub now : W → ℕ
  pub sleep : W → W
  pub provider : W → Provider Price ℕ

-- The wait for the prices of one region, on fuel.
unfoldable pub wait_for_update :
    {W Price : Type 0} → Waiting W Price → ℕ → (update_started attempts : ℕ) → M W (Unit {0})
unfolding on_demand_last_updated
wait_for_update G zero started attempts w = (out_of_fuel, w)
wait_for_update G (suc fuel) started attempts w =
    let again = wait_for_update G fuel started (attempts + 1) (G.sleep w) in
    if ltb started (on_demand_last_updated (G.provider w))
    then (ok tt, w)
    else if attempts == 0
    then again
    else if attempts % 10 == 0
    then again
    else if leb (started + 300000) (G.now w)
    then (panic, w)
    else again
