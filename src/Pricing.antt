-- ===== src/Pricing.antt =====
-- pkg/providers/pricing/pricing.go: the price list of a region, its updates and its fall-back. The
-- table `initial` is generated code. Prices and times are types of which nothing is known.
pub mod Client
pub mod Background
pub mod Laws
pub mod Runs
use gpu_provisioner.Base.{
  ℕ, Bool, true, false, Option, none, some, List, [], ◌∷◌, ◌||◌, if◌then◌else◌,
}
use gpu_provisioner.Base.Text.{Bytes, codes, same, has_suffix}
use gpu_provisioner.Base.Dict.{Dict, lookup, insert, assign, keys}
use gpu_provisioner.Base.Result.{Err, Result, ok, err, panic, out_of_fuel, no_prices}
use gpu_provisioner.Base.Effect.{M, continue}
use gpu_provisioner.Pricing.Client.{
  Item, ProductsPricePage, Filter, equals, Http, get_products_price_pages,
}

-- The fields that hold the prices. The client of the price service is an argument of the update.
pub record Provider (Price Time : Type 0) : Type 0 where
  pub region : Bytes
  pub on_demand_update_time : Time
  pub on_demand_prices : Dict Price

-- `Err`: the error and the time of the prices that stay in use.
pub record UpdateErr (Time : Type 0) : Type 0 where
  pub error : Err
  pub last_update_time : Time

abbrev pub price_filters : Bytes → List Filter
price_filters region =
    record { field_name = codes "priceType"; operator = equals; value = codes "Consumption" }
    ∷ record { field_name = codes "currencyCode"; operator = equals; value = codes "USD" }
    ∷ record { field_name = codes "serviceFamily"; operator = equals; value = codes "Compute" }
    ∷ record {
      field_name = codes "serviceName";
      operator = equals;
      value = codes "Virtual Machines";
    }
    ∷ record { field_name = codes "armRegionName"; operator = equals; value = region }
    ∷ []

module _ {Price : Type 0} where
  abbrev or_empty : Option (Dict Price) → Dict Price
  or_empty none = []
  or_empty (some prices) = prices

  unfoldable pub static_pricing : Dict (Dict Price) → Bytes → Dict Price
  unfolding lookup
  static_pricing initial region = elim (lookup region initial) [
    | some prices ↦ prices
    | none ↦ or_empty (lookup (codes "eastus") initial)
  ]

module _ {Price Time : Type 0} where
  -- the three `continue` of the loop
  unfoldable pub is_skipped : Item Price Time → Bool
  unfolding has_suffix
  is_skipped item =
      has_suffix item.product_name (codes " Windows")
      || (has_suffix item.meter_name (codes " Low Priority")
          || has_suffix item.sku_name (codes " Spot"))

  unfoldable pub add_item : Item Price Time → Dict Price → Dict Price
  unfolding is_skipped insert
  add_item item prices =
      if is_skipped item then prices else insert item.arm_sku_name item.retail_price prices

  unfoldable pub add_items : List (Item Price Time) → Dict Price → Dict Price
  unfolding add_item
  add_items [] prices = prices
  add_items (item ∷ items) prices = add_items items (add_item item prices)

  unfoldable pub on_demand_page : ProductsPricePage Price Time → Dict Price → Dict Price
  unfolding add_items
  on_demand_page page prices = add_items page.items prices

  -- `NewProvider`, before its background updates
  unfoldable pub new_provider : Dict (Dict Price) → Time → Bytes → Provider Price Time
  unfolding static_pricing
  new_provider initial initial_price_update region = record {
    region = region;
    on_demand_update_time = initial_price_update;
    on_demand_prices = static_pricing initial region;
  }

  unfoldable pub reset : Dict (Dict Price) → Time → Provider Price Time → Provider Price Time
  unfolding static_pricing
  reset initial initial_price_update p = record p {
    on_demand_prices = static_pricing initial p.region;
    on_demand_update_time = initial_price_update;
  }

  -- `price, true`, or `0.0, false` where there is none
  unfoldable pub on_demand_price : Provider Price Time → Bytes → Option Price
  unfolding lookup
  on_demand_price p instance_type = lookup instance_type p.on_demand_prices

  unfoldable pub instance_types : Provider Price Time → List Bytes
  unfolding keys
  instance_types p = keys p.on_demand_prices

  -- takes and frees the mutex
  unfoldable pub liveness_probe : Provider Price Time → Result (Unit {0})
  liveness_probe p = ok tt

  unfoldable pub on_demand_last_updated : Provider Price Time → Time
  on_demand_last_updated p = p.on_demand_update_time

  abbrev kept : Err → Provider Price Time → Option (UpdateErr Time) × Provider Price Time
  kept e p = (some (record { error = e; last_update_time = p.on_demand_update_time }), p)

  -- What is done with the fetched prices, at the time `now`.
  unfoldable pub store :
      Provider Price Time
      → Time
      → Result (Dict Price)
      → Result (Option (UpdateErr Time) × Provider Price Time)
  unfolding assign
  store p now (err e) = ok (kept e p)
  store p now (ok []) = ok (kept no_prices p)
  store p now (ok (price ∷ prices)) = ok (
    none,
    record p { on_demand_prices = assign [] (price ∷ prices); on_demand_update_time = now },
  )
  store p now panic = panic
  store p now out_of_fuel = out_of_fuel

  module _ {W : Type 0} (http : Http W Price Time) where
    unfoldable pub fetch_on_demand_pricing : ℕ → Bytes → M W (Dict Price)
    unfolding get_products_price_pages on_demand_page
    fetch_on_demand_pricing fuel region =
        get_products_price_pages http on_demand_page fuel (price_filters region) []

  module _ {W : Type 0} (now : W → Time) where
    abbrev pub stored :
        Provider Price Time
        → Result (Dict Price) × W
        → Result (Option (UpdateErr Time) × Provider Price Time) × W
    stored p (r, w) = (store p (now w) r, w)

  module _ {W : Type 0} (http : Http W Price Time) (now : W → Time) where
    unfoldable pub update_on_demand_pricing :
        ℕ → Provider Price Time → M W (Option (UpdateErr Time) × Provider Price Time)
    unfolding fetch_on_demand_pricing store
    update_on_demand_pricing fuel p w = stored now p (fetch_on_demand_pricing http fuel p.region w)
