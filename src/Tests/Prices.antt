-- ===== src/Tests/Prices.antt =====
-- Examples for the price list, the sizes, the offerings and the configuration (pkg/providers/pricing,
-- pkg/utils/gpu.go, pkg/cache, pkg/auth/config.go, pkg/apis).
use gpu_provisioner.Base.{
  if◌then◌else◌, ap, ℕ, ◌+◌, ◌*◌, ◌≤◌, ◌≡◌, ◌↔◌, ◌⊎◌, refl, Bool, true, false, none, some, [], ◌∷◌,
  ◌++◌, arith, ◌||◌,
}
use gpu_provisioner.Base.Text.{Bytes, codes, same, same_refl, same_other, to_lower}
use gpu_provisioner.Base.Dict.{Dict, lookup}
use gpu_provisioner.Base.Result.{ok}
use gpu_provisioner.Pricing.Client.{Item, ProductsPricePage, Http, first_url, fetch_page}
use gpu_provisioner.Pricing.{
  is_skipped, Provider, price_filters, fetch_on_demand_pricing, new_provider,
}
use gpu_provisioner.Pricing.Laws.{
  Delivers, last, next, last_price, LastPrice, priced, fetch-Delivers,
}
use gpu_provisioner.Pricing.Runs.{IsPriced}
use gpu_provisioner.Pricing.Background.{
  electing, polling, launched, elected, timer, Loop, pricing_update_period, react, background,
}
use gpu_provisioner.Pricing.Background.Clock.{IsForward}
use gpu_provisioner.Pricing.Background.Laws.{Run, begun, passed, reacted, Run-bound}
use gpu_provisioner.Skus.{nvidia_enabled_skus, is_nvidia_enabled_sku}
use gpu_provisioner.Skus.Laws.{IsOneOf, promo, is_nvidia_enabled_sku_iff}
use gpu_provisioner.Offerings.{
  Cache, IsCache, UnavailableOfferings, is_unavailable, mark_unavailable, flush,
}
use gpu_provisioner.Offerings.Laws.{mark_unavailable-is_unavailable}
use gpu_provisioner.Config.{Config, Env}
use gpu_provisioner.Config.Laws.{read}

abbrev item : Bytes → ℕ → Item ℕ ℕ
item product price = record {
  currency_code = codes "USD";
  tier_minimum_units = 0;
  retail_price = price;
  unit_price = price;
  arm_region_name = codes "westus";
  location = codes "US West";
  effective_start_date = 0;
  meter_id = [];
  meter_name = codes "NC6s v3";
  product_id = [];
  sku_id = [];
  product_name = product;
  sku_name = codes "NC6s v3";
  service_name = codes "Virtual Machines";
  service_id = [];
  service_family = codes "Compute";
  unit_of_measure = codes "1 Hour";
  type_name = codes "Consumption";
  is_primary_meter_region = true;
  arm_sku_name = codes "Standard_NC6s_v3";
  effective_end_date = 0;
  reservation_term = [];
}

abbrev price_page : ProductsPricePage ℕ ℕ
price_page = record {
  billing_currency = codes "USD";
  customer_entity_id = [];
  customer_entity_type = [];
  items = item (codes "NCSv3 Series") 3 ∷ item (codes "NCSv3 Series Windows") 5 ∷ [];
  next_page_link = [];
  count = 2;
}

-- One page, whatever is asked; the world is the time.
abbrev http : Http ℕ ℕ ℕ
http = record {
  get = λ url w. (ok (record { status_code = 200; body = 0 }), w);
  read_all = λ body w. (ok [], w);
  unmarshal = λ body. ok price_page;
  query_escape = λ s. s;
}

abbrev url : Bytes
url = first_url http (price_filters (codes "westus"))

fetched : fetch_page http url 7 ≡ (ok price_page, 7)
unfolding fetch_page
fetched = refl

one_page : Delivers http url 7 1 (price_page.items ++ []) (ok tt) 7
unfolding first_url codes
one_page = next fetched last

fetch-Delivers_example :
    (prices : Dict ℕ) × (fetch_on_demand_pricing http 2 (codes "westus") 7
      ≡ (priced http (ok tt) prices, 7))
    × ((k : Bytes) → LastPrice k (price_page.items ++ []) (lookup k prices))
fetch-Delivers_example = fetch-Delivers http 2 (codes "westus") one_page (omega arith)

-- The price for Windows does not count.
linux_price : last_price (codes "Standard_NC6s_v3") price_page.items ≡ some 3
unfolding codes same is_skipped
linux_price = refl

abbrev initial : Dict (Dict ℕ)
initial = (codes "eastus", (codes "Standard_NC6s_v3", 4) ∷ []) ∷ []

abbrev start : Provider ℕ ℕ
start = new_provider initial 0 (codes "westus")

-- The clock stands still in a fetch.
http-IsForward : IsForward http (λ (w : ℕ). w)
http-IsForward = record { get_forward = λ url w. omega arith; read_forward = λ body w. omega arith }

abbrev priced_at : ℕ → Provider ℕ ℕ
priced_at t = record start {
  on_demand_prices = (codes "Standard_NC6s_v3", 3) ∷ [];
  on_demand_update_time = t;
}

-- Behind the first update, behind the election, and behind the update of the timer.
abbrev first_loop : Loop ℕ
first_loop = record { stage = electing 7; provider = priced_at 7; updates = 1 }

abbrev second_loop : Loop ℕ
second_loop = record first_loop { stage = polling 7 }

abbrev third_loop : Loop ℕ
third_loop = record { stage = polling 43200007; provider = priced_at 43200007; updates = 2 }

launch : react http (λ (w : ℕ). w) 2 launched (background start) 7 ≡ (ok first_loop, 7)
unfolding react background new_provider codes
launch = refl

election : react http (λ (w : ℕ). w) 2 elected first_loop 7 ≡ (ok second_loop, 7)
unfolding react new_provider
election = refl

firing : react http (λ (w : ℕ). w) 2 timer second_loop 43200007 ≡ (ok third_loop, 43200007)
unfolding react new_provider codes
firing = refl

half_a_day : Run http (λ (w : ℕ). w) initial 0 2 (codes "westus") 7 third_loop 43200007
unfolding background
half_a_day =
    reacted timer
      (passed 43200007 (omega arith)
        (reacted elected (reacted launched begun tt launch) tt election))
      (omega arith) firing

Run-bound_example :
    (third_loop.updates * pricing_update_period + 7 ≤ 43200007 + pricing_update_period)
    × IsPriced http (λ (w : ℕ). w) initial 0 2 (codes "westus") third_loop.provider
Run-bound_example =
    Run-bound http (λ (w : ℕ). w) initial 0 2 (codes "westus") 7 http-IsForward half_a_day

is_nvidia_enabled_sku_iff_example : (is_nvidia_enabled_sku (codes "Standard_NC6_Promo") ≡ true) ↔ (
    (name : Bytes) × IsOneOf nvidia_enabled_skus name
    × ((to_lower (codes "Standard_NC6_Promo") ≡ name)
        ⊎ (to_lower (codes "Standard_NC6_Promo") ≡ name ++ promo)))
is_nvidia_enabled_sku_iff_example = is_nvidia_enabled_sku_iff (codes "Standard_NC6_Promo")

-- The world is the set of the keys; nothing expires within one moment.
abbrev set_cache : Cache (Bytes → Bool)
set_cache = record {
  Handle = Unit {0};
  make = λ ttl interval w. (tt, w);
  found = λ h k w. w k;
  set_default = λ h k w j. same j k || w j;
  flush = λ h w j. false;
}

abbrev set_cache-IsCache : IsCache set_cache
set_cache-IsCache = record {
  found_set = λ h k w. rw (same_refl k);
  found_other = λ h k j w other. ap (λ (b : Bool). b || w j) (same_other j k other);
  found_flush = λ h k w. refl;
}

abbrev offerings : UnavailableOfferings set_cache
offerings = record { cache = tt }

mark_unavailable-is_unavailable_example :
    (is_unavailable set_cache offerings (codes "Standard_NC6") (codes "westus") (codes "Regular") (
        mark_unavailable set_cache offerings []
          (codes "Standard_NC6")
          (codes "westus")
          (codes "Regular")
          (λ _. false))
      ≡ true)
    × (¬ (
          (codes "Standard_NC12" ≡ codes "Standard_NC6")
          × (codes "westus" ≡ codes "westus")
          × (codes "Regular" ≡ codes "Regular"))
        → is_unavailable set_cache offerings
            (codes "Standard_NC12")
            (codes "westus")
            (codes "Regular")
            (mark_unavailable set_cache offerings []
              (codes "Standard_NC6")
              (codes "westus")
              (codes "Regular")
              (λ _. false))
          ≡ is_unavailable set_cache offerings
              (codes "Standard_NC12")
              (codes "westus")
              (codes "Regular")
              (λ _. false))
    × (is_unavailable set_cache offerings
          (codes "Standard_NC12")
          (codes "westus")
          (codes "Regular")
          (flush set_cache offerings (λ _. false))
        ≡ false)
unfolding codes
mark_unavailable-is_unavailable_example =
    mark_unavailable-is_unavailable set_cache set_cache-IsCache offerings [] (codes "Standard_NC6")
      (codes "westus") (codes "Regular") (λ _. false) (codes "Standard_NC12") (codes "westus")
      (codes "Regular") (omega arith) (omega arith) (omega arith) (omega arith)

-- Every variable is set to the same text.
abbrev sample_env : Env
sample_env k = if same k (codes "AZURE_ENABLE_DYNAMIC_SKU_CACHE") then none else some (codes " x ")

abbrev sample_config : Config
sample_config = read sample_env false
