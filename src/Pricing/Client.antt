-- ===== src/Pricing/Client.antt =====
-- pkg/providers/pricing/client: the pages of Azure's retail price service. The HTTP client, the JSON
-- decoder and `url.QueryEscape` are parameters.
use gpu_provisioner.Base.{Bool, ℕ, zero, suc, List, [], ◌∷◌, ◌++◌, ◌==◌, if◌then◌else◌}
use gpu_provisioner.Base.Text.{Bytes, codes}
use gpu_provisioner.Base.Result.{Result, ok, out_of_fuel, status_code}
use gpu_provisioner.Base.Effect.{M, ◌>>=◌, continue, lift, pure, fail}

-- The field `AvailabilityID any`, which nothing reads, is left out.
pub record Item (Price Time : Type 0) : Type 0 where
  pub currency_code : Bytes
  pub tier_minimum_units : Price
  pub retail_price : Price
  pub unit_price : Price
  pub arm_region_name : Bytes
  pub location : Bytes
  pub effective_start_date : Time
  pub meter_id : Bytes
  pub meter_name : Bytes
  pub product_id : Bytes
  pub sku_id : Bytes
  pub product_name : Bytes
  pub sku_name : Bytes
  pub service_name : Bytes
  pub service_id : Bytes
  pub service_family : Bytes
  pub unit_of_measure : Bytes
  pub type_name : Bytes
  pub is_primary_meter_region : Bool
  pub arm_sku_name : Bytes
  pub effective_end_date : Time
  pub reservation_term : Bytes

pub record ProductsPricePage (Price Time : Type 0) : Type 0 where
  pub billing_currency : Bytes
  pub customer_entity_id : Bytes
  pub customer_entity_type : Bytes
  pub items : List (Item Price Time)
  pub next_page_link : Bytes
  pub count : ℕ

pub record Filter : Type 0 where
  pub field_name : Bytes
  pub operator : Bytes
  pub value : Bytes

abbrev pub equals : Bytes
equals = codes "eq"

unfoldable pub filter_string : Filter → Bytes
filter_string f =
    f.field_name ++ (codes " " ++ (f.operator ++ (codes " '" ++ (f.value ++ codes "'"))))

pub record Response : Type 0 where
  pub status_code : ℕ
  pub body : ℕ

-- `http.Get`, `io.ReadAll`, `json.Unmarshal` and `url.QueryEscape`. A body is a handle.
pub record Http (W Price Time : Type 0) : Type 0 where
  pub get : Bytes → M W Response
  pub read_all : ℕ → M W Bytes
  pub unmarshal : Bytes → Result (ProductsPricePage Price Time)
  pub query_escape : Bytes → Bytes

abbrev pub pricing_url : Bytes
pricing_url = codes "https://prices.azure.com/api/retail/prices?api-version=2021-10-01-preview"

-- `strings.Join` with " and " of the filters' strings
unfoldable pub join_filters : List Filter → Bytes
unfolding filter_string
join_filters [] = []
join_filters (f ∷ []) = filter_string f
join_filters (f ∷ g ∷ fs) = filter_string f ++ (codes " and " ++ join_filters (g ∷ fs))

module _ {W Price Time : Type 0} (http : Http W Price Time) where
  unfoldable pub first_url : List Filter → Bytes
  unfolding join_filters
  first_url [] = pricing_url
  first_url (f ∷ fs) =
      pricing_url ++ (codes "&$filter=" ++ http.query_escape (join_filters (f ∷ fs)))

  abbrev accepted : Response → M W Response
  accepted res = if res.status_code == 200 then pure res else fail (status_code res.status_code)

  -- one round of the loop, up to the handler
  unfoldable pub fetch_page : Bytes → M W (ProductsPricePage Price Time)
  fetch_page url = do
    res ← http.get url
    checked ← accepted res
    body ← http.read_all checked.body
    lift (http.unmarshal body)

  module _ {S : Type 0} (page_handler : ProductsPricePage Price Time → S → S) where
    unfoldable pub page_loop : ℕ → Bytes → S → M W S
    unfolding fetch_page
    page_loop zero url s w = (out_of_fuel, w)
    page_loop (suc n) [] s w = (ok s, w)
    page_loop (suc n) (c ∷ url) s w =
        continue (fetch_page (c ∷ url) w)
          (λ page. page_loop n page.next_page_link (page_handler page s))

    -- What the handler changes is the state `s`.
    unfoldable pub get_products_price_pages : ℕ → List Filter → S → M W S
    unfolding first_url page_loop
    get_products_price_pages fuel filters s = page_loop fuel (first_url filters) s
