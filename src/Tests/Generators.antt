-- ===== src/Tests/Generators.antt =====
-- Examples for the generators (hack/code).
use gpu_provisioner.Base.{
  List, Bool, true, false, ℕ, suc, ◌*◌, ◌≡◌, refl, none, some, [], ◌∷◌, ◌++◌, ltb, arith,
  if◌then◌else◌,
}
use gpu_provisioner.Base.Text.{Bytes, codes, same}
use gpu_provisioner.Base.Dict.{has_key, Dict, lookup}
use gpu_provisioner.Base.Int.{pos, sprint}
use gpu_provisioner.Base.Result.{ok, err, out_of_fuel, no_prices, Ensures}
use gpu_provisioner.Base.Sort.{sort_strings, IsAscending}
use gpu_provisioner.Pricing.{Provider, instance_types, on_demand_price}
use gpu_provisioner.Hack.Prices as Prices
use gpu_provisioner.Hack.Prices.{
  Waiting, region_heading, region_end, price_lines, write_pricing, wait_for_update,
}
use gpu_provisioner.Hack.Prices.Laws.{names_of, text_of, write_pricing-instance_types}
use gpu_provisioner.Hack.Prices.Timeout.{Sleeps, IsOver, wait_for_update-IsOver}
use gpu_provisioner.Hack.Skus.{Verbs, ResourceSku, write_sku_data}
use gpu_provisioner.Hack.Skus.Listing.{Account, read_pages}
use gpu_provisioner.Hack.Skus.Endless.{
  Wanted, kept, nothing, Rounds, done, failed, page, IsDown, read_pages-Rounds, read_pages-IsDown,
}
use gpu_provisioner.Hack.Skus.Braces.{count, HasExcess, IsEven, even, total}
use gpu_provisioner.Hack.Skus.Parts.{IsQuoting, IsPlain}
use gpu_provisioner.Hack.Skus.Laws.{locations, write_sku_data-HasExcess}

abbrev price_verbs : Prices.Verbs ℕ
price_verbs = record { quoted = λ s. s; fixed = λ n. sprint (pos n) }

-- The prices come five seconds after the start.
abbrev provider : ℕ → Provider ℕ ℕ
provider w = record {
  region = codes "westus";
  on_demand_update_time = if ltb w 5 then 0 else 5000;
  on_demand_prices = (codes "b", 7) ∷ (codes "a", 3) ∷ (codes "b", 9) ∷ [];
}

two_lines :
    price_lines price_verbs
      (sort_strings (instance_types (provider 0)))
      (on_demand_price (provider 0))
    ≡ codes "\"a\":3, \n\"b\":7, \n"
unfolding price_lines Prices.price_line sort_strings instance_types on_demand_price codes sprint
    lookup
two_lines = refl

write_pricing-instance_types_example :
    (prices : Dict ℕ) × (write_pricing price_verbs
        (sort_strings (instance_types (provider 0)))
        (codes "westus")
        (on_demand_price (provider 0))
      ≡ region_heading price_verbs (codes "westus")
        ++ (text_of price_verbs prices ++ region_end price_verbs))
    × IsAscending (names_of prices)
    × ((k : Bytes) → lookup k prices ≡ on_demand_price (provider 0) k)
write_pricing-instance_types_example =
    write_pricing-instance_types price_verbs (codes "westus") (provider 0)

-- The world is the number of seconds.
abbrev waiting : Waiting ℕ ℕ
waiting = record { now = λ w. w * 1000; sleep = suc; provider = provider }

waiting-Sleeps : Sleeps waiting
waiting-Sleeps w = omega arith

wait_for_update-IsOver_example : IsOver waiting 0 (wait_for_update waiting 302 0 0 0)
wait_for_update-IsOver_example = wait_for_update-IsOver waiting waiting-Sleeps 0 0 (omega arith)

abbrev verbs : Verbs ℕ
verbs = record { quoted = λ s. s; quoted_float = λ x. []; nought = 0 }

verbs-IsQuoting : IsQuoting verbs
unfolding count
verbs-IsQuoting = record {
  opened = λ s. refl;
  closed = λ s. refl;
  float_opened = λ x. refl;
  float_closed = λ x. refl;
}

-- A size with two locations.
abbrev sku : ResourceSku ℕ
sku = record {
  name = some (codes "Standard_NC6s_v3");
  tier = none;
  kind = none;
  size = none;
  family = none;
  resource_type = none;
  api_versions = none ∷ [];
  capacity = none;
  costs = [];
  restrictions = [];
  capabilities = [];
  location_info = some [] ∷ some (some (codes "1") ∷ []) ∷ [];
}

plain : {s : Bytes} → count 123 s ≡ count 125 s → IsEven s
plain e = even e

sku-IsPlain : IsPlain verbs sku
unfolding count codes
sku-IsPlain = (
  (plain refl, (plain refl, (plain refl, (plain refl, (plain refl, (plain refl, tt)))))),
  (plain refl, tt),
  tt,
  tt,
  tt,
  (tt, ((plain refl, tt), tt)),
)

write_sku_data-HasExcess_example :
    Ensures
      (HasExcess (total locations (some sku ∷ [])) 1)
      (write_sku_data verbs (codes "//") (codes "now") (codes "westus") (some sku ∷ []))
write_sku_data-HasExcess_example =
    write_sku_data-HasExcess verbs verbs-IsQuoting (codes "//") (codes "now") (codes "westus")
      (some sku ∷ []) (unfold codes in unfold count in plain refl)
      (unfold codes in unfold count in plain refl) (unfold codes in unfold count in plain refl)
      (sku-IsPlain, tt)

-- One page, of which the first call fails; the world is the number of calls.
abbrev account : Account ℕ ℕ
account = record {
  Credential = Unit {0};
  Client = Unit {0};
  Pager = Bool;
  new_client_secret_credential = λ tenant client secret. ok tt;
  new_resource_skus_client = λ subscription cred. ok tt;
  new_list_pager = λ client filter. true;
  more = λ pager. pager;
  next_page = λ pager w.
      if ltb w 1 then ((err no_prices, pager), suc w) else ((ok (some sku ∷ []), false), suc w);
}

abbrev wanted : List Bytes
wanted = codes "Standard_NC6s_v3" ∷ []

selected : Wanted wanted (some sku ∷ []) (some sku ∷ [])
unfolding has_key codes same
selected = kept refl refl nothing

two_rounds : Rounds account wanted true 0 2 (ok (some sku ∷ [])) 2
two_rounds = failed refl refl (page refl refl selected (done refl))

read_pages-Rounds_example : read_pages account wanted 3 true [] 0 ≡ (ok (some sku ∷ []), 2)
read_pages-Rounds_example = read_pages-Rounds account wanted 3 two_rounds (omega arith)

-- No call succeeds.
abbrev down : Account ℕ ℕ
down = record account { next_page = λ pager w. ((err no_prices, pager), suc w) }

down-IsDown : IsDown down true
down-IsDown w = (no_prices, suc w, refl)

read_pages-IsDown_example : (read_pages down wanted 1000 true [] 0).0 ≡ out_of_fuel
read_pages-IsDown_example = read_pages-IsDown down wanted true [] 0 1000 refl down-IsDown
