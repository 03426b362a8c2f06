-- ===== src/Pricing/Laws.antt =====
-- What the price list holds after the pages were read.
use gpu_provisioner.Base.{
  ℕ, zero, suc, ◌<◌, ◌≡◌, ◌∙◌, ◌↔◌, ◌≢◌, ◌⊎◌, inl, inr, Bool, Bool-cases, ◌||◌, false≢true, sym,
  refl, ap, true, false, Option, none, some, List, [], ◌∷◌, ◌++◌, if◌then◌else◌, arith,
}
use gpu_provisioner.Base.Text.{Bytes, codes, same, same_iff, has_suffix}
use gpu_provisioner.Base.Substrings.{has_suffix-append, has_suffix-split}
use gpu_provisioner.Base.Dict.{Dict, lookup, insert, or_else, has_key, has_key-keys}
use gpu_provisioner.Base.Result.{Err, Result, ok, err, panic, out_of_fuel}
use gpu_provisioner.Base.Effect.{continue}
use gpu_provisioner.Pricing.Client.{
  Item, ProductsPricePage, Http, fetch_page, page_loop, first_url, get_products_price_pages,
}
use gpu_provisioner.Pricing.{
  Provider, is_skipped, add_item, add_items, on_demand_page, price_filters, fetch_on_demand_pricing,
  instance_types, on_demand_price,
}

or_none : {A : Type 0} (o : Option A) → or_else o none ≡ o
or_none none = refl
or_none (some x) = refl

one_of : (a b c : Bool) → (a || (b || c)) ≡ true → (a ≡ true) ⊎ ((b ≡ true) ⊎ (c ≡ true))
one_of true b c h = inl refl
one_of false true c h = inr (inl refl)
one_of false false c h = inr (inr h)

ends_with : (s before p : Bytes) → s ≡ before ++ p → has_suffix s p ≡ true
ends_with s before p e = ap (λ (t : Bytes). has_suffix t p) e ∙ has_suffix-append before p

module _ {Price Time : Type 0} where
  -- The price of the last item of the size that is neither for Windows, nor low priority, nor spot.
  abbrev pub last_price : Bytes → List (Item Price Time) → Option Price
  last_price k [] = none
  last_price k (item ∷ items) = or_else (last_price k items) (
      if is_skipped item
      then none
      else if same item.arm_sku_name k
      then some item.retail_price
      else none)

  -- For Windows, low priority or spot.
  pub data IsLeftOut (item : Item Price Time) : Type 0 where
    windows : (name : Bytes) → item.product_name ≡ name ++ codes " Windows" → IsLeftOut item
    low_priority : (name : Bytes) → item.meter_name ≡ name ++ codes " Low Priority" → IsLeftOut item
    spot : (name : Bytes) → item.sku_name ≡ name ++ codes " Spot" → IsLeftOut item

  -- The price of the last item for a size, without those that are left out, where there is one.
  pub data LastPrice (k : Bytes) : List (Item Price Time) → Option Price → Type 0 where
    no_item : LastPrice k [] none
    later :
        {item : Item Price Time} {items : List (Item Price Time)} {price : Price}
        → LastPrice k items (some price)
        → LastPrice k (item ∷ items) (some price)
    here :
        {item : Item Price Time} {items : List (Item Price Time)}
        → LastPrice k items none
        → ¬ IsLeftOut item
        → item.arm_sku_name ≡ k
        → LastPrice k (item ∷ items) (some item.retail_price)
    left_out :
        {item : Item Price Time} {items : List (Item Price Time)}
        → LastPrice k items none
        → IsLeftOut item
        → LastPrice k (item ∷ items) none
    other :
        {item : Item Price Time} {items : List (Item Price Time)}
        → LastPrice k items none
        → item.arm_sku_name ≢ k
        → LastPrice k (item ∷ items) none

  is_skipped-IsLeftOut : (item : Item Price Time) → is_skipped item ≡ true → IsLeftOut item
  unfolding is_skipped
  is_skipped-IsLeftOut item h =
      elim (one_of (has_suffix item.product_name (codes " Windows"))
        (has_suffix item.meter_name (codes " Low Priority"))
        (has_suffix item.sku_name (codes " Spot")) h) [
          | inl e ↦
              (let (name, h) = has_suffix-split item.product_name (codes " Windows") e in
                windows name h)
          | inr (inl e) ↦
              (let (name, h) = has_suffix-split item.meter_name (codes " Low Priority") e in
                low_priority name h)
          | inr (inr e) ↦
              (let (name, h) = has_suffix-split item.sku_name (codes " Spot") e in spot name h)
        ]

  IsLeftOut-is_skipped : (item : Item Price Time) → IsLeftOut item → is_skipped item ≡ true
  unfolding is_skipped
  IsLeftOut-is_skipped item (windows name e) = rw (ends_with _ name (codes " Windows") e) refl
  IsLeftOut-is_skipped item (low_priority name e) =
      let h = ends_with item.meter_name name (codes " Low Priority") e in ground (arith, h)
  IsLeftOut-is_skipped item (spot name e) =
      let h = ends_with item.sku_name name (codes " Spot") e in ground (arith, h)

  not_skipped : (item : Item Price Time) → is_skipped item ≡ false → ¬ IsLeftOut item
  not_skipped item e m = false≢true (sym e ∙ IsLeftOut-is_skipped item m)

  not_named :
      (k : Bytes) (item : Item Price Time)
      → same item.arm_sku_name k ≡ false
      → item.arm_sku_name ≢ k
  not_named k item e h = false≢true (sym e ∙ (same_iff item.arm_sku_name k).1 h)

  last_price-LastPrice :
      (k : Bytes) (items : List (Item Price Time)) → LastPrice k items (last_price k items)
  last_price-LastPrice k [] = no_item
  last_price-LastPrice k (item ∷ items) =
      by_rest (last_price k items) (last_price-LastPrice k items)
    where
      by_rest :
          (o : Option Price)
          → LastPrice k items o
          → LastPrice k (item ∷ items) (
              or_else o (
                if is_skipped item
                then none
                else if same item.arm_sku_name k
                then some item.retail_price
                else none))
      by_rest (some price) m = later m
      by_rest none m = elim (Bool-cases (is_skipped item)) [
        | inl e ↦ rw e (left_out m (is_skipped-IsLeftOut item e))
        | inr e ↦ elim (Bool-cases (same item.arm_sku_name k)) [
          | inl f ↦ rw (e, f) (here m (not_skipped item e) ((same_iff item.arm_sku_name k).0 f))
          | inr f ↦ rw (e, f) (other m (not_named k item f))
        ]
      ]

  lookup-add_items :
      (k : Bytes) (items : List (Item Price Time)) (prices : Dict Price)
      → lookup k (add_items items prices) ≡ or_else (last_price k items) (lookup k prices)
  unfolding add_items
  lookup-add_items k [] prices = refl
  lookup-add_items k (item ∷ items) prices =
      lookup-add_items k items (add_item item prices)
      ∙ unfold add_item insert lookup in ground arith

  add_items-append :
      (xs ys : List (Item Price Time)) (prices : Dict Price)
      → add_items ys (add_items xs prices) ≡ add_items (xs ++ ys) prices
  unfolding add_items
  add_items-append [] ys prices = refl
  add_items-append (x ∷ xs) ys prices = add_items-append xs ys (add_item x prices)

  on_demand_page-append :
      (page : ProductsPricePage Price Time) (items : List (Item Price Time)) (prices : Dict Price)
      → add_items items (on_demand_page page prices) ≡ add_items (page.items ++ items) prices
  unfolding on_demand_page
  on_demand_page-append page items prices = add_items-append page.items items prices

  -- The sizes that `InstanceTypes` lists are those for which `OnDemandPrice` knows a price.
  has_key-instance_types :
      (p : Provider Price Time) (k : Bytes)
      → (has_key k (instance_types p) ≡ true)
        ↔ ((price : Price) × (on_demand_price p k ≡ some price))
  unfolding instance_types on_demand_price
  has_key-instance_types p k = has_key-keys Price k p.on_demand_prices

module _ {W Price Time : Type 0} (http : Http W Price Time) where
  -- The pages behind an address, of `n` rounds, with their items in order, or the failure that ends them.
  pub data Delivers : Bytes → W → ℕ → List (Item Price Time) → Result (Unit {0}) → W → Type 0 where
    last : {w : W} → Delivers [] w 0 [] (ok tt) w
    failed :
        {c : ℕ} {url : Bytes} {w v : W} {e : Err}
        → fetch_page http (c ∷ url) w ≡ (err e, v)
        → Delivers (c ∷ url) w 0 [] (err e) v
    next :
        {c : ℕ} {url : Bytes} {w v u : W} {page : ProductsPricePage Price Time} {n : ℕ}
        {items : List (Item Price Time)} {r : Result (Unit {0})}
        → fetch_page http (c ∷ url) w ≡ (ok page, v)
        → Delivers page.next_page_link v n items r u
        → Delivers (c ∷ url) w (suc n) (page.items ++ items) r u

  abbrev pub priced : Result (Unit {0}) → Dict Price → Result (Dict Price)
  priced (ok _) prices = ok prices
  priced (err e) prices = err e
  priced panic prices = panic
  priced out_of_fuel prices = out_of_fuel

  abbrev behind_page :
      ℕ → Dict Price → Result (ProductsPricePage Price Time) × W → Result (Dict Price) × W
  behind_page fuel prices x =
      continue x (λ page.
        page_loop http on_demand_page fuel page.next_page_link (on_demand_page page prices))

  turn :
      (fuel c : ℕ) (url : Bytes) (prices : Dict Price) (w : W)
      (x : Result (ProductsPricePage Price Time) × W)
      → fetch_page http (c ∷ url) w ≡ x
      → page_loop http on_demand_page (suc fuel) (c ∷ url) prices w ≡ behind_page fuel prices x
  unfolding page_loop
  turn fuel c url prices w x e = ap (behind_page fuel prices) e

  page_loop-Delivers :
      (fuel : ℕ) {url : Bytes} {w v : W} {n : ℕ} {items : List (Item Price Time)}
      {r : Result (Unit {0})} (prices : Dict Price)
      → Delivers url w n items r v
      → n < fuel
      → page_loop http on_demand_page fuel url prices w ≡ (priced r (add_items items prices), v)
  page_loop-Delivers zero prices d h = absurd (omega (arith, h))
  page_loop-Delivers (suc fuel) prices last h = unfold page_loop add_items in refl
  page_loop-Delivers (suc fuel) prices (failed {c} {url} {w} e) h = turn fuel c url prices w _ e
  page_loop-Delivers (suc fuel) prices
        (next {c} {url} {w} {u = u} {page = page} {items = items} {r = r} e d) h =
      turn fuel c url prices w _ e
      ∙ page_loop-Delivers fuel (on_demand_page page prices) d (omega arith)
      ∙ ap (λ (m : Dict Price). (priced r m, u)) (on_demand_page-append page items prices)

  -- If the service delivers its pages to the end, then with more fuel than pages the fetched price of
  -- every size is that of the last item for it, over all pages in order, whose product does not end in
  -- ` Windows`, whose meter does not end in ` Low Priority` and whose own name does not end in ` Spot`;
  -- a size without such an item has none. If a page fails, the fetch fails with its error.
  pub fetch-Delivers :
      {w v : W} {n : ℕ} {items : List (Item Price Time)} {r : Result (Unit {0})} (fuel : ℕ)
      (region : Bytes)
      → Delivers (first_url http (price_filters region)) w n items r v
      → n < fuel
      → (prices : Dict Price) × (fetch_on_demand_pricing http fuel region w ≡ (priced r prices, v))
        × ((k : Bytes) → LastPrice k items (lookup k prices))
  fetch-Delivers {items} fuel region d h = (
    add_items items [],
    unfold fetch_on_demand_pricing get_products_price_pages in page_loop-Delivers fuel [] d h,
    λ k.
        let e : lookup k (add_items items []) ≡ last_price k items =
          lookup-add_items k items [] ∙ (unfold lookup in or_none (last_price k items)) in
        rw e (last_price-LastPrice k items),
  )
