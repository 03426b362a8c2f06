-- ===== src/Pricing/Runs.antt =====
-- The price list over a run of the program: updates and resets in any order, whatever the service
-- answers and however the world changes between them.
use gpu_provisioner.Base.{ℕ, ◌≡◌, ◌≢◌, ◌⊎◌, inl, inr, refl, sym, ap, Option, [], ◌∷◌}
use gpu_provisioner.Base.Text.{Bytes}
use gpu_provisioner.Base.Dict.{Dict, assign}
use gpu_provisioner.Base.Result.{Result, ok, err, panic, out_of_fuel}
use gpu_provisioner.Pricing.Client.{Http}
use gpu_provisioner.Pricing.{
  Provider, UpdateErr, static_pricing, new_provider, reset, store, fetch_on_demand_pricing,
  update_on_demand_pricing, stored,
}

module _ {W Price Time : Type 0} (http : Http W Price Time) (now : W → Time)
    (initial : Dict (Dict Price)) (initial_price_update : Time) (fuel : ℕ) where
  pub data Reached (region : Bytes) : Provider Price Time → W → Type 0 where
    made : {w : W} → Reached region (new_provider initial initial_price_update region) w
    waited : {p : Provider Price Time} {w : W} (v : W) → Reached region p w → Reached region p v
    updated :
        {p q : Provider Price Time} {w v : W} {o : Option (UpdateErr Time)}
        → Reached region p w
        → update_on_demand_pricing http now fuel p w ≡ (ok (o, q), v)
        → Reached region q v
    was_reset :
        {p : Provider Price Time} {w : W}
        → Reached region p w
        → Reached region (reset initial initial_price_update p) w

  abbrev pub Static : Bytes → Provider Price Time → Type 0
  Static region p =
      (p.on_demand_prices ≡ static_pricing initial region)
      × (p.on_demand_update_time ≡ initial_price_update)

  abbrev pub Fetched : Bytes → Provider Price Time → Type 0
  Fetched region p =
      (prices : Dict Price) × (u : W) × (v : W) × (fetch_on_demand_pricing http fuel region u
        ≡ (ok prices, v))
      × (prices ≢ [])
      × (p.on_demand_prices ≡ assign [] prices)
      × (p.on_demand_update_time ≡ now v)

  abbrev pub IsPriced : Bytes → Provider Price Time → Type 0
  IsPriced region p = (p.region ≡ region) × (Static region p ⊎ Fetched region p)

  store-IsPriced :
      (region : Bytes) (p q : Provider Price Time) (w v : W) (r : Result (Dict Price))
      (o : Option (UpdateErr Time))
      → IsPriced region p
      → fetch_on_demand_pricing http fuel p.region w ≡ (r, v)
      → store p (now v) r ≡ ok (o, q)
      → IsPriced region q
  unfolding store
  store-IsPriced region p q w v (ok []) o i e h = let s : p ≡ q = cc in rw (sym s) i
  store-IsPriced region p q w v (ok (price ∷ prices)) o (same_region, _) e h =
      let s : record p {
        on_demand_prices = assign [] (price ∷ prices);
        on_demand_update_time = now v;
      }
          ≡ q =
        cc in
      rw (sym s) (same_region, inr (price ∷ prices, w, v, rw same_region at e, λ k. cc, refl, refl))
  store-IsPriced region p q w v (err x) o i e h = let s : p ≡ q = cc in rw (sym s) i
  store-IsPriced region p q w v panic o i e h = cc
  store-IsPriced region p q w v out_of_fuel o i e h = cc

  settled :
      (region : Bytes) (p q : Provider Price Time) (w v : W) (o : Option (UpdateErr Time))
      → IsPriced region p
      → update_on_demand_pricing http now fuel p w ≡ (ok (o, q), v)
      → IsPriced region q
  unfolding update_on_demand_pricing
  settled region p q w v o i h = by_answer (fetch_on_demand_pricing http fuel p.region w) refl h
    where
      by_answer :
          (x : Result (Dict Price) × W)
          → fetch_on_demand_pricing http fuel p.region w ≡ x
          → stored now p x ≡ (ok (o, q), v)
          → IsPriced region q
      by_answer (r, u) e k =
          store-IsPriced region p q w u r o i e
            (ap (λ (y : Result (Option (UpdateErr Time) × Provider Price Time) × W). y.0) k)

  -- In every state that a run reaches, the region is that of the start, and the prices are the static
  -- ones with their time, or those of one successful fetch that found some, with the time behind it.
  pub Reached-IsPriced :
      (region : Bytes) {p : Provider Price Time} {w : W} → Reached region p w → IsPriced region p
  unfolding new_provider reset
  Reached-IsPriced region made = (refl, inl (refl, refl))
  Reached-IsPriced region (waited v m) = Reached-IsPriced region m
  Reached-IsPriced region (updated {p} {q} {w} {v} {o} m h) =
      settled region p q w v o (Reached-IsPriced region m) h
  Reached-IsPriced region (was_reset m) =
      let (r, _) = Reached-IsPriced region m in (r, inl (ap (static_pricing initial) r, refl))
