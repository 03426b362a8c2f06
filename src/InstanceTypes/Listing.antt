-- ===== src/InstanceTypes/Listing.antt =====
-- pkg/providers/instancetype/instancetypes.go: the instance types of a region, with a cache of the sizes.
-- The clients of package skewer and the caches of package go-cache are parameters.
pub mod Laws
pub mod Names
use gpu_provisioner.Base.{
  ℕ, ◌*◌, ◌≡◌, Bool, true, false, Option, none, some, List, [], ◌∷◌, ◌++◌, if◌then◌else◌,
}
use gpu_provisioner.Base.Text.{Bytes, codes}
use gpu_provisioner.Base.Dict.{Dict, lookup, insert, keys}
use gpu_provisioner.Base.Result.{Err, Result, ok, err, panic, out_of_fuel, deref, fetching_skus}
use gpu_provisioner.Base.Effect.{M, ◌>>=◌, continue, lift, pure, in_context}
use gpu_provisioner.Offerings.{Cache, UnavailableOfferings, is_unavailable}
use gpu_provisioner.Pricing
use gpu_provisioner.Pricing.{on_demand_price}
use gpu_provisioner.InstanceTypes.Skus.{Sku, Quantities, Floats, Scheduling}
use gpu_provisioner.InstanceTypes.Reserved.{KubeletConfiguration}
use gpu_provisioner.InstanceTypes.Requirements.{Offering}
use gpu_provisioner.InstanceTypes.{InstanceType, new_instance_type}

-- Hours, in milliseconds.
abbrev pub instance_types_cache_ttl : ℕ
instance_types_cache_ttl = 23 * 3600000

abbrev pub instance_types_cache_key : Bytes
instance_types_cache_key = codes "types"

-- A cache with values, as `cache.Get` and `cache.SetDefault`.
pub record ValueCache (W V : Type 0) : Type 0 where
  pub get : Bytes → W → Option V
  pub set_default : Bytes → V → W → W

-- `skewer.NewCache` with the region and the client, and `List` with the filter for virtual machines.
pub record Skewer (W Float : Type 0) : Type 1 where
  pub SkuCache : Type 0
  pub new_cache : Bytes → M W SkuCache
  pub list_virtual_machines : SkuCache → List (Sku Float)

abbrev pub priority_regular : Bytes
priority_regular = codes "Regular"

-- The values of a map, one for each key, in the order in which the map has them.
module _ {ℓ} {V : Type ℓ} where
  abbrev cons_some : Option V → List V → List V
  cons_some none vs = vs
  cons_some (some v) vs = v ∷ vs

  unfoldable pub values_at : List Bytes → Dict V → List V
  unfolding lookup
  values_at [] m = []
  values_at (k ∷ ks) m = cons_some (lookup k m) (values_at ks m)

  unfoldable pub values : Dict V → List V
  unfolding values_at keys
  values m = values_at (keys m) m

module _ {Float : Type 0} where
  unfoldable pub filter_sku : Sku Float → Bool
  filter_sku sku = true

  -- the loop over the sizes that were fetched
  unfoldable pub collect_skus : List (Sku Float) → Dict (Sku Float) → Dict (Sku Float)
  unfolding filter_sku insert
  collect_skus [] types = types
  collect_skus (sku ∷ skus) types =
      collect_skus skus (if filter_sku sku then insert sku.get_name sku types else types)

-- The pricing provider is shared with its updates: it is read from the world.
pub record Provider {W : Type 0} (Price Time Float : Type 0) (C : Cache W) : Type 1 where
  pub region : Bytes
  pub skewer : Skewer W Float
  pub pricing_provider : W → Pricing.Provider Price Time
  pub unavailable_offerings : UnavailableOfferings C
  pub cache : ValueCache W (Dict (Sku Float))

module _ {W Price Time Float : Type 0} {C : Cache W} (p : Provider Price Time Float C) where
  unfoldable pub keep_skus : List (Sku Float) → M W (Dict (Sku Float))
  unfolding collect_skus
  keep_skus skus w =
      let types = collect_skus skus [] in
      (ok types, p.cache.set_default instance_types_cache_key types w)

  unfoldable pub fetch_instance_types : M W (Dict (Sku Float))
  unfolding keep_skus
  fetch_instance_types = do
    cache ← in_context fetching_skus (p.skewer.new_cache p.region)
    keep_skus (p.skewer.list_virtual_machines cache)

  -- takes and frees the mutex, and asks the price list
  unfoldable pub liveness_probe : M W (Unit {0})
  unfolding Pricing.liveness_probe
  liveness_probe w = (Pricing.liveness_probe (p.pricing_provider w), w)

  unfoldable pub get_instance_types : M W (Dict (Sku Float))
  unfolding fetch_instance_types
  get_instance_types w = elim (p.cache.get instance_types_cache_key w) [
    | some cached ↦ (ok cached, w)
    | none ↦ fetch_instance_types w
  ]

  module _ (nought : Price) where
    abbrev pub regular_offering : Option Price → Offering Price
    regular_offering none = record {
      zone = [];
      capacity_type = priority_regular;
      price = nought;
      available = false;
    }
    regular_offering (some price) = record {
      zone = [];
      capacity_type = priority_regular;
      price = price;
      available = true;
    }

    unfoldable pub offered : Bytes → W → List (Offering Price)
    unfolding on_demand_price is_unavailable
    offered name w =
        if is_unavailable C p.unavailable_offerings name p.region priority_regular w
        then []
        else regular_offering (on_demand_price (p.pricing_provider w) name) ∷ []

    -- `*sku.Name` is a nil pointer where the size has no name.
    unfoldable pub create_offerings : Sku Float → M W (List (Offering Price))
    unfolding offered
    create_offerings sku w = continue (lift (deref sku.name) w) (λ name v. (ok (offered name v), v))

module _ {W Price Time : Type 0} {C : Cache W} (Q : Quantities) (F : Floats) (S : Scheduling)
    (nought : Price) (p : Provider Price Time F.Float C) where
  -- A type without offerings is left out.
  abbrev pub append_offered :
      List (InstanceType Q F S Price)
      → InstanceType Q F S Price
      → List (Offering Price)
      → List (InstanceType Q F S Price)
  append_offered result t [] = result
  append_offered result t (_ ∷ _) = result ++ t ∷ []

  unfoldable pub list_loop :
      Option (KubeletConfiguration Q)
      → List (Sku F.Float)
      → List (InstanceType Q F S Price)
      → M W (List (InstanceType Q F S Price))
  unfolding create_offerings new_instance_type
  list_loop kc [] result w = (ok result, w)
  list_loop kc (sku ∷ skus) result w = continue (create_offerings p nought sku w) λ offerings v.
      continue (lift (new_instance_type Q F S sku kc p.region offerings) v)
        λ t. list_loop kc skus (append_offered result t t.offerings)

  -- `range` is the order in which the loop ranges over the map, which Go does not specify.
  unfoldable pub list :
      (range : Dict (Sku F.Float) → List (Sku F.Float))
      → Option (KubeletConfiguration Q)
      → M W (List (InstanceType Q F S Price))
  unfolding get_instance_types list_loop
  list range kc = do skus ← get_instance_types p; list_loop kc (range skus) []
