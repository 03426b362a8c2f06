-- ===== src/InstanceTypes/Listing/Laws.antt =====
-- Which instance types are listed, and what the cache of the sizes changes.
use gpu_provisioner.Base.{
  ◌≡◌, ◌∙◌, inl, inr, refl, sym, ap, Option-cases, Option, none, some, List, [], ◌∷◌, if◌then◌else◌,
  arith,
}
use gpu_provisioner.Base.Text.{Bytes, same}
use gpu_provisioner.Base.Dict.{Dict, lookup, insert, or_else}
use gpu_provisioner.Base.Result.{
  Result, ok, err, panic, out_of_fuel, fetching_skus, Ensures, returned, Ensures-bind,
}
use gpu_provisioner.Base.Effect.{continue, in_context}
use gpu_provisioner.Offerings.{Cache}
use gpu_provisioner.InstanceTypes.Skus.{Sku, Quantities, Floats, Scheduling}
use gpu_provisioner.InstanceTypes.Reserved.{
  KubeletConfiguration, cpu, memory, pods, compute_capacity, kube_reserved_resources,
  system_reserved_resources, eviction_threshold,
}
use gpu_provisioner.InstanceTypes.Requirements.{Offering, compute_requirements}
use gpu_provisioner.InstanceTypes.{InstanceType, new_instance_type}
use gpu_provisioner.InstanceTypes.Listing.{
  Provider, ValueCache, instance_types_cache_key, collect_skus, filter_sku, keep_skus,
  fetch_instance_types, get_instance_types,
}

-- The documented behaviour of the cache within one moment.
pub record IsValueCache {W V : Type 0} (C : ValueCache W V) : Type 0 where
  pub get_set : (k : Bytes) (v : V) (w : W) → C.get k (C.set_default k v w) ≡ some v

or_none : {A : Type 0} (o : Option A) → or_else o none ≡ o
or_none none = refl
or_none (some x) = refl

module _ {Float : Type 0} where
  -- The last size of that name.
  abbrev pub last_named : Bytes → List (Sku Float) → Option (Sku Float)
  last_named k [] = none
  last_named k (sku ∷ skus) =
      or_else (last_named k skus) (if same sku.get_name k then some sku else none)

  pub lookup-collect_skus :
      (k : Bytes) (skus : List (Sku Float)) (types : Dict (Sku Float))
      → lookup k (collect_skus skus types) ≡ or_else (last_named k skus) (lookup k types)
  unfolding collect_skus
  lookup-collect_skus k [] types = refl
  lookup-collect_skus k (sku ∷ skus) types =
      lookup-collect_skus k skus (if filter_sku sku then insert sku.get_name sku types else types)
      ∙ unfold filter_sku insert lookup in ground arith

module _ {W Price Time Float : Type 0} {C : Cache W} (p : Provider Price Time Float C) where
  kept :
      (laws : IsValueCache p.cache) (skus : List (Sku Float)) (types : Dict (Sku Float)) (w v : W)
      → keep_skus p skus w ≡ (ok types, v)
      → p.cache.get instance_types_cache_key v ≡ some types
  unfolding keep_skus
  kept laws skus types w v h = cc (laws.get_set instance_types_cache_key (collect_skus skus []) w)

  fetched :
      (laws : IsValueCache p.cache) (types : Dict (Sku Float)) (w v : W)
      → fetch_instance_types p w ≡ (ok types, v)
      → p.cache.get instance_types_cache_key v ≡ some types
  unfolding fetch_instance_types
  fetched laws types w v h = by_answer (in_context fetching_skus (p.skewer.new_cache p.region) w) h
    where
      by_answer :
          (x : Result p.skewer.SkuCache × W)
          → continue x (λ cache. keep_skus p (p.skewer.list_virtual_machines cache)) ≡ (ok types, v)
          → p.cache.get instance_types_cache_key v ≡ some types
      by_answer (ok cache, u) k = kept laws (p.skewer.list_virtual_machines cache) types u v k
      by_answer (err e, u) k = cc
      by_answer (panic, u) k = cc
      by_answer (out_of_fuel, u) k = cc

  hit :
      (types : Dict (Sku Float)) (w : W)
      → p.cache.get instance_types_cache_key w ≡ some types
      → get_instance_types p w ≡ (ok types, w)
  unfolding get_instance_types
  hit types w e = rw (e, get_instance_types)

  missed :
      (w : W)
      → p.cache.get instance_types_cache_key w ≡ none
      → get_instance_types p w ≡ fetch_instance_types p w
  unfolding get_instance_types
  missed w e = rw (e, get_instance_types)

  -- Once the sizes were read, and as long as the cache keeps them as documented, the next call returns
  -- the same sizes and calls no service: the world is what it was.
  pub get_instance_types_again :
      (laws : IsValueCache p.cache) (types : Dict (Sku Float)) (w v : W)
      → get_instance_types p w ≡ (ok types, v)
      → get_instance_types p v ≡ (ok types, v)
  get_instance_types_again laws types w v h =
      elim (Option-cases (p.cache.get instance_types_cache_key w)) [
        | inl e ↦ hit types v (fetched laws types w v (sym (missed w e) ∙ h))
        | inr (old, e) ↦
            let same_world : ◌≡◌ {A = Result (Dict (Sku Float)) × W} (ok old, w) (ok types, v) =
              sym (hit old w e) ∙ h in
            hit types v (cc)
      ]

  -- What a fetch returns: under each name the last size of that name that the service lists.
  lookup-fetch_instance_types :
      (cache : p.skewer.SkuCache) (w u : W)
      → p.skewer.new_cache p.region w ≡ (ok cache, u)
      → (types : Dict (Sku Float)) × (v : W) × (fetch_instance_types p w ≡ (ok types, v))
        × ((k : Bytes) → lookup k types ≡ last_named k (p.skewer.list_virtual_machines cache))
  unfolding fetch_instance_types keep_skus lookup
  lookup-fetch_instance_types cache w u e =
      let skus = p.skewer.list_virtual_machines cache in
      (
        collect_skus skus [],
        p.cache.set_default instance_types_cache_key (collect_skus skus []) u,
        ap
            (λ (x : Result p.skewer.SkuCache × W).
              continue (in_context fetching_skus (λ (_ : W). x) w)
                (λ c. keep_skus p (p.skewer.list_virtual_machines c)))
            e,
        λ k. lookup-collect_skus k skus [] ∙ or_none (last_named k skus),
      )

module _ {Price : Type 0} (Q : Quantities) (F : Floats) (S : Scheduling) (sku : Sku F.Float)
    (kc : Option (KubeletConfiguration Q)) (region : Bytes)
    (offerings : List (Offering Price)) where
  abbrev pub IsTypeOf : InstanceType Q F S Price → Type 0
  IsTypeOf t = (t.name ≡ sku.get_name) × (t.offerings ≡ offerings)

  pub new_instance_type-IsTypeOf :
      Ensures IsTypeOf (new_instance_type Q F S sku kc region offerings)
  unfolding new_instance_type
  new_instance_type-IsTypeOf = Ensures-bind (compute_requirements Q F S sku offerings region) _ λ _.
      Ensures-bind (compute_capacity Q F sku kc) _ λ _. Ensures-bind (cpu Q F sku) _ λ cpus.
        Ensures-bind (pods Q F sku kc) _ λ pod_count.
          Ensures-bind (kube_reserved_resources Q F cpus pod_count kc) _ λ _.
            Ensures-bind (system_reserved_resources Q kc) _ λ _.
              Ensures-bind (memory Q F sku) _ λ available.
                Ensures-bind (eviction_threshold Q F available kc) _ λ _. returned (refl, refl)
