-- ===== src/InstanceTypes/Listing/Names.antt =====
-- The names of the instance types that are listed.
use gpu_provisioner.Base.{
  ◌≡◌, ◌∙◌, inl, inr, refl, sym, ap, Bool, Bool-cases, true, false, Option, some, List, [], ◌∷◌,
  ◌++◌, append_assoc, append-nil, map, All, if◌then◌else◌,
}
use mathlib.Core.List.{Permᴰ}
use mathlib.Core.List.Permᴰ
use mathlib.Core.List.Permᴰ.{nil, cons, swap, trans}
use gpu_provisioner.Base.Text.{Bytes, same, same_iff}
use gpu_provisioner.Base.Dict.{Dict, has_key}
use gpu_provisioner.Base.Result.{Result, ok, deref, Ensures-ok}
use gpu_provisioner.Base.Effect.{continue, lift}
use gpu_provisioner.Offerings.{Cache, IsCache, key, is_unavailable, mark_unavailable}
use gpu_provisioner.InstanceTypes.Skus.{Sku, Quantities, Floats, Scheduling}
use gpu_provisioner.InstanceTypes.Reserved.{KubeletConfiguration}
use gpu_provisioner.InstanceTypes.Requirements.{Offering}
use gpu_provisioner.InstanceTypes.{InstanceType, new_instance_type}
use gpu_provisioner.InstanceTypes.Listing.{
  Provider, priority_regular, values, get_instance_types, offered, create_offerings, append_offered,
  list_loop, list,
}
use gpu_provisioner.InstanceTypes.Listing.Laws.{new_instance_type-IsTypeOf}

module _ {W Price Time : Type 0} {C : Cache W} (Q : Quantities) (F : Floats) (S : Scheduling)
    (nought : Price) (p : Provider Price Time F.Float C)
    (kc : Option (KubeletConfiguration Q)) where
  -- The size has its name, and its instance type can be computed from any offerings.
  abbrev pub IsBuildable : Sku F.Float → Type 0
  IsBuildable sku =
      (sku.name ≡ some sku.get_name)
      × ((offerings : List (Offering Price))
          → (t : InstanceType Q F S Price) × (new_instance_type Q F S sku kc p.region offerings
              ≡ ok t))

  -- The names of the sizes whose regular offering is not marked as unavailable.
  abbrev pub available_names : W → List (Sku F.Float) → List Bytes
  available_names w [] = []
  available_names w (sku ∷ skus) =
      let rest = available_names w skus in
      if is_unavailable C p.unavailable_offerings sku.get_name p.region priority_regular w
      then rest
      else sku.get_name ∷ rest

  abbrev pub names : List (InstanceType Q F S Price) → List Bytes
  names = map (λ t. t.name)

  names-append : (ts us : List (InstanceType Q F S Price)) → names (ts ++ us) ≡ names ts ++ names us
  names-append [] us = refl
  names-append (t ∷ ts) us = ap (λ (x : List Bytes). t.name ∷ x) (names-append ts us)

  abbrev behind_type :
      List (Sku F.Float)
      → List (InstanceType Q F S Price)
      → Result (InstanceType Q F S Price) × W
      → Result (List (InstanceType Q F S Price)) × W
  behind_type skus result x =
      continue x
        λ t. list_loop Q F S nought p kc skus (append_offered Q F S nought p result t t.offerings)

  turn :
      (sku : Sku F.Float) (skus : List (Sku F.Float)) (result : List (InstanceType Q F S Price))
      (t : InstanceType Q F S Price) (w : W)
      → sku.name ≡ some sku.get_name
      → new_instance_type Q F S sku kc p.region (offered p nought sku.get_name w) ≡ ok t
      → list_loop Q F S nought p kc (sku ∷ skus) result w
        ≡ list_loop Q F S nought p kc skus (append_offered Q F S nought p result t t.offerings) w
  unfolding list_loop create_offerings
  turn sku skus result t w named built =
      ap
        (λ (name : Option Bytes).
          continue (continue (lift (deref name) w) (λ n v. (ok (offered p nought n v), v)))
            (λ os v. behind_type skus result (lift (new_instance_type Q F S sku kc p.region os) v)))
        named
      ∙ ap (λ (r : Result (InstanceType Q F S Price)). behind_type skus result (r, w)) built

  names-append_offered :
      (result : List (InstanceType Q F S Price)) (t : InstanceType Q F S Price) (x : Offering Price)
      (rest : List Bytes) (b : Bool)
      → names (append_offered Q F S nought p result t (if b then [] else x ∷ [])) ++ rest
        ≡ names result ++ (if b then rest else t.name ∷ rest)
  names-append_offered result t x rest true = refl
  names-append_offered result t x rest false =
      ap (λ (ns : List Bytes). ns ++ rest) (names-append result (t ∷ []))
      ∙ append_assoc (names result) (t.name ∷ []) rest

  names-offered :
      (sku : Sku F.Float) (skus : List (Sku F.Float)) (result : List (InstanceType Q F S Price))
      (t : InstanceType Q F S Price) (w : W)
      → t.name ≡ sku.get_name
      → t.offerings ≡ offered p nought sku.get_name w
      → names (append_offered Q F S nought p result t t.offerings) ++ available_names w skus
        ≡ names result ++ available_names w (sku ∷ skus)
  unfolding offered
  names-offered sku skus result t w same_name same_offerings =
      let out = is_unavailable C p.unavailable_offerings sku.get_name p.region priority_regular w in
      let rest = available_names w skus in
      ap (λ (os : List (Offering Price)). names (append_offered Q F S nought p result t os) ++ rest)
        same_offerings
      ∙ names-append_offered result t _ rest out
      ∙ ap (λ (n : Bytes). names result ++ (if out then rest else n ∷ rest)) same_name

  -- The loop.
  names-list_loop :
      (skus : List (Sku F.Float)) (result : List (InstanceType Q F S Price)) (w : W)
      → All IsBuildable skus
      → (types : List (InstanceType Q F S Price)) × (list_loop Q F S nought p kc skus result w
          ≡ (ok types, w))
        × (names types ≡ names result ++ available_names w skus)
  names-list_loop [] result w h =
      (result, unfold list_loop in refl, sym (append-nil (names result)))
  names-list_loop (sku ∷ skus) result w ((named, build), h) =
      let (t, e) = build (offered p nought sku.get_name w) in
      let (same_name, same_offerings) = Ensures-ok (
        rw e at
          (new_instance_type-IsTypeOf Q F S sku kc p.region (offered p nought sku.get_name w))) in
      let (types, run, listed) =
        names-list_loop skus (append_offered Q F S nought p result t t.offerings) w h in
      (
        types,
        turn sku skus result t w named e ∙ run,
        listed ∙ names-offered sku skus result t w same_name same_offerings,
      )

  abbrev add_available : W → Sku F.Float → List Bytes → List Bytes
  add_available w sku rest =
      if is_unavailable C p.unavailable_offerings sku.get_name p.region priority_regular w
      then rest
      else sku.get_name ∷ rest

  add_available-Perm :
      (w : W) (a b : Sku F.Float) {ns ms : List Bytes}
      → a ≡ b
      → Permᴰ ns ms
      → Permᴰ (add_available w a ns) (add_available w b ms)
  add_available-Perm w a b e m =
      let same_name : a.get_name ≡ b.get_name = ap (λ (s : Sku F.Float). s.get_name) e in
      rw (← same_name)
        (elim (Bool-cases
          (is_unavailable C p.unavailable_offerings a.get_name p.region priority_regular w)) [
            | inl out ↦ rw out m
            | inr free ↦ rw free (cons refl m)
          ])

  add_available_swap :
      (w : W) (a b : Sku F.Float) (ns : List Bytes)
      → Permᴰ (add_available w a (add_available w b ns)) (add_available w b (add_available w a ns))
  add_available_swap w a b ns =
      elim (Bool-cases
        (is_unavailable C p.unavailable_offerings a.get_name p.region priority_regular w)) [
          | inl e ↦ rw e (Permᴰ.refl (add_available w b ns))
          | inr e ↦
              elim (Bool-cases
                (is_unavailable C p.unavailable_offerings b.get_name p.region priority_regular w)) [
                  | inl f ↦ rw (e, f) (Permᴰ.refl (a.get_name ∷ ns))
                  | inr f ↦ rw (e, f) (swap refl refl)
                ]
        ]

  available_names-Perm :
      (w : W) {skus others : List (Sku F.Float)}
      → Permᴰ skus others
      → Permᴰ (available_names w skus) (available_names w others)
  available_names-Perm w nil = nil
  available_names-Perm w (cons {a} {b} e m) = add_available-Perm w a b e (available_names-Perm w m)
  available_names-Perm w (swap {a} {b} {a'} {b'} {l} e f) =
      trans (add_available_swap w a b (available_names w l)) (
        add_available-Perm w b a' f
          (add_available-Perm w a b' e (Permᴰ.refl (available_names w l))))
  available_names-Perm w (trans m n) = trans (available_names-Perm w m) (available_names-Perm w n)

  All-Perm :
      {skus others : List (Sku F.Float)}
      → Permᴰ skus others
      → All IsBuildable skus
      → All IsBuildable others
  All-Perm nil h = h
  All-Perm (cons e m) (x, h) = (rw e at x, All-Perm m h)
  All-Perm (swap e f) (x, (y, h)) = (rw f at y, (rw e at x, h))
  All-Perm (trans m n) h = All-Perm n (All-Perm m h)

  -- The loop meets each value of the map once, in some order.
  abbrev pub IsRange : (Dict (Sku F.Float) → List (Sku F.Float)) → Type 0
  IsRange range = (types : Dict (Sku F.Float)) → Permᴰ (values types) (range types)

  module _ (range : Dict (Sku F.Float) → List (Sku F.Float)) (some_order : IsRange range) where
    listed_names :
        (types : Dict (Sku F.Float)) (w v : W)
        → get_instance_types p w ≡ (ok types, v)
        → All IsBuildable (values types)
        → (listed : List (InstanceType Q F S Price)) × (list Q F S nought p range kc w
            ≡ (ok listed, v))
          × (names listed ≡ available_names v (range types))
    unfolding list
    listed_names types w v read h =
        let (listed, run, same_names) =
          names-list_loop (range types) [] v (All-Perm (some_order types) h) in
        (
          listed,
          ap
                (λ (x : Result (Dict (Sku F.Float)) × W).
                  continue x (λ skus. list_loop Q F S nought p kc (range skus) []))
                read
              ∙ run,
          same_names,
        )

    -- If the sizes were read, each of them is buildable, and the loop meets each of them once in any order,
    -- `List` succeeds, and the names of its instance types are, in some order, those of the sizes whose
    -- regular offering is not marked as unavailable in the region.
    pub names-list :
        (types : Dict (Sku F.Float)) (w v : W)
        → get_instance_types p w ≡ (ok types, v)
        → All IsBuildable (values types)
        → (listed : List (InstanceType Q F S Price)) × (list Q F S nought p range kc w
            ≡ (ok listed, v))
          × Permᴰ (available_names v (values types)) (names listed)
    names-list types w v read h =
        let (listed, run, same_names) = listed_names types w v read h in
        (listed, run, rw same_names (available_names-Perm v (some_order types)))

  has_key-available_names :
      (name : Bytes) (w : W) (skus : List (Sku F.Float))
      → is_unavailable C p.unavailable_offerings name p.region priority_regular w ≡ true
      → has_key name (available_names w skus) ≡ false
  unfolding has_key
  has_key-available_names name w [] out = refl
  has_key-available_names name w (sku ∷ skus) out = elim (Bool-cases (is_out sku.get_name)) [
    | inl e ↦ rw e (has_key-available_names name w skus out)
    | inr e ↦
        rw e
          (other sku.get_name (available_names w skus) e (has_key-available_names name w skus out))
  ]
    where
      is_out : Bytes → Bool
      is_out n = is_unavailable C p.unavailable_offerings n p.region priority_regular w

      other :
          (n : Bytes) (ns : List Bytes)
          → is_out n ≡ false
          → has_key name ns ≡ false
          → has_key name (n ∷ ns) ≡ false
      other n ns e h = elim (Bool-cases (same n name)) [
        | inl eq ↦ let s : n ≡ name = (same_iff n name).0 eq in cc
        | inr ne ↦ rw (ne, h)
      ]

  marked :
      (laws : IsCache C) (reason name : Bytes) (w : W)
      → is_unavailable C p.unavailable_offerings name p.region priority_regular
          (mark_unavailable C p.unavailable_offerings reason name p.region priority_regular w)
        ≡ true
  unfolding is_unavailable mark_unavailable
  marked laws reason name w =
      laws.found_set p.unavailable_offerings.cache (key name p.region priority_regular) w

  -- After an offering was marked as unavailable in the region of the provider, and with a cache as
  -- documented that still holds the sizes, `List` leaves its instance type out, in whatever order the
  -- loop meets the sizes.
  pub list-mark_unavailable :
      (range : Dict (Sku F.Float) → List (Sku F.Float)) (some_order : IsRange range)
      (laws : IsCache C) (types : Dict (Sku F.Float)) (reason name : Bytes) (w : W)
      → let v =
          mark_unavailable C p.unavailable_offerings reason name p.region priority_regular w in
        get_instance_types p v ≡ (ok types, v)
        → All IsBuildable (values types)
        → (listed : List (InstanceType Q F S Price)) × (list Q F S nought p range kc v
            ≡ (ok listed, v))
          × (has_key name (names listed) ≡ false)
  list-mark_unavailable range some_order laws types reason name w read h =
      let v = mark_unavailable C p.unavailable_offerings reason name p.region priority_regular w in
      let (listed, run, same_names) = listed_names range some_order types v v read h in
      (
        listed,
        run,
        ap (has_key name) same_names
            ∙ has_key-available_names name v (range types) (marked laws reason name w),
      )
