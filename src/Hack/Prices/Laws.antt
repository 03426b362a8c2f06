-- ===== src/Hack/Prices/Laws.antt =====
-- The text for a region has its prices, in the order of the sizes.
use gpu_provisioner.Base.{
  ◌≡◌, ◌∙◌, ◌||◌, inl, inr, refl, sym, ap, Bool, Bool-cases, true, false, Option, Option-cases,
  none, some, List, [], ◌∷◌, ◌++◌, if◌then◌else◌,
}
use gpu_provisioner.Base.Text.{Bytes, codes, same, same_iff}
use gpu_provisioner.Base.Dict.{Dict, has_key, lookup, keys, has_key-keys}
use gpu_provisioner.Base.Sort.{
  IsBefore, IsAscending, IsDistinct, sort_strings, has_key-sort_strings, sort_strings-IsAscending,
  sort_strings-ascending,
}
use gpu_provisioner.Pricing.{Provider, instance_types, on_demand_price}
use gpu_provisioner.Hack.Prices.{
  Verbs, price_line, price_lines, region_heading, region_end, write_pricing,
}

-- A key of a map is listed once.
keys-IsDistinct : {V : Type 0} (m : Dict V) → IsDistinct (keys m)
unfolding keys
keys-IsDistinct [] = tt
keys-IsDistinct ((k, v) ∷ m) = elim (Bool-cases (has_key k (keys m))) [
  | inl e ↦ rw e (keys-IsDistinct m)
  | inr e ↦ rw e (e, keys-IsDistinct m)
]

both_none : {A : Type 0} (b : Bool) → (if b then none else none) ≡ (let x : Option A = none in x)
both_none true = refl
both_none false = refl

module _ {Price : Type 0} where
  abbrev pub names_of : Dict Price → List Bytes
  names_of [] = []
  names_of ((name, price) ∷ prices) = name ∷ names_of prices

  -- the prices of the names that have one
  abbrev with_price : Bytes → Option Price → Dict Price → Dict Price
  with_price name none prices = prices
  with_price name (some price) prices = (name, price) ∷ prices

  priced : List Bytes → (Bytes → Option Price) → Dict Price
  priced [] get_price = []
  priced (name ∷ names) get_price = with_price name (get_price name) (priced names get_price)

  lookup-priced :
      (k : Bytes) (names : List Bytes) (get_price : Bytes → Option Price)
      → lookup k (priced names get_price) ≡ (if has_key k names then get_price k else none)
  unfolding priced has_key lookup
  lookup-priced k [] get_price = refl
  lookup-priced k (name ∷ names) get_price =
      by_price (get_price name) refl (lookup-priced k names get_price)
    where
      there :
          (o : Option Price)
          → same name k ≡ false
          → lookup k (with_price name o (priced names get_price))
            ≡ lookup k (priced names get_price)
      there none other = refl
      there (some price) other = rw other refl

      here :
          (o : Option Price)
          → same name k ≡ true
          → get_price k ≡ o
          → lookup k (priced names get_price) ≡ (if has_key k names then get_price k else none)
          → lookup k (with_price name o (priced names get_price))
            ≡ (if same name k || has_key k names then get_price k else none)
      here none same_name known ih = ih ∙ rw (same_name, known) (both_none (has_key k names))
      here (some price) same_name known ih = rw same_name (sym known)

      by_price :
          (o : Option Price)
          → get_price name ≡ o
          → lookup k (priced names get_price) ≡ (if has_key k names then get_price k else none)
          → lookup k (with_price name o (priced names get_price))
            ≡ (if same name k || has_key k names then get_price k else none)
      by_price o e ih = elim (Bool-cases (same name k)) [
        | inl same_name ↦
            let s : name ≡ k = (same_iff name k).0 same_name in
            let known : get_price k ≡ o = ap get_price (sym s) ∙ e in here o same_name known ih
        | inr other ↦ rw other (there o other ∙ ih)
      ]

  IsBefore-priced :
      (x : Bytes) (names : List Bytes) (get_price : Bytes → Option Price)
      → IsBefore x names
      → IsBefore x (names_of (priced names get_price))
  unfolding priced
  IsBefore-priced x [] get_price h = tt
  IsBefore-priced x (name ∷ names) get_price (h, hs) =
      by_price (get_price name) (IsBefore-priced x names get_price hs)
    where
      by_price :
          (o : Option Price)
          → IsBefore x (names_of (priced names get_price))
          → IsBefore x (names_of (with_price name o (priced names get_price)))
      by_price none k = k
      by_price (some price) k = (h, k)

  priced-IsAscending :
      (names : List Bytes) (get_price : Bytes → Option Price)
      → IsAscending names
      → IsAscending (names_of (priced names get_price))
  unfolding priced
  priced-IsAscending [] get_price h = tt
  priced-IsAscending (name ∷ names) get_price (h, hs) =
      by_price (get_price name) (IsBefore-priced name names get_price h)
        (priced-IsAscending names get_price hs)
    where
      by_price :
          (o : Option Price)
          → IsBefore name (names_of (priced names get_price))
          → IsAscending (names_of (priced names get_price))
          → IsAscending (names_of (with_price name o (priced names get_price)))
      by_price none k ks = ks
      by_price (some price) k ks = (k, ks)

module _ {Price : Type 0} (F : Verbs Price) where
  -- The text of prices, one line for each: the name in quotes, a colon, the price, a comma and a blank.
  abbrev pub text_of : Dict Price → Bytes
  text_of [] = []
  text_of ((name, price) ∷ prices) =
      (34 ∷ name ++ (34 ∷ 58 ∷ F.fixed price ++ (44 ∷ 32 ∷ 10 ∷ []))) ++ text_of prices

  price_lines-priced :
      (names : List Bytes) (get_price : Bytes → Option Price)
      → price_lines F names get_price ≡ text_of (priced names get_price)
  unfolding price_lines priced price_line codes
  price_lines-priced [] get_price = refl
  price_lines-priced (name ∷ names) get_price =
      ap (λ (s : Bytes). price_line F name (get_price name) ++ s)
        (price_lines-priced names get_price)
      ∙ by_price (get_price name)
    where
      by_price :
          (o : Option Price)
          → price_line F name o ++ text_of (priced names get_price)
            ≡ text_of (with_price name o (priced names get_price))
      by_price none = refl
      by_price (some price) = refl

  if_listed :
      (k : Bytes) (m : Dict Price) → (if has_key k (keys m) then lookup k m else none) ≡ lookup k m
  if_listed k m = elim (Option-cases (lookup k m)) [
    | inl e ↦ rw e (both_none (has_key k (keys m)))
    | inr (v, e) ↦ rw ((has_key-keys Price k m).1 (v, e)) refl
  ]

  -- What the generator writes for a region is the text of the prices of its provider: of every size that
  -- has a price, with that price, and of no other, each once and in ascending order of the names.
  pub write_pricing-instance_types :
      {Time : Type 0} (region : Bytes) (p : Provider Price Time)
      → (prices : Dict Price) × (write_pricing F
            (sort_strings (instance_types p))
            region
            (on_demand_price p)
          ≡ region_heading F region ++ (text_of prices ++ region_end F))
        × IsAscending (names_of prices)
        × ((k : Bytes) → lookup k prices ≡ on_demand_price p k)
  unfolding write_pricing instance_types on_demand_price
  write_pricing-instance_types region p =
      let names = sort_strings (instance_types p) in
      let ascending =
        sort_strings-IsAscending (keys p.on_demand_prices) (keys-IsDistinct p.on_demand_prices) in
      (
        priced names (on_demand_price p),
        ap
              (λ (ns : List Bytes).
                region_heading F region ++ (price_lines F ns (on_demand_price p) ++ region_end F))
              (sort_strings-ascending names ascending)
            ∙ ap (λ (s : Bytes). region_heading F region ++ (s ++ region_end F))
                (price_lines-priced names (on_demand_price p)),
        priced-IsAscending names (on_demand_price p) ascending,
        λ k.
            lookup-priced k names (on_demand_price p)
            ∙ ap (λ (b : Bool). if b then on_demand_price p k else none)
                (has_key-sort_strings k (instance_types p))
            ∙ if_listed k p.on_demand_prices,
      )
