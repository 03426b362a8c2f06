-- ===== src/Base/Sort.antt =====
-- Package `sort` on strings: their order, and `sort.Strings`. The ascending order of a list is unique, so
-- that insertion gives what Go's algorithm gives.
use gpu_provisioner.Base.{
  ◌≡◌, ◌∙◌, ◌||◌, inl, inr, refl, ap, Bool, Bool-cases, true, false, List, [], ◌∷◌, All, ltb, ◌==◌,
  arith, if◌then◌else◌,
}
use gpu_provisioner.Base.Text.{Bytes, same}
use gpu_provisioner.Base.Dict.{has_key}

-- s < t
unfoldable pub before : Bytes → Bytes → Bool
before s [] = false
before [] (b ∷ t) = true
before (a ∷ s) (b ∷ t) =
    let rest = before s t in if ltb a b then true else if a == b then rest else false

unfoldable pub insert_sorted : Bytes → List Bytes → List Bytes
insert_sorted x [] = x ∷ []
insert_sorted x (y ∷ ys) =
    let rest = insert_sorted x ys in if before y x then y ∷ rest else x ∷ y ∷ ys

-- sort.Strings
unfoldable pub sort_strings : List Bytes → List Bytes
unfolding insert_sorted before
sort_strings [] = []
sort_strings (x ∷ xs) = insert_sorted x (sort_strings xs)

before_trans : (s t u : Bytes) → before s t ≡ true → before t u ≡ true → before s u ≡ true
unfolding before
before_trans s t [] h k = cc
before_trans [] t (c ∷ u) h k = refl
before_trans (a ∷ s) [] (c ∷ u) h k = cc
before_trans (a ∷ s) (b ∷ t) (c ∷ u) h k = ground (arith, before_trans s t u)

-- One of two different texts is before the other.
before_total : (s t : Bytes) → before s t ≡ false → same s t ≡ false → before t s ≡ true
unfolding before same
before_total [] [] h k = cc
before_total (a ∷ s) [] h k = refl
before_total [] (b ∷ t) h k = cc
before_total (a ∷ s) (b ∷ t) h k = ground (arith, before_total s t)

before_asymm : (s t : Bytes) → before s t ≡ true → before t s ≡ false
unfolding before
before_asymm s [] h = cc
before_asymm [] (b ∷ t) h = refl
before_asymm (a ∷ s) (b ∷ t) h = ground (arith, before_asymm s t)

abbrev pub IsBefore : Bytes → List Bytes → Type 0
IsBefore x = All (λ y. before x y ≡ true)

-- Every text is before all later ones; so no two are the same.
abbrev pub IsAscending : List Bytes → Type 0
IsAscending [] = Unit
IsAscending (x ∷ xs) = IsBefore x xs × IsAscending xs

abbrev pub IsDistinct : List Bytes → Type 0
IsDistinct [] = Unit
IsDistinct (x ∷ xs) = (has_key x xs ≡ false) × IsDistinct xs

IsBefore-trans : (x y : Bytes) (ys : List Bytes) → before x y ≡ true → IsBefore y ys → IsBefore x ys
IsBefore-trans x y [] h k = tt
IsBefore-trans x y (z ∷ zs) h (k, ks) = (before_trans x y z h k, IsBefore-trans x y zs h ks)

insert_sorted-IsBefore :
    (x y : Bytes) (ys : List Bytes)
    → before x y ≡ true
    → IsBefore x ys
    → IsBefore x (insert_sorted y ys)
unfolding insert_sorted
insert_sorted-IsBefore x y [] h k = (h, tt)
insert_sorted-IsBefore x y (z ∷ zs) h (k, ks) = elim (Bool-cases (before z y)) [
  | inl e ↦ rw e (k, insert_sorted-IsBefore x y zs h ks)
  | inr e ↦ rw e (h, (k, ks))
]

insert_sorted-IsAscending :
    (x : Bytes) (ys : List Bytes)
    → has_key x ys ≡ false
    → IsAscending ys
    → IsAscending (insert_sorted x ys)
unfolding insert_sorted has_key
insert_sorted-IsAscending x [] h k = (tt, tt)
insert_sorted-IsAscending x (y ∷ ys) h (k, ks) = elim (Bool-cases (before y x)) [
  | inl e ↦
      rw e (insert_sorted-IsBefore y x ys e k, insert_sorted-IsAscending x ys (ground arith) ks)
  | inr e ↦
      let first : before x y ≡ true = before_total y x e (ground arith) in
      rw e ((first, IsBefore-trans x y ys first k), (k, ks))
]

pub has_key-insert_sorted :
    (k x : Bytes) (ys : List Bytes) → has_key k (insert_sorted x ys) ≡ (same x k || has_key k ys)
unfolding has_key insert_sorted
has_key-insert_sorted k x [] = refl
has_key-insert_sorted k x (y ∷ ys) = ground (arith, has_key-insert_sorted k x ys)

-- The same texts are in the list.
pub has_key-sort_strings :
    (k : Bytes) (xs : List Bytes) → has_key k (sort_strings xs) ≡ has_key k xs
unfolding has_key sort_strings
has_key-sort_strings k [] = refl
has_key-sort_strings k (x ∷ xs) =
    has_key-insert_sorted k x (sort_strings xs)
    ∙ ap (λ (b : Bool). same x k || b) (has_key-sort_strings k xs)

pub sort_strings-IsAscending : (xs : List Bytes) → IsDistinct xs → IsAscending (sort_strings xs)
unfolding sort_strings
sort_strings-IsAscending [] h = tt
sort_strings-IsAscending (x ∷ xs) (h, hs) =
    insert_sorted-IsAscending x (sort_strings xs) (has_key-sort_strings x xs ∙ h)
      (sort_strings-IsAscending xs hs)

insert_sorted-first : (x : Bytes) (ys : List Bytes) → IsBefore x ys → insert_sorted x ys ≡ x ∷ ys
unfolding insert_sorted
insert_sorted-first x [] h = refl
insert_sorted-first x (y ∷ ys) (h, hs) = rw (before_asymm x y h) refl

-- An ascending list stays as it is.
pub sort_strings-ascending : (xs : List Bytes) → IsAscending xs → sort_strings xs ≡ xs
unfolding sort_strings
sort_strings-ascending [] h = refl
sort_strings-ascending (x ∷ xs) (h, hs) =
    ap (insert_sorted x) (sort_strings-ascending xs hs) ∙ insert_sorted-first x xs h
