-- ===== src/Base/Substrings.antt =====
-- What the tests of package `strings` on parts of a text say of its bytes.
use gpu_provisioner.Base.{
  ◌≡◌, refl, ap, inl, inr, Bool-cases, Bool, true, false, ◌||◌, [], ◌∷◌, ◌++◌, arith,
}
use gpu_provisioner.Base.Text.{Bytes, same, same_iff, same_refl, has_prefix, has_suffix, contains}

true_or : (b : Bool) → (b || true) ≡ true
true_or true = refl
true_or false = refl

pub has_prefix-append : (p after : Bytes) → has_prefix (p ++ after) p ≡ true
unfolding has_prefix
has_prefix-append [] after = refl
has_prefix-append (b ∷ p) after = ground (arith, has_prefix-append p after)

pub has_prefix-split : (s p : Bytes) → has_prefix s p ≡ true → (after : Bytes) × (s ≡ p ++ after)
unfolding has_prefix
has_prefix-split s [] h = (s, refl)
has_prefix-split [] (b ∷ p) h = cc
has_prefix-split (a ∷ s) (b ∷ p) h =
    let same_byte : a ≡ b = ground (arith, h) in
    let (after, e) = has_prefix-split s p (ground (arith, h)) in (after, cc)

pub contains-append : (before p after : Bytes) → contains (before ++ (p ++ after)) p ≡ true
unfolding contains
contains-append [] p after = at_start (p ++ after) (has_prefix-append p after)
  where
    at_start : (s : Bytes) → has_prefix s p ≡ true → contains s p ≡ true
    at_start [] h = h
    at_start (a ∷ s) h = rw h refl
contains-append (b ∷ before) p after =
    rw (contains-append before p after) (true_or (has_prefix (b ∷ (before ++ (p ++ after))) p))

pub contains-split :
    (s p : Bytes)
    → contains s p ≡ true
    → (before : Bytes) × (after : Bytes) × (s ≡ before ++ (p ++ after))
unfolding contains
contains-split [] p h = let (after, e) = has_prefix-split [] p h in ([], after, e)
contains-split (a ∷ s) p h = elim (Bool-cases (has_prefix (a ∷ s) p)) [
  | inl e ↦ let (after, split) = has_prefix-split (a ∷ s) p e in ([], after, split)
  | inr e ↦
      let (before, after, split) = contains-split s p (rw e at h) in
      (a ∷ before, after, ap (λ (t : Bytes). a ∷ t) split)
]

pub has_suffix-append : (before p : Bytes) → has_suffix (before ++ p) p ≡ true
unfolding has_suffix
has_suffix-append [] p = whole p p (same_refl p)
  where
    whole : (s t : Bytes) → same s t ≡ true → has_suffix s t ≡ true
    whole [] t h = h
    whole (a ∷ s) t h = rw h refl
has_suffix-append (b ∷ before) p =
    rw (has_suffix-append before p) (true_or (same (b ∷ (before ++ p)) p))

pub has_suffix-split : (s p : Bytes) → has_suffix s p ≡ true → (before : Bytes) × (s ≡ before ++ p)
unfolding has_suffix
has_suffix-split [] p h = ([], (same_iff [] p).0 h)
has_suffix-split (a ∷ s) p h = elim (Bool-cases (same (a ∷ s) p)) [
  | inl e ↦ ([], (same_iff (a ∷ s) p).0 e)
  | inr e ↦
      let (before, split) = has_suffix-split s p (rw e at h) in
      (a ∷ before, ap (λ (t : Bytes). a ∷ t) split)
]
