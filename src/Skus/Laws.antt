-- ===== src/Skus/Laws.antt =====
-- Which virtual machine sizes `IsNvidiaEnabledSKU` accepts.
use gpu_provisioner.Base.{
  ℕ, String, ◌≡◌, ◌↔◌, ◌⊎◌, inl, inr, refl, sym, ap, Bool, false≢true, length, length-append,
  Bool-cases, true, false, ◌&&◌, List, [], ◌∷◌, ◌++◌, ◌||◌, arith,
}
use gpu_provisioner.Base.Text.{Bytes, codes, same, same_iff, same_refl, to_lower, trim_suffix}
use gpu_provisioner.Skus.{
  nvidia_enabled_skus, mariner_nvidia_enabled_skus, is_listed, is_nvidia_enabled_sku,
}

-- The text is the name of a size of the list.
abbrev pub IsOneOf : List String → Bytes → Type 0
IsOneOf [] k = ⊥
IsOneOf (sku ∷ skus) k = (codes sku ≡ k) ⊎ IsOneOf skus k

is_listed_iff : (k : Bytes) (skus : List String) → (is_listed k skus ≡ true) ↔ IsOneOf skus k
unfolding is_listed
is_listed_iff k [] = (λ h. cc, λ h. absurd h)
is_listed_iff k (sku ∷ skus) =
    either (same (codes sku) k) (same_iff (codes sku) k) (is_listed_iff k skus)
  where
    either :
        (b : Bool)
        → (b ≡ true) ↔ (codes sku ≡ k)
        → (is_listed k skus ≡ true) ↔ IsOneOf skus k
        → ((b || is_listed k skus) ≡ true) ↔ ((codes sku ≡ k) ⊎ IsOneOf skus k)
    either true e h = (λ _. inl (e.0 refl), λ _. refl)
    either false e h =
        (λ p. inr (h.0 p), elim [ inl q ↦ absurd (false≢true (e.1 q)) | inr q ↦ h.1 q ])

trim-append : (t : Bytes) (b : ℕ) (q : Bytes) → trim_suffix (t ++ b ∷ q) (b ∷ q) ≡ t
unfolding trim_suffix
trim-append [] b q = rw (same_refl (b ∷ q))
trim-append (a ∷ t) b q = elim (Bool-cases (same (a ∷ (t ++ b ∷ q)) (b ∷ q))) [
  | inl e ↦
      let h = ap length ((same_iff (a ∷ (t ++ b ∷ q)) (b ∷ q)).0 e) in
      absurd (omega (arith, h, length-append t (b ∷ q)))
  | inr e ↦ rw (e, trim-append t b q)
]

trim-cases : (s p : Bytes) → (s ≡ trim_suffix s p ++ p) ⊎ (trim_suffix s p ≡ s)
unfolding trim_suffix
trim-cases [] p = inr refl
trim-cases (a ∷ s) p = elim (Bool-cases (same (a ∷ s) p)) [
  | inl e ↦ inl (rw e ((same_iff (a ∷ s) p).0 e))
  | inr e ↦ rw e (further (trim-cases s p))
]
  where
    further :
        (s ≡ trim_suffix s p ++ p) ⊎ (trim_suffix s p ≡ s)
        → ((a ∷ s) ≡ (a ∷ trim_suffix s p) ++ p) ⊎ ((a ∷ trim_suffix s p) ≡ (a ∷ s))
    further (inl h) = inl (ap (λ (x : Bytes). a ∷ x) h)
    further (inr h) = inr (ap (λ (x : Bytes). a ∷ x) h)

-- No name of the list ends in the suffix.
abbrev pub plain : List String → Bytes → Bool
plain [] p = true
plain (sku ∷ skus) p = same (trim_suffix (codes sku) p) (codes sku) && plain skus p

trim-IsOneOf :
    (skus : List String) (p k : Bytes) → plain skus p ≡ true → IsOneOf skus k → trim_suffix k p ≡ k
trim-IsOneOf [] p k h m = absurd m
trim-IsOneOf (sku ∷ skus) p k h (inl e) =
    rw (sym e) ((same_iff (trim_suffix (codes sku) p) (codes sku)).0 (ground arith))
trim-IsOneOf (sku ∷ skus) p k h (inr m) = trim-IsOneOf skus p k (ground arith) m

abbrev pub promo : Bytes
promo = codes "_promo"

plain-skus : plain nvidia_enabled_skus promo ≡ true
unfolding same codes trim_suffix
plain-skus = refl

-- A size is accepted exactly where it is, in lower case, a name of the table, or one followed by `_promo`.
pub is_nvidia_enabled_sku_iff :
    (vm_size : Bytes)
    → (is_nvidia_enabled_sku vm_size ≡ true) ↔ (
        (name : Bytes) × IsOneOf nvidia_enabled_skus name
        × ((to_lower vm_size ≡ name) ⊎ (to_lower vm_size ≡ name ++ promo)))
unfolding is_nvidia_enabled_sku
is_nvidia_enabled_sku_iff vm_size =
    let s = to_lower vm_size in
    let known = is_listed_iff (trim_suffix s promo) nvidia_enabled_skus in
    (
      λ h. elim (trim-cases s promo) [
        | inl e ↦ (trim_suffix s promo, known.0 h, inr e)
        | inr e ↦ (trim_suffix s promo, known.0 h, inl (sym e))
      ],
      λ (name, m, e). known.1 (trimmed s name m e),
    )
  where
    trimmed :
        (s name : Bytes)
        → IsOneOf nvidia_enabled_skus name
        → (s ≡ name) ⊎ (s ≡ name ++ promo)
        → IsOneOf nvidia_enabled_skus (trim_suffix s promo)
    trimmed s name m (inl e) = rw (e, trim-IsOneOf nvidia_enabled_skus promo name plain-skus m) m
    trimmed s name m (inr e) = rw e (unfold codes in rw (trim-append name b'_' (codes "promo")) m)

abbrev all_enabled : List String → Bool
all_enabled [] = true
all_enabled (sku ∷ skus) = is_nvidia_enabled_sku (codes sku) && all_enabled skus

mariner_enabled : all_enabled mariner_nvidia_enabled_skus ≡ true
unfolding is_nvidia_enabled_sku codes
mariner_enabled = refl

enabled-IsOneOf :
    (skus : List String) (k : Bytes)
    → all_enabled skus ≡ true
    → IsOneOf skus k
    → is_nvidia_enabled_sku k ≡ true
enabled-IsOneOf [] k h m = absurd m
enabled-IsOneOf (sku ∷ skus) k h (inl e) = rw (sym e) (ground arith)
enabled-IsOneOf (sku ∷ skus) k h (inr m) = enabled-IsOneOf skus k (ground arith) m

-- Every size that is listed for Mariner has support for the driver.
mariner-is_listed :
    (k : Bytes) → is_listed k mariner_nvidia_enabled_skus ≡ true → is_nvidia_enabled_sku k ≡ true
mariner-is_listed k h =
    enabled-IsOneOf mariner_nvidia_enabled_skus k mariner_enabled
      ((is_listed_iff k mariner_nvidia_enabled_skus).0 h)
