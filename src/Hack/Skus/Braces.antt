-- ===== src/Hack/Skus/Braces.antt =====
-- Braces of a text: how many are opened and not closed in it, and closed and not opened.
use gpu_provisioner.Base.{
  ℕ, zero, suc, ◌+◌, ◌/◌, ◌%◌, ◌==◌, ◌≤◌, ltb, ◌≡◌, refl, inl, inr, Bool-cases, Option, none, some,
  List, [], ◌∷◌, ◌++◌, arith, length, if◌then◌else◌,
}
use gpu_provisioner.Base.Text.{Bytes}
use gpu_provisioner.Base.Int.{ℤ, pos, negsuc, digits, sprint}
use gpu_provisioner.Base.Result.{
  Result, ok, err, panic, out_of_fuel, from_ptr, Ensures, returned, raised, panicked, exhausted,
  ◌>>=◌,
}
use gpu_provisioner.Hack.Skus.{concat, each, line_end}

-- how often a byte stands in a text
unfoldable pub count : ℕ → Bytes → ℕ
count b [] = 0
count b (c ∷ s) = (if c == b then 1 else 0) + count b s

count-append : (b : ℕ) (s t : Bytes) → count b (s ++ t) ≡ count b s + count b t
unfolding count
count-append b [] t = omega arith
count-append b (c ∷ s) t = omega (arith, count-append b s t)

-- `{` is 123 and `}` is 125.
pub record HasExcess (opened closed : ℕ) (s : Bytes) : Type 0 where
  pub braces : count 123 s + closed ≡ count 125 s + opened

abbrev pub IsEven : Bytes → Type 0
IsEven = HasExcess 0 0

pub excess : {a b c d : ℕ} {s : Bytes} → HasExcess a b s → a + d ≡ c + b → HasExcess c d s
excess h e = record { braces = omega (arith, h.braces, e) }

pub HasExcess-append :
    {a b c d : ℕ} {s t : Bytes}
    → HasExcess a b s
    → HasExcess c d t
    → HasExcess (a + c) (b + d) (s ++ t)
HasExcess-append {s = s} {t} h k = record {
  braces = omega (arith, h.braces, k.braces, count-append 123 s t, count-append 125 s t);
}

infixr 5 ◌⊕◌
-- The parts of a text, one after the other.
pub data HaveExcess : ℕ → ℕ → List Bytes → Type 0 where
  last : HaveExcess 0 0 []
  ◌⊕◌ :
      {a b c d : ℕ} {s : Bytes} {ss : List Bytes}
      → HasExcess a b s
      → HaveExcess c d ss
      → HaveExcess (a + c) (b + d) (s ∷ ss)

pub HasExcess-concat : {a b : ℕ} {ss : List Bytes} → HaveExcess a b ss → HasExcess a b (concat ss)
unfolding concat count
HasExcess-concat last = record { braces = refl }
HasExcess-concat (h ⊕ hs) = HasExcess-append h (HasExcess-concat hs)

pub IsEven-line_end : IsEven line_end
unfolding count
IsEven-line_end = record { braces = refl }

pub even : {s : Bytes} → count 123 s ≡ count 125 s → IsEven s
even e = record { braces = omega (arith, e) }

pub opening : {s : Bytes} → count 123 s ≡ suc (count 125 s) → HasExcess 1 0 s
opening e = record { braces = omega (arith, e) }

pub closing : {s : Bytes} → suc (count 123 s) ≡ count 125 s → HasExcess 0 1 s
closing e = record { braces = omega (arith, e) }

-- A number has no byte above the digits.
count-digits : (b fuel n : ℕ) → 58 ≤ b → count b (digits fuel n) ≡ 0
unfolding count digits
count-digits b zero n h = refl
count-digits b (suc fuel) n h = elim (Bool-cases (ltb n 10)) [
  | inl e ↦ rw e (ground (arith, e))
  | inr e ↦ rw e (
      omega (
        arith,
        count-append b (digits fuel (n / 10)) ((48 + n % 10) ∷ []),
        count-digits b fuel (n / 10) h,
        other,
      ))
]
  where
    other : count b ((48 + n % 10) ∷ []) ≡ 0
    other = ground arith

pub IsEven-sprint : (n : ℤ) → IsEven (sprint n)
unfolding sprint count
IsEven-sprint (pos n) = even (
    omega
      (arith, count-digits 123 (suc n) n (omega arith), count-digits 125 (suc n) n (omega arith)))
IsEven-sprint (negsuc n) = even (
    omega (
      arith,
      count-digits 123 (suc (suc n)) (suc n) (omega arith),
      count-digits 125 (suc (suc n)) (suc n) (omega arith),
    ))

-- Every text of a list has as many braces of one kind as of the other.
abbrev pub AllEven : List (Option Bytes) → Type 0
AllEven [] = Unit
AllEven (s ∷ ss) = IsEven (from_ptr s) × AllEven ss

module _ {A : Type 0} where
  -- of the elements that are not nil
  abbrev pub Each : (A → Type 0) → List (Option A) → Type 0
  Each P [] = Unit
  Each P (none ∷ xs) = Each P xs
  Each P (some x ∷ xs) = P x × Each P xs

  unfoldable pub total : (Option A → ℕ) → List (Option A) → ℕ
  total n [] = 0
  total n (x ∷ xs) = n x + total n xs

  pub total_nought : (xs : List (Option A)) → total (λ x. 0) xs ≡ 0
  unfolding total
  total_nought [] = refl
  total_nought (x ∷ xs) = omega (arith, total_nought xs)

  pub total_one : (xs : List (Option A)) → total (λ x. 1) xs ≡ length xs
  unfolding total
  total_one [] = refl
  total_one (x ∷ xs) = omega (arith, total_one xs)

  pub Each-map :
      {P Q : A → Type 0} → ((x : A) → P x → Q x) → (xs : List (Option A)) → Each P xs → Each Q xs
  Each-map f [] h = tt
  Each-map f (none ∷ xs) h = Each-map f xs h
  Each-map f (some x ∷ xs) (h, hs) = (f x h, Each-map f xs hs)

  pub each-HasExcess :
      (opened closed : Option A → ℕ) (f : A → Result Bytes) (xs : List (Option A))
      → Each (λ x. Ensures (HasExcess (opened (some x)) (closed (some x))) (f x)) xs
      → Ensures (HasExcess (total opened xs) (total closed xs)) (each f xs)
  unfolding each total count
  each-HasExcess opened closed f [] h = returned (even refl)
  each-HasExcess opened closed f (none ∷ xs) h = panicked
  each-HasExcess opened closed f (some x ∷ xs) (h, hs) =
      by_first (f x) h (each-HasExcess opened closed f xs hs)
    where
      by_rest :
          (s : Bytes)
          → HasExcess (opened (some x)) (closed (some x)) s
          → (r : Result Bytes) → Ensures (HasExcess (total opened xs) (total closed xs)) r
          → Ensures
              (HasExcess (opened (some x) + total opened xs) (closed (some x) + total closed xs))
              (r >>= λ rest. ok (s ++ rest))
      by_rest s k (ok t) (returned l) = returned (HasExcess-append k l)
      by_rest s k (err e) l = raised
      by_rest s k panic l = panicked
      by_rest s k out_of_fuel l = exhausted

      by_first :
          (r : Result Bytes)
          → Ensures (HasExcess (opened (some x)) (closed (some x))) r
          → Ensures (HasExcess (total opened xs) (total closed xs)) (each f xs)
          → Ensures
              (HasExcess (opened (some x) + total opened xs) (closed (some x) + total closed xs))
              (r >>= λ s. each f xs >>= λ rest. ok (s ++ rest))
      by_first (ok s) (returned k) l = by_rest s k (each f xs) l
      by_first (err e) k l = raised
      by_first panic k l = panicked
      by_first out_of_fuel k l = exhausted
