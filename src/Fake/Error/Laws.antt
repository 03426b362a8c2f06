-- ===== src/Fake/Error/Laws.antt =====
-- How often an injected error is answered.
use gpu_provisioner.Base.{
  ℕ, zero, suc, ◌-◌, ◌==◌, ◌≡◌, ◌∙◌, refl, ap, Bool-cases, inl, inr, true, false, Option, none,
  List, [], ◌∷◌, leb, if◌then◌else◌, arith,
}
use gpu_provisioner.Base.Result.{Err}
use gpu_provisioner.Base.Int.{ℤ, pos, negsuc}
use gpu_provisioner.Fake.Error.{AtomicError, get, set, apply, limit, max_calls}

-- The answers of so many calls of `Get`, in turn.
unfoldable pub gets : ℕ → AtomicError → List (Option Err)
unfolding get
gets zero e = []
gets (suc k) e = let (x, next) = get e in x ∷ gets k next

-- `x` at first, so many times, then no error.
abbrev pub answers : Option Err → ℕ → ℕ → List (Option Err)
answers x left zero = []
answers x zero (suc k) = none ∷ answers x zero k
answers x (suc left) (suc k) = x ∷ answers x left k

answered : AtomicError → AtomicError
answered e = record { error = e.error; calls = suc e.calls; max_calls = e.max_calls }

get_more : (e : AtomicError) → leb e.max_calls e.calls ≡ false → get e ≡ (e.error, answered e)
unfolding get answered
get_more e more = rw (more, get)

pub get_spent : (e : AtomicError) → leb e.max_calls e.calls ≡ true → get e ≡ (none, e)
unfolding get
get_spent e spent = rw (spent, get)

gets-answers :
    (k left : ℕ) (e : AtomicError)
    → e.max_calls - e.calls ≡ left
    → gets k e ≡ answers e.error left k
unfolding gets answered
gets-answers zero zero e h = refl
gets-answers zero (suc left) e h = refl
gets-answers (suc k) zero e h = elim (Bool-cases (leb e.max_calls e.calls)) [
  | inl spent ↦
      ap (λ (p : Option Err × AtomicError). p.0 ∷ gets k p.1) (get_spent e spent)
      ∙ ap (λ (xs : List (Option Err)). none ∷ xs) (gets-answers k zero e h)
  | inr more ↦ ground (arith, more, h)
]
gets-answers (suc k) (suc left) e h = elim (Bool-cases (leb e.max_calls e.calls)) [
  | inl spent ↦ ground (arith, spent, h)
  | inr more ↦
      ap (λ (p : Option Err × AtomicError). p.0 ∷ gets k p.1) (get_more e more)
      ∙ ap (λ (xs : List (Option Err)). e.error ∷ xs)
          (gets-answers k left (answered e) (omega (arith, h)))
]

limit-positive : (n : ℤ) → (if limit n == 0 then 1 else limit n) ≡ limit n
unfolding limit
limit-positive (pos zero) = refl
limit-positive (pos (suc n)) = ground arith
limit-positive (negsuc n) = refl

-- After `Set` with the option `MaxCalls(n)`, calls of `Get` answer the error as often as `n` exceeds the
-- number of calls that answered before (without end, in effect, where `n` is not positive), and no error
-- from then on. `Set` does not start the count again.
gets-set :
    (x : Option Err) (n : ℤ) (k : ℕ) (e : AtomicError)
    → gets k (set x (max_calls n ∷ []) e) ≡ answers x (limit n - e.calls) k
unfolding set apply max_calls limit
gets-set x n k e =
    gets-answers k (limit n - e.calls) (set x (max_calls n ∷ []) e)
      (ap (λ (m : ℕ). m - e.calls) (limit-positive n))
