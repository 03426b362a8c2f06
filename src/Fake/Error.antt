-- ===== src/Fake/Error.antt =====
-- pkg/fake/atomic.go: `AtomicError`, an error that is answered a certain number of times. Every
-- operation holds the mutex, so that each is one step.
pub mod Laws
use gpu_provisioner.Base.{
  ℕ, suc, ◌-◌, ◌^◌, ◌==◌, Bool, true, false, Option, none, some, List, [], ◌∷◌, leb, if◌then◌else◌,
}
use gpu_provisioner.Base.Result.{Err}
use gpu_provisioner.Base.Int.{ℤ, pos, negsuc}

-- `calls` never goes above `max_calls`, so that it needs no wrap-around.
pub record AtomicError : Type 0 where
  pub error : Option Err
  pub calls : ℕ
  pub max_calls : ℕ

unfoldable pub reset : AtomicError → AtomicError
reset e = record { error = none; calls = 0; max_calls = 0 }

unfoldable pub is_nil : AtomicError → Bool
is_nil e = elim e.error [ none ↦ true | some x ↦ false ]

unfoldable pub get : AtomicError → Option Err × AtomicError
get e =
    if leb e.max_calls e.calls
    then (none, e)
    else (e.error, record { error = e.error; calls = suc e.calls; max_calls = e.max_calls })

-- the options in turn
unfoldable pub apply : List (AtomicError → AtomicError) → AtomicError → AtomicError
apply [] e = e
apply (opt ∷ opts) e = apply opts (opt e)

abbrev pub at_least_one : AtomicError → AtomicError
at_least_one e = record {
  error = e.error;
  calls = e.calls;
  max_calls = if e.max_calls == 0 then 1 else e.max_calls;
}

unfoldable pub set : Option Err → List (AtomicError → AtomicError) → AtomicError → AtomicError
unfolding apply
set x opts e =
    at_least_one (apply opts (record { error = x; calls = e.calls; max_calls = e.max_calls }))

-- `math.MaxInt` where the argument is not positive
unfoldable pub limit : ℤ → ℕ
limit (pos n) = if n == 0 then 2 ^ 63 - 1 else n
limit (negsuc n) = 2 ^ 63 - 1

unfoldable pub max_calls : ℤ → AtomicError → AtomicError
unfolding limit
max_calls n e = record { error = e.error; calls = e.calls; max_calls = limit n }
