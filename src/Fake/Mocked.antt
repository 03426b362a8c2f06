-- ===== src/Fake/Mocked.antt =====
-- pkg/fake/types.go: functions and long-running operations of the cloud that a test answers for.
pub mod Laws
use gpu_provisioner.Base.{
  ℕ, suc, ◌+◌, ◌%◌, ◌^◌, ◌≡◌, Bool, true, false, not, Option, none, some, List, [], ◌∷◌,
  if◌then◌else◌,
}
use gpu_provisioner.Base.Result.{Err, Result, ok, err, panic, out_of_fuel, deref, ◌>>=◌}
use gpu_provisioner.Base.Int.{ℤ, ◌+ℤ◌, wrap64, signed32}
use gpu_provisioner.Fake.Clone.{Json}
use gpu_provisioner.Fake.Ptr
use gpu_provisioner.Fake.Ptr.{AtomicPtr, clone_value}
use gpu_provisioner.Fake.Error
use gpu_provisioner.Fake.Error.{AtomicError, get}
use gpu_provisioner.Fake.Stack
use gpu_provisioner.Fake.Stack.{AtomicPtrStack, add}

-- The counters are words of 32 bits.
pub record MockedFunction (I O : Type 0) : Type 0 where
  pub output : AtomicPtr O
  pub called_with_input : AtomicPtrStack I
  pub error : AtomicError
  pub successful_calls : ℕ
  pub failed_calls : ℕ

-- `Add(1)` of an `atomic.Int32`
abbrev pub add_one : ℕ → ℕ
add_one n = suc n % 2 ^ 32

-- What a call of Go with two results returns.
abbrev pub Returned : Type 0 → Type 0
Returned O = O × Option Err

module _ {I O : Type 0} where
  unfoldable pub reset : MockedFunction I O → MockedFunction I O
  unfolding Ptr.reset Error.reset Stack.reset
  reset m = record {
    output = Ptr.reset m.output;
    called_with_input = Stack.reset m.called_with_input;
    error = Error.reset m.error;
    successful_calls = 0;
    failed_calls = 0;
  }

  unfoldable pub successful_calls : MockedFunction I O → ℤ
  successful_calls m = signed32 m.successful_calls

  unfoldable pub failed_calls : MockedFunction I O → ℤ
  failed_calls m = signed32 m.failed_calls

  unfoldable pub calls : MockedFunction I O → ℤ
  unfolding successful_calls failed_calls ◌+ℤ◌ wrap64
  calls m = wrap64 (successful_calls m +ℤ failed_calls m)

  abbrev pub failed : MockedFunction I O → MockedFunction I O
  failed m = record m { failed_calls = add_one m.failed_calls }

  abbrev pub succeeded : MockedFunction I O → MockedFunction I O
  succeeded m = record m { successful_calls = add_one m.successful_calls }

  -- the counter that the error of the transformer selects
  abbrev pub counted :
      {A : Type 0} → A × Option Err → MockedFunction I O → (A × Option Err) × MockedFunction I O
  counted (out, none) m = ((out, none), succeeded m)
  counted (out, some e) m = ((out, some e), failed m)

  -- The transformer is the caller's; `zero` is the value that Go gives to a variable of the type.
  module _ (inputs : Json I) (outputs : Json O) (zero_value : O)
      (transformer : Option I → Result (Returned O)) where
    -- from the look at `Output` on
    unfoldable pub answer : Option I → MockedFunction I O → Result (Returned O × MockedFunction I O)
    unfolding Ptr.is_nil clone_value
    answer input m =
        if Ptr.is_nil m.output
        then (transformer input >>= λ x. ok (counted x m))
        else (clone_value outputs m.output >>= λ out. ok ((out, none), succeeded m))

    abbrev pub unless_error :
        Option I → Option Err → MockedFunction I O → Result (Returned O × MockedFunction I O)
    unless_error input (some e) m = ok ((zero_value, some e), failed m)
    unless_error input none m = add inputs input m.called_with_input >>= λ stack.
        answer input (record m { called_with_input = stack })

    unfoldable pub invoke : Option I → MockedFunction I O → Result (Returned O × MockedFunction I O)
    unfolding get add answer
    invoke input m =
        let (e, error) = get m.error in unless_error input e (record m { error = error })

-- `MockHandler`
pub record MockHandler (T : Type 0) : Type 0 where
  pub result : Option T
  pub error : Option Err

module _ {T : Type 0} where
  unfoldable pub handler_done : MockHandler T → Bool
  handler_done h = true

  -- the error beside a response, which is always nil
  unfoldable pub handler_poll : MockHandler T → Option Err
  handler_poll h = h.error

  -- the error, and what the variable of the caller holds after it
  unfoldable pub handler_result : MockHandler T → T → Result (Option Err × T)
  handler_result h before = elim h.error [
    | some e ↦ ok (some e, before)
    | none ↦ deref h.result >>= λ v. ok (none, v)
  ]

-- `runtime.NewPoller` with a handler, for one type of results: the poller and an error.
pub record Pollers (T : Type 0) : Type 1 where
  pub Poller : Type 0
  pub new_poller : MockHandler T → Option Poller × Option Err

unfoldable pub new_mock_poller :
    {O : Type 0} (P : Pollers O) → Option O → Option Err → Option P.Poller × Option Err
new_mock_poller P result e = P.new_poller (record { result = result; error = e })

pub record MockedLro (I O : Type 0) : Type 0 where
  pub function : MockedFunction I O
  pub begin_error : AtomicError

module _ {I O : Type 0} where
  unfoldable pub lro_reset : MockedLro I O → MockedLro I O
  unfolding reset Error.reset
  lro_reset m = record { function = reset m.function; begin_error = Error.reset m.begin_error }

  module _ (inputs : Json I) (outputs : Json O) (P : Pollers O)
      (transformer : Option I → Result (Option O × Option Err)) where
    abbrev pub polled :
        (Option O × Option Err) × MockedFunction I O
        → (Option P.Poller × Option Err) × MockedFunction I O
    polled ((out, e), m) = (new_mock_poller P out e, m)

    unfoldable pub lro_answer :
        Option I → MockedFunction I O → Result ((Option P.Poller × Option Err) × MockedFunction I O)
    unfolding Ptr.is_nil clone_value new_mock_poller
    lro_answer input m =
        if Ptr.is_nil m.output
        then (transformer input >>= λ x. ok (polled (counted x m)))
        else (clone_value outputs m.output >>= λ out.
            ok (new_mock_poller P (some out) none, succeeded m))

    abbrev pub unless_failed :
        Option I
        → Option Err
        → MockedFunction I O
        → Result ((Option P.Poller × Option Err) × MockedFunction I O)
    unless_failed input (some e) m = ok (new_mock_poller P none (some e), failed m)
    unless_failed input none m = add inputs input m.called_with_input >>= λ stack.
        lro_answer input (record m { called_with_input = stack })

    abbrev pub unless_begin_failed :
        Option I
        → Option Err
        → MockedFunction I O
        → Result ((Option P.Poller × Option Err) × MockedFunction I O)
    unless_begin_failed input (some e) m = ok ((none, some e), failed m)
    unless_begin_failed input none m =
        let (e, error) = get m.error in unless_failed input e (record m { error = error })

    unfoldable pub lro_invoke :
        Option I → MockedLro I O → Result ((Option P.Poller × Option Err) × MockedLro I O)
    unfolding get add lro_answer new_mock_poller
    lro_invoke input m =
        let (e, begin_error) = get m.begin_error in
        unless_begin_failed input e m.function >>= λ x.
        ok (x.0, record { function = x.1; begin_error = begin_error })
