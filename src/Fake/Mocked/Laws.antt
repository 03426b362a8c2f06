-- ===== src/Fake/Mocked/Laws.antt =====
-- What a mocked function counts and records.
use gpu_provisioner.Base.{
  ℕ, suc, ◌+◌, ◌^◌, ◌<◌, ◌≡◌, ◌∙◌, inl, inr, refl, ap, Bool, Option, Option-cases, none, some, List,
  [], ◌∷◌, ◌++◌, length, if◌then◌else◌, arith,
}
use gpu_provisioner.Base.Result.{Err, Result, ok, ◌>>=◌}
use gpu_provisioner.Base.Int.{ℤ, pos, ◌+ℤ◌, wrap64}
use gpu_provisioner.Fake.Clone.{Json, IsJson}
use gpu_provisioner.Fake.Ptr.{clone_value, is_nil-none, is_nil-some, clone_value-some}
use gpu_provisioner.Fake.Error.{AtomicError, get}
use gpu_provisioner.Fake.Stack.{AtomicPtrStack}
use gpu_provisioner.Fake.Stack.Laws.{add-some}
use gpu_provisioner.Fake.Mocked.{
  MockedFunction, Returned, failed, succeeded, counted, successful_calls, failed_calls, calls,
  answer, unless_error, invoke,
}

abbrev errors_of : Option Err → ℕ
errors_of none = 0
errors_of (some e) = 1

-- How many of the calls returned an error.
abbrev pub errors : {O : Type 0} → List (Returned O) → ℕ
errors [] = 0
errors ((out, e) ∷ rs) = errors_of e + errors rs

wrap64-small : (a b : ℕ) → a + b < 2 ^ 31 → wrap64 (pos a +ℤ pos b) ≡ pos (a + b)
unfolding wrap64 ◌+ℤ◌
wrap64-small a b h = ground (arith, h)

module _ {I O : Type 0} where
  abbrev total : MockedFunction I O → ℕ
  total m = m.successful_calls + m.failed_calls

  -- What one call has done to the counters.
  abbrev Counted : MockedFunction I O → Returned O → MockedFunction I O → Type 0
  Counted m r n = (n.failed_calls ≡ m.failed_calls + errors_of r.1) × (total n ≡ suc (total m))

  Counted-failed :
      (m : MockedFunction I O) (out : O) (e : Err)
      → suc (total m) < 2 ^ 31
      → Counted m (out, some e) (failed m)
  Counted-failed m out e h = (omega (arith, h), omega (arith, h))

  Counted-succeeded :
      (m : MockedFunction I O) (out : O)
      → suc (total m) < 2 ^ 31
      → Counted m (out, none) (succeeded m)
  Counted-succeeded m out h = (omega (arith, h), omega (arith, h))

  successful_calls-small :
      (m : MockedFunction I O)
      → m.successful_calls < 2 ^ 31
      → successful_calls m ≡ pos m.successful_calls
  unfolding successful_calls
  successful_calls-small m h = ground (arith, h)

  failed_calls-small :
      (m : MockedFunction I O) → m.failed_calls < 2 ^ 31 → failed_calls m ≡ pos m.failed_calls
  unfolding failed_calls
  failed_calls-small m h = ground (arith, h)

  calls-small : (m : MockedFunction I O) → total m < 2 ^ 31 → calls m ≡ pos (total m)
  unfolding calls
  calls-small m h =
      ap (λ (z : ℤ). wrap64 (z +ℤ failed_calls m)) (successful_calls-small m (omega (arith, h)))
      ∙ ap (λ (z : ℤ). wrap64 (pos m.successful_calls +ℤ z))
          (failed_calls-small m (omega (arith, h)))
      ∙ wrap64-small m.successful_calls m.failed_calls h

  module _ (inputs : Json I) (outputs : Json O) (zero_value : O)
      (transformer : Option I → Result (Returned O)) where
    -- The calls in turn, with inputs that are not nil.
    unfoldable pub invoke_all :
        List I → MockedFunction I O → Result (List (Returned O) × MockedFunction I O)
    unfolding invoke
    invoke_all [] m = ok ([], m)
    invoke_all (x ∷ xs) m = invoke inputs outputs zero_value transformer (some x) m >>= λ a.
        invoke_all xs a.1 >>= λ b. ok (a.0 ∷ b.0, b.1)

    abbrev Total : Type 0
    Total = (i : Option I) → (x : Returned O) × (transformer i ≡ ok x)

    abbrev Steps : MockedFunction I O → Result (Returned O × MockedFunction I O) → Type 0
    Steps m x = (r : Returned O) × (n : MockedFunction I O) × (x ≡ ok (r, n)) × Counted m r n

    module _ (in_laws : IsJson inputs) (out_laws : IsJson outputs) (runs : Total) where
      by_result :
          (m : MockedFunction I O) (x : Returned O)
          → suc (total m) < 2 ^ 31
          → Steps m (ok (counted x m))
      by_result m (out, none) h = ((out, none), succeeded m, refl, Counted-succeeded m out h)
      by_result m (out, some e) h = ((out, some e), failed m, refl, Counted-failed m out e h)

      answer-Steps :
          (x : I) (m : MockedFunction I O)
          → suc (total m) < 2 ^ 31
          → Steps m (answer inputs outputs zero_value transformer (some x) m)
      unfolding answer
      answer-Steps x m h = elim (Option-cases m.output.value) [
        | inl e ↦
            let (y, t) = runs (some x) in
            let (r, n, g, c) = by_result m y h in
            (
              r,
              n,
              ap choice (is_nil-none m.output e) ∙ ap (λ q. q >>= λ y. ok (counted y m)) t ∙ g,
              c,
            )
        | inr (v, e) ↦ (
          (v, none),
          succeeded m,
          ap choice (is_nil-some m.output v e)
              ∙ ap (λ (q : Result O). q >>= λ out. ok ((out, none), succeeded m))
                  (clone_value-some out_laws m.output v e),
          Counted-succeeded m v h,
        )
      ]
        where
          choice : Bool → Result (Returned O × MockedFunction I O)
          choice b =
              if b
              then (transformer (some x) >>= λ y. ok (counted y m))
              else (clone_value outputs m.output >>= λ out. ok ((out, none), succeeded m))

      invoke-Steps :
          (x : I) (m : MockedFunction I O)
          → suc (total m) < 2 ^ 31
          → Steps m (invoke inputs outputs zero_value transformer (some x) m)
      unfolding invoke
      invoke-Steps x m h = by_error (get m.error).0 (get m.error).1
        where
          by_error :
              (e : Option Err) (error : AtomicError)
              → Steps m (
                  unless_error inputs outputs zero_value transformer
                    (some x)
                    e
                    (record m { error = error }))
          by_error (some e) error = (_, _, refl, Counted-failed m zero_value e h)
          by_error none error =
              let stack : AtomicPtrStack I = record {
                values = m.called_with_input.values ++ x ∷ [];
              } in
              let (r, n, e, c) =
                answer-Steps x (record m { called_with_input = stack; error = error }) h in
              (
                r,
                n,
                ap
                      (λ (q : Result (AtomicPtrStack I)). q >>= λ stack.
                        answer inputs outputs zero_value transformer (some x)
                          (record m { called_with_input = stack; error = error }))
                      (add-some in_laws x m.called_with_input)
                    ∙ e,
                c,
              )

      counted_all :
          (xs : List I) (m : MockedFunction I O)
          → total m + length xs < 2 ^ 31
          → (rs : List (Returned O)) × (n : MockedFunction I O) × (invoke_all xs m ≡ ok (rs, n))
            × (n.failed_calls ≡ m.failed_calls + errors rs)
            × (total n ≡ total m + length xs)
      unfolding invoke_all
      counted_all [] m h = ([], m, refl, omega arith, omega arith)
      counted_all (x ∷ xs) m h =
          let (r, n, e, (f, t)) = invoke-Steps x m (omega (arith, h)) in
          let (rs, o, es, fs, ts) = counted_all xs n (omega (arith, h, t)) in
          (
            r ∷ rs,
            o,
            ap
                  (λ (q : Result (Returned O × MockedFunction I O)).
                    q >>= λ a. invoke_all xs a.1 >>= λ b. ok (a.0 ∷ b.0, b.1))
                  e
                ∙ ap
                    (λ (q : Result (List (Returned O) × MockedFunction I O)).
                      q >>= λ b. ok (r ∷ b.0, b.1))
                    es,
            omega (arith, f, fs),
            omega (arith, t, ts),
          )

      -- From any state whose counters are so small that the calls do not reach 2^31, with values that
      -- survive their JSON as documented, and with a transformer that returns, every call returns;
      -- `FailedCalls` has grown by the number of calls that returned an error, and `Calls` by the
      -- number of calls.
      calls-invoke_all :
          (xs : List I) (m : MockedFunction I O)
          → m.successful_calls + m.failed_calls + length xs < 2 ^ 31
          → (rs : List (Returned O)) × (n : MockedFunction I O) × (invoke_all xs m ≡ ok (rs, n))
            × (failed_calls n ≡ pos (m.failed_calls + errors rs))
            × (calls n ≡ pos (m.successful_calls + m.failed_calls + length xs))
      calls-invoke_all xs m h =
          let (rs, n, e, f, t) = counted_all xs m h in
          let small : total n < 2 ^ 31 = omega (arith, h, t) in
          (
            rs,
            n,
            e,
            failed_calls-small n (omega (arith, small)) ∙ ap pos f,
            calls-small n small ∙ ap pos t,
          )
