-- ===== src/Fake/Polling.antt =====
-- pkg/fake/pollingHandler.go: a polling handler whose answers a controller of gomock gives. The controller is a
-- parameter, and the recorder, which only sets up its answers, is left out.
use gpu_provisioner.Base.{◌≡◌, ap, Bool, Option, none, some, List, [], ◌∷◌}
use gpu_provisioner.Base.Text.{Bytes, codes}
use gpu_provisioner.Base.Result.{Err, Result, ok, panic}
use gpu_provisioner.Base.Effect.{M, continue, lift, pure, ◌>>=◌}

-- A value of the type `any`, as far as the handler looks into it.
pub data Any (R : Type 0) : Type 0 where
  nil another : Any R
  a_bool : Bool → Any R
  a_response : R → Any R
  an_error : Err → Any R

-- `ret[0]` and `ret[1]`
abbrev pub first : {A : Type 0} → List A → Result A
first [] = panic
first (x ∷ xs) = ok x

abbrev pub second : {A : Type 0} → List A → Result A
second [] = panic
second (x ∷ xs) = first xs

module _ {R : Type 0} where
  -- a type assertion with one result
  abbrev pub as_bool : Any R → Result Bool
  as_bool (a_bool b) = ok b
  as_bool _ = panic

  abbrev pub as_response : Any R → Result R
  as_response (a_response r) = ok r
  as_response _ = panic

  abbrev pub as_error : Any R → Result (Option Err)
  as_error (an_error e) = ok (some e)
  as_error _ = panic

  -- a type assertion with two results
  abbrev pub error_or_nil : Any R → Option Err
  error_or_nil (an_error e) = some e
  error_or_nil _ = none

  module _ {W : Type 0} (call : (method : Bytes) → M W (List (Any R))) where
    unfoldable pub done : M W Bool
    done = do ret ← call (codes "Done"); value ← lift (first ret); lift (as_bool value)

    unfoldable pub poll : M W (R × Option Err)
    poll = do
      ret ← call (codes "Poll")
      value ← lift (first ret)
      response ← lift (as_response value)
      failure ← lift (second ret)
      poll_err ← lift (as_error failure)
      pure (response, poll_err)

    unfoldable pub result : M W (Option Err)
    result = do ret ← call (codes "Result"); value ← lift (first ret); pure (error_or_nil value)

    -- An answer to `Poll` without an error is a panic.
    poll-nil :
        (response : R) (w v : W)
        → call (codes "Poll") w ≡ (ok (a_response response ∷ nil ∷ []), v)
        → poll w ≡ (panic, v)
    unfolding poll
    poll-nil response w v e =
        ap
          (λ (x : Result (List (Any R)) × W). continue x (λ ret. lift (first ret) >>= λ value.
            lift (as_response value) >>= λ r. lift (second ret) >>= λ failure.
            lift (as_error failure) >>= λ poll_err. pure (r, poll_err)))
          e
