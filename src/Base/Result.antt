-- ===== src/Base/Result.antt =====
-- What a Go function returns: a value, an error or a panic, and the state of the world after it.
use gpu_provisioner.Base.{◌≡◌, refl, ℕ, Option, none, some, []}
use gpu_provisioner.Base.Text.{Bytes}

-- The text that `fmt.Errorf` puts in front of a wrapped error.
pub data Context : Type 0 where
  creating_instance getting_instance getting_pool_name listing_pools fetching_skus : Context
  creating_client_app acquiring_token : Context
  parsing_settings validating_settings marshaling_settings unmarshalling_settings : Context
  begin_create pool_get pool_delete : Bytes → Context
  parsing_sku_cache : Bytes → Context

pub data Err : Type 0 where
  -- an `azcore.ResponseError` with its `ErrorCode`
  response : Bytes → Err
  -- any other error of code that the program calls
  external : Bytes → Err
  -- an error that the program makes by `fmt.Errorf` around another one
  wrap : Context → Err → Err
  name_too_long : ℕ → Bytes → Err
  no_instance_type node_missing no_agent_pools instance_missing : Err
  pool_name_mismatch sub_id_mismatch : Bytes → Err
  subscription_missing tenant_missing node_resource_group_missing : Err
  status_code : ℕ → Err
  no_prices : Err
  machine_not_found : Bytes → Err
  create_calls_exceeded : Err
  federation_missing : Bytes → Bytes → Err
  nil_config overlay_version_missing malformed_cert : Err

-- `panic` is a nil pointer or an index out of range. `out_of_fuel` belongs to the model only.
pub data Result {ℓ} (A : Type ℓ) : Type ℓ where
  ok : A → Result A
  err : Err → Result A
  panic out_of_fuel : Result A

infixl 5 ◌>>=◌
abbrev pub ◌>>=◌ {ℓ κ} : {A : Type ℓ} {B : Type κ} → Result A → (A → Result B) → Result B
ok a >>= f = f a
err e >>= f = err e
panic >>= f = panic
out_of_fuel >>= f = out_of_fuel

-- `*p`
abbrev pub deref {ℓ} : {A : Type ℓ} → Option A → Result A
deref none = panic
deref (some a) = ok a

-- `lo.FromPtr` of a string
abbrev pub from_ptr : Option Bytes → Bytes
from_ptr none = []
from_ptr (some s) = s

-- `fmt.Errorf("…%w", err)` on the error path
abbrev pub wrapping {ℓ} : {A : Type ℓ} → Context → Result A → Result A
wrapping c (err e) = err (wrap c e)
wrapping c r = r

-- `IsResponseError`: the code of the `ResponseError` in the chain of wrapped errors
unfoldable pub response_code : Err → Option Bytes
response_code (response code) = some code
response_code (wrap c e) = response_code e
response_code _ = none

-- What holds of the value, where there is one.
pub data Ensures {ℓ κ} {A : Type ℓ} (P : A → Type κ) : Result A → Type (ℓ ⊔ κ) where
  returned : {a : A} → P a → Ensures P (ok a)
  raised : {e : Err} → Ensures P (err e)
  panicked : Ensures P panic
  exhausted : Ensures P out_of_fuel

pub Ensures-bind {ℓ κ} :
    {A B : Type ℓ} {P : B → Type κ} (m : Result A) (f : A → Result B)
    → ((a : A) → Ensures P (f a))
    → Ensures P (m >>= f)
Ensures-bind (ok a) f h = h a
Ensures-bind (err e) f h = raised
Ensures-bind panic f h = panicked
Ensures-bind out_of_fuel f h = exhausted

pub Ensures-then {ℓ κ} :
    {A B : Type ℓ} {P : A → Type κ} {Q : B → Type κ} (m : Result A) (f : A → Result B)
    → Ensures P m
    → ((a : A) → P a → Ensures Q (f a))
    → Ensures Q (m >>= f)
Ensures-then (ok a) f (returned k) h = h a k
Ensures-then (err e) f k h = raised
Ensures-then panic f k h = panicked
Ensures-then out_of_fuel f k h = exhausted

pub Ensures-map {ℓ κ} :
    {A : Type ℓ} {P Q : A → Type κ} {m : Result A}
    → ((a : A) → P a → Q a)
    → Ensures P m
    → Ensures Q m
Ensures-map f (returned {a = a} h) = returned (f a h)
Ensures-map f raised = raised
Ensures-map f panicked = panicked
Ensures-map f exhausted = exhausted

-- The value is that of the call.
pub Ensures-self {ℓ} : {A : Type ℓ} (m : Result A) → Ensures (λ a. m ≡ ok a) m
Ensures-self (ok a) = returned refl
Ensures-self (err e) = raised
Ensures-self panic = panicked
Ensures-self out_of_fuel = exhausted

pub Ensures-ok {ℓ κ} : {A : Type ℓ} {P : A → Type κ} {a : A} → Ensures P (ok a) → P a
Ensures-ok (returned h) = h
