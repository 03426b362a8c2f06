-- ===== src/Base/Effect.antt =====
-- Calls that read and change the world: the cloud, the cluster, the clock.
use gpu_provisioner.Base.Result.{Context, Err, Result, ok, err, panic, out_of_fuel, wrapping}

abbrev pub M {ℓ κ} : Type ℓ → Type κ → Type (ℓ ⊔ κ)
M W A = W → Result A × W

module _ {ℓ κ μ} {W : Type ℓ} {A : Type κ} {B : Type μ} where
  abbrev pub continue : Result A × W → (A → M W B) → Result B × W
  continue (ok a, w) f = f a w
  continue (err e, w) f = (err e, w)
  continue (panic, w) f = (panic, w)
  continue (out_of_fuel, w) f = (out_of_fuel, w)

  infixl 5 ◌>>=◌ ◌>>◌
  abbrev pub ◌>>=◌ : M W A → (A → M W B) → M W B
  ◌>>=◌ m f w = continue (m w) f

  abbrev pub ◌>>◌ : M W A → M W B → M W B
  m >> n = m >>= λ _. n

module _ {ℓ κ} {W : Type ℓ} {A : Type κ} where
  -- a function that does not touch the world
  abbrev pub lift : Result A → M W A
  lift r w = (r, w)

  abbrev pub pure : A → M W A
  pure a w = (ok a, w)

  abbrev pub fail : Err → M W A
  fail e w = (err e, w)

  -- wraps the error that the call returns
  abbrev wrap_result : Context → Result A × W → Result A × W
  wrap_result c (r, w) = (wrapping c r, w)

  abbrev pub in_context : Context → M W A → M W A
  in_context c m w = wrap_result c (m w)
