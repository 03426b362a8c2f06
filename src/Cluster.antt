-- ===== src/Cluster.antt =====
-- The objects of the cluster that the providers read and make (machines, nodes, taints), the cluster's
-- API and `retry.OnError`. The packages that implement these are not part of this repository: the two
-- interfaces are parameters, and `IsRetry` states the documented behaviour of the second.
pub mod Retrying
use gpu_provisioner.Base.{
  ℕ, zero, suc, ◌≡◌, Bool, true, false, Option, none, some, List, [], ◌∷◌, if◌then◌else◌,
}
use gpu_provisioner.Base.Text.{Bytes, codes, same}
use gpu_provisioner.Base.Dict.{Dict}
use gpu_provisioner.Base.Result.{Err, Result, ok, err, panic, out_of_fuel}
use gpu_provisioner.Base.Effect.{M}

pub record Taint : Type 0 where
  pub key : Bytes
  pub value : Bytes
  pub effect : Bytes

pub record NodeSelectorRequirement : Type 0 where
  pub key : Bytes
  pub operator : Bytes
  pub values : List Bytes

-- The fields of `v1alpha5.Machine` that the providers use. A quantity is the 64 bits of its `Value()`.
pub record Machine : Type 0 where
  pub name : Bytes
  pub labels : Dict Bytes
  pub annotations : Dict Bytes
  pub taints : List Taint
  pub requirements : List NodeSelectorRequirement
  pub requests : Option (Dict ℕ)
  pub provider_id : Bytes

pub record NodeCondition : Type 0 where
  pub type_name : Bytes
  pub status : Bytes

pub record Node : Type 0 where
  pub name : Bytes
  pub conditions : List NodeCondition

-- `nodeutil.GetCondition`: the first condition of the type, or the zero condition
unfoldable pub get_condition : List NodeCondition → Bytes → NodeCondition
get_condition [] t = record { type_name = []; status = [] }
get_condition (c ∷ cs) t = if same c.type_name t then c else get_condition cs t

unfoldable pub is_ready : Node → Bool
unfolding get_condition same
is_ready n = same (get_condition n.conditions (codes "Ready")).status (codes "True")

-- `client.Client`, as far as the program uses it: the nodes that carry the labels.
pub record KubeClient (W : Type 0) : Type 0 where
  pub list_nodes : Dict Bytes → M W (List Node)

-- Milliseconds, and tenths.
pub record Backoff : Type 0 where
  pub steps : ℕ
  pub duration : ℕ
  pub factor : ℕ
  pub jitter : ℕ

abbrev pub default_backoff : Backoff
default_backoff = record { steps = 4; duration = 10; factor = 50; jitter = 1 }

abbrev pub default_retry : Backoff
default_retry = record { steps = 5; duration = 10; factor = 10; jitter = 1 }

-- `retry.OnError`. What the called function leaves in captured variables is its result here.
pub record Retry (W : Type 0) : Type 1 where
  pub on_error : (A : Type 0) → Backoff → (Err → Bool) → M W A → M W A

module _ {W : Type 0} {A : Type 0} (pause : ℕ → W → W) (retriable : Err → Bool) where
  unfoldable pub unless_retried : M W A → ℕ → Result A × W → Result A × W
  unless_retried again n (ok a, w) = (ok a, w)
  unless_retried again n (err e, w) = elim (retriable e) [
    | true ↦ again (pause n w)
    | false ↦ (err e, w)
  ]
  unless_retried again n (panic, w) = (panic, w)
  unless_retried again n (out_of_fuel, w) = (out_of_fuel, w)

  -- `n` more attempts are allowed after the first one. Between two attempts time passes.
  unfoldable pub tries : M W A → ℕ → M W A
  unfolding unless_retried
  tries f zero w = f w
  tries f (suc n) w = unless_retried (tries f n) n (f w)

-- The function is called at most `steps` times, until it succeeds or its error is not retriable.
pub record IsRetry {W : Type 0} (R : Retry W) : Type 1 where
  pub pause : Backoff → ℕ → W → W
  pub on_error_lem :
      (A : Type 0) (b : Backoff) (n : ℕ) (retriable : Err → Bool) (f : M W A)
      → b.steps ≡ suc n
      → (w : W) → R.on_error A b retriable f w ≡ tries (pause b) retriable f n w
