-- ===== src/Fake/Ptr.antt =====
-- pkg/fake/atomic.go: `AtomicPtr`. Every operation holds the mutex, so that each is one step.
use gpu_provisioner.Base.{◌≡◌, ◌∙◌, refl, ap, Bool, true, false, Option, none, some}
use gpu_provisioner.Base.Result.{Result, ok}
use gpu_provisioner.Fake.Clone.{Json, IsJson, clone, clone-some}

pub record AtomicPtr (T : Type 0) : Type 0 where
  pub value : Option T

module _ {T : Type 0} where
  unfoldable pub set : Option T → AtomicPtr T → AtomicPtr T
  set v a = record { value = v }

  unfoldable pub is_nil : AtomicPtr T → Bool
  is_nil a = elim a.value [ none ↦ true | some v ↦ false ]

  unfoldable pub clone_value : Json T → AtomicPtr T → Result T
  unfolding clone
  clone_value json a = clone json a.value

  unfoldable pub reset : AtomicPtr T → AtomicPtr T
  reset a = record { value = none }

  pub is_nil-none : (a : AtomicPtr T) → a.value ≡ none → is_nil a ≡ true
  unfolding is_nil
  is_nil-none a e = rw e refl

  pub is_nil-some : (a : AtomicPtr T) (v : T) → a.value ≡ some v → is_nil a ≡ false
  unfolding is_nil
  is_nil-some a v e = rw e refl

  pub clone_value-some :
      {json : Json T}
      → IsJson json
      → (a : AtomicPtr T) (v : T) → a.value ≡ some v
      → clone_value json a ≡ ok v
  unfolding clone_value
  clone_value-some {json = json} laws a v e = ap (clone json) e ∙ clone-some laws v
