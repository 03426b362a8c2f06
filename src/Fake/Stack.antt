-- ===== src/Fake/Stack.antt =====
-- pkg/fake/atomic.go: `AtomicPtrStack`. Every operation holds the mutex, so that each is one step.
pub mod Laws
use gpu_provisioner.Base.{ℕ, Option, none, some, List, [], ◌∷◌, ◌++◌, length}
use gpu_provisioner.Base.Result.{Result, ok, panic, ◌>>=◌}
use gpu_provisioner.Fake.Clone.{Json, clone}

-- The pointers of the stack are those of clones, so that none is nil.
pub record AtomicPtrStack (T : Type 0) : Type 0 where
  pub values : List T

module _ {T : Type 0} where
  unfoldable pub reset : AtomicPtrStack T → AtomicPtrStack T
  reset a = record { values = [] }

  unfoldable pub add : Json T → Option T → AtomicPtrStack T → Result (AtomicPtrStack T)
  unfolding clone
  add json input a = do v ← clone json input; ok (record { values = a.values ++ v ∷ [] })

  unfoldable pub len : AtomicPtrStack T → ℕ
  len a = length a.values

  -- The last of the values and what is in front of it.
  abbrev pub behind : T → Option (T × List T) → T × List T
  behind v none = (v, [])
  behind v (some (last, front)) = (last, v ∷ front)

  unfoldable pub last_and_front : List T → Option (T × List T)
  last_and_front [] = none
  last_and_front (v ∷ vs) = some (behind v (last_and_front vs))

  abbrev pub popped : Option (T × List T) → Result (T × AtomicPtrStack T)
  popped none = panic
  popped (some (last, front)) = ok (last, record { values = front })

  -- On an empty stack the index is out of range.
  unfoldable pub pop : AtomicPtrStack T → Result (T × AtomicPtrStack T)
  unfolding last_and_front
  pop a = popped (last_and_front a.values)
