-- ===== src/AgentPools/Store.antt =====
-- What the agent pool service is documented to keep, and what a deletion by
-- pkg/providers/instance/armutils.go leaves of it.
use gpu_provisioner.Base.{◌≡◌, ◌∙◌, false, Option, none, if◌then◌else◌, Bool-cases, inl, inr}
use gpu_provisioner.Base.Text.{Bytes, same, same_iff}
use gpu_provisioner.Base.Result.{Err, Result, ok, err}
use gpu_provisioner.AgentPools.Missing.{IsNotFound}
use gpu_provisioner.AgentPools.Laws.{Deletes, finished, vanished, missing, delete_agent_pool-ok_iff}
use gpu_provisioner.AgentPools.{AgentPool, AgentPoolsApi, delete_agent_pool}

-- `NotFound` is the answer for a pool that is not there, to a deletion that is asked for and to one that is
-- waited for; a deletion that ends has removed the pool, and it touches no other pool of the cluster.
pub record Store {W : Type 0} (api : AgentPoolsApi W) : Type 0 where
  pub pool : (rg cluster name : Bytes) → W → Option AgentPool
  pub refused :
      (rg cluster name : Bytes) {e : Err} {w v : W}
      → api.begin_delete rg cluster name w ≡ (err e, v)
      → IsNotFound e
      → pool rg cluster name v ≡ none
  pub ended :
      (rg cluster name : Bytes) {d : api.DeletePoller} {w u v : W}
      → api.begin_delete rg cluster name w ≡ (ok d, u)
      → api.deleted d u ≡ (ok tt, v)
      → pool rg cluster name v ≡ none
  pub vanished :
      (rg cluster name : Bytes) {d : api.DeletePoller} {e : Err} {w u v : W}
      → api.begin_delete rg cluster name w ≡ (ok d, u)
      → api.deleted d u ≡ (err e, v)
      → IsNotFound e
      → pool rg cluster name v ≡ none
  pub begin_keeps :
      (rg cluster name other : Bytes) {w v : W} {r : Result api.DeletePoller}
      → api.begin_delete rg cluster name w ≡ (r, v)
      → same name other ≡ false
      → pool rg cluster other v ≡ pool rg cluster other w
  pub end_keeps :
      (rg cluster name other : Bytes) {d : api.DeletePoller} {w u v : W} {r : Result (Unit {0})}
      → api.begin_delete rg cluster name w ≡ (ok d, u)
      → api.deleted d u ≡ (r, v)
      → same name other ≡ false
      → pool rg cluster other v ≡ pool rg cluster other u
  pub absent :
      (rg cluster name : Bytes) (w : W)
      → pool rg cluster name w ≡ none
      → (e : Err) × ((api.get rg cluster name w).0 ≡ err e)

module _ {W : Type 0} (api : AgentPoolsApi W) (store : Store api) (rg cluster name : Bytes)
    (w : W) where
  -- The pool is gone, and the others are there as before.
  abbrev IsRemoved : W → Type 0
  IsRemoved v =
      (store.pool rg cluster name v ≡ none)
      × ((other : Bytes)
          → same name other ≡ false
          → store.pool rg cluster other v ≡ store.pool rg cluster other w)

  Deletes-IsRemoved : {v : W} → Deletes api rg name cluster w v → IsRemoved v
  Deletes-IsRemoved (finished b e) = (
    store.ended rg cluster name b e,
    λ other o.
        store.end_keeps rg cluster name other b e o ∙ store.begin_keeps rg cluster name other b o,
  )
  Deletes-IsRemoved (vanished b e gone) = (
    store.vanished rg cluster name b e gone,
    λ other o.
        store.end_keeps rg cluster name other b e o ∙ store.begin_keeps rg cluster name other b o,
  )
  Deletes-IsRemoved (missing b gone) =
      (store.refused rg cluster name b gone, λ other o. store.begin_keeps rg cluster name other b o)

  removed_at :
      (v : W) (other : Bytes)
      → IsRemoved v
      → store.pool rg cluster other v
        ≡ (if same name other then none else store.pool rg cluster other w)
  removed_at v other h = elim (Bool-cases (same name other)) [
    | inl e ↦ rw e (rw ((same_iff name other).0 e) at h.0)
    | inr o ↦ rw o (h.1 other o)
  ]

  -- Behind a deletion that returns no error, the service has every pool of the cluster that it had
  -- before, but the deleted one.
  pub delete_agent_pool-pool :
      (v : W) (other : Bytes)
      → delete_agent_pool api rg name cluster w ≡ (ok tt, v)
      → store.pool rg cluster other v
        ≡ (if same name other then none else store.pool rg cluster other w)
  delete_agent_pool-pool v other h =
      removed_at v other
        (Deletes-IsRemoved ((delete_agent_pool-ok_iff api rg name cluster w v).0 h))
