-- ===== src/AgentPools/Laws.antt =====
-- What armutils.go returns, whatever the service answers.
use gpu_provisioner.Base.{
  ℕ, zero, suc, ◌≡◌, ◌↔◌, refl, ap, ◌∙◌, ◌<◌, true, false, Bool-cases, inl, inr, Option, List, [],
  ◌++◌, append_assoc, append-nil, arith,
}
use gpu_provisioner.Base.Text.{Bytes}
use gpu_provisioner.Base.Result.{Err, Result, ok, err, panic, out_of_fuel}
use gpu_provisioner.Base.Effect.{M, continue, pure}
use gpu_provisioner.AgentPools.Missing.{IsNotFound, is_not_found-of, IsNotFound-of}
use gpu_provisioner.AgentPools.{
  AgentPool, AgentPoolsApi, is_not_found, gone_or, delete_agent_pool, list_loop, list_agent_pools,
}

module _ {W : Type 0} {A : Type 0} where
  -- an error behind which a deletion succeeds
  excused :
      (e : Err) (w v : W) (next : A → M W (Unit {0}))
      → gone_or (err e, w) next ≡ (ok tt, v)
      → (is_not_found e ≡ true) × (w ≡ v)
  unfolding gone_or
  excused e w v next h = elim (Bool-cases (is_not_found e)) [
    | inl gone ↦ (gone, ap (λ (x : Result (Unit {0}) × W). x.1) (rw gone at h))
    | inr other ↦ absurd (ground (arith, other, h))
  ]

module _ {W : Type 0} (api : AgentPoolsApi W) (rg name cluster : Bytes) where
  -- The ways in which a deletion succeeds: the service finishes it, or says while it is waited for, or at
  -- once, that the pool is not there.
  pub data Deletes : W → W → Type 0 where
    finished :
        {d : api.DeletePoller} {w u v : W}
        → api.begin_delete rg cluster name w ≡ (ok d, u)
        → api.deleted d u ≡ (ok tt, v)
        → Deletes w v
    vanished :
        {d : api.DeletePoller} {e : Err} {w u v : W}
        → api.begin_delete rg cluster name w ≡ (ok d, u)
        → api.deleted d u ≡ (err e, v)
        → IsNotFound e
        → Deletes w v
    missing :
        {e : Err} {w v : W}
        → api.begin_delete rg cluster name w ≡ (err e, v)
        → IsNotFound e
        → Deletes w v

  poll_succeeds :
      (d : api.DeletePoller) (w u v : W) (x : Result (Unit {0}) × W)
      → api.begin_delete rg cluster name w ≡ (ok d, u)
      → api.deleted d u ≡ x
      → gone_or x (λ _. pure tt) ≡ (ok tt, v)
      → Deletes w v
  unfolding gone_or
  poll_succeeds d w u v (ok a, z) b e h = finished b (e ∙ h)
  poll_succeeds d w u v (err x, z) b e h =
      let (gone, same_world) = excused x z v (λ (_ : Unit {0}). pure tt) h in
      vanished b (rw same_world at e) (IsNotFound-of x gone)
  poll_succeeds d w u v (panic, z) b e h = cc
  poll_succeeds d w u v (out_of_fuel, z) b e h = cc

  succeeds :
      (w v : W) (x : Result api.DeletePoller × W)
      → api.begin_delete rg cluster name w ≡ x
      → gone_or x (λ d u. gone_or (api.deleted d u) (λ _. pure tt)) ≡ (ok tt, v)
      → Deletes w v
  unfolding gone_or
  succeeds w v (ok d, u) b h = poll_succeeds d w u v (api.deleted d u) b refl h
  succeeds w v (err e, u) b h =
      let (gone, same_world) = excused e u v (λ d s. gone_or (api.deleted d s) (λ _. pure tt)) h in
      missing (rw same_world at b) (IsNotFound-of e gone)
  succeeds w v (panic, u) b h = cc
  succeeds w v (out_of_fuel, u) b h = cc

  abbrev behind_poll : Result (Unit {0}) × W → Result (Unit {0}) × W
  behind_poll x = gone_or x (λ _. pure tt)

  abbrev behind_begin : Result api.DeletePoller × W → Result (Unit {0}) × W
  behind_begin x = gone_or x (λ d u. behind_poll (api.deleted d u))

  poll_missing : (e : Err) (v : W) → IsNotFound e → behind_poll (err e, v) ≡ (ok tt, v)
  unfolding gone_or
  poll_missing e v h = rw (is_not_found-of h) refl

  begin_missing : (e : Err) (v : W) → IsNotFound e → behind_begin (err e, v) ≡ (ok tt, v)
  unfolding gone_or
  begin_missing e v h = rw (is_not_found-of h) refl

  deletes : {w v : W} → Deletes w v → behind_begin (api.begin_delete rg cluster name w) ≡ (ok tt, v)
  unfolding gone_or
  deletes (finished b e) = ap behind_begin b ∙ ap behind_poll e
  deletes (vanished {e = x} {v = v} b e h) =
      ap behind_begin b ∙ ap behind_poll e ∙ poll_missing x v h
  deletes (missing {e = x} {v = v} b h) = ap behind_begin b ∙ begin_missing x v h

  -- A deletion succeeds exactly when the service accepts it and finishes it, or answers to one of the
  -- two calls with a `ResponseError` of the code `NotFound`, wrapped or not.
  pub delete_agent_pool-ok_iff :
      (w v : W) → (delete_agent_pool api rg name cluster w ≡ (ok tt, v)) ↔ Deletes w v
  delete_agent_pool-ok_iff w v = (
    λ h. succeeds w v (api.begin_delete rg cluster name w) refl (unfold delete_agent_pool in h),
    λ m. unfold delete_agent_pool in deletes m,
  )

-- The pages that a pager delivers in `n` rounds, or the failure that ends them.
abbrev prepend :
    List (Option AgentPool) → Result (List (Option AgentPool)) → Result (List (Option AgentPool))
prepend page (ok rest) = ok (page ++ rest)
prepend page r = r

module _ {W : Type 0} (api : AgentPoolsApi W) where
  pub data Pages : api.Pager → W → ℕ → Result (List (Option AgentPool)) → W → Type 0 where
    done : {pager : api.Pager} {w : W} → api.more pager ≡ false → Pages pager w 0 (ok []) w
    broken :
        {pager : api.Pager} {w : W} {e : Err} {v : W}
        → api.more pager ≡ true
        → api.next_page pager w ≡ (err e, v)
        → Pages pager w 0 (err e) v
    page :
        {pager : api.Pager} {w : W} {n : ℕ} {items : List (Option AgentPool)} {rest : api.Pager}
        {u v : W} {r : Result (List (Option AgentPool))}
        → api.more pager ≡ true
        → api.next_page pager w ≡ (ok (items, rest), u)
        → Pages rest u n r v
        → Pages pager w (suc n) (prepend items r) v

  prepend-nil : (r : Result (List (Option AgentPool))) → prepend [] r ≡ r
  prepend-nil (ok rest) = refl
  prepend-nil (err e) = refl
  prepend-nil panic = refl
  prepend-nil out_of_fuel = refl

  prepend_assoc :
      (xs ys : List (Option AgentPool)) (r : Result (List (Option AgentPool)))
      → prepend (xs ++ ys) r ≡ prepend xs (prepend ys r)
  prepend_assoc xs ys (ok rest) = ap ok (append_assoc xs ys rest)
  prepend_assoc xs ys (err e) = refl
  prepend_assoc xs ys panic = refl
  prepend_assoc xs ys out_of_fuel = refl

  module _ (rg : Bytes) where
    turn :
        (fuel : ℕ) (pager : api.Pager) (acc : List (Option AgentPool)) (w : W)
        → api.more pager ≡ true
        → list_loop api rg (suc fuel) pager acc w
          ≡ continue
              (api.next_page pager w)
              (λ (items, rest). list_loop api rg fuel rest (acc ++ items))
    unfolding list_loop
    turn fuel pager acc w m = rw (m, list_loop)

    list_loop-Pages :
        (fuel : ℕ) (acc : List (Option AgentPool)) {pager : api.Pager} {w : W} {n : ℕ}
        {r : Result (List (Option AgentPool))} {v : W}
        → Pages pager w n r v
        → n < fuel
        → list_loop api rg fuel pager acc w ≡ (prepend acc r, v)
    list_loop-Pages zero acc m h = elim h [ ]
    list_loop-Pages (suc fuel) acc (done {w = w} e) h =
        unfold list_loop in rw (e, list_loop) (rw (append-nil acc))
    list_loop-Pages (suc fuel) acc (broken {pager = g} {w = w} m e) h =
        turn fuel g acc w m
        ∙ ap
            (λ (x : Result (List (Option AgentPool) × api.Pager) × W).
              continue x (λ (items, rest). list_loop api rg fuel rest (acc ++ items)))
            e
    list_loop-Pages (suc fuel) acc
          (page {pager = g} {w = w} {items = items} {rest = rest} {v = v} {r = r} m e later) h =
        turn fuel g acc w m
        ∙ ap
            (λ (x : Result (List (Option AgentPool) × api.Pager) × W).
              continue x (λ (items, rest). list_loop api rg fuel rest (acc ++ items)))
            e
        ∙ list_loop-Pages fuel (acc ++ items) later (omega arith)
        ∙ ap (λ (x : Result (List (Option AgentPool))). (x, v)) (prepend_assoc acc items r)

    -- If the pages end after `n` rounds, then with more fuel than that the listing returns all pools in
    -- the order of the pages, or the error of the page that failed, whatever was read before it.
    pub list_agent_pools-Pages :
        {n : ℕ} {r : Result (List (Option AgentPool))} {v : W} (cluster : Bytes) (w : W) (fuel : ℕ)
        → Pages (api.new_list_pager rg cluster) w n r v
        → n < fuel
        → list_agent_pools api rg fuel cluster w ≡ (r, v)
    unfolding list_agent_pools
    list_agent_pools-Pages {r} {v} cluster w fuel m h =
        list_loop-Pages fuel [] m h
        ∙ ap (λ (x : Result (List (Option AgentPool))). (x, v)) (prepend-nil r)
