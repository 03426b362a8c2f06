-- ===== src/Instance/Creation.antt =====
-- `Create`: one request for the agent pool, then up to fifteen looks for its node.
use gpu_provisioner.Base.{
  ℕ, suc, ◌≤◌, ◌≡◌, refl, sym, ap, ◌∙◌, Bool, true, false, Option, none, some, List, arith, length,
  ltb, le→not_ltb, Bool-cases, inl, inr,
}
use gpu_provisioner.Base.Text.{Bytes}
use gpu_provisioner.Base.Result.{Err, Result, ok, err, panic, out_of_fuel}
use gpu_provisioner.Base.Effect.{M, continue, ◌>>=◌}
use gpu_provisioner.Cluster.{
  Machine, NodeSelectorRequirement, KubeClient, Backoff, Retry, IsRetry, default_backoff,
}
use gpu_provisioner.Cluster.Retrying.{After, last, now, again, Final, tries-After, After-tries}
use gpu_provisioner.AgentPools.{AgentPool, AgentPoolsApi}
use gpu_provisioner.Instance.{
  Instance, Provider, from_agent_pool_to_instance, create_attempt, find_instance, await_instance,
  node_backoff, create,
}

never-Final : {A : Type 0} (r : Result A) → Final (λ _. false) r
never-Final (ok a) = tt
never-Final (err e) = refl
never-Final panic = tt
never-Final out_of_fuel = tt

module _ {W : Type 0} (retry : Retry W) (laws : IsRetry retry) where
  -- With no error to be retried there is one call.
  on_error_once :
      (A : Type 0) (b : Backoff) (n : ℕ) (f : M W A) (w : W)
      → b.steps ≡ suc n
      → retry.on_error A b (λ _. false) f w ≡ f w
  on_error_once A b n f w e =
      laws.on_error_lem A b n (λ _. false) f e w
      ∙ tries-After (laws.pause b) (λ _. false) f (now refl (never-Final (f w).0))

After-ok :
    {W : Type 0} {A : Type 0} {pause : ℕ → W → W} {retriable : Err → Bool} {f : M W A} {n : ℕ}
    {w : W} {r : Result A} {v : W}
    → After pause retriable f n w r v
    → (u : W) × (f u ≡ (r, v))
After-ok (last {w = w} e) = (w, e)
After-ok (now {w = w} e h) = (w, e)
After-ok (again e t m) = After-ok m

module _ {W : Type 0} (kube : KubeClient W) (retry : Retry W) (p : Provider) (api : AgentPoolsApi W)
    (requirement_values : List NodeSelectorRequirement → Bytes → List Bytes) where
  look : Option AgentPool → M W (Option Instance)
  look = from_agent_pool_to_instance kube retry p

  pub create_pool : Machine → M W AgentPool
  create_pool = create_attempt kube retry p api requirement_values

  -- the part of `Create` behind the request
  abbrev pub behind_request : AgentPool → M W (Option Instance)
  behind_request ap_obj =
      from_agent_pool_to_instance kube retry p (some ap_obj)
      >>= await_instance kube retry p api requirement_values ap_obj

  find-some :
      (x : Result (Option Instance) × W) (o : Option Instance) (v : W)
      → continue x (λ (i : Option Instance). elim i [
        | none ↦ (λ (u : W). (err Err.node_missing, u))
        | some j ↦ (λ (u : W). (ok (some j), u))
      ])
        ≡ (ok o, v)
      → (i : Instance) × (o ≡ some i)
  find-some (ok none, w) o v h = cc
  find-some (ok (some i), w) o v h = (i, ground arith)
  find-some (err e, w) o v h = cc
  find-some (panic, w) o v h = cc
  find-some (out_of_fuel, w) o v h = cc

  too_long :
      (machine : Machine) (w : W) (o : Option Instance) (v : W)
      → ltb 11 (length machine.name) ≡ true
      → ¬ (create kube retry p api requirement_values machine w ≡ (ok o, v))
  unfolding create
  too_long machine w o v e h = ground arith

  module _ (laws : IsRetry retry) where
    -- With a name of at most eleven bytes and a `retry.OnError` as documented, the attempt to make the pool is
    -- not repeated, whatever its answer is, and `Create` goes on only if the pool was made.
    pub create-once :
        (machine : Machine) (w : W)
        → length machine.name ≤ 11
        → create kube retry p api requirement_values machine w
          ≡ continue (create_attempt kube retry p api requirement_values machine w) behind_request
    unfolding create
    create-once machine w h =
        rw (le→not_ltb 11 (length machine.name) h, create)
          (ap (λ (x : Result AgentPool × W). continue x behind_request)
            (on_error_once retry laws AgentPool default_backoff 3
              (create_attempt kube retry p api requirement_values machine) w refl))

    -- For a name of at most eleven bytes and a `retry.OnError` as documented: if the pool is made and its
    -- node is not there, or not ready, at the first look, the result of `Create` is that of the looks
    -- that follow, of which there are at most fifteen, with time passing between two of them.
    pub create_waits :
        (machine : Machine) (ap_obj : AgentPool) (w u x : W) (r : Result (Option Instance)) (v : W)
        → length machine.name ≤ 11
        → create_attempt kube retry p api requirement_values machine w ≡ (ok ap_obj, u)
        → from_agent_pool_to_instance kube retry p (some ap_obj) u ≡ (ok none, x)
        → After
            (laws.pause node_backoff)
            (λ _. true)
            (find_instance kube retry p api requirement_values ap_obj)
            14
            x
            r
            v
        → create kube retry p api requirement_values machine w ≡ (r, v)
    create_waits machine ap_obj w u x r v h made absent m =
        create-once machine w h
        ∙ ap (λ (y : Result AgentPool × W). continue y behind_request) made
        ∙ ap
            (λ (y : Result (Option Instance) × W).
              continue y (await_instance kube retry p api requirement_values ap_obj))
            absent
        ∙ waits
      where
        waits : await_instance kube retry p api requirement_values ap_obj none x ≡ (r, v)
        waits =
            unfold await_instance in
            (laws.on_error_lem (Option Instance) node_backoff 14 (λ _. true)
                (find_instance kube retry p api requirement_values ap_obj) refl x
              ∙ tries-After (laws.pause node_backoff) (λ _. true)
                  (find_instance kube retry p api requirement_values ap_obj) m)

    await-some :
        (ap_obj : AgentPool) (i o : Option Instance) (w v : W)
        → await_instance kube retry p api requirement_values ap_obj i w ≡ (ok o, v)
        → (j : Instance) × (o ≡ some j)
    unfolding await_instance
    await-some ap_obj (some i) o w v h = (i, ground arith)
    await-some ap_obj none o w v h =
        let f = find_instance kube retry p api requirement_values ap_obj in
        let e = laws.on_error_lem (Option Instance) node_backoff 14 (λ _. true) f refl w in
        let m = After-tries (laws.pause node_backoff) (λ _. true) f 14 w in
        let (u, found) = After-ok m in
        find-some (from_agent_pool_to_instance kube retry p (some ap_obj) u) o v (found ∙ sym e ∙ h)

    behind-some :
        (ap_obj : AgentPool) (o : Option Instance) (x : Result (Option Instance) × W) (v : W)
        → continue x (await_instance kube retry p api requirement_values ap_obj) ≡ (ok o, v)
        → (j : Instance) × (o ≡ some j)
    behind-some ap_obj o (ok i, w) v h = await-some ap_obj i o w v h
    behind-some ap_obj o (err e, w) v h = cc
    behind-some ap_obj o (panic, w) v h = cc
    behind-some ap_obj o (out_of_fuel, w) v h = cc

    made-some :
        (o : Option Instance) (x : Result AgentPool × W) (v : W)
        → continue x behind_request ≡ (ok o, v)
        → (j : Instance) × (o ≡ some j)
    made-some o (ok ap_obj, w) v h =
        behind-some ap_obj o (from_agent_pool_to_instance kube retry p (some ap_obj) w) v h
    made-some o (err e, w) v h = cc
    made-some o (panic, w) v h = cc
    made-some o (out_of_fuel, w) v h = cc

    -- Where `retry.OnError` is as documented, `Create` never returns a nil instance without an error.
    pub create-some :
        (machine : Machine) (w : W) (o : Option Instance) (v : W)
        → create kube retry p api requirement_values machine w ≡ (ok o, v)
        → (i : Instance) × (o ≡ some i)
    create-some machine w o v h = elim (Bool-cases (ltb 11 (length machine.name))) [
      | inl long ↦ absurd (too_long machine w o v long h)
      | inr short ↦
          made-some o (create_attempt kube retry p api requirement_values machine w) v
            (sym (create-once machine w (ground arith)) ∙ h)
    ]
