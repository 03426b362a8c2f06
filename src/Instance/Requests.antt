-- ===== src/Instance/Requests.antt =====
-- How often `Create` asks the service for a pool, and for which one.
use gpu_provisioner.Base.{
  ℕ, zero, suc, ◌≡◌, refl, sym, ap, ◌∙◌, Bool, true, Option, none, some, List, [], ◌∷◌, ◌++◌,
  append-nil, length, ltb, Bool-cases, inl, inr, if◌then◌else◌, arith,
}
use gpu_provisioner.Base.Text.{Bytes, codes}
use gpu_provisioner.Base.Dict.{Dict}
use gpu_provisioner.Base.Result.{
  Err, Result, ok, err, panic, out_of_fuel, deref, from_ptr, begin_create,
}
use gpu_provisioner.Base.Effect.{M, continue, lift, in_context}
use gpu_provisioner.Ids.{parse_sub_id_from_id}
use gpu_provisioner.Cluster.{
  Machine, NodeSelectorRequirement, KubeClient, Backoff, Retry, IsRetry, default_retry, tries,
  unless_retried,
}
use gpu_provisioner.AgentPools.{AgentPool, AgentPoolsApi, create_agent_pool}
use gpu_provisioner.Instance.Pool.{new_agent_pool_object}
use gpu_provisioner.Instance.{
  Instance, Provider, get_node_by_name, from_agent_pool_to_instance, create_attempt, find_instance,
  await_instance, node_backoff, create,
}
use gpu_provisioner.Instance.Creation.{create-once}

-- A call of `BeginCreateOrUpdate`.
pub record Request : Type 0 where
  pub resource_group : Bytes
  pub cluster : Bytes
  pub name : Bytes
  pub pool : AgentPool

-- The requests that were made so far. Neither the wait for an answer, nor a look into the cluster, nor the
-- time between two attempts makes one.
pub record IsLog {W : Type 0} (kube : KubeClient W) (retry : Retry W) (laws : IsRetry retry)
    (api : AgentPoolsApi W) (requests : W → List Request) : Type 0 where
  pub asked :
      (rg cluster name : Bytes) (a : AgentPool) (w : W)
      → requests (api.begin_create_or_update rg cluster name a w).1
        ≡ requests w
          ++ record { resource_group = rg; cluster = cluster; name = name; pool = a } ∷ []
  pub answered :
      (poller : api.CreatePoller) (w : W) → requests (api.created poller w).1 ≡ requests w
  pub looked :
      (selector : Dict Bytes) (w : W) → requests (kube.list_nodes selector w).1 ≡ requests w
  pub waited : (b : Backoff) (n : ℕ) (w : W) → requests (laws.pause b n w) ≡ requests w

module _ {W : Type 0} (requests : W → List Request) where
  -- a call that makes no request
  abbrev Keeps : {A : Type 0} → M W A → Type 0
  Keeps m = (w : W) → requests (m w).1 ≡ requests w

  continue-Keeps :
      {A B : Type 0} (x : Result A × W) (f : A → M W B)
      → ((a : A) → Keeps (f a))
      → requests (continue x f).1 ≡ requests x.1
  continue-Keeps (ok a, w) f h = h a w
  continue-Keeps (err e, w) f h = refl
  continue-Keeps (panic, w) f h = refl
  continue-Keeps (out_of_fuel, w) f h = refl

  unless_retried-Keeps :
      {A : Type 0} (pause : ℕ → W → W) (retriable : Err → Bool) (rest : M W A) (n : ℕ)
      (x : Result A × W)
      → ((w : W) → requests (pause n w) ≡ requests w)
      → Keeps rest
      → requests (unless_retried pause retriable rest n x).1 ≡ requests x.1
  unfolding unless_retried
  unless_retried-Keeps pause retriable rest n (ok a, w) still h = refl
  unless_retried-Keeps pause retriable rest n (err e, w) still h = elim (Bool-cases (retriable e)) [
    | inl t ↦ rw (t, unless_retried) (h (pause n w) ∙ still w)
    | inr t ↦ rw (t, unless_retried) refl
  ]
  unless_retried-Keeps pause retriable rest n (panic, w) still h = refl
  unless_retried-Keeps pause retriable rest n (out_of_fuel, w) still h = refl

  tries-Keeps :
      {A : Type 0} (pause : ℕ → W → W) (retriable : Err → Bool) (f : M W A) (n : ℕ)
      → ((k : ℕ) (w : W) → requests (pause k w) ≡ requests w)
      → Keeps f
      → Keeps (tries pause retriable f n)
  unfolding tries
  tries-Keeps pause retriable f zero still h w = h w
  tries-Keeps pause retriable f (suc n) still h w =
      unless_retried-Keeps pause retriable (tries pause retriable f n) n (f w) (still n)
        (tries-Keeps pause retriable f n still h)
      ∙ h w

module _ {W : Type 0} (kube : KubeClient W) (retry : Retry W) (laws : IsRetry retry) (p : Provider)
    (api : AgentPoolsApi W) (requirement_values : List NodeSelectorRequirement → Bytes → List Bytes)
    (requests : W → List Request) (log : IsLog kube retry laws api requests) where
  on_error-Keeps :
      (A : Type 0) (b : Backoff) (n : ℕ) (retriable : Err → Bool) (f : M W A)
      → b.steps ≡ suc n
      → Keeps requests f
      → Keeps requests (retry.on_error A b retriable f)
  on_error-Keeps A b n retriable f e h w =
      ap (λ (x : Result A × W). requests x.1) (laws.on_error_lem A b n retriable f e w)
      ∙ tries-Keeps requests (laws.pause b) retriable f n (log.waited b) h w

  get_node_by_name-Keeps : (name : Bytes) → Keeps requests (get_node_by_name kube retry p name)
  unfolding get_node_by_name
  get_node_by_name-Keeps name w =
      continue-Keeps requests _ _ (λ nodes u. refl)
      ∙ on_error-Keeps _ default_retry _ (λ _. true) (kube.list_nodes _) refl (log.looked _) w

  look-Keeps : (a : Option AgentPool) → Keeps requests (from_agent_pool_to_instance kube retry p a)
  unfolding from_agent_pool_to_instance
  look-Keeps none w = refl
  look-Keeps (some a) w =
      continue-Keeps requests (parse_sub_id_from_id (from_ptr a.id), w) _
        λ subscription u.
          continue-Keeps requests (get_node_by_name kube retry p (from_ptr a.name) u) _
            (λ node v. refl)
          ∙ get_node_by_name-Keeps (from_ptr a.name) u

  find_instance-Keeps :
      (a : AgentPool) → Keeps requests (find_instance kube retry p api requirement_values a)
  unfolding find_instance
  find_instance-Keeps a w =
      continue-Keeps requests (from_agent_pool_to_instance kube retry p (some a) w) _ end
      ∙ look-Keeps (some a) w
    where
      end :
          (o : Option Instance)
          → Keeps requests (elim o [
            | none ↦ (λ (u : W). (err Err.node_missing, u))
            | some i ↦ (λ (u : W). (ok (some i), u))
          ])
      end none u = refl
      end (some i) u = refl

  await_instance-Keeps :
      (a : AgentPool) (o : Option Instance)
      → Keeps requests (await_instance kube retry p api requirement_values a o)
  unfolding await_instance
  await_instance-Keeps a (some i) w = refl
  await_instance-Keeps a none w =
      on_error-Keeps (Option Instance) node_backoff 14 (λ _. true)
        (find_instance kube retry p api requirement_values a) refl (find_instance-Keeps a) w

  -- what an attempt for a machine asks for
  abbrev pub wanted : Machine → List Bytes → List Request
  wanted machine [] = []
  wanted machine (vm_size ∷ _) =
      record {
        resource_group = p.resource_group;
        cluster = p.cluster_name;
        name = machine.name;
        pool = new_agent_pool_object vm_size machine;
      }
      ∷ []

  create_agent_pool-requests :
      (a : AgentPool) (machine : Machine) (w : W)
      → requests (create_agent_pool api p.resource_group machine.name p.cluster_name a w).1
        ≡ requests w
          ++ record {
            resource_group = p.resource_group;
            cluster = p.cluster_name;
            name = machine.name;
            pool = a;
          }
            ∷ []
  unfolding create_agent_pool
  create_agent_pool-requests a machine w =
      continue-Keeps requests
        (api.begin_create_or_update p.resource_group p.cluster_name machine.name a w) _
        (λ poller u. log.answered poller u)
      ∙ log.asked p.resource_group p.cluster_name machine.name a w

  id_read :
      (a : AgentPool)
      → Keeps requests
          (λ (u : W). continue (lift (deref a.id) u) (λ (_ : Bytes) (v : W). (ok a, v)))
  id_read a u =
      continue-Keeps requests (deref a.id, u) (λ (_ : Bytes) (v : W). (ok a, v)) (λ _ v. refl)

  create_attempt-requests :
      (machine : Machine) (w : W)
      → requests (create_attempt kube retry p api requirement_values machine w).1
        ≡ requests w
          ++ wanted machine
              (requirement_values machine.requirements (codes "node.kubernetes.io/instance-type"))
  unfolding create_attempt
  create_attempt-requests machine w =
      by_types (requirement_values machine.requirements (codes "node.kubernetes.io/instance-type"))
        refl
    where
      by_types :
          (vs : List Bytes)
          → requirement_values machine.requirements (codes "node.kubernetes.io/instance-type") ≡ vs
          → requests (create_attempt kube retry p api requirement_values machine w).1
            ≡ requests w ++ wanted machine vs
      by_types [] e = rw (e, create_attempt) (sym (append-nil (requests w)))
      by_types (vm_size ∷ vs) e =
          rw (e, create_attempt)
            (continue-Keeps requests
                (in_context (begin_create machine.name)
                  (create_agent_pool api p.resource_group machine.name p.cluster_name
                    (new_agent_pool_object vm_size machine))
                  w)
                _ id_read
              ∙ create_agent_pool-requests (new_agent_pool_object vm_size machine) machine w)

  -- If `retry.OnError` is as documented, then whatever the service answers, and however often the node is
  -- looked for, `Create` makes exactly one request to create a pool: for the pool of the machine with
  -- the first size of its requirements, under its name in the cluster of the provider. If
  -- the name has more than eleven bytes, or there is no size, it makes none.
  pub create-requests :
      (machine : Machine) (w : W)
      → requests (create kube retry p api requirement_values machine w).1
        ≡ requests w
          ++ (if ltb 11 (length machine.name)
              then []
              else wanted machine (
                  requirement_values machine.requirements
                    (codes "node.kubernetes.io/instance-type")))
  create-requests machine w = elim (Bool-cases (ltb 11 (length machine.name))) [
    | inl long ↦ rw long (unfold create in rw long (sym (append-nil (requests w))))
    | inr short ↦ rw short (
        ap (λ (x : Result (Option Instance) × W). requests x.1)
          (create-once kube retry p api requirement_values laws machine w (ground (arith, short)))
        ∙ continue-Keeps requests (create_attempt kube retry p api requirement_values machine w) _
            (λ a u.
              continue-Keeps requests (from_agent_pool_to_instance kube retry p (some a) u) _
                (await_instance-Keeps a)
              ∙ look-Keeps (some a) u)
        ∙ create_attempt-requests machine w)
  ]
