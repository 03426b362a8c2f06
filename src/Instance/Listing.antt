-- ===== src/Instance/Listing.antt =====
-- `List`: the instances of the pools whose nodes are ready, in the order of the pages.
use gpu_provisioner.Base.{
  ℕ, ◌<◌, ◌≡◌, ◌≢◌, refl, sym, ap, ◌∙◌, Option, none, some, List, [], ◌∷◌, ◌++◌, append_assoc,
  append-nil,
}
use gpu_provisioner.Base.Text.{Bytes}
use gpu_provisioner.Base.Result.{
  Err, Result, ok, err, panic, out_of_fuel, wrap, listing_pools, no_agent_pools,
}
use gpu_provisioner.Base.Effect.{continue, in_context}
use gpu_provisioner.Cluster.{NodeSelectorRequirement, KubeClient, Retry}
use gpu_provisioner.AgentPools.{AgentPool, AgentPoolsApi}
use gpu_provisioner.AgentPools.Laws.{Pages, list_agent_pools-Pages}
use gpu_provisioner.Instance.{
  Instance, Provider, from_agent_pool_to_instance, collect, from_ap_list_to_instances, list,
}

abbrev pub prepend : List Instance → Result (List Instance) → Result (List Instance)
prepend is (ok rest) = ok (is ++ rest)
prepend is r = r

prepend-nil : (r : Result (List Instance)) → prepend [] r ≡ r
prepend-nil (ok rest) = refl
prepend-nil (err e) = refl
prepend-nil panic = refl
prepend-nil out_of_fuel = refl

prepend_assoc :
    (xs ys : List Instance) (r : Result (List Instance))
    → prepend (xs ++ ys) r ≡ prepend xs (prepend ys r)
prepend_assoc xs ys (ok rest) = ap ok (append_assoc xs ys rest)
prepend_assoc xs ys (err e) = refl
prepend_assoc xs ys panic = refl
prepend_assoc xs ys out_of_fuel = refl

module _ {W : Type 0} (kube : KubeClient W) (retry : Retry W) (p : Provider) where
  -- The instances of a list of pools, looked up one after another, or the first failure.
  pub data Found : List (Option AgentPool) → W → Result (List Instance) → W → Type 0 where
    none_left : {w : W} → Found [] w (ok []) w
    ready :
        {a : Option AgentPool} {as_rest : List (Option AgentPool)} {w : W} {i : Instance} {u : W}
        {r : Result (List Instance)} {v : W}
        → from_agent_pool_to_instance kube retry p a w ≡ (ok (some i), u)
        → Found as_rest u r v
        → Found (a ∷ as_rest) w (prepend (i ∷ []) r) v
    absent :
        {a : Option AgentPool} {as_rest : List (Option AgentPool)} {w : W} {u : W}
        {r : Result (List Instance)} {v : W}
        → from_agent_pool_to_instance kube retry p a w ≡ (ok none, u)
        → Found as_rest u r v
        → Found (a ∷ as_rest) w r v
    failed :
        {a : Option AgentPool} {as_rest : List (Option AgentPool)} {w : W} {e : Err} {v : W}
        → from_agent_pool_to_instance kube retry p a w ≡ (err e, v)
        → Found (a ∷ as_rest) w (err e) v

  abbrev onward :
      List (Option AgentPool)
      → List Instance
      → Result (Option Instance) × W
      → Result (List Instance) × W
  onward rest acc x = continue x (λ (i : Option Instance).
      collect kube retry p rest (elim i [ none ↦ acc | some j ↦ acc ++ j ∷ [] ]))

  collect-Found :
      {aps : List (Option AgentPool)} {w : W} {r : Result (List Instance)} {v : W}
      → Found aps w r v
      → (acc : List Instance) → collect kube retry p aps acc w ≡ (prepend acc r, v)
  unfolding collect
  collect-Found (none_left {w = w}) acc =
      ap (λ (x : List Instance). (ok x, w)) (sym (append-nil acc))
  collect-Found (ready {as_rest = rest} {i = i} {r = r} {v = v} e m) acc =
      ap (onward rest acc) e
      ∙ collect-Found m (acc ++ i ∷ [])
      ∙ ap (λ (x : Result (List Instance)). (x, v)) (prepend_assoc acc (i ∷ []) r)
  collect-Found (absent {as_rest = rest} e m) acc = ap (onward rest acc) e ∙ collect-Found m acc
  collect-Found (failed {as_rest = rest} e) acc = ap (onward rest acc) e

  Found-all :
      (aps : List (Option AgentPool)) {w : W} {r : Result (List Instance)} {v : W}
      → aps ≢ []
      → Found aps w r v
      → from_ap_list_to_instances kube retry p aps w ≡ (r, v)
  unfolding from_ap_list_to_instances
  Found-all [] h m = absurd (h refl)
  Found-all (a ∷ rest) {r = r} {v = v} h m =
      collect-Found m [] ∙ ap (λ (x : Result (List Instance)). (x, v)) (prepend-nil r)

  module _ (api : AgentPoolsApi W)
      (requirement_values : List NodeSelectorRequirement → Bytes → List Bytes) where
    abbrev behind_pages : Result (List (Option AgentPool)) × W → Result (List Instance) × W
    behind_pages x =
        continue (in_context listing_pools (λ (_ : W). x) x.1)
          (from_ap_list_to_instances kube retry p)

    list-Pages :
        (fuel n : ℕ) (w : W) (r : Result (List (Option AgentPool))) (u : W)
        → Pages api (api.new_list_pager p.resource_group p.cluster_name) w n r u
        → n < fuel
        → list kube retry p api requirement_values fuel w ≡ behind_pages (r, u)
    unfolding list
    list-Pages fuel n w r u pages h =
        ap behind_pages (list_agent_pools-Pages api p.resource_group p.cluster_name w fuel pages h)

    -- If the pages end after `n` rounds with some pools, then with more fuel than that `List` returns
    -- the instances of the pools whose nodes are ready, in the order of the pages, or the first error of
    -- a lookup.
    pub list-Found :
        (fuel n : ℕ) (w : W) (aps : List (Option AgentPool)) (u : W) (r : Result (List Instance))
        (v : W)
        → Pages api (api.new_list_pager p.resource_group p.cluster_name) w n (ok aps) u
        → n < fuel
        → aps ≢ []
        → Found aps u r v
        → list kube retry p api requirement_values fuel w ≡ (r, v)
    list-Found fuel n w aps u r v pages h some_pools m =
        list-Pages fuel n w (ok aps) u pages h ∙ Found-all aps some_pools m

    -- What `List` makes of a failed page, or of no pool.
    abbrev pub failure : Result (List (Option AgentPool)) → Result (List Instance)
    failure (ok aps) = err no_agent_pools
    failure (err e) = err (wrap listing_pools e)
    failure panic = panic
    failure out_of_fuel = out_of_fuel

    -- If a page fails, or the pages end with no pool at all, then with more fuel than rounds `List`
    -- returns an error, wrapped for a page, and no instance.
    pub list_fails :
        (fuel n : ℕ) (w : W) (r : Result (List (Option AgentPool))) (u : W)
        → Pages api (api.new_list_pager p.resource_group p.cluster_name) w n r u
        → n < fuel
        → ((aps : List (Option AgentPool)) → r ≡ ok aps → aps ≡ [])
        → list kube retry p api requirement_values fuel w ≡ (failure r, u)
    list_fails fuel n w r u pages h none_read = list-Pages fuel n w r u pages h ∙ fails r none_read
      where
        fails :
            (x : Result (List (Option AgentPool)))
            → ((aps : List (Option AgentPool)) → x ≡ ok aps → aps ≡ [])
            → behind_pages (x, u) ≡ (failure x, u)
        fails (ok aps) k = unfold from_ap_list_to_instances in rw (k aps refl)
        fails (err e) k = refl
        fails panic k = refl
        fails out_of_fuel k = refl
