-- ===== src/Tests/Service.antt =====
-- A service that keeps the agent pools of one cluster, and what a deletion leaves of them.
use gpu_provisioner.Base.{
  ◌≡◌, refl, ap, ◌∙◌, arith, false, Option, none, some, [], ◌∷◌, if◌then◌else◌,
}
use gpu_provisioner.Base.Text.{Bytes, codes, same, to_lower, head_after}
use gpu_provisioner.Base.Dict.{Dict, lookup, insert, remove, lookup-remove, lookup-remove_other}
use gpu_provisioner.Base.Result.{Err, Result, ok, err, response}
use gpu_provisioner.Cluster.{KubeClient, Retry}
use gpu_provisioner.AgentPools.{AgentPool, AgentPoolsApi}
use gpu_provisioner.AgentPools.Store.{Store}
use gpu_provisioner.Instance
use gpu_provisioner.Instance.{to_instance}
use gpu_provisioner.Ids.{parse_agent_pool_name_from_id}
use gpu_provisioner.CloudProvider.Machines.{made}
use gpu_provisioner.CloudProvider.{get, delete}
use gpu_provisioner.CloudProvider.Store.{pool-delete, get-delete}
use gpu_provisioner.Tests.Sample.{provider, requirement_values, pool, properties, node}
use gpu_provisioner.Tests.Instances.{node-IsNodeOf}
use gpu_provisioner.Tests.Providers.{both, converted}

abbrev Pools : Type 0
Pools = Dict AgentPool

abbrev missing : Err
missing = response (codes "NotFound")

abbrev begin_at : Option AgentPool → Bytes → Pools → Result Bytes × Pools
begin_at none name w = (err missing, w)
begin_at (some a) name w = (ok name, w)

abbrev get_at : Option AgentPool → Pools → Result AgentPool × Pools
get_at none w = (err missing, w)
get_at (some a) w = (ok a, w)

abbrev service : AgentPoolsApi Pools
service = record {
  CreatePoller = AgentPool;
  DeletePoller = Bytes;
  Pager = Unit {0};
  begin_create_or_update = λ rg cluster name ap_obj w. (ok ap_obj, insert name ap_obj w);
  created = λ ap_obj w. (ok ap_obj, w);
  get = λ rg cluster name w. get_at (lookup name w) w;
  begin_delete = λ rg cluster name w. begin_at (lookup name w) name w;
  deleted = λ name w. (ok tt, remove name w);
  new_list_pager = λ rg cluster. tt;
  more = λ _. false;
  next_page = λ pager w. (ok ([], pager), w);
}

module _ (name : Bytes) (w : Pools) where
  refused_at :
      (o : Option AgentPool) {e : Err} {v : Pools}
      → lookup name w ≡ o
      → begin_at o name w ≡ (err e, v)
      → lookup name v ≡ none
  refused_at none h b = cc
  refused_at (some a) h b = cc

  begun_at :
      (o : Option AgentPool) {d : Bytes} {v : Pools}
      → begin_at o name w ≡ (ok d, v)
      → (d ≡ name) × (v ≡ w)
  begun_at none b = cc
  begun_at (some a) b = (cc, cc)

  unchanged_at :
      (o : Option AgentPool) {r : Result Bytes} {v : Pools} → begin_at o name w ≡ (r, v) → v ≡ w
  unchanged_at none b = cc
  unchanged_at (some a) b = cc

  ended_at :
      (o : Option AgentPool) {d : Bytes} {r : Result (Unit {0})} {u v : Pools}
      → begin_at o name w ≡ (ok d, u)
      → service.deleted d u ≡ (r, v)
      → v ≡ remove name u
  ended_at o b h = let (same_name, _) = begun_at o b in cc

never_vanished :
    (d : Bytes) (u : Pools) {e : Err} {v : Pools} → service.deleted d u ≡ (err e, v) → ⊥
never_vanished d u h = cc

absent_at : (o : Option AgentPool) (w : Pools) → o ≡ none → (e : Err) × ((get_at o w).0 ≡ err e)
absent_at none w h = (missing, refl)
absent_at (some a) w h = cc

abbrev store : Store service
store = record {
  pool = λ rg cluster. lookup;
  refused = λ rg cluster name {w = w} b h. refused_at name w (lookup name w) refl b;
  ended = λ rg cluster name {w = w} {u = u} b h.
      ap (lookup name) (ended_at name w (lookup name w) b h) ∙ lookup-remove name u;
  vanished = λ rg cluster name {d = d} {u = u} b h gone. absurd (never_vanished d u h);
  begin_keeps = λ rg cluster name other {w = w} b h.
      ap (lookup other) (unchanged_at name w (lookup name w) b);
  end_keeps = λ rg cluster name other {w = w} {u = u} b h o.
      ap (lookup other) (ended_at name w (lookup name w) b h) ∙ lookup-remove_other name other u o;
  absent = λ rg cluster name w h. absent_at (lookup name w) w h;
}

abbrev one_node : KubeClient Pools
one_node = record { list_nodes = λ selector w. (ok (node ∷ []), w) }

abbrev once : Retry Pools
once = record { on_error = λ A backoff retriable f. f }

abbrev two_pools : Pools
two_pools = (codes "pool1", pool) ∷ (codes "pool2", pool) ∷ []

gone :
    delete one_node once provider service requirement_values both.0 two_pools
    ≡ (ok tt, (codes "pool2", pool) ∷ [])
unfolding delete Instance.delete parse_agent_pool_name_from_id made to_instance codes to_lower
    head_after lookup remove
gone = refl

pool-delete_example :
    lookup (codes "pool2") ((codes "pool2", pool) ∷ [])
    ≡ (if same (codes "pool1") (codes "pool2") then none else lookup (codes "pool2") two_pools)
pool-delete_example =
    pool-delete one_node once provider service requirement_values store pool properties
      (codes "sub-1") (codes "pool1") node both.0 both.1 two_pools ((codes "pool2", pool) ∷ [])
      converted (unfold codes in omega arith) (unfold codes in omega arith) node-IsNodeOf gone
      (codes "pool2")

get-delete_example :
    (e : Err) × ((get one_node once provider service requirement_values both.0.provider_id
        ((codes "pool2", pool) ∷ [])).0
      ≡ err e)
get-delete_example =
    get-delete one_node once provider service requirement_values store pool properties
      (codes "sub-1") (codes "pool1") node both.0 both.1 two_pools ((codes "pool2", pool) ∷ [])
      converted (unfold codes in omega arith) (unfold codes in omega arith) node-IsNodeOf gone
