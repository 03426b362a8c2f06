-- ===== src/Tests/Instances.antt =====
-- Examples for the instance provider (pkg/providers/instance/instance.go).
use gpu_provisioner.Base.{ℕ, ◌≡◌, refl, Option, none, some, [], ◌∷◌, arith}
use gpu_provisioner.Base.Text.{codes, head_after}
use gpu_provisioner.Base.Result.{ok, err, response, node_missing}
use gpu_provisioner.Cluster.{is_ready, tries}
use gpu_provisioner.Cluster.Retrying.{now, again}
use gpu_provisioner.AgentPools.{AgentPoolsApi}
use gpu_provisioner.AgentPools.Laws.{broken}
use gpu_provisioner.Ids.{parse_sub_id_from_id}
use gpu_provisioner.Instance.{
  Instance, to_instance, from_agent_pool_to_instance, create_attempt, find_instance, create, list,
}
use gpu_provisioner.Instance.Laws.{IsNodeOf}
use gpu_provisioner.Instance.Creation.{create_waits, create-some}
use gpu_provisioner.Instance.Listing.{none_left, ready, failure, list-Found, list_fails}
use gpu_provisioner.Tests.Sample.{
  api, kube, retry, retry-IsRetry, provider, requirement_values, machine, pool, properties, node,
}
use gpu_provisioner.Tests.Pools.{two-Pages}

pub node-IsNodeOf : IsNodeOf (codes "pool1") node
unfolding head_after codes
node-IsNodeOf = record {
  prefix = codes "aks";
  suffix = codes "123-vmss";
  scale_set = refl;
  prefix_plain = omega arith;
  pool_plain = omega arith;
  is_field = omega arith;
}

abbrev pub made : Instance
made = to_instance provider pool properties (codes "sub-1") node

attempted : create_attempt kube retry provider api requirement_values machine 0 ≡ (ok pool, 1)
unfolding create_attempt codes
attempted = refl

not_ready : from_agent_pool_to_instance kube retry provider (some pool) 1 ≡ (ok none, 2)
unfolding from_agent_pool_to_instance parse_sub_id_from_id tries codes
not_ready = refl

not_found : find_instance kube retry provider api requirement_values pool 2 ≡ (err node_missing, 3)
unfolding find_instance from_agent_pool_to_instance parse_sub_id_from_id tries codes
not_found = refl

found : find_instance kube retry provider api requirement_values pool 3 ≡ (ok (some made), 4)
unfolding find_instance from_agent_pool_to_instance parse_sub_id_from_id to_instance is_ready tries
    codes
found = refl

create_waits_example :
    create kube retry provider api requirement_values machine 0 ≡ (ok (some made), 4)
create_waits_example =
    create_waits kube retry provider api requirement_values retry-IsRetry machine pool 0 1 2
      (ok (some made)) 4 (unfold codes in omega arith) attempted not_ready
      (again not_found refl (now found tt))

pub created : create kube retry provider api requirement_values machine 0 ≡ (ok (some made), 4)
created =
    create_waits kube retry provider api requirement_values retry-IsRetry machine pool 0 1 2
      (ok (some made)) 4 (unfold codes in omega arith) attempted not_ready
      (again not_found refl (now found tt))

create-some_example : (i : Instance) × (◌≡◌ {A = Option Instance} (some made) (some i))
create-some_example =
    create-some kube retry provider api requirement_values retry-IsRetry machine 0 (some made) 4
      created

listed : from_agent_pool_to_instance kube retry provider (some pool) 5 ≡ (ok (some made), 6)
unfolding from_agent_pool_to_instance parse_sub_id_from_id to_instance is_ready tries codes
listed = refl

listed_again : from_agent_pool_to_instance kube retry provider (some pool) 6 ≡ (ok (some made), 7)
unfolding from_agent_pool_to_instance parse_sub_id_from_id to_instance is_ready tries codes
listed_again = refl

list-Found_example :
    list kube retry provider api requirement_values 3 5 ≡ (ok (made ∷ made ∷ []), 7)
list-Found_example =
    list-Found kube retry provider api requirement_values 3 2 5 (some pool ∷ some pool ∷ []) 5
      (ok (made ∷ made ∷ [])) 7 two-Pages (omega arith) (cc)
      (ready listed (ready listed_again none_left))

-- A page that fails.
abbrev broken_api : AgentPoolsApi ℕ
broken_api = record api { next_page = λ n w. (err (response (codes "Throttled")), w) }

list_fails_example : list kube retry provider broken_api requirement_values 3 5 ≡ (
  failure kube retry provider broken_api requirement_values (err (response (codes "Throttled"))),
  5,
)
list_fails_example =
    list_fails kube retry provider broken_api requirement_values 3 0 5
      (err (response (codes "Throttled"))) 5 (broken refl refl) (omega arith) (λ aps h. cc)
