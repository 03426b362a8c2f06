-- ===== src/Tests/Providers.antt =====
-- Examples for the cloud provider (pkg/cloudprovider).
use gpu_provisioner.Base.{◌≡◌, refl, true, none, some, [], arith}
use gpu_provisioner.Base.Text.{Bytes, codes, same}
use gpu_provisioner.Base.Dict.{lookup, or_else}
use gpu_provisioner.Base.Result.{ok, from_ptr, pool_delete}
use gpu_provisioner.Base.Effect.{in_context}
use gpu_provisioner.Cluster.{Machine, is_ready, tries}
use gpu_provisioner.AgentPools.{delete_agent_pool, get_agent_pool}
use gpu_provisioner.Instance.{Instance, to_instance, get_node_by_name}
use gpu_provisioner.Instance.Pool.{provisioner_name_label_key}
use gpu_provisioner.CloudProvider.{create, get, delete}
use gpu_provisioner.CloudProvider.Machines.{label_capacity_type, made, instance_to_machine}
use gpu_provisioner.Ids.{parse_sub_id_from_id}
use gpu_provisioner.CloudProvider.Identity.{get-machine}
use gpu_provisioner.CloudProvider.Laws.{tag, only, machine-labels, create-machine, delete-machine}
use gpu_provisioner.Tests.Sample.{
  api, kube, retry, provider, requirement_values, machine, pool, properties, node,
}
use gpu_provisioner.Tests.Instances.{node-IsNodeOf, created}

abbrev pub instance_made : Instance
instance_made = to_instance provider pool properties (codes "sub-1") node

abbrev pub both : Machine × Instance
both = made instance_made instance_made.labels []

pub converted : instance_to_machine (some instance_made) ≡ ok both
unfolding instance_to_machine to_instance lookup
converted = refl

machine-labels_example :
    (lookup (codes "team") both.0.labels
      ≡ or_else
          (only
            (same provisioner_name_label_key (codes "team"))
            (tag provisioner_name_label_key []))
          (or_else
            (only (same label_capacity_type (codes "team")) none)
            (lookup (codes "team") instance_made.labels)))
    × (both.0.name ≡ codes "pool1")
    × (both.0.provider_id ≡ from_ptr instance_made.id)
unfolding to_instance
machine-labels_example = machine-labels instance_made both.1 both.0 (codes "team") converted

create-machine_example :
    (n : Machine) × (create kube retry provider api requirement_values machine 0 ≡ (ok n, 4))
    × (n.name ≡ from_ptr instance_made.name)
    × (n.provider_id ≡ from_ptr instance_made.id)
    × ((k : Bytes) → lookup k n.labels ≡ lookup k both.0.labels)
create-machine_example =
    create-machine kube retry provider api requirement_values machine 0 4 instance_made both.1
      both.0 created converted

delete-machine_example :
    delete kube retry provider api requirement_values both.0 0
    ≡ in_context
        (pool_delete (codes "pool1"))
        (delete_agent_pool api (codes "rg") (codes "pool1") (codes "cluster"))
        0
delete-machine_example =
    delete-machine kube retry provider api requirement_values pool properties (codes "sub-1")
      (codes "pool1") node both.0 both.1 0 converted (unfold codes in omega arith)
      (unfold codes in omega arith) node-IsNodeOf

seen : get_node_by_name kube retry provider (codes "pool1") 5 ≡ (ok (some node), 6)
unfolding get_node_by_name tries
seen = refl

of_sub : parse_sub_id_from_id (from_ptr pool.id) ≡ ok (codes "sub-1")
unfolding parse_sub_id_from_id codes
of_sub = refl

node_ready : is_ready node ≡ true
unfolding is_ready codes
node_ready = refl

get-machine_example :
    get kube retry provider api requirement_values both.0.provider_id 5 ≡ (ok both.0, 6)
get-machine_example =
    get-machine kube retry provider api requirement_values pool properties (codes "sub-1")
      (codes "pool1") node both.0 both.1 5 5 6 converted (unfold codes in omega arith)
      (unfold codes in omega arith) node-IsNodeOf (unfold get_agent_pool in refl) refl of_sub seen
      node_ready
