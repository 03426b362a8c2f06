-- ===== src/Tests/Doubles.antt =====
-- Examples for the test doubles (pkg/fake).
use gpu_provisioner.Base.{
  get_elem?, suc, ltb, true, false, ℕ, ◌+◌, ◌-◌, ◌≡◌, ◌≢◌, ◌&&◌, if◌then◌else◌, refl, Option, none,
  some, List, [], ◌∷◌,
}
use gpu_provisioner.Base.Text.{Bytes, codes, same}
use gpu_provisioner.Base.Dict.{Dict, lookup, insert, assign, or_else}
use gpu_provisioner.Base.Result.{◌>>=◌, Err, Result, ok, external}
use gpu_provisioner.Base.Int.{pos}
use gpu_provisioner.Base.Effect.{M}
use gpu_provisioner.Pricing.Client.{ProductsPricePage}
use gpu_provisioner.Fake.Clone.{Json, IsJson}
use gpu_provisioner.Fake.Error.{AtomicError, limit}
use gpu_provisioner.Fake.Error.Laws.{answers}
use gpu_provisioner.Fake.Stack.{AtomicPtrStack}
use gpu_provisioner.Fake.Stack.Laws.{
  Call, call_add, call_len, call_pop, specified_all, performed_all, performed_all-specified_all,
}
use gpu_provisioner.Fake.Mocked.{MockedFunction, Returned}
use gpu_provisioner.Fake.Machines.{CloudProvider, new_cloud_provider}
use gpu_provisioner.Fake.Machines.Creation.{
  InstanceType, Karpenter, new_labels, candidates, label_topology_zone, label_capacity_type,
  create as create_machine,
}
use gpu_provisioner.Fake.Machines.Zone.{fits, sold_out, create-IsFirstFit}
use gpu_provisioner.Cluster.{Machine}
use gpu_provisioner.Fake.Types as Types
use gpu_provisioner.Fake.Types.{Parts}
use gpu_provisioner.Fake.Types.Tables.{instance_types}
use gpu_provisioner.Fake.Client.{Key, same_key, node, other, node_list, type_of, get, list, create}
use gpu_provisioner.Fake.Client.Laws.{get-create, list-create}
use gpu_provisioner.Tests.Sample.{machine, node as sample_node}

abbrev refused : Err
refused = external (codes "refused")

-- An error that was answered once already.
abbrev once : AtomicError
once = record { error = none; calls = 1; max_calls = 1 }

two_errors :
    answers (some refused) (limit (pos 3) - 1) 4 ≡ some refused ∷ some refused ∷ none ∷ none ∷ []
unfolding limit
two_errors = refl

-- Texts as their own JSON.
abbrev bytes_json : Json Bytes
bytes_json = record { encode = encoded; decode = λ buf. ok buf }
  where
    encoded : Option Bytes → Result Bytes
    encoded none = ok []
    encoded (some v) = ok v

bytes_json-IsJson : IsJson bytes_json
bytes_json-IsJson = record { round_trip = λ v. (v, refl, refl) }

abbrev stack : AtomicPtrStack Bytes
stack = record { values = codes "a" ∷ codes "b" ∷ [] }

abbrev stack_calls : List (Call Bytes)
stack_calls = call_add (codes "c") ∷ call_len ∷ call_pop ∷ call_pop ∷ []

performed_all-specified_all_example :
    performed_all bytes_json stack_calls stack
    ≡ specified_all stack_calls (codes "b" ∷ codes "a" ∷ [])
performed_all-specified_all_example =
    performed_all-specified_all bytes_json-IsJson stack_calls stack

abbrev function : MockedFunction Bytes Bytes
function = record {
  output = record { value = none };
  called_with_input = record { values = [] };
  error = record { error = some refused; calls = 0; max_calls = 1 };
  successful_calls = 0;
  failed_calls = 0;
}

-- A transformer that echoes its input.
abbrev echo : Option Bytes → Result (Returned Bytes)
echo none = ok ([], some refused)
echo (some x) = ok (x, none)

echo_returns : (i : Option Bytes) → (x : Returned Bytes) × (echo i ≡ ok x)
echo_returns none = (_, refl)
echo_returns (some x) = (_, refl)

abbrev inputs : List Bytes
inputs = codes "a" ∷ codes "b" ∷ []

abbrev page : ProductsPricePage ℕ ℕ
page = record {
  billing_currency = codes "USD";
  customer_entity_id = [];
  customer_entity_type = [];
  items = [];
  next_page_link = [];
  count = 0;
}

abbrev page_json : Json (ProductsPricePage ℕ ℕ)
page_json = record { encode = λ v. ok []; decode = λ buf. ok page }

-- Two types of the same price, and no sorting.
abbrev karpenter : Karpenter ℕ ℕ
karpenter = record {
  Requirements = Unit {0};
  new_node_selector_requirements = λ rs. tt;
  has_value = λ r label value. same value (codes "small");
  is_compatible = λ r zone capacity_type. true;
  cheapest_price = λ r os. 1;
  is_less = λ a b. ltb a b;
  sort_slice = λ less ts. ts;
  random_provider_id = λ w. (codes "id", suc w);
}

abbrev types : List (InstanceType ℕ)
types =
    record { name = codes "large"; requirements = []; offerings = [] }
    ∷ record {
      name = codes "small";
      requirements = (codes "arch", record { is_in = true; values = codes "amd64" ∷ [] }) ∷ [];
      offerings =
          record { zone = codes "z1"; capacity_type = codes "spot"; price = 1; available = false }
          ∷ record { zone = codes "z2"; capacity_type = codes "spot"; price = 2; available = true }
          ∷ [];
    }
    ∷ []

made_labels :
    new_labels karpenter tt types
    ≡ ok (
        (codes "karpenter.sh/capacity-type", codes "spot")
        ∷ (codes "topology.kubernetes.io/zone", codes "z2")
        ∷ (codes "arch", codes "amd64")
        ∷ [])
unfolding new_labels same codes
made_labels = refl

abbrev small_labels : Dict Bytes
small_labels =
    (codes "karpenter.sh/capacity-type", codes "spot")
    ∷ (codes "topology.kubernetes.io/zone", codes "z2")
    ∷ (codes "arch", codes "amd64")
    ∷ []

abbrev made_machine : Machine
made_machine = record machine {
  labels = assign small_labels machine.labels;
  provider_id = codes "id";
}

abbrev small : InstanceType ℕ
small = record {
  name = codes "small";
  requirements = (codes "arch", record { is_in = true; values = codes "amd64" ∷ [] }) ∷ [];
  offerings =
      record { zone = codes "z1"; capacity_type = codes "spot"; price = 1; available = false }
      ∷ record { zone = codes "z2"; capacity_type = codes "spot"; price = 2; available = true }
      ∷ [];
}

abbrev after_create : CloudProvider × ℕ
after_create = (
  record new_cloud_provider {
    create_calls = machine ∷ [];
    created_machines = insert (codes "id") made_machine [];
  },
  1,
)

makes_small :
    create_machine karpenter types machine (new_cloud_provider, 0) ≡ (ok made_machine, after_create)
unfolding create_machine new_labels same codes insert assign new_cloud_provider
makes_small = refl

small_first : candidates karpenter tt types ≡ small ∷ []
unfolding candidates same codes
small_first = refl

create-IsFirstFit_example :
    (lookup label_topology_zone made_machine.labels
      ≡ or_else (lookup label_topology_zone machine.labels) (some (codes "z2")))
    × (lookup label_capacity_type made_machine.labels
        ≡ or_else (lookup label_capacity_type machine.labels) (some (codes "spot")))
create-IsFirstFit_example =
    create-IsFirstFit karpenter types small []
      (record { zone = codes "z2"; capacity_type = codes "spot"; price = 2; available = true })
      machine made_machine new_cloud_provider 0 after_create small_first
      (sold_out refl (fits refl refl)) makes_small

-- A client for which testify has no errors.
abbrev called : (method : Bytes) → M ℕ (Unit {0})
called method w = (ok tt, w)

abbrev key : Key
key = record { namespace = []; name = codes "n" }

get-create_example :
    (get called none key
      (node key sample_node)
      (create called none (other (codes "*v1.Pod") key []) ([], 0)).1).0
    ≡ (if same (codes "*v1.Pod") (codes "*v1.Node") && same_key key key
        then other (codes "*v1.Pod") key []
        else (get called none key (node key sample_node) ([], 0)).0)
get-create_example =
    get-create called (other (codes "*v1.Pod") key []) (node key sample_node) key [] 0

not_listed : type_of (node key sample_node) ≢ codes "*v1.NodeList"
unfolding codes
not_listed e = cc

list-create_example :
    (list called none (node_list []) (create called none (node key sample_node) ([], 0)).1).0
    ≡ (list called none (node_list []) ([], 0)).0
list-create_example = list-create called (node key sample_node) [] [] 0 not_listed

-- Quantities are their texts, and requirements the labels that they name.
abbrev parts : Parts
parts = record {
  Quantity = Bytes;
  must_parse = λ s. ok s;
  is_zero = λ q. same q (codes "0");
  zero_quantity = codes "0";
  value = λ q. pos 1;
  is_above = λ p q. false;
  Float = ℕ;
  approximate = λ q. 1;
  nought = 0;
  one = 10;
  a_tenth = 1;
  billion = 1;
  plus = λ a b. a + b;
  times = λ a b. a;
  over = λ a b. a;
  Requirement = Bytes;
  Requirements = List Bytes;
  new_requirement = λ label op values. label;
  new_requirements = λ rs. rs;
  insert_at = λ label value rs. rs;
}

abbrev capacity_of : Option (Types.InstanceType parts) → Option (Bytes × Option Bytes)
capacity_of none = none
capacity_of (some t) = some (t.name, lookup Types.memory t.capacity)

-- The second type of the table.
second_type :
    (instance_types parts 2 >>= λ ts. ok (capacity_of (get_elem? ts 1)))
    ≡ ok (some (codes "fake-it-1", some (codes "4Gi")))
unfolding instance_types lookup same codes
second_type = refl

vendor_price : Types.price_from_resources parts ((codes "fake.com/vendor-a", codes "2") ∷ []) ≡ 10
unfolding Types.price_loop codes
vendor_price = refl
