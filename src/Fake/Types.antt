-- ===== src/Fake/Types.antt =====
-- pkg/fake/instanceType.go: instance types for the tests. Quantities, floating point numbers and the
-- requirements of Karpenter are parameters. A map is read in the order of its entries, and a set of operating
-- systems is a list without duplicates.
pub mod Tables
pub mod Assorted
pub mod Laws
use gpu_provisioner.Base.{Bool, true, false, ◌||◌, Option, none, some, List, [], ◌∷◌, if◌then◌else◌}
use gpu_provisioner.Base.Text.{Bytes, codes, same}
use gpu_provisioner.Base.Dict.{Dict, lookup, insert, remove}
use gpu_provisioner.Base.Int.{ℤ, sprint}
use gpu_provisioner.Base.Sort.{sort_strings}
use gpu_provisioner.Base.Result.{Result, ok, ◌>>=◌}
use gpu_provisioner.InstanceTypes.Skus.{Operator, op_in, op_does_not_exist}
use gpu_provisioner.InstanceTypes.Requirements.{Offering, available_capacity_types}

abbrev pub label_instance_size : Bytes
label_instance_size = codes "size"

abbrev pub exotic_instance_label_key : Bytes
exotic_instance_label_key = codes "special"

abbrev pub integer_instance_label_key : Bytes
integer_instance_label_key = codes "integer"

abbrev pub resource_gpu_vendor_a : Bytes
resource_gpu_vendor_a = codes "fake.com/vendor-a"

abbrev pub resource_gpu_vendor_b : Bytes
resource_gpu_vendor_b = codes "fake.com/vendor-b"

abbrev pub cpu : Bytes
cpu = codes "cpu"

abbrev pub memory : Bytes
memory = codes "memory"

abbrev pub pods : Bytes
pods = codes "pods"

-- `resource.Quantity`, `float64`, and package scheduling. `insert_at` is `requirements.Get(label).Insert(value)`.
pub record Parts : Type 1 where
  pub Quantity : Type 0
  -- panics on a text that is no quantity
  pub must_parse : Bytes → Result Quantity
  pub is_zero : Quantity → Bool
  pub zero_quantity : Quantity
  pub value : Quantity → ℤ
  -- `a.Cmp(b) > 0`
  pub is_above : Quantity → Quantity → Bool
  pub Float : Type 0
  pub approximate : Quantity → Float
  pub nought : Float
  pub one : Float
  pub a_tenth : Float
  pub billion : Float
  pub plus : Float → Float → Float
  pub times : Float → Float → Float
  pub over : Float → Float → Float
  pub Requirement : Type 0
  pub Requirements : Type 0
  pub new_requirement : Bytes → Operator → List Bytes → Requirement
  pub new_requirements : List Requirement → Requirements
  pub insert_at : (label value : Bytes) → Requirements → Requirements

-- the zones of `offerings.Available()`
unfoldable pub available_zones : {Price : Type 0} → List (Offering Price) → List Bytes
available_zones [] = []
available_zones (o ∷ offerings) =
    let rest = available_zones offerings in if o.available then o.zone ∷ rest else rest

module _ (P : Parts) where
  open P use {Quantity, must_parse, Float, Requirement, Requirements, new_requirement}

  pub record InstanceTypeOptions : Type 0 where
    pub name : Bytes
    pub offerings : List (Offering Float)
    pub architecture : Bytes
    pub operating_systems : List Bytes
    pub resources : Dict Quantity

  pub record InstanceType : Type 0 where
    pub name : Bytes
    pub requirements : Requirements
    pub offerings : List (Offering Float)
    pub capacity : Dict Quantity
    pub kube_reserved : Dict Quantity

  -- what a resource adds to the price
  unfoldable pub add_price : Bytes → Quantity → Float → Float
  unfolding same
  add_price k v price =
      if same k cpu
      then P.plus price (P.times P.a_tenth (P.approximate v))
      else if same k memory
      then P.plus price (P.over (P.times P.a_tenth (P.approximate v)) P.billion)
      else if same k resource_gpu_vendor_a || same k resource_gpu_vendor_b
      then P.plus price P.one
      else price

  unfoldable pub price_loop : Dict Quantity → Float → Float
  unfolding add_price
  price_loop [] price = price
  price_loop ((k, v) ∷ resources) price = price_loop resources (add_price k v price)

  abbrev pub price_from_resources : Dict Quantity → Float
  price_from_resources resources = price_loop resources P.nought

  abbrev pub is_zero_at : Option Quantity → Bool
  is_zero_at none = true
  is_zero_at (some q) = P.is_zero q

  -- `resources[k] = resource.MustParse(text)` where the resource is missing or zero
  unfoldable pub with_default : Bytes → Bytes → Dict Quantity → Result (Dict Quantity)
  unfolding lookup insert remove
  with_default k text resources =
      if is_zero_at (lookup k resources)
      then must_parse text >>= (λ q. ok (insert k q (remove k resources)))
      else ok resources

  unfoldable pub with_defaults : Dict Quantity → Result (Dict Quantity)
  unfolding with_default
  with_defaults resources = do
    with_cpu ← with_default cpu (codes "4") resources
    with_memory ← with_default memory (codes "4Gi") with_cpu
    with_default pods (codes "5") with_memory

  abbrev pub default_offering : Float → (capacity_type zone : Bytes) → Offering Float
  default_offering price capacity_type zone = record {
    capacity_type = capacity_type;
    zone = zone;
    price = price;
    available = true;
  }

  abbrev pub or_default_offerings : Float → List (Offering Float) → List (Offering Float)
  or_default_offerings price [] =
      default_offering price (codes "spot") (codes "test-zone-1")
      ∷ default_offering price (codes "spot") (codes "test-zone-2")
      ∷ default_offering price (codes "on-demand") (codes "test-zone-1")
      ∷ default_offering price (codes "on-demand") (codes "test-zone-2")
      ∷ default_offering price (codes "on-demand") (codes "test-zone-3")
      ∷ []
  or_default_offerings price (o ∷ offerings) = o ∷ offerings

  abbrev pub or_amd64 : Bytes → Bytes
  or_amd64 [] = codes "amd64"
  or_amd64 (c ∷ architecture) = c ∷ architecture

  abbrev pub or_all_systems : List Bytes → List Bytes
  or_all_systems [] = codes "linux" ∷ codes "windows" ∷ codes "darwin" ∷ []
  or_all_systems (s ∷ systems) = s ∷ systems

  abbrev pub or_zero : Option Quantity → Quantity
  or_zero none = P.zero_quantity
  or_zero (some q) = q

  abbrev pub one_of : Bytes → List Bytes → Requirement
  one_of label values = new_requirement label op_in values

  abbrev pub none_of : Bytes → Requirement
  none_of label = new_requirement label op_does_not_exist []

  unfoldable pub initial_requirements :
      InstanceTypeOptions → List (Offering Float) → Dict Quantity → Requirements
  unfolding sort_strings available_zones available_capacity_types lookup sprint
  initial_requirements o offerings resources = P.new_requirements (
      one_of (codes "node.kubernetes.io/instance-type") (o.name ∷ [])
      ∷ one_of (codes "kubernetes.io/arch") (or_amd64 o.architecture ∷ [])
      ∷ one_of (codes "kubernetes.io/os") (sort_strings (or_all_systems o.operating_systems))
      ∷ one_of (codes "topology.kubernetes.io/zone") (available_zones offerings)
      ∷ one_of (codes "karpenter.sh/capacity-type") (available_capacity_types offerings)
      ∷ none_of label_instance_size
      ∷ none_of exotic_instance_label_key
      ∷ one_of integer_instance_label_key (sprint (P.value (or_zero (lookup cpu resources))) ∷ [])
      ∷ [])

  -- whether a resource is above what a text says
  abbrev pub is_above_text : Bytes → Bytes → Dict Quantity → Result Bool
  is_above_text k text resources =
      must_parse text >>= λ q. ok (P.is_above (or_zero (lookup k resources)) q)

  abbrev pub and_then : Bool → Result Bool → Result Bool
  and_then true r = r
  and_then false r = ok false

  -- more than four processors and eight gibibytes
  unfoldable pub is_large : Dict Quantity → Result Bool
  unfolding lookup
  is_large resources = is_above_text cpu (codes "4") resources >>= λ large.
      and_then large (is_above_text memory (codes "8Gi") resources)

  abbrev pub with_size : Bool → Requirements → Requirements
  with_size true requirements =
      P.insert_at exotic_instance_label_key (codes "optional")
        (P.insert_at label_instance_size (codes "large") requirements)
  with_size false requirements = P.insert_at label_instance_size (codes "small") requirements

  unfoldable pub new_instance_type : InstanceTypeOptions → Result InstanceType
  unfolding with_defaults price_loop initial_requirements is_large insert
  new_instance_type o = do
    resources ← with_defaults o.resources
    let offerings = or_default_offerings (price_from_resources resources) o.offerings
    large ← is_large resources
    reserved_cpu ← must_parse (codes "100m")
    reserved_memory ← must_parse (codes "10Mi")
    ok (record {
      name = o.name;
      requirements = with_size large (initial_requirements o offerings resources);
      offerings = offerings;
      capacity = resources;
      kube_reserved = insert memory reserved_memory (insert cpu reserved_cpu []);
    })
