-- ===== src/Fake/Client.antt =====
-- pkg/fake/k8sClient.go: a client of the cluster that keeps objects in maps, one for each type. What testify
-- answers for a call, and the callback `UpdateCb`, are parameters. Types are given by their names, a map is
-- read in the order of its entries, and `Scheme`, `RESTMapper` and `Status` are left out.
pub mod Laws
use gpu_provisioner.Base.{Bool, true, false, ◌&&◌, Option, none, some, List, [], ◌∷◌, if◌then◌else◌}
use gpu_provisioner.Base.Text.{Bytes, codes, same}
use gpu_provisioner.Base.Dict.{Dict, lookup, insert}
use gpu_provisioner.Base.Result.{Result, ok, panic}
use gpu_provisioner.Base.Effect.{M}
use gpu_provisioner.Cluster.{Node}

-- `types.NamespacedName`
pub record Key : Type 0 where
  pub namespace : Bytes
  pub name : Bytes

unfoldable pub same_key : Key → Key → Bool
unfolding same
same_key j k = same j.namespace k.namespace && same j.name k.name

-- A pointer to a node or to another object, with its key.
pub data Object : Type 0 where
  node : Key → Node → Object
  other : (type_name : Bytes) → Key → (contents : Bytes) → Object

pub data ObjectList : Type 0 where
  node_list : List Node → ObjectList
  other_list : (type_name : Bytes) → ObjectList

-- `reflect.TypeOf`
abbrev pub type_of : Object → Bytes
type_of (node k n) = codes "*v1.Node"
type_of (other t k contents) = t

abbrev pub list_type_of : ObjectList → Bytes
list_type_of (node_list nodes) = codes "*v1.NodeList"
list_type_of (other_list t) = t

-- `ObjectKeyFromObject`
abbrev pub object_key : Object → Key
object_key (node k n) = k
object_key (other t k contents) = k

abbrev pub Objects : Type 0
Objects = List (Key × Object)

unfoldable pub find : Key → Objects → Option Object
unfolding same_key
find k [] = none
find k ((j, o) ∷ objects) = if same_key j k then some o else find k objects

-- `objects[k] = o`
unfoldable pub put : Key → Object → Objects → Objects
unfolding same_key
put k o [] = (k, o) ∷ []
put k o ((j, p) ∷ objects) =
    let rest = put k o objects in if same_key j k then (k, o) ∷ objects else (j, p) ∷ rest

abbrev pub ObjectMap : Type 0
ObjectMap = Dict Objects

abbrev pub new_client : ObjectMap
new_client = []

abbrev pub or_empty : Option Objects → Objects
or_empty none = []
or_empty (some objects) = objects

abbrev pub ensured : Option Objects → Bytes → ObjectMap → ObjectMap
ensured none t m = insert t [] m
ensured (some objects) t m = m

-- the map of a type, which is made where there is none
unfoldable pub ensure_map_for_type : Bytes → ObjectMap → Objects × ObjectMap
unfolding lookup insert
ensure_map_for_type t m = (or_empty (lookup t m), ensured (lookup t m) t m)

unfoldable pub create_map_with_type : Bytes → ObjectMap → Objects × ObjectMap
unfolding ensure_map_for_type
create_map_with_type t m = ensure_map_for_type t m

unfoldable pub create_or_update_object_in_map : Object → ObjectMap → ObjectMap
unfolding ensure_map_for_type insert put
create_or_update_object_in_map obj m =
    let (objects, n) = ensure_map_for_type (type_of obj) m in
    insert (type_of obj) (put (object_key obj) obj objects) n

abbrev pub or_unchanged : Object → Option Object → Object
or_unchanged obj none = obj
or_unchanged obj (some found) = found

-- The object behind the pointer becomes the one that is found.
unfoldable pub get_object_from_map : Object → Key → ObjectMap → Object × ObjectMap
unfolding ensure_map_for_type find
get_object_from_map obj k m =
    let (objects, n) = ensure_map_for_type (type_of obj) m in (or_unchanged obj (find k objects), n)

-- the nodes among objects
abbrev pub cons_node : Object → List Node → List Node
cons_node (node k n) nodes = n ∷ nodes
cons_node (other t k contents) nodes = nodes

unfoldable pub nodes_of : Objects → List Node
nodes_of [] = []
nodes_of ((k, o) ∷ objects) = cons_node o (nodes_of objects)

-- For all lists but those of nodes there is none.
abbrev pub listed : ObjectList → Objects → Option ObjectList
listed (node_list nodes) objects = some (node_list (nodes_of objects))
listed (other_list t) objects = none

unfoldable pub get_object_list_from_map : ObjectList → ObjectMap → Option ObjectList × ObjectMap
unfolding ensure_map_for_type nodes_of
get_object_list_from_map l m =
    let (objects, n) = ensure_map_for_type (list_type_of l) m in (listed l objects, n)

module _ {W : Type 0} (called : (method : Bytes) → M W (Unit {0}))
    (update_cb : Option (Key → ObjectMap × W → ObjectMap × W)) where
  -- `m.Called(…).Error(0)`
  abbrev pub answer : Bytes → M (ObjectMap × W) (Unit {0})
  answer method (m, w) = let (r, v) = called method w in (r, (m, v))

  abbrev pub changed_by :
      Option (Key → ObjectMap × W → ObjectMap × W) → Key → ObjectMap × W → ObjectMap × W
  changed_by none k s = s
  changed_by (some f) k s = f k s

  -- with the object behind the pointer
  unfoldable pub get : Key → Object → ObjectMap × W → Object × (Result (Unit {0}) × (ObjectMap × W))
  unfolding get_object_from_map
  get k obj s =
      let (m, w) = changed_by update_cb k s in
      let (found, n) = get_object_from_map obj k m in (found, answer (codes "Get") (n, w))

  -- `reflect.ValueOf(nil).Elem()` panics
  abbrev pub set_list :
      ObjectList
      → Option ObjectList
      → ObjectMap × W
      → ObjectList × (Result (Unit {0}) × (ObjectMap × W))
  set_list l none s = (l, (panic, s))
  set_list l (some found) s = (found, answer (codes "List") s)

  unfoldable pub list :
      ObjectList → ObjectMap × W → ObjectList × (Result (Unit {0}) × (ObjectMap × W))
  unfolding get_object_list_from_map
  list l (m, w) = let (found, n) = get_object_list_from_map l m in set_list l found (n, w)

  unfoldable pub create : Object → M (ObjectMap × W) (Unit {0})
  unfolding create_or_update_object_in_map
  create obj (m, w) = answer (codes "Create") (create_or_update_object_in_map obj m, w)

  -- the calls that only testify answers
  abbrev pub delete : Object → M (ObjectMap × W) (Unit {0})
  delete obj s = answer (codes "Delete") s

  abbrev pub update : Object → M (ObjectMap × W) (Unit {0})
  update obj s = answer (codes "Update") s

  abbrev pub patch : Object → M (ObjectMap × W) (Unit {0})
  patch obj s = answer (codes "Patch") s

  abbrev pub delete_all_of : Object → M (ObjectMap × W) (Unit {0})
  delete_all_of obj s = answer (codes "DeleteAllOf") s
