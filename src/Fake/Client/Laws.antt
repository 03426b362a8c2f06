-- ===== src/Fake/Client/Laws.antt =====
-- What the client finds of what was created.
use gpu_provisioner.Base.{
  ◌≡◌, ◌≢◌, ◌∙◌, refl, sym, ap, inl, inr, Bool-cases, true, false, ◌&&◌, Option-cases, none, some,
  List, [], ◌∷◌, arith, if◌then◌else◌,
}
use gpu_provisioner.Base.Text.{Bytes, codes, same, same_iff, same_refl, same_other}
use gpu_provisioner.Base.Dict.{lookup, insert}
use gpu_provisioner.Base.Effect.{M}
use gpu_provisioner.Cluster.{Node}
use gpu_provisioner.Fake.Client.{
  Key, same_key, Object, node_list, type_of, object_key, Objects, find, put, ObjectMap, or_empty,
  or_unchanged, ensured, ensure_map_for_type, create_or_update_object_in_map, get_object_from_map,
  nodes_of, get, list, create,
}

same_key-eq : (j k : Key) → same_key j k ≡ true → j ≡ k
unfolding same_key
same_key-eq j k h = ground (arith, same_iff j.namespace k.namespace, same_iff j.name k.name)

same_key_refl : (k : Key) → same_key k k ≡ true
unfolding same_key
same_key_refl k = rw (same_refl k.namespace, same_refl k.name) refl

same_key_other : (i j k : Key) → same_key i k ≡ false → same_key i j ≡ true → same_key k j ≡ false
same_key_other i j k e f = elim (Bool-cases (same_key k j)) [
  | inl g ↦
      let found : same_key i k ≡ true =
        ap (same_key i) (same_key-eq k j g ∙ sym (same_key-eq i j f)) ∙ same_key_refl i in
      cc
  | inr g ↦ g
]

find-put :
    (k j : Key) (o : Object) (objects : Objects)
    → find j (put k o objects) ≡ (if same_key k j then some o else find j objects)
unfolding find put
find-put k j o [] = refl
find-put k j o ((i, p) ∷ objects) = elim (Bool-cases (same_key i k)) [
  | inl e ↦ rw e (ground (arith, same_key-eq i k e))
  | inr e ↦ rw e (elim (Bool-cases (same_key i j)) [
    | inl f ↦ rw (f, same_key_other i j k e f) refl
    | inr f ↦ rw f (find-put k j o objects)
  ])
]

-- The map of a type is there behind `ensureMapForType`, and the others are as they were.
lookup-ensured :
    (t u : Bytes) (m : ObjectMap)
    → or_empty (lookup u (ensured (lookup t m) t m)) ≡ or_empty (lookup u m)
unfolding lookup insert
lookup-ensured t u m = elim (Option-cases (lookup t m)) [
  | inl e ↦ rw e (elim (Bool-cases (same t u)) [
    | inl f ↦
        rw f (ap or_empty (sym (ap (λ (s : Bytes). lookup s m) (sym ((same_iff t u).0 f)) ∙ e)))
    | inr f ↦ rw f refl
  ])
  | inr (objects, e) ↦ rw e refl
]

-- the objects of a type
abbrev objects_of : Bytes → ObjectMap → Objects
objects_of t m = or_empty (lookup t m)

objects_of-create :
    (u : Bytes) (o : Object) (m : ObjectMap)
    → objects_of u (create_or_update_object_in_map o m)
      ≡ (if same (type_of o) u then put (object_key o) o (objects_of u m) else objects_of u m)
unfolding create_or_update_object_in_map ensure_map_for_type lookup insert
objects_of-create u o m = elim (Bool-cases (same (type_of o) u)) [
  | inl e ↦
      rw e
        (ap (λ (t : Bytes). put (object_key o) o (objects_of t m)) ((same_iff (type_of o) u).0 e))
  | inr e ↦ rw e (lookup-ensured (type_of o) u m)
]

module _ {W : Type 0} (called : (method : Bytes) → M W (Unit {0})) where
  -- Where there is no callback, `Get` behind `Create` gives the created object for its type and key, whatever
  -- testify answers to the two calls, and what it gave before for any other type or key.
  pub get-create :
      (o obj : Object) (k : Key) (m : ObjectMap) (w : W)
      → (get called none k obj (create called none o (m, w)).1).0 ≡ (
          if same (type_of o) (type_of obj) && same_key (object_key o) k
          then o
          else (get called none k obj (m, w)).0)
  unfolding get create get_object_from_map ensure_map_for_type
  get-create o obj k m w =
      ap (λ (os : Objects). or_unchanged obj (find k os)) (objects_of-create (type_of obj) o m)
      ∙ elim (Bool-cases (same (type_of o) (type_of obj))) [
        | inl e ↦ rw e (
            ap (or_unchanged obj) (find-put (object_key o) k o (objects_of (type_of obj) m))
            ∙ elim (Bool-cases (same_key (object_key o) k)) [
              | inl f ↦ rw f refl
              | inr f ↦ rw f refl
            ])
        | inr e ↦ rw e refl
      ]

  -- Where no callback is set, a node that was created is not listed: what `List` gives for a list of nodes
  -- is the same before and behind `Create`, whatever was created but an object whose type is that of the
  -- list.
  pub list-create :
      (o : Object) (nodes : List Node) (m : ObjectMap) (w : W)
      → type_of o ≢ codes "*v1.NodeList"
      → (list called none (node_list nodes) (create called none o (m, w)).1).0
        ≡ (list called none (node_list nodes) (m, w)).0
  unfolding list create
  list-create o nodes m w h =
      let list_type = codes "*v1.NodeList" in
      let same_objects : objects_of list_type (create_or_update_object_in_map o m)
          ≡ objects_of list_type m =
        objects_of-create list_type o m ∙ rw (same_other (type_of o) list_type h) refl in
      ap (λ (os : Objects). node_list (nodes_of os)) same_objects
