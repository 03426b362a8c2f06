-- ===== src/Fake/Types/Assorted.antt =====
-- How many types the tables have, and which.
use gpu_provisioner.Base.{
  ℕ, zero, suc, ◌+◌, ◌*◌, ◌<◌, ◌≡◌, ◌∙◌, refl, ap, true, some, List, [], ◌∷◌, length, get_elem?,
  All, All-append, arith, length-append,
}
use gpu_provisioner.Base.Text.{Bytes}
use gpu_provisioner.Base.Result.{
  Result, ok, Ensures, returned, Ensures-bind, Ensures-then, Ensures-self, Ensures-ok,
}
use gpu_provisioner.InstanceTypes.Requirements.{Offering}
use gpu_provisioner.Fake.Types.{Parts, InstanceType, new_instance_type}
use gpu_provisioner.Fake.Types.Laws.{IsComplete, new_instance_type-IsMadeOf}
use gpu_provisioner.Fake.Types.Tables.{
  for_all, parsed, nth_instance_type, types_loop, instance_types, assorted_type,
  instance_types_assorted, assorted_resources, assorted_options, processor_counts, memories, zones,
  capacity_types, system_sets, architectures,
}

-- so many elements, all of which have a property
abbrev Counts : {B : Type 0} → ℕ → (B → Type 0) → List B → Type 0
Counts n Q bs = (length bs ≡ n) × All Q bs

for_all-Counts :
    {A B : Type 0} (n : ℕ) (Q : B → Type 0) (xs : List A) (f : A → Result (List B))
    → ((x : A) → Ensures (Counts n Q) (f x))
    → Ensures (Counts (length xs * n) Q) (for_all xs f)
unfolding for_all
for_all-Counts n Q [] f h = returned (omega arith, tt)
for_all-Counts n Q (x ∷ xs) f h = Ensures-then (f x) _ (h x) λ bs (count, every).
    Ensures-then (for_all xs f) _ (for_all-Counts n Q xs f h) λ rest (rest_count, rest_every).
      returned (
        grind (arith, count, rest_count, length-append bs rest),
        All-append Q bs rest every rest_every,
      )

module _ (P : Parts) where
  -- One offering, which is available, and a capacity with all that a node needs.
  abbrev pub IsSingle : InstanceType P → Type 0
  IsSingle t =
      (o : Offering P.Float) × (t.offerings ≡ o ∷ [])
      × (o.available ≡ true)
      × IsComplete P t.capacity

  assorted_type-Counts :
      (processors mem : ℕ) (zone capacity_type : Bytes) (systems : List Bytes) (arch : Bytes)
      → Ensures (Counts 1 IsSingle) (assorted_type P processors mem zone capacity_type systems arch)
  unfolding assorted_type
  assorted_type-Counts processors mem zone capacity_type systems arch =
      Ensures-bind (parsed P (assorted_resources P processors mem)) _ λ resources.
        let options = assorted_options P processors mem zone capacity_type systems arch resources in
        Ensures-then (new_instance_type P options) _ (new_instance_type-IsMadeOf P options)
          λ t (name, complete, offerings).
            returned {a = t ∷ []} (refl, ((_, offerings, refl, complete), tt))

  -- If `InstanceTypesAssorted` does not panic, it makes 1344 types, each of which has one offering, which is
  -- available, and processors, memory and pods in its capacity.
  pub instance_types_assorted-Counts :
      Ensures (λ ts. (length ts ≡ 1344) × All IsSingle ts) (instance_types_assorted P)
  unfolding instance_types_assorted
  instance_types_assorted-Counts = for_all-Counts 192 IsSingle processor_counts _ λ processors.
      for_all-Counts 24 IsSingle memories _ λ mem. for_all-Counts 8 IsSingle zones _ λ zone.
        for_all-Counts 4 IsSingle capacity_types _ λ capacity_type.
          for_all-Counts 2 IsSingle system_sets _ λ systems.
            for_all-Counts 1 IsSingle architectures _
              λ arch. assorted_type-Counts processors mem zone capacity_type systems arch

  -- what the rounds of the loop make, from a round on
  abbrev AreNth : ℕ → ℕ → List (InstanceType P) → Type 0
  AreNth rounds first ts =
      (length ts ≡ rounds)
      × ((i : ℕ)
          → i < rounds
          → (t : InstanceType P) × (get_elem? ts i ≡ some t)
            × (nth_instance_type P (first + i) ≡ ok t))

  types_loop-AreNth : (rounds first : ℕ) → Ensures (AreNth rounds first) (types_loop P rounds first)
  unfolding types_loop
  types_loop-AreNth zero first = returned (refl, λ i h. elim h [ ])
  types_loop-AreNth (suc rounds) first =
      Ensures-then (nth_instance_type P first) _ (Ensures-self (nth_instance_type P first))
        λ t made.
          Ensures-then (types_loop P rounds (suc first)) _ (types_loop-AreNth rounds (suc first))
            λ rest (count, nth). returned (ap suc count, behind t rest made nth)
    where
      behind :
          (t : InstanceType P) (rest : List (InstanceType P))
          → nth_instance_type P first ≡ ok t
          → ((i : ℕ)
              → i < rounds
              → (u : InstanceType P) × (get_elem? rest i ≡ some u)
                × (nth_instance_type P (suc first + i) ≡ ok u))
          → (i : ℕ) → i < suc rounds
          → (u : InstanceType P) × (get_elem? (t ∷ rest) i ≡ some u)
            × (nth_instance_type P (first + i) ≡ ok u)
      behind t rest made nth zero h =
          let here : first + 0 ≡ first = omega arith in
          (t, refl, ap (nth_instance_type P) here ∙ made)
      behind t rest made nth (suc i) h =
          let (u, e, k) = nth i (omega (arith, h)) in
          let there : first + suc i ≡ suc first + i = omega arith in
          (u, e, ap (nth_instance_type P) there ∙ k)

  -- If `InstanceTypes` returns types, there are as many as were asked for, and the one at every place is that
  -- of its number.
  pub instance_types-AreNth :
      (total : ℕ) {ts : List (InstanceType P)}
      → instance_types P total ≡ ok ts
      → (length ts ≡ total)
        × ((i : ℕ)
            → i < total
            → (t : InstanceType P) × (get_elem? ts i ≡ some t) × (nth_instance_type P i ≡ ok t))
  unfolding instance_types
  instance_types-AreNth total e =
      let nth = Ensures-ok (rw e at (types_loop-AreNth total 0)) in
      (
        nth.0,
        λ i h.
            let (t, found, made) = nth.1 i h in
            let same_number : i ≡ 0 + i = omega arith in
            (t, found, ap (nth_instance_type P) same_number ∙ made),
      )
