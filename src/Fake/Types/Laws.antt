-- ===== src/Fake/Types/Laws.antt =====
-- What the types for the tests are.
use gpu_provisioner.Base.{◌≡◌, ◌∙◌, refl, inl, inr, Bool-cases, false, Option, none, some}
use gpu_provisioner.Base.Text.{Bytes, codes, same, same_refl}
use gpu_provisioner.Base.Dict.{Dict, lookup, insert, remove, lookup-insert, lookup-remove_other}
use gpu_provisioner.Base.Result.{Ensures, returned, Ensures-bind, Ensures-then, Ensures-map}
use gpu_provisioner.Fake.Types.{
  Parts, InstanceTypeOptions, InstanceType, cpu, memory, pods, is_zero_at, with_default,
  with_defaults, or_default_offerings, is_large, new_instance_type, price_from_resources,
}

module _ (P : Parts) where
  open P use {Quantity, must_parse, Float}

  abbrev pub Has : Bytes → Dict Quantity → Type 0
  Has k resources = (q : Quantity) × (lookup k resources ≡ some q)

  -- A resource is there behind its default, and those that were there still are.
  abbrev Extends : Bytes → Dict Quantity → Dict Quantity → Type 0
  Extends k before after = Has k after × ((j : Bytes) → Has j before → Has j after)

  insert-Extends :
      (k : Bytes) (q : Quantity) (resources : Dict Quantity)
      → Extends k resources (insert k q (remove k resources))
  insert-Extends k q resources = (
    (q, lookup-insert k k q (remove k resources) ∙ rw (same_refl k) refl),
    λ j (p, e). elim (Bool-cases (same k j)) [
      | inl s ↦ (q, lookup-insert k j q (remove k resources) ∙ rw s refl)
      | inr s ↦ (
        p,
        lookup-insert k j q (remove k resources) ∙ rw s (lookup-remove_other k j resources s ∙ e),
      )
    ],
  )

  is_there :
      (k : Bytes) (resources : Dict Quantity)
      → is_zero_at P (lookup k resources) ≡ false
      → Has k resources
  is_there k resources h = by_lookup (lookup k resources) refl h
    where
      by_lookup :
          (o : Option Quantity) → lookup k resources ≡ o → is_zero_at P o ≡ false → Has k resources
      by_lookup none e h = cc
      by_lookup (some q) e h = (q, e)

  with_default-Extends :
      (k text : Bytes) (resources : Dict Quantity)
      → Ensures (Extends k resources) (with_default P k text resources)
  unfolding with_default
  with_default-Extends k text resources = elim (Bool-cases (is_zero_at P (lookup k resources))) [
    | inl e ↦ rw e (Ensures-bind (must_parse text) _ (λ q. returned (insert-Extends k q resources)))
    | inr e ↦ rw e (returned (is_there k resources e, λ j h. h))
  ]

  -- The capacity has processors, memory and pods.
  abbrev pub IsComplete : Dict Quantity → Type 0
  IsComplete resources = Has cpu resources × Has memory resources × Has pods resources

  with_defaults-IsComplete :
      (resources : Dict Quantity) → Ensures IsComplete (with_defaults P resources)
  unfolding with_defaults
  with_defaults-IsComplete resources =
      Ensures-then (with_default P cpu (codes "4") resources) _
        (with_default-Extends cpu (codes "4") resources)
        λ with_cpu (c, _).
          Ensures-then (with_default P memory (codes "4Gi") with_cpu) _
            (with_default-Extends memory (codes "4Gi") with_cpu)
            λ with_memory (m, keeps).
              Ensures-map
                (λ all (p, keeps_all). (keeps_all cpu (keeps cpu c), keeps_all memory m, p))
                (with_default-Extends pods (codes "5") with_memory)

  -- What a type has of its options.
  abbrev pub IsMadeOf : InstanceTypeOptions P → InstanceType P → Type 0
  IsMadeOf o t =
      (t.name ≡ o.name)
      × IsComplete t.capacity
      × (t.offerings ≡ or_default_offerings P (price_from_resources P t.capacity) o.offerings)

  pub new_instance_type-IsMadeOf :
      (o : InstanceTypeOptions P) → Ensures (IsMadeOf o) (new_instance_type P o)
  unfolding new_instance_type
  new_instance_type-IsMadeOf o =
      Ensures-then (with_defaults P o.resources) _ (with_defaults-IsComplete o.resources)
        λ resources complete. Ensures-bind (is_large P resources) _ λ large.
          Ensures-bind (must_parse (codes "100m")) _ λ reserved_cpu.
            Ensures-bind (must_parse (codes "10Mi")) _
              λ reserved_memory. returned (refl, complete, refl)
