-- ===== src/Fake/Stack/Laws.antt =====
-- `AtomicPtrStack` against a stack as one knows it: a list with its top in front.
use gpu_provisioner.Base.{
  ℕ, ◌≡◌, ◌∙◌, refl, sym, ap, Option, none, some, List, [], ◌∷◌, ◌++◌, length, length-append, arith,
}
use gpu_provisioner.Base.Result.{Result, ok, err, panic, out_of_fuel, ◌>>=◌}
use gpu_provisioner.Fake.Clone.{Json, IsJson, clone-some}
use gpu_provisioner.Fake.Stack.{
  AtomicPtrStack, reset, add, len, behind, last_and_front, popped, pop,
}

pub add-some :
    {T : Type 0} {json : Json T}
    → IsJson json
    → (v : T) (a : AtomicPtrStack T)
    → add json (some v) a ≡ ok (record { values = a.values ++ v ∷ [] })
unfolding add
add-some {T = T} laws v a =
    ap (λ (r : Result T). r >>= λ u. ok (record { values = a.values ++ u ∷ [] }))
      (clone-some laws v)

-- The calls, with inputs that are not nil.
pub data Call (T : Type 0) : Type 0 where
  call_reset call_len call_pop : Call T
  call_add : T → Call T

pub data Answer (T : Type 0) : Type 0 where
  done : Answer T
  length_is : ℕ → Answer T
  value_is : T → Answer T

module _ {T : Type 0} where
  -- The specification.
  abbrev specified : Call T → List T → Result (Answer T × List T)
  specified call_reset s = ok (done, [])
  specified call_len s = ok (length_is (length s), s)
  specified (call_add v) s = ok (done, v ∷ s)
  specified call_pop [] = panic
  specified call_pop (v ∷ s) = ok (value_is v, s)

  abbrev with_answer : Answer T → Result (List (Answer T)) → Result (List (Answer T))
  with_answer x r = r >>= λ answers. ok (x ∷ answers)

  -- What the answers to the calls in turn are, up to a panic.
  unfoldable pub specified_all : List (Call T) → List T → Result (List (Answer T))
  specified_all [] s = ok []
  specified_all (c ∷ cs) s = specified c s >>= λ x. with_answer x.0 (specified_all cs x.1)

  abbrev performed : Json T → Call T → AtomicPtrStack T → Result (Answer T × AtomicPtrStack T)
  performed json call_reset a = ok (done, reset a)
  performed json call_len a = ok (length_is (len a), a)
  performed json (call_add v) a = add json (some v) a >>= λ b. ok (done, b)
  performed json call_pop a = pop a >>= λ x. ok (value_is x.0, x.1)

  unfoldable pub performed_all :
      Json T → List (Call T) → AtomicPtrStack T → Result (List (Answer T))
  unfolding reset len add pop
  performed_all json [] a = ok []
  performed_all json (c ∷ cs) a =
      performed json c a >>= λ x. with_answer x.0 (performed_all json cs x.1)

  -- The stack that the values stand for.
  abbrev pub tops : List T → List T
  tops [] = []
  tops (v ∷ vs) = tops vs ++ v ∷ []

  tops-append : (vs : List T) (v : T) → tops (vs ++ v ∷ []) ≡ v ∷ tops vs
  tops-append [] v = refl
  tops-append (u ∷ vs) v = ap (λ (s : List T). s ++ u ∷ []) (tops-append vs v)

  length-tops : (vs : List T) → length (tops vs) ≡ length vs
  length-tops [] = refl
  length-tops (v ∷ vs) = omega (arith, length-append (tops vs) (v ∷ []), length-tops vs)

  -- The values without their last one, and the last one, are the rest of the stack and its top.
  abbrev pair_of : Option (T × List T) → List T
  pair_of none = []
  pair_of (some (last, front)) = last ∷ tops front

  tops-last_and_front : (vs : List T) → tops vs ≡ pair_of (last_and_front vs)
  unfolding last_and_front
  tops-last_and_front [] = refl
  tops-last_and_front (v ∷ vs) =
      ap (λ (s : List T). s ++ v ∷ []) (tops-last_and_front vs) ∙ moved (last_and_front vs)
    where
      moved : (o : Option (T × List T)) → pair_of o ++ v ∷ [] ≡ pair_of (some (behind v o))
      moved none = refl
      moved (some (last, front)) = refl

  -- What one call does to the stack of the values.
  abbrev abstracted : Result (Answer T × AtomicPtrStack T) → Result (Answer T × List T)
  abstracted r = r >>= λ x. ok (x.0, tops x.1.values)

  step :
      {json : Json T} (laws : IsJson json) (c : Call T) (a : AtomicPtrStack T)
      → abstracted (performed json c a) ≡ specified c (tops a.values)
  unfolding reset len pop
  step laws call_reset a = refl
  step laws call_len a =
      ap (λ (n : ℕ). ok (length_is n, tops a.values)) (sym (length-tops a.values))
  step laws (call_add v) a =
      ap (λ (r : Result (AtomicPtrStack T)). abstracted (r >>= λ b. ok (done, b)))
        (add-some laws v a)
      ∙ ap (λ (s : List T). ok (done, s)) (tops-append a.values v)
  step laws call_pop a =
      by_last (last_and_front a.values)
      ∙ ap (specified call_pop) (sym (tops-last_and_front a.values))
    where
      by_last :
          (o : Option (T × List T))
          → abstracted (popped o >>= λ x. ok (value_is x.0, x.1)) ≡ specified call_pop (pair_of o)
      by_last none = refl
      by_last (some (last, front)) = refl

  module _ {json : Json T} (laws : IsJson json) where
    -- If values survive their JSON as documented, the answers to any calls are those that the
    -- specification gives from the stack of the values with the last one on top: a pop of an empty stack
    -- panics, and nothing else does.
    pub performed_all-specified_all :
        (cs : List (Call T)) (a : AtomicPtrStack T)
        → performed_all json cs a ≡ specified_all cs (tops a.values)
    unfolding performed_all specified_all
    performed_all-specified_all [] a = refl
    performed_all-specified_all (c ∷ cs) a =
        after (λ b. performed_all-specified_all cs b) (performed json c a)
        ∙ ap (λ (r : Result (Answer T × List T)). r >>= λ x. with_answer x.0 (specified_all cs x.1))
            (step laws c a)
      where
        after :
            ((b : AtomicPtrStack T) → performed_all json cs b ≡ specified_all cs (tops b.values))
            → (r : Result (Answer T × AtomicPtrStack T))
            → (r >>= λ x. with_answer x.0 (performed_all json cs x.1))
              ≡ (abstracted r >>= λ x. with_answer x.0 (specified_all cs x.1))
        after later (ok (x, b)) = ap (with_answer x) (later b)
        after later (err e) = refl
        after later panic = refl
        after later out_of_fuel = refl
