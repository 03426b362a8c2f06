-- ===== src/Ids/Regex.antt =====
-- The part of package `regexp` that pkg/utils/utils.go uses: expressions made of bytes, `.`, `.*` and
-- one group `(.*)`, searched from the left with greedy repetition.
pub mod Sound
use gpu_provisioner.Base.{
  ℕ, zero, suc, ◌+◌, ◌≤◌, ◌<◌, ◌≡◌, ◌≢◌, refl, Bool, true, false, Option, none, some, List, [], ◌∷◌,
  ◌++◌, arith, ◌==◌, if◌then◌else◌,
}
use gpu_provisioner.Base.Text.{Bytes, codes}

pub data Atom : Type 0 where
  byte : ℕ → Atom
  any many group : Atom

abbrev pub Pattern : Type 0
Pattern = List Atom

-- An expression without repetition, as it is written: a full stop stands for any byte.
unfoldable pub text : Bytes → Pattern
text [] = []
text (c ∷ s) = (if c == b'.' then any else byte c) ∷ text s

abbrev pub newline : ℕ
newline = 10

-- A submatch: what the group holds (nothing where the group is not reached yet).
abbrev grow : ℕ → Option Bytes → Option Bytes
grow c none = none
grow c (some g) = some (c ∷ g)

-- Match an expression at the start of the text. `.*` and `(.*)` first try to take one more byte. The
-- result is the text that the group holds. Of an expression with no group it is the empty text.
unfoldable pub match_here : Pattern → Bytes → Option Bytes
match_here [] s = some []
match_here (byte a ∷ p) [] = none
match_here (byte a ∷ p) (c ∷ s) = elim (a == c) [ true ↦ match_here p s | false ↦ none ]
match_here (any ∷ p) [] = none
match_here (any ∷ p) (c ∷ s) = elim (c == newline) [ true ↦ none | false ↦ match_here p s ]
match_here (many ∷ p) [] = match_here p []
match_here (many ∷ p) (c ∷ s) = elim (c == newline) [
  | true ↦ match_here p (c ∷ s)
  | false ↦ elim (match_here (many ∷ p) s) [ some g ↦ some g | none ↦ match_here p (c ∷ s) ]
]
match_here (group ∷ p) [] = elim (match_here p []) [ some g ↦ some [] | none ↦ none ]
match_here (group ∷ p) (c ∷ s) =
    let stop : Option Bytes = elim (match_here p (c ∷ s)) [ some g ↦ some [] | none ↦ none ] in
    elim (c == newline) [
      | true ↦ stop
      | false ↦ elim (match_here (group ∷ p) s) [ some g ↦ some (c ∷ g) | none ↦ stop ]
    ]

-- `FindStringSubmatch`: the leftmost match.
unfoldable pub find_submatch : Pattern → Bytes → Option Bytes
unfolding match_here
find_submatch p [] = match_here p []
find_submatch p (c ∷ s) = elim (match_here p (c ∷ s)) [ some g ↦ some g | none ↦ find_submatch p s ]
