-- ===== src/Base/Text.antt =====
-- Go strings as byte sequences, and the functions of package `strings` that the program calls.
-- Identifiers are ASCII: a byte is a character.
use Prim.Native.Char.{code}
use gpu_provisioner.Base.{
  ℕ, ◌+◌, String, ◌≡◌, refl, inl, inr, Bool-cases, ◌↔◌, ◌≢◌, Bool, true, false, ◌&&◌, ◌||◌, List,
  [], ◌∷◌, ◌++◌, arith, ◌==◌, leb, if◌then◌else◌, All,
}

abbrev pub Bytes : Type 0
Bytes = List ℕ

-- The bytes of a literal.
unfoldable pub codes : String → Bytes
codes String.[] = []
codes (String.◌∷◌ c s) = code c ∷ codes s

-- s == t
unfoldable pub same : Bytes → Bytes → Bool
same [] [] = true
same [] (b ∷ t) = false
same (a ∷ s) [] = false
same (a ∷ s) (b ∷ t) = (a == b) && same s t

pub same_iff : (s t : Bytes) → (same s t ≡ true) ↔ (s ≡ t)
unfolding same
same_iff [] [] = (λ _. refl, λ _. refl)
same_iff [] (b ∷ t) = (λ h. cc, λ h. cc)
same_iff (a ∷ s) [] = (λ h. cc, λ h. cc)
same_iff (a ∷ s) (b ∷ t) =
    (λ h. ground (arith, (same_iff s t).0), λ h. ground (arith, (same_iff s t).1))

pub same_refl : (s : Bytes) → same s s ≡ true
same_refl s = (same_iff s s).1 refl

pub same_other : (s t : Bytes) → s ≢ t → same s t ≡ false
same_other s t h = elim (Bool-cases (same s t)) [
  | inl e ↦ absurd (h ((same_iff s t).0 e))
  | inr e ↦ e
]

-- strings.HasPrefix
unfoldable pub has_prefix : Bytes → Bytes → Bool
has_prefix s [] = true
has_prefix [] (b ∷ p) = false
has_prefix (a ∷ s) (b ∷ p) = (a == b) && has_prefix s p

-- strings.HasSuffix
unfoldable pub has_suffix : Bytes → Bytes → Bool
unfolding same
has_suffix [] p = same [] p
has_suffix (a ∷ s) p = same (a ∷ s) p || has_suffix s p

-- strings.TrimSuffix
unfoldable pub trim_suffix : Bytes → Bytes → Bytes
unfolding same
trim_suffix [] p = []
trim_suffix (a ∷ s) p = if same (a ∷ s) p then [] else a ∷ trim_suffix s p

-- strings.Contains
unfoldable pub contains : Bytes → Bytes → Bool
unfolding has_prefix
contains [] p = has_prefix [] p
contains (a ∷ s) p = has_prefix (a ∷ s) p || contains s p

-- strings.ToLower, on ASCII
unfoldable pub lower_byte : ℕ → ℕ
lower_byte c = if leb b'A' c && leb c b'Z' then c + 32 else c

unfoldable pub to_lower : Bytes → Bytes
unfolding lower_byte
to_lower [] = []
to_lower (c ∷ s) = lower_byte c ∷ to_lower s

-- strings.Split with a separator of one byte: the part before the first one, and the other parts.
unfoldable pub split_cons : ℕ → Bytes → Bytes × List Bytes
split_cons sep [] = ([], [])
split_cons sep (c ∷ s) =
    let (p, ps) = split_cons sep s in if c == sep then ([], p ∷ ps) else (c ∷ p, ps)

unfoldable pub split : Bytes → ℕ → List Bytes
unfolding split_cons
split s sep = (split_cons sep s).0 ∷ (split_cons sep s).1

-- The first of strings.SplitAfter, for a separator that is not empty.
unfoldable pub head_after : Bytes → Bytes → Bytes
unfolding has_prefix
head_after [] sep = []
head_after (c ∷ s) sep = if has_prefix (c ∷ s) sep then sep else c ∷ head_after s sep

-- No byte of the text is `b`.
abbrev pub Lacks : ℕ → Bytes → Type 0
Lacks b = All (λ c. c ≢ b)

pub split_cons-append :
    (sep : ℕ) (p s : Bytes) → Lacks sep p → split_cons sep (p ++ sep ∷ s) ≡ (p, split s sep)
unfolding split split_cons
split_cons-append sep [] s h = ground arith
split_cons-append sep (c ∷ p) s (hc, hp) = rw (split_cons-append sep p s hp) (ground arith)

-- Splitting at a separator that the text before it lacks.
pub split-append :
    (sep : ℕ) (p s : Bytes) → Lacks sep p → split (p ++ sep ∷ s) sep ≡ p ∷ split s sep
unfolding split
split-append sep p s h = rw (split_cons-append sep p s h)

pub split_cons-Lacks : (sep : ℕ) (p : Bytes) → Lacks sep p → split_cons sep p ≡ (p, [])
unfolding split_cons
split_cons-Lacks sep [] h = refl
split_cons-Lacks sep (c ∷ p) (hc, hp) = rw (split_cons-Lacks sep p hp) (ground arith)

pub split-Lacks : (sep : ℕ) (p : Bytes) → Lacks sep p → split p sep ≡ p ∷ []
unfolding split
split-Lacks sep p h = rw (split_cons-Lacks sep p h)

pub to_lower-Lacks_slash : (s : Bytes) → Lacks b'/' s → Lacks b'/' (to_lower s)
unfolding to_lower
to_lower-Lacks_slash [] h = tt
to_lower-Lacks_slash (c ∷ s) (hc, hs) = (ground arith, to_lower-Lacks_slash s hs)

pub to_lower_idem : (s : Bytes) → to_lower (to_lower s) ≡ to_lower s
unfolding to_lower
to_lower_idem [] = refl
to_lower_idem (c ∷ s) = ground (arith, to_lower_idem s)

pub to_lower-append : (s t : Bytes) → to_lower (s ++ t) ≡ to_lower s ++ to_lower t
unfolding to_lower
to_lower-append [] t = refl
to_lower-append (c ∷ s) t = rw (to_lower-append s t)

pub to_lower-Lacks_newline : (s : Bytes) → Lacks 10 s → Lacks 10 (to_lower s)
unfolding to_lower
to_lower-Lacks_newline [] h = tt
to_lower-Lacks_newline (c ∷ s) (hc, hs) = (ground arith, to_lower-Lacks_newline s hs)
