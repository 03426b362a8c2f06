-- ===== src/Ids/Fields.antt =====
-- Matching identifiers whose fields hold no slash: a repetition that stands before a slash ends at
-- the first one, because the slashes behind it are all needed by the rest of the expression.
use gpu_provisioner.Base.{
  ℕ, suc, ◌+◌, ◌≤◌, ◌<◌, ◌≡◌, ◌≢◌, refl, ◌∙◌, false, none, some, [], ◌∷◌, ◌++◌, arith, inl, inr,
  ◌==◌, if◌then◌else◌, Option-cases,
}
use gpu_provisioner.Base.Text.{Bytes, Lacks}
use gpu_provisioner.Ids.Regex.{
  byte, any, many, group, Pattern, newline, match_here, find_submatch, text,
}
use gpu_provisioner.Ids.Regex.Sound.{Matches, one, dot, stop, skip, close, keep, match_here-Decides}

-- A part of an identifier: no slash and no end of line.
abbrev pub IsField : Bytes → Type 0
IsField s = Lacks b'/' s × Lacks newline s

unfoldable pub slashes : Bytes → ℕ
slashes [] = 0
slashes (c ∷ s) = if c == b'/' then suc (slashes s) else slashes s

unfoldable pub needs : Pattern → ℕ
needs [] = 0
needs (byte a ∷ p) = if a == b'/' then suc (needs p) else needs p
needs (any ∷ p) = needs p
needs (many ∷ p) = needs p
needs (group ∷ p) = needs p

pub slashes-append : (s t : Bytes) → slashes (s ++ t) ≡ slashes s + slashes t
unfolding slashes
slashes-append [] t = omega arith
slashes-append (c ∷ s) t = ground (arith, slashes-append s t)

pub slashes-Lacks : (s : Bytes) → Lacks b'/' s → slashes s ≡ 0
unfolding slashes
slashes-Lacks [] h = refl
slashes-Lacks (c ∷ s) (hc, hs) = ground (arith, slashes-Lacks s hs)

-- A field and the literal behind it have the slashes of the literal.
pub slashes-field : (a l s : Bytes) → IsField a → slashes (a ++ (l ++ s)) ≡ slashes l + slashes s
slashes-field a l s h =
    omega (arith, slashes-append a (l ++ s), slashes-append l s, slashes-Lacks a h.0)

pub needs-text : (l : Bytes) (p : Pattern) → needs (text l ++ p) ≡ slashes l + needs p
unfolding needs text slashes
needs-text [] p = omega arith
needs-text (c ∷ l) p = ground (arith, needs-text l p)

needs-le-slashes : {p : Pattern} {s g : Bytes} → Matches p s g → needs p ≤ slashes s
unfolding needs slashes
needs-le-slashes Matches.finish = omega arith
needs-le-slashes (one e m) = ground (arith, needs-le-slashes m)
needs-le-slashes (dot n m) = ground (arith, needs-le-slashes m)
needs-le-slashes (stop m) = needs-le-slashes m
needs-le-slashes (skip n m) = ground (arith, needs-le-slashes m)
needs-le-slashes (close m) = needs-le-slashes m
needs-le-slashes (keep n m) = ground (arith, needs-le-slashes m)

-- Too few slashes.
match_here-none : (p : Pattern) (s : Bytes) → slashes s < needs p → match_here p s ≡ none
match_here-none p s h = elim (Option-cases (match_here p s)) [
  | inl e ↦ e
  | inr (g, e) ↦ absurd (omega (arith, needs-le-slashes (rw e at (match_here-Decides p s))))
]

pub not_newline : (c : ℕ) → c ≢ newline → (c == newline) ≡ false
not_newline c n = ground arith

module _ (p : Pattern) where
  pub match_here-text :
      (l s : Bytes) → Lacks newline l → match_here (text l ++ p) (l ++ s) ≡ match_here p s
  unfolding match_here text
  match_here-text [] s h = refl
  match_here-text (c ∷ l) s (hc, hl) = ground (arith, match_here-text l s hl)

  pub many_skip :
      (c : ℕ) (s g : Bytes)
      → c ≢ newline
      → match_here (many ∷ p) s ≡ some g
      → match_here (many ∷ p) (c ∷ s) ≡ some g
  unfolding match_here
  many_skip c s g n e = rw (not_newline c n, match_here) (rw (e, match_here))

  pub group_keep :
      (c : ℕ) (s g : Bytes)
      → c ≢ newline
      → match_here (group ∷ p) s ≡ some g
      → match_here (group ∷ p) (c ∷ s) ≡ some (c ∷ g)
  unfolding match_here
  group_keep c s g n e = rw (not_newline c n, match_here) (rw (e, match_here))

module _ (p : Pattern) (r g : Bytes) (few : slashes r ≤ needs p) (e : match_here p r ≡ some g) where
  many_to_slash :
      (a : Bytes) → IsField a → match_here (many ∷ byte b'/' ∷ p) (a ++ b'/' ∷ r) ≡ some g
  many_to_slash [] h =
      unfold match_here in
      rw (match_here-none (many ∷ byte b'/' ∷ p) r (unfold needs in omega arith), match_here) e
  many_to_slash (c ∷ a) ((hc, hs), (hn, hl)) =
      many_skip (byte b'/' ∷ p) c (a ++ b'/' ∷ r) g hn (many_to_slash a (hs, hl))

  group_to_slash :
      (a : Bytes) → IsField a → match_here (group ∷ byte b'/' ∷ p) (a ++ b'/' ∷ r) ≡ some a
  group_to_slash [] h =
      unfold match_here in
      rw (match_here-none (group ∷ byte b'/' ∷ p) r (unfold needs in omega arith), match_here)
        (rw e)
  group_to_slash (c ∷ a) ((hc, hs), (hn, hl)) =
      group_keep (byte b'/' ∷ p) c (a ++ b'/' ∷ r) a hn (group_to_slash a (hs, hl))

-- A field, a slash and a literal, against a repetition and the same literal.
module _ (p : Pattern) (l r g : Bytes) (clean : Lacks newline l) (few : slashes r ≤ needs p)
    (e : match_here p r ≡ some g) where
  few_behind : slashes (l ++ r) ≤ needs (text l ++ p)
  few_behind = rw (slashes-append l r, needs-text l p) (omega arith)

  pub match_here-many :
      (a : Bytes)
      → IsField a
      → match_here (many ∷ byte b'/' ∷ (text l ++ p)) (a ++ b'/' ∷ (l ++ r)) ≡ some g
  match_here-many =
      many_to_slash (text l ++ p) (l ++ r) g few_behind (match_here-text p l r clean ∙ e)

  pub match_here-group :
      (a : Bytes)
      → IsField a
      → match_here (group ∷ byte b'/' ∷ (text l ++ p)) (a ++ b'/' ∷ (l ++ r)) ≡ some a
  match_here-group =
      group_to_slash (text l ++ p) (l ++ r) g few_behind (match_here-text p l r clean ∙ e)

-- `.*` at the end of an expression.
pub match_here-trailing : (s : Bytes) → match_here (many ∷ []) s ≡ some []
unfolding match_here
match_here-trailing [] = refl
match_here-trailing (c ∷ s) = ground (arith, match_here-trailing s)

pub find_submatch-start :
    (p : Pattern) (s g : Bytes) → match_here p s ≡ some g → find_submatch p s ≡ some g
unfolding find_submatch
find_submatch-start p [] g e = e
find_submatch-start p (c ∷ s) g e = rw (e, find_submatch)
