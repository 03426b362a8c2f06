-- ===== src/Ids/Regex/Sound.antt =====
-- The matcher against what a match is: `Matches p s g` says that `p` matches at the start of `s`, with
-- `g` in the group; `Occurs` says that it matches at some place.
use gpu_provisioner.Base.{
  ℕ, ◌≡◌, ◌≢◌, false, Option, none, some, [], ◌∷◌, arith, inl, inr, ◌==◌, Bool-cases,
}
use gpu_provisioner.Base.Text.{Bytes}
use gpu_provisioner.Ids.Regex.{byte, any, many, group, Pattern, newline, match_here, find_submatch}

pub data Matches : Pattern → Bytes → Bytes → Type 0 where
  finish : {s : Bytes} → Matches [] s []
  one :
      {p : Pattern} {a c : ℕ} {s g : Bytes} → a ≡ c → Matches p s g → Matches (byte a ∷ p) (c ∷ s) g
  dot :
      {p : Pattern} {c : ℕ} {s g : Bytes}
      → c ≢ newline
      → Matches p s g
      → Matches (any ∷ p) (c ∷ s) g
  stop : {p : Pattern} {s g : Bytes} → Matches p s g → Matches (many ∷ p) s g
  skip :
      {p : Pattern} {c : ℕ} {s g : Bytes}
      → c ≢ newline
      → Matches (many ∷ p) s g
      → Matches (many ∷ p) (c ∷ s) g
  close : {p : Pattern} {s g : Bytes} → Matches p s g → Matches (group ∷ p) s []
  keep :
      {p : Pattern} {c : ℕ} {s g : Bytes}
      → c ≢ newline
      → Matches (group ∷ p) s g
      → Matches (group ∷ p) (c ∷ s) (c ∷ g)

pub data Occurs : Pattern → Bytes → Bytes → Type 0 where
  at : {p : Pattern} {s g : Bytes} → Matches p s g → Occurs p s g
  later : {p : Pattern} {c : ℕ} {s g : Bytes} → Occurs p s g → Occurs p (c ∷ s) g

-- What the answer of a search says about a relation.
abbrev pub Decides : (Bytes → Type 0) → Option Bytes → Type 0
Decides R none = (g : Bytes) → ¬ R g
Decides R (some g) = R g

ne_newline : {c : ℕ} → (c == newline) ≡ false → c ≢ newline
ne_newline h e = ground arith

module _ (p : Pattern) where
  many-Decides :
      (c : ℕ) (s : Bytes) (o r : Option Bytes)
      → Decides (Matches (many ∷ p) s) o
      → Decides (Matches p (c ∷ s)) r
      → c ≢ newline
      → Decides (Matches (many ∷ p) (c ∷ s)) (elim o [ some g ↦ some g | none ↦ r ])
  many-Decides c s (some g) r m _ n = skip n m
  many-Decides c s none (some g) _ m n = stop m
  many-Decides c s none none f h n = λ g m. refute g m
    where
      refute : (g : Bytes) → ¬ Matches (many ∷ p) (c ∷ s) g
      refute g (stop m) = h g m
      refute g (skip _ m) = f g m

  group-Decides :
      (c : ℕ) (s : Bytes) (o r : Option Bytes)
      → Decides (Matches (group ∷ p) s) o
      → Decides (Matches p (c ∷ s)) r
      → c ≢ newline
      → Decides
          (Matches (group ∷ p) (c ∷ s))
          (elim o [ some g ↦ some (c ∷ g) | none ↦ elim r [ some g ↦ some [] | none ↦ none ] ])
  group-Decides c s (some g) r m _ n = keep n m
  group-Decides c s none (some g) _ m n = close m
  group-Decides c s none none f h n = λ g m. refute g m
    where
      refute : (g : Bytes) → ¬ Matches (group ∷ p) (c ∷ s) g
      refute g (close m) = h _ m
      refute (d ∷ g) (keep _ m) = f g m

  -- where the repetition can take nothing
  abbrev Blocked : Bytes → Type 0
  Blocked [] = Unit
  Blocked (c ∷ s) = c ≡ newline

  many_blocked : (s g : Bytes) → Blocked s → Matches (many ∷ p) s g → Matches p s g
  many_blocked s g b (stop m) = m
  many_blocked (c ∷ s) g b (skip d m) = absurd (d b)

  group_blocked : (s g : Bytes) → Blocked s → Matches (group ∷ p) s g → (r : Bytes) × Matches p s r
  group_blocked s [] b (close m) = (_, m)
  group_blocked [] (d ∷ g) b m = elim m [ ]
  group_blocked (c ∷ s) (d ∷ g) b (keep n m) = absurd (n b)

  many_at-Decides :
      (s : Bytes) (r : Option Bytes)
      → Blocked s
      → Decides (Matches p s) r
      → Decides (Matches (many ∷ p) s) r
  many_at-Decides s (some g) b m = stop m
  many_at-Decides s none b h = λ g m. h g (many_blocked s g b m)

  group_at-Decides :
      (s : Bytes) (r : Option Bytes)
      → Blocked s
      → Decides (Matches p s) r
      → Decides (Matches (group ∷ p) s) (elim r [ some g ↦ some [] | none ↦ none ])
  group_at-Decides s (some g) b m = close m
  group_at-Decides s none b h = λ g m. let (r, k) = group_blocked s g b m in h r k

  byte_inv : (a c : ℕ) (s g : Bytes) → Matches (byte a ∷ p) (c ∷ s) g → (a ≡ c) × Matches p s g
  byte_inv a c s g (one e m) = (e, m)

  any_inv : (c : ℕ) (s g : Bytes) → Matches (any ∷ p) (c ∷ s) g → (c ≢ newline) × Matches p s g
  any_inv c s g (dot n m) = (n, m)

  byte_ok-Decides :
      (a c : ℕ) (s : Bytes) (r : Option Bytes)
      → a ≡ c
      → Decides (Matches p s) r
      → Decides (Matches (byte a ∷ p) (c ∷ s)) r
  byte_ok-Decides a c s (some g) e m = one e m
  byte_ok-Decides a c s none e h = λ g m. h g (byte_inv a c s g m).1

  any_ok-Decides :
      (c : ℕ) (s : Bytes) (r : Option Bytes)
      → c ≢ newline
      → Decides (Matches p s) r
      → Decides (Matches (any ∷ p) (c ∷ s)) r
  any_ok-Decides c s (some g) e m = dot e m
  any_ok-Decides c s none e h = λ g m. h g (any_inv c s g m).1

pub match_here-Decides : (p : Pattern) (s : Bytes) → Decides (Matches p s) (match_here p s)
unfolding match_here
match_here-Decides [] s = finish
match_here-Decides (byte a ∷ p) [] = λ g m. elim m [ ]
match_here-Decides (byte a ∷ p) (c ∷ s) = elim (Bool-cases (a == c)) [
  | inl e ↦
      rw (e, Decides, match_here)
        (byte_ok-Decides p a c s _ (ground arith) (match_here-Decides p s))
  | inr e ↦ rw (e, Decides, match_here) (λ g m. absurd (ground (arith, (byte_inv p a c s g m).0)))
]
match_here-Decides (any ∷ p) [] = λ g m. elim m [ ]
match_here-Decides (any ∷ p) (c ∷ s) = elim (Bool-cases (c == newline)) [
  | inl e ↦ rw (e, Decides, match_here) (λ g m. (any_inv p c s g m).0 (ground arith))
  | inr e ↦
      rw (e, Decides, match_here) (any_ok-Decides p c s _ (ne_newline e) (match_here-Decides p s))
]
match_here-Decides (many ∷ p) [] = many_at-Decides p [] _ tt (match_here-Decides p [])
match_here-Decides (many ∷ p) (c ∷ s) =
    let inner = match_here-Decides (many ∷ p) s in
    let outer = match_here-Decides p (c ∷ s) in
    elim (Bool-cases (c == newline)) [
      | inl e ↦ rw (e, Decides, match_here) (many_at-Decides p (c ∷ s) _ (ground arith) outer)
      | inr e ↦ rw (e, Decides, match_here) (many-Decides p c s _ _ inner outer (ne_newline e))
    ]
match_here-Decides (group ∷ p) [] = group_at-Decides p [] _ tt (match_here-Decides p [])
match_here-Decides (group ∷ p) (c ∷ s) =
    let inner = match_here-Decides (group ∷ p) s in
    let outer = match_here-Decides p (c ∷ s) in
    elim (Bool-cases (c == newline)) [
      | inl e ↦ rw (e, Decides, match_here) (group_at-Decides p (c ∷ s) _ (ground arith) outer)
      | inr e ↦ rw (e, Decides, match_here) (group-Decides p c s _ _ inner outer (ne_newline e))
    ]

later-Decides :
    (p : Pattern) (c : ℕ) (s : Bytes) (o r : Option Bytes)
    → Decides (Matches p (c ∷ s)) o
    → Decides (Occurs p s) r
    → Decides (Occurs p (c ∷ s)) (elim o [ some g ↦ some g | none ↦ r ])
later-Decides p c s (some g) r m _ = at m
later-Decides p c s none (some g) _ m = later m
later-Decides p c s none none h f = λ g m. refute g m
  where
    refute : (g : Bytes) → ¬ Occurs p (c ∷ s) g
    refute g (at m) = h g m
    refute g (later m) = f g m

at-Decides : (p : Pattern) (o : Option Bytes) → Decides (Matches p []) o → Decides (Occurs p []) o
at-Decides p (some g) m = at m
at-Decides p none h = λ g m. refute g m
  where
    refute : (g : Bytes) → ¬ Occurs p [] g
    refute g (at m) = h g m

-- The search decides whether the expression occurs in the text: an answer `some g` is an occurrence
-- with `g` in the group, and `none` means that there is no occurrence with any group.
pub find_submatch-Decides : (p : Pattern) (s : Bytes) → Decides (Occurs p s) (find_submatch p s)
unfolding find_submatch
find_submatch-Decides p [] = at-Decides p _ (match_here-Decides p [])
find_submatch-Decides p (c ∷ s) =
    later-Decides p c s _ _ (match_here-Decides p (c ∷ s)) (find_submatch-Decides p s)
