-- ===== src/Ids/SubId.antt =====
-- `ParseSubIDFromID`: which identifiers are read, and what is read from them.
use gpu_provisioner.Base.{
  ℕ, ◌≡◌, ◌≢◌, refl, ◌∙◌, inl, inr, true, false, Option-cases, none, some, [], ◌∷◌, ◌++◌, arith,
}
use gpu_provisioner.Base.Text.{Bytes, codes, Lacks, has_prefix, contains}
use gpu_provisioner.Base.Result.{ok, err, sub_id_mismatch}
use gpu_provisioner.Ids.Regex.{byte, many, group, Pattern, newline, match_here, find_submatch, text}
use gpu_provisioner.Ids.Regex.Sound.{
  Matches, one, stop, close, keep, Occurs, at, later, match_here-Decides, find_submatch-Decides,
}
use gpu_provisioner.Ids.Fields.{
  match_here-text, match_here-trailing, many_skip, group_keep, not_newline, find_submatch-start,
}
use gpu_provisioner.Ids.{sub_id_pattern, parse_sub_id_from_id}

byte_at :
    (p : Pattern) (a : ℕ) (s g : Bytes)
    → Matches (byte a ∷ p) s g
    → (t : Bytes) × (s ≡ a ∷ t) × Matches p t g
byte_at p a [] g m = elim m [ ]
byte_at p a (c ∷ s) g (one e m) = (s, rw e, m)

text_byte : (c : ℕ) (l : Bytes) → c ≢ b'.' → text (c ∷ l) ≡ byte c ∷ text l
unfolding text
text_byte c l h = ground arith

has_prefix-cons :
    (a : ℕ) (s t l : Bytes) → s ≡ a ∷ t → has_prefix t l ≡ true → has_prefix s (a ∷ l) ≡ true
unfolding has_prefix
has_prefix-cons a s t l e h = rw e (ground arith)

-- A literal without a full stop is matched by itself only.
text-has_prefix :
    (q : Pattern) (l s g : Bytes) → Lacks b'.' l → Matches (text l ++ q) s g → has_prefix s l ≡ true
text-has_prefix q [] s g h m = unfold has_prefix in refl
text-has_prefix q (c ∷ l) s g (hc, hl) m =
    let m' : Matches (byte c ∷ (text l ++ q)) s g = rw (text_byte c l hc) at m in
    let (t, e, k) = byte_at (text l ++ q) c s g m' in
    has_prefix-cons c s t l e (text-has_prefix q l t g hl k)

contains_cons : (c : ℕ) (s l : Bytes) → contains s l ≡ true → contains (c ∷ s) l ≡ true
unfolding contains
contains_cons c s l h = ground arith

contains_of_prefix : (s l : Bytes) → has_prefix s l ≡ true → contains s l ≡ true
unfolding contains
contains_of_prefix [] l h = h
contains_of_prefix (c ∷ s) l h = rw h

module _ (q : Pattern) (l : Bytes) (plain : Lacks b'.' l) where
  group-contains : (s g : Bytes) → Matches (group ∷ (text l ++ q)) s g → contains s l ≡ true
  group-contains s [] (close m) = contains_of_prefix s l (text-has_prefix q l s _ plain m)
  group-contains [] (d ∷ g) m = elim m [ ]
  group-contains (c ∷ s) (d ∷ g) (keep n m) = contains_cons c s l (group-contains s g m)

  group_none : (s : Bytes) → contains s l ≡ false → match_here (group ∷ (text l ++ q)) s ≡ none
  group_none s h = elim (Option-cases (match_here (group ∷ (text l ++ q)) s)) [
    | inl e ↦ e
    | inr (g, e) ↦
        let m = group-contains s g (rw e at (match_here-Decides (group ∷ (text l ++ q)) s)) in cc
  ]

-- The literal of the expression behind the group, and what stands behind it.
abbrev groups : Bytes
groups = codes "/resourcegroups/"

abbrev behind_group : Pattern
behind_group = many ∷ (text (codes "/providers/") ++ many ∷ [])

Occurs-in :
    (p : Pattern) (l : Bytes)
    → ((s g : Bytes) → Matches p s g → contains s l ≡ true)
    → {s g : Bytes} → Occurs p s g
    → contains s l ≡ true
Occurs-in p l h (at m) = h _ _ m
Occurs-in p l h (later {c = c} {s = s} m) = contains_cons c s l (Occurs-in p l h m)

behind_text :
    (q : Pattern) (l p s g : Bytes)
    → ((t r : Bytes) → Matches q t r → contains t l ≡ true)
    → Lacks b'.' p
    → Matches (text p ++ q) s g
    → contains s l ≡ true
behind_text q l [] s g h _ m = h s g (unfold text in m)
behind_text q l (c ∷ p) s g h (hc, hp) m =
    let (t, e, k) = byte_at (text p ++ q) c s g (rw (text_byte c p hc) at m) in
    rw e (contains_cons c t l (behind_text q l p t g h hp k))

sub_id-contains : {s g : Bytes} → Occurs sub_id_pattern s g → contains s groups ≡ true
unfolding codes text
sub_id-contains = Occurs-in sub_id_pattern groups λ s g m.
    behind_text (group ∷ (text groups ++ behind_group)) groups (codes "/subscriptions/") s g
      (λ t r k. group-contains behind_group groups (omega arith) t r k) (omega arith) m

found : (id g : Bytes) → find_submatch sub_id_pattern id ≡ some g → parse_sub_id_from_id id ≡ ok g
unfolding parse_sub_id_from_id
found id g e = rw (e, parse_sub_id_from_id)

missed :
    (id : Bytes)
    → find_submatch sub_id_pattern id ≡ none
    → parse_sub_id_from_id id ≡ err (sub_id_mismatch id)
unfolding parse_sub_id_from_id
missed id e = rw (e, parse_sub_id_from_id)

-- An identifier in which `/resourcegroups/` does not stand in lower case is refused.
parse_sub_id_refuses :
    (id : Bytes) → contains id groups ≡ false → parse_sub_id_from_id id ≡ err (sub_id_mismatch id)
parse_sub_id_refuses id h = elim (Option-cases (find_submatch sub_id_pattern id)) [
  | inl e ↦ missed id e
  | inr (g, e) ↦ absurd (refute g (rw e at (find_submatch-Decides sub_id_pattern id)))
]
  where
    refute : (g : Bytes) → ¬ Occurs sub_id_pattern id g
    refute g m = let k = sub_id-contains m in cc

module _ (p : Pattern) (r g : Bytes) where
  group_to_end :
      (a : Bytes) (c : ℕ)
      → Lacks newline a
      → c ≢ newline
      → match_here (group ∷ p) r ≡ none
      → match_here p (c ∷ r) ≡ some g
      → match_here (group ∷ p) (a ++ c ∷ r) ≡ some a
  group_to_end [] c h n past here =
      unfold match_here in rw (not_newline c n, past, match_here) (rw here)
  group_to_end (b ∷ a) c (hb, ha) n past here =
      group_keep p b (a ++ c ∷ r) a hb (group_to_end a c ha n past here)

  many_over :
      (a : Bytes)
      → Lacks newline a
      → match_here (many ∷ p) r ≡ some g
      → match_here (many ∷ p) (a ++ r) ≡ some g
  many_over [] h e = e
  many_over (b ∷ a) (hb, ha) e = many_skip p b (a ++ r) g hb (many_over a ha e)

-- The first `.*` reaches a later occurrence if there is one, and some match is there in any case.
many_found :
    (p : Pattern) (s g : Bytes)
    → match_here p s ≡ some g
    → (r : Bytes) × (match_here (many ∷ p) s ≡ some r)
many_found p s g e = elim (Option-cases (match_here (many ∷ p) s)) [
  | inl e' ↦
      absurd
        ((rw e' at (match_here-Decides (many ∷ p) s)) g (stop (rw e at (match_here-Decides p s))))
  | inr found ↦ found
]

module _ (sub rg rest : Bytes) where
  -- The identifier of a resource, as Azure's agent pool service writes it.
  abbrev pub resource_id : Bytes
  resource_id =
      codes "/subscriptions/" ++ (sub ++ (groups ++ (rg ++ (codes "/providers/" ++ rest))))

  -- `/subscriptions/S/resourcegroups/R/providers/…` is read as S, if S and R hold no end of line
  -- and `/resourcegroups/` does not stand behind its first occurrence once more.
  pub parse-resource_id :
      Lacks newline sub
      → Lacks newline rg
      → contains (codes "resourcegroups/" ++ (rg ++ (codes "/providers/" ++ rest))) groups ≡ false
      → parse_sub_id_from_id resource_id ≡ ok sub
  unfolding codes text
  parse-resource_id hs hr once =
      let provided = codes "/providers/" in
      let p2 : Pattern = text provided ++ many ∷ [] in
      let r2 = provided ++ rest in
      let e2 : match_here p2 r2 ≡ some [] =
        match_here-text (many ∷ []) provided rest (omega arith) ∙ match_here-trailing rest in
      let (g, e1) = many_found p2 r2 [] e2 in
      let e0 : match_here behind_group (rg ++ r2) ≡ some g = many_over p2 r2 g rg hr e1 in
      let r = codes "resourcegroups/" ++ (rg ++ r2) in
      let here : match_here (text groups ++ behind_group) (groups ++ (rg ++ r2)) ≡ some g =
        match_here-text behind_group groups (rg ++ r2) (omega arith) ∙ e0 in
      let whole : match_here (group ∷ (text groups ++ behind_group)) (sub ++ b'/' ∷ r) ≡ some sub =
        group_to_end (text groups ++ behind_group) r g sub b'/' hs (omega arith)
          (group_none behind_group groups (omega arith) r once) here in
      found resource_id sub (
        find_submatch-start sub_id_pattern resource_id sub (
          match_here-text (group ∷ (text groups ++ behind_group)) (codes "/subscriptions/")
            (sub ++ b'/' ∷ r) (omega arith)
          ∙ whole))
