-- ===== src/Offerings/Laws.antt =====
-- Which offerings are unavailable after one was marked.
use gpu_provisioner.Base.{
  ◌≡◌, refl, sym, ap, ◌∙◌, true, false, [], ◌∷◌, ◌++◌, if◌then◌else◌, ◌==◌, arith,
}
use gpu_provisioner.Base.Text.{Bytes, codes, Lacks}
use gpu_provisioner.Offerings.{
  Cache, IsCache, key, UnavailableOfferings, is_unavailable, mark_unavailable, flush,
}

-- The text behind the first colon.
abbrev behind : Bytes → Bytes
behind [] = []
behind (c ∷ s) = if c == b':' then s else behind s

abbrev before : Bytes → Bytes
before [] = []
before (c ∷ s) = if c == b':' then [] else c ∷ before s

behind-colon : (p s : Bytes) → Lacks b':' p → behind (p ++ b':' ∷ s) ≡ s
behind-colon [] s h = refl
behind-colon (c ∷ p) s (hc, hp) = ground (arith, behind-colon p s hp)

before-colon : (p s : Bytes) → Lacks b':' p → before (p ++ b':' ∷ s) ≡ p
before-colon [] s h = refl
before-colon (c ∷ p) s (hc, hp) = ground (arith, before-colon p s hp)

-- A text of two parts, of which the first holds no colon, has these parts only.
colon-inj :
    (p q s t : Bytes)
    → Lacks b':' p
    → Lacks b':' q
    → (p ++ b':' ∷ s) ≡ (q ++ b':' ∷ t)
    → (p ≡ q) × (s ≡ t)
colon-inj p q s t hp hq e = (
  sym (before-colon p s hp) ∙ ap before e ∙ before-colon q t hq,
  sym (behind-colon p s hp) ∙ ap behind e ∙ behind-colon q t hq,
)

-- Offerings whose capacity types and instance types hold no colon have different keys.
pub key-inj :
    (i j z y c d : Bytes)
    → Lacks b':' c
    → Lacks b':' d
    → Lacks b':' i
    → Lacks b':' j
    → key i z c ≡ key j y d
    → (i ≡ j) × (z ≡ y) × (c ≡ d)
unfolding key codes
key-inj i j z y c d hc hd hi hj e =
    let (same_capacity, rest) = colon-inj c d (i ++ b':' ∷ z) (j ++ b':' ∷ y) hc hd e in
    let (same_type, same_zone) = colon-inj i j z y hi hj rest in
    (same_type, same_zone, same_capacity)

module _ {W : Type 0} (C : Cache W) (laws : IsCache C) (u : UnavailableOfferings C)
    (reason i z c : Bytes) (w : W) where
  -- With a cache as documented: behind `MarkUnavailable` the offering is unavailable, the state of every
  -- other offering is what it was, if capacity types and instance types hold no colon, and behind
  -- `Flush` none is unavailable.
  pub mark_unavailable-is_unavailable :
      (j y d : Bytes)
      → Lacks b':' c
      → Lacks b':' d
      → Lacks b':' i
      → Lacks b':' j
      → (is_unavailable C u i z c (mark_unavailable C u reason i z c w) ≡ true)
        × (¬ ((j ≡ i) × (y ≡ z) × (d ≡ c))
            → is_unavailable C u j y d (mark_unavailable C u reason i z c w)
              ≡ is_unavailable C u j y d w)
        × (is_unavailable C u j y d (flush C u w) ≡ false)
  unfolding is_unavailable mark_unavailable flush
  mark_unavailable-is_unavailable j y d hc hd hi hj = (
    laws.found_set u.cache (key i z c) w,
    λ other.
        laws.found_other u.cache (key i z c) (key j y d) w
          (λ e. other (key-inj j i y z d c hd hc hj hi e)),
    laws.found_flush u.cache (key j y d) w,
  )
