-- ===== src/Offerings.antt =====
-- pkg/cache/unavailableofferings.go: the offerings without capacity, for three minutes each. The cache of
-- package go-cache is a parameter; `IsCache` states its documented behaviour within one moment.
pub mod Laws
use gpu_provisioner.Base.{ℕ, ◌*◌, ◌≡◌, ◌≢◌, Bool, true, false, ◌++◌}
use gpu_provisioner.Base.Text.{Bytes, codes}

-- Minutes and milliseconds.
abbrev pub unavailable_offerings_ttl : ℕ
unavailable_offerings_ttl = 3 * 60000

abbrev pub default_cleanup_interval : ℕ
default_cleanup_interval = 10 * 60000

pub record Cache (W : Type 0) : Type 1 where
  pub Handle : Type 0
  -- a new cache, by the time that an entry lives and the interval of the cleanup
  pub make : ℕ → ℕ → W → Handle × W
  pub found : Handle → Bytes → W → Bool
  pub set_default : Handle → Bytes → W → W
  pub flush : Handle → W → W

-- An entry is found once it is set, other entries are not changed by that, and none is left by `Flush`.
pub record IsCache {W : Type 0} (C : Cache W) : Type 0 where
  pub found_set : (h : C.Handle) (k : Bytes) (w : W) → C.found h k (C.set_default h k w) ≡ true
  pub found_other :
      (h : C.Handle) (k j : Bytes) (w : W)
      → j ≢ k
      → C.found h j (C.set_default h k w) ≡ C.found h j w
  pub found_flush : (h : C.Handle) (k : Bytes) (w : W) → C.found h k (C.flush h w) ≡ false

unfoldable pub key : (instance_type zone capacity_type : Bytes) → Bytes
key instance_type zone capacity_type =
    capacity_type ++ (codes ":" ++ (instance_type ++ (codes ":" ++ zone)))

module _ {W : Type 0} (C : Cache W) where
  pub record UnavailableOfferings : Type 0 where
    pub cache : C.Handle

  unfoldable pub new_unavailable_offerings_with_cache : C.Handle → UnavailableOfferings
  new_unavailable_offerings_with_cache c = record { cache = c }

  unfoldable pub new_unavailable_offerings : W → UnavailableOfferings × W
  new_unavailable_offerings w =
      let (h, v) = C.make unavailable_offerings_ttl default_cleanup_interval w in
      (record { cache = h }, v)

  unfoldable pub is_unavailable :
      UnavailableOfferings → (instance_type zone capacity_type : Bytes) → W → Bool
  unfolding key
  is_unavailable u instance_type zone capacity_type =
      C.found u.cache (key instance_type zone capacity_type)

  -- The reason is logged only.
  unfoldable pub mark_unavailable :
      UnavailableOfferings → (reason instance_type zone capacity_type : Bytes) → W → W
  unfolding key
  mark_unavailable u reason instance_type zone capacity_type =
      C.set_default u.cache (key instance_type zone capacity_type)

  unfoldable pub flush : UnavailableOfferings → W → W
  flush u = C.flush u.cache
