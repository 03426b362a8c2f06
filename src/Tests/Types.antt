-- ===== src/Tests/Types.antt =====
-- Examples for the instance types (pkg/providers/instancetype).
use gpu_provisioner.Base.{
  ap, inl, ℕ, ◌≡◌, refl, Bool, true, false, Option, none, some, List, [], ◌∷◌, ◌||◌, if◌then◌else◌,
  length, All,
}
use mathlib.Core.List.{Permᴰ}
use mathlib.Core.List.Permᴰ
use gpu_provisioner.Base.Text.{Bytes, codes, same, same_refl, same_other}
use gpu_provisioner.Base.Dict.{Dict, insert, has_key}
use gpu_provisioner.Base.Result.{Result, ok, panic, ◌>>=◌}
use gpu_provisioner.Base.Int.{ℤ, pos, ◌+ℤ◌, ◌*ℤ◌, sprint}
use gpu_provisioner.Offerings.{Cache, IsCache, mark_unavailable}
use gpu_provisioner.InstanceTypes.Skus.{Sku, VmSizeType, Quantities, Floats, Scheduling}
use gpu_provisioner.InstanceTypes.Reserved.{
  cpu, memory, gpu_nvidia_count, pods, compute_capacity, kube_reserved_resources,
  system_reserved_resources, eviction_threshold,
}
use gpu_provisioner.InstanceTypes.Requirements.{Offering, compute_requirements}
use gpu_provisioner.InstanceTypes.Requirements.Laws.{IsScheduling, labels_of}
use gpu_provisioner.Labels
use gpu_provisioner.InstanceTypes.Requirements.Total.{compute_requirements_total}
use gpu_provisioner.InstanceTypes.{InstanceType, new_instance_type}
use gpu_provisioner.InstanceTypes.Listing.{
  Provider, priority_regular, get_instance_types, list, values,
}
use gpu_provisioner.InstanceTypes.Listing.Laws.{IsValueCache, get_instance_types_again}
use gpu_provisioner.InstanceTypes.Listing.Names.{
  IsBuildable, IsRange, available_names, names, names-list, list-mark_unavailable,
}

-- A quantity is the number of characters of its text.
abbrev quantities : Quantities
quantities = record {
  Quantity = ℤ;
  must_parse = λ s. ok (pos (length s));
  value = λ q. q;
  milli_value = λ q. q *ℤ pos 1000;
  mega_value = λ q. q;
  giga = λ n. n;
  milli = λ n. n;
  zero_quantity = pos 0;
  add = λ a b. a +ℤ b;
  max_resources = λ a b. a;
}

abbrev floats : Floats
floats = record {
  Float = ℤ;
  of_int = λ n. n;
  to_int = λ n. n;
  decimal = λ m e. pos m;
  times = λ a b. a *ℤ b;
  over = λ a b. a;
  ceil = λ a. a;
  equal = λ a b. false;
  parse_float = λ s. ok (pos 0);
  sprint_float = sprint;
  format_f = sprint;
}

-- Requirements are the labels that they have.
abbrev scheduling : Scheduling
scheduling = record {
  Requirement = Bytes;
  Requirements = List Bytes;
  new_requirement = λ l op vs. l;
  new_requirements = λ rs. rs;
  add = λ r rs. r ∷ rs;
  insert_value = λ k v rs. if has_key k rs then ok rs else panic;
  has_label = λ rs k. has_key k rs;
}

scheduling-IsScheduling : IsScheduling scheduling
unfolding has_key
scheduling-IsScheduling = record {
  normal = λ l. l;
  plain = λ l h. refl;
  has_new = λ l op vs rs k. refl;
  has_add = λ l op vs rs k. refl;
  insert_known = λ k v rs h. (rs, rw h refl, λ j. refl);
}

abbrev vm_size : VmSizeType
vm_size = record {
  family = codes "N";
  subfamily = some (codes "C");
  cpus_constrained = none;
  additive_features = b's' ∷ [];
  accelerator_type = some (codes "T4");
  version = codes "v3";
  series = codes "NCs_v3";
}

abbrev sku : Bytes → Sku ℤ
sku name = record {
  name = some name;
  size = some (codes "NC6s_v3");
  get_name = name;
  get_vm_size = ok vm_size;
  vcpu = pos 6;
  memory = pos 112;
  gpu = ok (pos 1);
  cpu_architecture_type = codes "x64";
  is_premium_io = true;
  is_encryption_at_host_supported = false;
  is_ephemeral_os_disk_supported = true;
  is_accelerated_networking_supported = false;
  is_hyperv_gen1_supported = true;
  is_hyperv_gen2_supported = false;
  max_cached_disk_bytes = ok (pos 7);
  max_resource_volume_mb = ok (pos 8);
}

abbrev nc6 : Bytes
nc6 = codes "Standard_NC6s_v3"

abbrev nc12 : Bytes
nc12 = codes "Standard_NC12s_v3"

abbrev no_offerings : List (Offering ℕ)
no_offerings = []

compute_requirements_total_example :
    (rs : List Bytes) × (compute_requirements quantities floats scheduling
        (sku nc6)
        no_offerings
        (codes "westus")
      ≡ ok rs)
    × ((k : Bytes)
        → has_key k Labels.well_known_labels ≡ true
        → has_key k (labels_of Labels.sku_feature_to_label) ≡ false
        → has_key k rs ≡ true)
unfolding cpu memory gpu_nvidia_count
compute_requirements_total_example =
    compute_requirements_total scheduling-IsScheduling quantities floats (sku nc6) no_offerings
      (codes "westus") _ _ _ (codes "NC6s_v3") refl refl refl refl (inl (vm_size, refl))

-- The world: which keys of offerings are set, and the sizes that are kept.
abbrev World : Type 0
World = (Bytes → Bool) × Option (Dict (Sku ℤ))

abbrev key_cache : Cache World
key_cache = record {
  Handle = Unit {0};
  make = λ ttl interval w. (tt, w);
  found = λ h k w. w.0 k;
  set_default = λ h k w. (λ j. same j k || w.0 j, w.1);
  flush = λ h w. (λ j. false, w.1);
}

abbrev provider : Provider ℕ ℕ ℤ key_cache
provider = record {
  region = codes "westus";
  skewer = record {
    SkuCache = Unit {0};
    new_cache = λ region w. (ok tt, w);
    list_virtual_machines = λ c. sku nc6 ∷ sku nc12 ∷ [];
  };
  pricing_provider = λ w. record {
    region = codes "westus";
    on_demand_update_time = 0;
    on_demand_prices = (nc6, 3) ∷ [];
  };
  unavailable_offerings = record { cache = tt };
  cache = record { get = λ k w. w.1; set_default = λ k v w. (w.0, some v) };
}

abbrev empty_world : World
empty_world = (λ k. false, none)

abbrev kept : Dict (Sku ℤ)
kept = (nc12, sku nc12) ∷ (nc6, sku nc6) ∷ []

abbrev kept_world : World
kept_world = (λ k. false, some kept)

provider-IsValueCache : IsValueCache provider.cache
provider-IsValueCache = record { get_set = λ k v w. refl }

first_read : get_instance_types provider empty_world ≡ (ok kept, kept_world)
unfolding get_instance_types insert
first_read = refl

get_instance_types_again_example : get_instance_types provider kept_world ≡ (ok kept, kept_world)
get_instance_types_again_example =
    get_instance_types_again provider provider-IsValueCache kept empty_world kept_world first_read

built :
    (name : Bytes) (offerings : List (Offering ℕ))
    → (t : InstanceType quantities floats scheduling ℕ) × (new_instance_type quantities floats
          scheduling
          (sku name)
          none
          (codes "westus")
          offerings
        ≡ ok t)
unfolding new_instance_type cpu memory gpu_nvidia_count has_key system_reserved_resources
    eviction_threshold
built name offerings =
    let (rs, e, k) =
      compute_requirements_total scheduling-IsScheduling quantities floats (sku name) offerings
        (codes "westus") _ _ _ (codes "NC6s_v3") refl refl refl refl (inl (vm_size, refl)) in
    (_, ap (λ r. behind r) e)
  where
    behind : Result (List Bytes) → Result (InstanceType quantities floats scheduling ℕ)
    behind r = do
      requirements ← r
      capacity ← compute_capacity quantities floats (sku name) none
      cpus ← cpu quantities floats (sku name)
      pod_count ← pods quantities floats (sku name) none
      kube_reserved ← kube_reserved_resources quantities floats cpus pod_count none
      system_reserved ← system_reserved_resources quantities none
      available ← memory quantities floats (sku name)
      threshold ← eviction_threshold quantities floats available none
      ok (record {
        name = name;
        requirements = requirements;
        offerings = offerings;
        capacity = capacity;
        overhead = record {
          kube_reserved = kube_reserved;
          system_reserved = system_reserved;
          eviction_threshold = threshold;
        };
      })

buildable : (name : Bytes) → IsBuildable quantities floats scheduling 0 provider none (sku name)
buildable name = (refl, λ os. built name os)

All-IsBuildable : All (IsBuildable quantities floats scheduling 0 provider none) (values kept)
unfolding values codes
All-IsBuildable = (buildable nc12, (buildable nc6, tt))

again : get_instance_types provider kept_world ≡ (ok kept, kept_world)
again =
    get_instance_types_again provider provider-IsValueCache kept empty_world kept_world first_read

values-IsRange : IsRange quantities floats scheduling 0 provider none values
values-IsRange types = Permᴰ.refl (values types)

names-list_example :
    (listed : List (InstanceType quantities floats scheduling ℕ)) × (list quantities floats
        scheduling 0 provider values none kept_world
      ≡ (ok listed, kept_world))
    × Permᴰ
        (available_names quantities floats scheduling 0 provider none kept_world (values kept))
        (names quantities floats scheduling 0 provider none listed)
names-list_example =
    names-list quantities floats scheduling 0 provider none values values-IsRange kept kept_world
      kept_world again All-IsBuildable

key_cache-IsCache : IsCache key_cache
key_cache-IsCache = record {
  found_set = λ h k w. rw (same_refl k);
  found_other = λ h k j w other. ap (λ (b : Bool). b || w.0 j) (same_other j k other);
  found_flush = λ h k w. refl;
}

abbrev reason : Bytes
reason = codes "SkuNotAvailable"

abbrev marked : World
marked =
    mark_unavailable key_cache provider.unavailable_offerings reason nc6 (codes "westus")
      priority_regular kept_world

still_kept : get_instance_types provider marked ≡ (ok kept, marked)
unfolding get_instance_types mark_unavailable
still_kept = refl

list-mark_unavailable_example :
    (listed : List (InstanceType quantities floats scheduling ℕ)) × (list quantities floats
        scheduling 0 provider values none marked
      ≡ (ok listed, marked))
    × (has_key nc6 (names quantities floats scheduling 0 provider none listed) ≡ false)
list-mark_unavailable_example =
    list-mark_unavailable quantities floats scheduling 0 provider none values values-IsRange
      key_cache-IsCache kept reason nc6 kept_world still_kept All-IsBuildable
