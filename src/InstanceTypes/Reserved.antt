-- ===== src/InstanceTypes/Reserved.antt =====
-- The capacity of a virtual machine size, and what of it is reserved for the node itself.
use gpu_provisioner.Base.{
  ℕ, ◌^◌, Bool, true, Option, none, some, List, [], ◌∷◌, ◌++◌, if◌then◌else◌, ◌==◌,
}
use gpu_provisioner.Base.Text.{Bytes, codes, has_suffix}
use gpu_provisioner.Base.Dict.{Dict, lookup, insert, assign}
use gpu_provisioner.Base.Result.{Result, ok, panic, ◌>>=◌}
use gpu_provisioner.Base.Int.{ℤ, pos, ◌+ℤ◌, ◌-ℤ◌, ◌*ℤ◌, ltb_ℤ, leb_ℤ, wrap64, sprint}
use gpu_provisioner.Skus.{is_nvidia_enabled_sku}
use gpu_provisioner.InstanceTypes.Skus.{Sku, Quantities, Floats}

-- The fields of `v1alpha5.KubeletConfiguration` that are read.
pub record KubeletConfiguration (Q : Quantities) : Type 0 where
  pub max_pods : Option ℤ
  pub pods_per_core : Option ℤ
  pub system_reserved : Option (Dict Q.Quantity)
  pub kube_reserved : Option (Dict Q.Quantity)
  pub eviction_hard : Option (Dict Bytes)
  pub eviction_soft : Option (Dict Bytes)

-- `ptr.Int32Value`
abbrev pub int_value : Option ℤ → ℤ
int_value none = pos 0
int_value (some n) = n

-- the first of the two cases of `pods`
abbrev pub max_pods_or_default : Option ℤ → ℤ
max_pods_or_default none = pos 110
max_pods_or_default (some n) = n

-- `lo.Min` of two
abbrev pub min_ℤ : ℤ → ℤ → ℤ
min_ℤ a b = if ltb_ℤ b a then b else a

-- `strings.Trim(v, "%")`
unfoldable trim_front : Bytes → Bytes
trim_front [] = []
trim_front (c ∷ s) = let rest = trim_front s in if c == b'%' then rest else c ∷ s

abbrev cons_unless : ℕ → Bytes → Bytes
cons_unless c [] = if c == b'%' then [] else c ∷ []
cons_unless c (d ∷ s) = c ∷ d ∷ s

unfoldable trim_back : Bytes → Bytes
trim_back [] = []
trim_back (c ∷ s) = cons_unless c (trim_back s)

unfoldable pub trim_percent : Bytes → Bytes
unfolding trim_front trim_back
trim_percent v = trim_back (trim_front v)

-- The loop over `cpuRange`: start, end and percentage, in thousandths of a core.
pub record CpuRange (Float : Type 0) : Type 0 where
  pub start : ℤ
  pub end : ℤ
  pub percentage : Float

-- `lo.Assign` of the configured entries, if there are some
abbrev pub over_defaults :
    (Q : Quantities) → Dict Q.Quantity → Option (Dict Q.Quantity) → Dict Q.Quantity
over_defaults Q resources none = resources
over_defaults Q resources (some own) = assign resources own

module _ (Q : Quantities) (F : Floats) where
  open Q use {Quantity, must_parse, value, milli_value}
  open F use {Float}

  unfoldable pub cpu : Sku Float → Result Quantity
  unfolding sprint
  cpu sku = must_parse (sprint sku.vcpu)

  unfoldable pub memory : Sku Float → Result Quantity
  memory sku = must_parse (F.format_f sku.memory ++ codes "G")

  -- `count`, by the answer of `GPU` and whether the size is supported
  abbrev pub gpu_count : Result ℤ → Bool → ℤ
  gpu_count (ok n) true = n
  gpu_count _ _ = pos 0

  unfoldable pub gpu_nvidia_count : Sku Float → Result Quantity
  unfolding is_nvidia_enabled_sku sprint
  gpu_nvidia_count sku =
      must_parse (sprint (gpu_count sku.gpu (is_nvidia_enabled_sku sku.get_name)))

  unfoldable pub pod_limit : Sku Float → KubeletConfiguration Q → Result ℤ
  unfolding cpu wrap64 ◌*ℤ◌
  pod_limit sku kc =
      let count = max_pods_or_default kc.max_pods in
      let per_core = int_value kc.pods_per_core in
      if ltb_ℤ (pos 0) per_core
      then (do cores ← cpu sku; ok (min_ℤ (wrap64 (per_core *ℤ value cores)) count))
      else ok count

  unfoldable pub pods : Sku Float → Option (KubeletConfiguration Q) → Result Quantity
  unfolding pod_limit sprint
  pods sku none = must_parse (sprint (pos 110))
  pods sku (some kc) = do count ← pod_limit sku kc; must_parse (sprint count)

  unfoldable pub compute_capacity :
      Sku Float → Option (KubeletConfiguration Q) → Result (Dict Quantity)
  unfolding cpu memory pods gpu_nvidia_count insert
  compute_capacity sku kc = do
    cores ← cpu sku
    bytes ← memory sku
    pod_count ← pods sku kc
    gpus ← gpu_nvidia_count sku
    ok (
        insert (codes "nvidia.com/gpu") gpus (
          insert (codes "pods") pod_count (
            insert (codes "ephemeral-storage") (Q.giga (pos 20))
              (insert (codes "memory") bytes (insert (codes "cpu") cores [])))))

  abbrev pub cpu_ranges : List (CpuRange Float)
  cpu_ranges =
      record { start = pos 0; end = pos 1000; percentage = F.decimal 6 2 }
      ∷ record { start = pos 1000; end = pos 2000; percentage = F.decimal 1 2 }
      ∷ record { start = pos 2000; end = pos 4000; percentage = F.decimal 5 3 }
      ∷ record { start = pos 4000; end = pos (2 ^ 31); percentage = F.decimal 25 4 }
      ∷ []

  -- what one round adds, for `cpu` of at least `start`
  unfoldable pub range_overhead : ℤ → CpuRange Float → ℤ
  unfolding ◌-ℤ◌
  range_overhead cpu range =
      let r = if ltb_ℤ cpu range.end then cpu -ℤ range.start else range.end -ℤ range.start in
      F.to_int (F.times (F.of_int r) range.percentage)

  -- `resources.Cpu()`: the entry for cpu, or zero
  abbrev pub cpu_entry : Option Quantity → Quantity
  cpu_entry none = Q.zero_quantity
  cpu_entry (some q) = q

  unfoldable pub reserve_cpu : List (CpuRange Float) → ℤ → Dict Quantity → Dict Quantity
  unfolding range_overhead insert lookup
  reserve_cpu [] cpu resources = resources
  reserve_cpu (range ∷ ranges) cpu resources = reserve_cpu ranges cpu (
      if leb_ℤ range.start cpu
      then insert (codes "cpu")
          (Q.add (cpu_entry (lookup (codes "cpu") resources)) (Q.milli (range_overhead cpu range)))
          resources
      else resources)

  abbrev pub own_kube_reserved : Option (KubeletConfiguration Q) → Option (Dict Quantity)
  own_kube_reserved none = none
  own_kube_reserved (some kc) = kc.kube_reserved

  unfoldable pub kube_reserved_resources :
      (cpus pod_count : Quantity) → Option (KubeletConfiguration Q) → Result (Dict Quantity)
  unfolding reserve_cpu insert assign wrap64 ◌*ℤ◌ ◌+ℤ◌ sprint
  kube_reserved_resources cpus pod_count kc = do
    bytes ← must_parse (sprint (wrap64 (pos 11 *ℤ value pod_count +ℤ pos 255)) ++ codes "Mi")
    disk ← must_parse (codes "1Gi")
    let defaults = insert (codes "ephemeral-storage") disk (insert (codes "memory") bytes [])
    ok (over_defaults Q (reserve_cpu cpu_ranges (milli_value cpus) defaults) (own_kube_reserved kc))

  unfoldable pub must_parse_percentage : Bytes → Result Float
  unfolding trim_percent
  must_parse_percentage v = elim (F.parse_float (trim_percent v)) [
    | ok p ↦ ok (if F.equal p (F.of_int (pos 100)) then F.of_int (pos 0) else p)
    | _ ↦ panic
  ]

  -- the quantity of one eviction signal
  unfoldable pub signal_quantity : Quantity → Bytes → Result Quantity
  unfolding must_parse_percentage has_suffix
  signal_quantity available v =
      if has_suffix v (codes "%")
      then (do
        p ← must_parse_percentage v
        must_parse (
            F.sprint_float
              (F.ceil (F.times (F.over (F.of_int (value available)) (F.of_int (pos 100))) p))))
      else must_parse v

  unfoldable pub signal : Quantity → Option Bytes → Result (Dict Quantity)
  unfolding signal_quantity insert
  signal available none = ok []
  signal available (some v) = do q ← signal_quantity available v; ok (insert (codes "memory") q [])

  unfoldable pub signals : Quantity → List (Dict Bytes) → Dict Quantity → Result (Dict Quantity)
  unfolding signal lookup
  signals available [] override = ok override
  signals available (m ∷ ms) override =
      signal available (lookup (codes "memory.available") m) >>= λ temp.
      signals available ms (Q.max_resources override temp)

  -- `append` of a map that is not nil
  abbrev pub present : Option (Dict Bytes) → List (Dict Bytes) → List (Dict Bytes)
  present none ms = ms
  present (some m) ms = m ∷ ms

  unfoldable pub eviction_threshold :
      Quantity → Option (KubeletConfiguration Q) → Result (Dict Quantity)
  unfolding signals insert assign
  eviction_threshold available none = do
    least ← must_parse (codes "100Mi")
    ok (insert (codes "memory") least [])
  eviction_threshold available (some kc) = do
    least ← must_parse (codes "100Mi")
    override ← signals available (present kc.eviction_hard (present kc.eviction_soft [])) []
    ok (assign (insert (codes "memory") least []) override)

module _ (Q : Quantities) where
  open Q use {Quantity, must_parse}

  abbrev pub own_system_reserved : Option (KubeletConfiguration Q) → Option (Dict Quantity)
  own_system_reserved none = none
  own_system_reserved (some kc) = kc.system_reserved

  unfoldable pub system_reserved_resources :
      Option (KubeletConfiguration Q) → Result (Dict Quantity)
  unfolding insert assign
  system_reserved_resources kc = do
    cores ← must_parse (codes "100m")
    bytes ← must_parse (codes "100Mi")
    disk ← must_parse (codes "1Gi")
    let defaults =
        insert (codes "ephemeral-storage") disk
          (insert (codes "memory") bytes (insert (codes "cpu") cores []))
    ok (over_defaults Q defaults (own_system_reserved kc))
