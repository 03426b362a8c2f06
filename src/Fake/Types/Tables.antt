-- ===== src/Fake/Types/Tables.antt =====
-- The tables of pkg/fake/instanceType.go, and those that GetInstanceTypes of pkg/fake/cloudprovider.go gives.
use gpu_provisioner.Base.{ℕ, zero, suc, ◌+◌, ◌*◌, Option, none, some, List, [], ◌∷◌, ◌++◌}
use gpu_provisioner.Base.Text.{Bytes, codes}
use gpu_provisioner.Base.Dict.{Dict}
use gpu_provisioner.Base.Int.{pos, sprint}
use gpu_provisioner.Base.Sort.{sort_strings}
use gpu_provisioner.Base.Result.{Result, ok, ◌>>=◌}
use gpu_provisioner.Fake.Types.{
  Parts, InstanceTypeOptions, InstanceType, cpu, memory, pods, resource_gpu_vendor_a,
  resource_gpu_vendor_b, price_loop, price_from_resources, default_offering, new_instance_type,
}

-- The types that a loop appends, for all values of its variable.
unfoldable pub for_all : {A B : Type 0} → List A → (A → Result (List B)) → Result (List B)
for_all [] f = ok []
for_all (x ∷ xs) f = do bs ← f x; rest ← for_all xs f; ok (bs ++ rest)

-- what the six loops of `InstanceTypesAssorted` run over
abbrev pub processor_counts : List ℕ
processor_counts = 1 ∷ 2 ∷ 4 ∷ 8 ∷ 16 ∷ 32 ∷ 64 ∷ []

abbrev pub memories : List ℕ
memories = 1 ∷ 2 ∷ 4 ∷ 8 ∷ 16 ∷ 32 ∷ 64 ∷ 128 ∷ []

abbrev pub zones : List Bytes
zones = codes "test-zone-1" ∷ codes "test-zone-2" ∷ codes "test-zone-3" ∷ []

abbrev pub capacity_types : List Bytes
capacity_types = codes "spot" ∷ codes "on-demand" ∷ []

abbrev pub system_sets : List (List Bytes)
system_sets = (codes "linux" ∷ []) ∷ (codes "windows" ∷ []) ∷ []

abbrev pub architectures : List Bytes
architectures = codes "amd64" ∷ codes "arm64" ∷ []

-- `%d` of a number
abbrev pub number : ℕ → Bytes
number n = sprint (pos n)

-- `strings.Join` with a comma
unfoldable pub join_comma : List Bytes → Bytes
join_comma [] = []
join_comma (s ∷ []) = s
join_comma (s ∷ t ∷ ss) = s ++ (codes "," ++ join_comma (t ∷ ss))

module _ (P : Parts) where
  open P use {Quantity, must_parse, Float}

  -- `resource.MustParse` of the texts of a map
  unfoldable pub parsed : Dict Bytes → Result (Dict Quantity)
  parsed [] = ok []
  parsed ((k, text) ∷ texts) = do q ← must_parse text; rest ← parsed texts; ok ((k, q) ∷ rest)

  abbrev pub named : Bytes → Dict Quantity → InstanceTypeOptions P
  named name resources = record {
    name = name;
    offerings = [];
    architecture = [];
    operating_systems = [];
    resources = resources;
  }

  unfoldable pub nth_resources : ℕ → Dict Bytes
  unfolding sprint
  nth_resources i =
      (cpu, number (i + 1))
      ∷ (memory, number ((i + 1) * 2) ++ codes "Gi")
      ∷ (pods, number ((i + 1) * 10))
      ∷ []

  -- the type that the loop of `InstanceTypes` makes in its round `i`
  unfoldable pub nth_instance_type : ℕ → Result (InstanceType P)
  unfolding parsed nth_resources new_instance_type
  nth_instance_type i = do
    resources ← parsed (nth_resources i)
    new_instance_type P (named (codes "fake-it-" ++ number i) resources)

  -- `rounds` more rounds from the round `i` on
  unfoldable pub types_loop : (rounds i : ℕ) → Result (List (InstanceType P))
  unfolding nth_instance_type
  types_loop zero i = ok []
  types_loop (suc rounds) i = do
    t ← nth_instance_type i
    rest ← types_loop rounds (suc i)
    ok (t ∷ rest)

  unfoldable pub instance_types : (total : ℕ) → Result (List (InstanceType P))
  unfolding types_loop
  instance_types total = types_loop total 0

  abbrev pub assorted_resources : (processors mem : ℕ) → Dict Bytes
  assorted_resources processors mem =
      (cpu, number processors) ∷ (memory, number mem ++ codes "Gi") ∷ []

  unfoldable pub assorted_options :
      (processors mem : ℕ) (zone capacity_type : Bytes) (systems : List Bytes) (arch : Bytes)
      → Dict Quantity
      → InstanceTypeOptions P
  unfolding sprint join_comma sort_strings price_loop
  assorted_options processors mem zone capacity_type systems arch resources = record {
    name =
        number processors
        ++ (codes "-cpu-"
            ++ (number mem
                ++ (codes "-mem-"
                    ++ (arch
                        ++ (codes "-"
                            ++ (join_comma (sort_strings systems)
                                ++ (codes "-" ++ (zone ++ (codes "-" ++ capacity_type)))))))));
    architecture = arch;
    operating_systems = systems;
    resources = resources;
    offerings = default_offering P (price_from_resources P resources) capacity_type zone ∷ [];
  }

  -- one round of the innermost loop of `InstanceTypesAssorted`
  unfoldable pub assorted_type :
      (processors mem : ℕ) (zone capacity_type : Bytes) (systems : List Bytes) (arch : Bytes)
      → Result (List (InstanceType P))
  unfolding parsed sprint assorted_options new_instance_type
  assorted_type processors mem zone capacity_type systems arch = do
    resources ← parsed (assorted_resources processors mem)
    t ←
        new_instance_type P
          (assorted_options processors mem zone capacity_type systems arch resources)
    ok (t ∷ [])

  unfoldable pub instance_types_assorted : Result (List (InstanceType P))
  unfolding for_all assorted_type
  instance_types_assorted = for_all processor_counts λ processors. for_all memories λ mem.
      for_all zones λ zone. for_all capacity_types λ capacity_type. for_all system_sets λ systems.
        for_all architectures λ arch. assorted_type processors mem zone capacity_type systems arch

  -- one of the types that GetInstanceTypes makes
  abbrev pub simple_type : Bytes → Dict Bytes → Result (InstanceType P)
  simple_type name texts = parsed texts >>= λ resources. new_instance_type P (named name resources)

  unfoldable pub default_types : Result (List (InstanceType P))
  unfolding parsed new_instance_type
  default_types = do
    default_type ← simple_type (codes "default-instance-type") []
    small ←
        simple_type (codes "small-instance-type") ((cpu, codes "2") ∷ (memory, codes "2Gi") ∷ [])
    vendor_a ←
        simple_type (codes "gpu-vendor-instance-type") ((resource_gpu_vendor_a, codes "2") ∷ [])
    vendor_b ←
        simple_type (codes "gpu-vendor-b-instance-type") ((resource_gpu_vendor_b, codes "2") ∷ [])
    arm_resources ← parsed ((cpu, codes "16") ∷ (memory, codes "128Gi") ∷ [])
    arm ← new_instance_type P (record {
      name = codes "arm-instance-type";
      architecture = codes "arm64";
      operating_systems = codes "ios" ∷ codes "linux" ∷ codes "windows" ∷ codes "darwin" ∷ [];
      resources = arm_resources;
      offerings = [];
    })
    single_pod ← simple_type (codes "single-pod-instance-type") ((pods, codes "1") ∷ [])
    ok (default_type ∷ small ∷ vendor_a ∷ vendor_b ∷ arm ∷ single_pod ∷ [])

  -- `GetInstanceTypes`, with the field `InstanceTypes` of the provider
  unfoldable pub get_instance_types :
      Option (List (InstanceType P)) → Result (List (InstanceType P))
  unfolding default_types
  get_instance_types (some types) = ok types
  get_instance_types none = default_types
