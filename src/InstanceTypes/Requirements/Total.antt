-- ===== src/InstanceTypes/Requirements/Total.antt =====
-- `computeRequirements` does not fail, and does not dereference a missing label.
use gpu_provisioner.Base.{
  ◌≡◌, ◌∙◌, ◌⊎◌, inl, inr, refl, ap, Bool, Bool-cases, true, false, ◌||◌, ◌&&◌, not, none, some,
  List, [], ◌∷◌, if◌then◌else◌,
}
use gpu_provisioner.Base.Text.{Bytes, codes, same, same_iff}
use gpu_provisioner.Base.Dict.{has_key}
use gpu_provisioner.Base.Result.{Err, Result, ok, err, panic, out_of_fuel, deref, ◌>>=◌}
use gpu_provisioner.Labels
use gpu_provisioner.Labels.{sku_feature_to_label}
use gpu_provisioner.Skus.{is_nvidia_enabled_sku}
use gpu_provisioner.InstanceTypes.Skus.{
  Sku, VmSizeType, Quantities, Floats, Scheduling, op_in, op_does_not_exist,
}
use gpu_provisioner.InstanceTypes.Reserved.{cpu, memory, gpu_nvidia_count}
use gpu_provisioner.InstanceTypes.Requirements.{
  Offering, absent_labels, true_text, absent_all, add_features, insert_capabilities, insert_vm_size,
  declared, requirement_list, compute_requirements,
}
use gpu_provisioner.InstanceTypes.Requirements.Laws.{
  IsScheduling, normalized_labels, are_plain, are_plain-head, declared_labels, all_labels,
  labels_of, has_key-append, or_true, Knows, Succeeds, succeeds, Succeeds-bind, Succeeds-ok,
  insert_value-Succeeds, insert_if-Succeeds, insert_some-Succeeds, insert_number-Succeeds,
  add_features-Knows, insert_features-Succeeds,
}

-- A declared label is one of all.
known : (k : Bytes) → has_key k declared_labels ≡ true → has_key k all_labels ≡ true
known k h =
    has_key-append k (labels_of sku_feature_to_label) declared_labels
    ∙ rw h (or_true (has_key k (labels_of sku_feature_to_label)))

-- Each label of the first list is in one of the others.
abbrev covered : (labels xs ys : List Bytes) → Bool
covered [] xs ys = true
covered (l ∷ labels) xs ys = (has_key l xs || has_key l ys) && covered labels xs ys

covered_lem :
    (labels xs ys : List Bytes) (k : Bytes)
    → covered labels xs ys ≡ true
    → has_key k labels ≡ true
    → (has_key k xs || has_key k ys) ≡ true
unfolding has_key
covered_lem [] xs ys k c h = cc
covered_lem (l ∷ labels) xs ys k c h =
    let (first, rest) = both (has_key l xs || has_key l ys) (covered labels xs ys) c in
    elim (Bool-cases (same l k)) [
      | inl e ↦ rw ((same_iff l k).0 e) at first
      | inr e ↦ covered_lem labels xs ys k rest (rw e at h)
    ]
  where
    both : (a b : Bool) → (a && b) ≡ true → (a ≡ true) × (b ≡ true)
    both true b g = (refl, g)
    both false b g = cc

all_covered :
    covered Labels.well_known_labels (labels_of sku_feature_to_label) declared_labels ≡ true
unfolding has_key codes same
all_covered = refl

well_known_declared :
    (k : Bytes)
    → has_key k Labels.well_known_labels ≡ true
    → has_key k (labels_of sku_feature_to_label) ≡ false
    → has_key k declared_labels ≡ true
well_known_declared k h other = rw other at (
    covered_lem Labels.well_known_labels (labels_of sku_feature_to_label) declared_labels k
      all_covered h)

module _ {S : Scheduling} (laws : IsScheduling S) {Float : Type 0} (sku : Sku Float) where
  insert_capabilities-Succeeds :
      (vm_size : VmSizeType) (r0 : S.Requirements)
      → Knows laws all_labels r0
      → Succeeds laws all_labels (insert_capabilities S sku vm_size r0)
  unfolding insert_capabilities has_key codes same
  insert_capabilities-Succeeds vm_size r0 k0 =
      Succeeds-bind laws all_labels _ _
        (insert_if-Succeeds laws sku.is_premium_io Labels.label_sku_storage_premium_capable
          true_text r0 (known Labels.label_sku_storage_premium_capable refl) k0)
        λ r1 k1.
          Succeeds-bind laws all_labels _ _
            (insert_if-Succeeds laws sku.is_encryption_at_host_supported
              Labels.label_sku_encryption_at_host_supported true_text r1
              (known Labels.label_sku_encryption_at_host_supported refl) k1)
            λ r2 k2.
              Succeeds-bind laws all_labels _ _
                (insert_if-Succeeds laws
                  (sku.is_ephemeral_os_disk_supported
                    && not (same vm_size.series (codes "Dlds_v5")))
                  Labels.label_sku_ephemeral_os_disk_supported true_text r2
                  (known Labels.label_sku_ephemeral_os_disk_supported refl) k2)
                λ r3 k3.
                  Succeeds-bind laws all_labels _ _
                    (insert_if-Succeeds laws sku.is_accelerated_networking_supported
                      Labels.label_sku_accelerated_networking true_text r3
                      (known Labels.label_sku_accelerated_networking refl) k3)
                    λ r4 k4.
                      Succeeds-bind laws all_labels _ _
                        (insert_if-Succeeds laws sku.is_hyperv_gen1_supported
                          Labels.label_sku_hyperv_generation (codes "V1") r4
                          (known Labels.label_sku_hyperv_generation refl) k4)
                        λ r5 k5.
                          Succeeds-bind laws all_labels _ _
                            (insert_if-Succeeds laws sku.is_hyperv_gen2_supported
                              Labels.label_sku_hyperv_generation (codes "V2") r5
                              (known Labels.label_sku_hyperv_generation refl) k5)
                            λ r6 k6.
                              Succeeds-bind laws all_labels _ _
                                (insert_if-Succeeds laws (is_nvidia_enabled_sku sku.get_name)
                                  Labels.label_sku_gpu_manufacturer (codes "nvidia") r6
                                  (known Labels.label_sku_gpu_manufacturer refl) k6)
                                λ r7 k7.
                                  Succeeds-bind laws all_labels _ _
                                    (insert_some-Succeeds laws Labels.label_sku_gpu_name
                                      (if is_nvidia_enabled_sku sku.get_name
                                        then vm_size.accelerator_type
                                        else none)
                                      r7 (known Labels.label_sku_gpu_name refl) k7)
                                    λ r8 k8.
                                      Succeeds-bind laws all_labels _ _
                                        (insert_number-Succeeds laws
                                          Labels.label_sku_cached_disk_size
                                          sku.max_cached_disk_bytes r8
                                          (known Labels.label_sku_cached_disk_size refl) k8)
                                        λ r9 k9.
                                          Succeeds-bind laws all_labels _ _
                                            (insert_number-Succeeds laws
                                              Labels.label_sku_max_resource_volume
                                              sku.max_resource_volume_mb r9
                                              (known Labels.label_sku_max_resource_volume refl) k9)
                                            λ r10 k10.
                                              Succeeds-bind laws all_labels _ _
                                                (insert_some-Succeeds laws
                                                  Labels.label_sku_accelerator
                                                  vm_size.accelerator_type r10
                                                  (known Labels.label_sku_accelerator refl) k10)
                                                λ r11 k11.
                                                  insert_value-Succeeds laws
                                                    Labels.label_sku_version vm_size.version r11
                                                    (known Labels.label_sku_version refl) k11

  weaken :
      (r : Result S.Requirements) → Succeeds laws all_labels r → Succeeds laws declared_labels r
  weaken (ok rs) (succeeds k) = succeeds (λ l h. k l (known l h))
  weaken (err e) m = elim m [ ]
  weaken panic m = elim m [ ]
  weaken out_of_fuel m = elim m [ ]

  insert_vm_size-Succeeds :
      (vm_size : VmSizeType) (r0 : S.Requirements)
      → Knows laws declared_labels r0
      → Succeeds laws declared_labels (insert_vm_size S sku (ok vm_size) r0)
  unfolding insert_vm_size has_key codes same
  insert_vm_size-Succeeds vm_size r0 k0 =
      Succeeds-bind laws declared_labels _ _
        (insert_value-Succeeds laws Labels.label_sku_series vm_size.series r0 refl k0)
        λ r1 k1.
          Succeeds-bind laws declared_labels _ _
            (insert_value-Succeeds laws Labels.label_sku_family vm_size.family r1 refl k1)
            λ r2 k2.
              Succeeds-bind laws declared_labels _ _
                (insert_some-Succeeds laws Labels.label_sku_subfamily vm_size.subfamily r2 refl k2)
                λ r3 k3.
                  Succeeds-bind laws declared_labels _ _
                    (insert_some-Succeeds laws Labels.label_sku_cpu_constrained
                      vm_size.cpus_constrained r3 refl k3)
                    λ r4 k4.
                      Succeeds-bind laws all_labels _ _
                        (insert_features-Succeeds laws vm_size.additive_features
                          (add_features S sku_feature_to_label r4) (add_features-Knows laws r4 k4))
                        λ r5 k5.
                          weaken (insert_capabilities S sku vm_size r5)
                            (insert_capabilities-Succeeds vm_size r5 k5)

-- `GetVMSize` returns a size, or an error: it does not panic.
abbrev pub Returns : Result VmSizeType → Type 0
Returns r = ((v : VmSizeType) × (r ≡ ok v)) ⊎ ((e : Err) × (r ≡ err e))

module _ {S : Scheduling} (laws : IsScheduling S) where
  Knows-absent :
      (labels : List Bytes)
      → are_plain labels ≡ true
      → Knows laws labels (S.new_requirements (absent_all S labels))
  unfolding absent_all has_key
  Knows-absent [] plain k h = cc
  Knows-absent (l ∷ labels) plain k h =
      let (plain_label, plain_rest) = are_plain-head l labels plain in
      laws.has_new l op_does_not_exist [] (absent_all S labels) k
      ∙ rw (laws.plain l plain_label) (either (same l k) (Knows-absent labels plain_rest k) h)
    where
      either :
          (b : Bool)
          → (has_key k labels ≡ true
              → S.has_label (S.new_requirements (absent_all S labels)) k ≡ true)
          → (b || has_key k labels) ≡ true
          → (b || S.has_label (S.new_requirements (absent_all S labels)) k) ≡ true
      either true ih m = refl
      either false ih m = ih m

  Knows-one_of :
      (labels : List Bytes) (l : Bytes) (vs : List Bytes) (rs : List S.Requirement)
      → Knows laws labels (S.new_requirements rs)
      → Knows laws labels (S.new_requirements (S.new_requirement l op_in vs ∷ rs))
  Knows-one_of labels l vs rs k j h =
      laws.has_new l op_in vs rs j ∙ rw (k j h) (or_true (same (laws.normal l) j))

  Knows-new :
      (labels : List Bytes) (l : Bytes) (vs : List Bytes) (rs : List S.Requirement)
      → has_key l normalized_labels ≡ false
      → Knows laws labels (S.new_requirements rs)
      → Knows laws (l ∷ labels) (S.new_requirements (S.new_requirement l op_in vs ∷ rs))
  unfolding has_key
  Knows-new labels l vs rs plain known j h =
      laws.has_new l op_in vs rs j
      ∙ rw (laws.plain l plain)
          (elim (Bool-cases (same l j)) [ inl e ↦ rw e refl | inr e ↦ rw e (known j (rw e at h)) ])

  module _ (Q : Quantities) (F : Floats) {Price : Type 0} (sku : Sku F.Float)
      (offerings : List (Offering Price)) (region : Bytes) where
    declared-Knows :
        (cores bytes gpus : Q.Quantity)
        → Knows laws declared_labels
            (S.new_requirements (requirement_list Q F S sku offerings region cores bytes gpus))
    unfolding requirement_list has_key codes same
    declared-Knows cores bytes gpus =
        let one = Knows-one_of declared_labels in
        one _ _ _ (
          one _ _ _ (
            one _ _ _ (
              one _ _ _ (
                one _ _ _ (
                  Knows-new (Labels.label_sku_memory ∷ Labels.label_sku_gpu_count ∷ absent_labels) _
                    _ _ refl
                    (Knows-new (Labels.label_sku_gpu_count ∷ absent_labels) _ _ _ refl
                      (Knows-new absent_labels _ _ _ refl (Knows-absent absent_labels refl))))))))

    abbrev behind_list : Result (List S.Requirement) → Result S.Requirements
    behind_list r = r >>= λ requirements.
        S.insert_value Labels.label_sku_name sku.get_name (S.new_requirements requirements)
        >>= λ named. deref sku.size >>= λ size.
            S.insert_value Labels.label_sku_size size named >>= λ sized.
            insert_vm_size S sku sku.get_vm_size sized

    compute_requirements-Succeeds :
        (rs : List S.Requirement) (size : Bytes)
        → sku.size ≡ some size
        → Returns sku.get_vm_size
        → Knows laws declared_labels (S.new_requirements rs)
        → Succeeds laws declared_labels (behind_list (ok rs))
    unfolding insert_vm_size has_key codes same
    compute_requirements-Succeeds rs size e sized k0 =
        Succeeds-bind laws declared_labels _ _
          (insert_value-Succeeds laws Labels.label_sku_name sku.get_name (S.new_requirements rs)
            refl k0)
          λ r1 k1. rw e (
            Succeeds-bind laws declared_labels _ _
              (insert_value-Succeeds laws Labels.label_sku_size size r1 refl k1)
              λ r2 k2. by_size sku.get_vm_size sized r2 k2)
      where
        by_size :
            (r : Result VmSizeType)
            → Returns r
            → (rs : S.Requirements) → Knows laws declared_labels rs
            → Succeeds laws declared_labels (insert_vm_size S sku r rs)
        by_size r (inl (v, e)) rs k = rw e (insert_vm_size-Succeeds laws sku v rs k)
        by_size r (inr (x, e)) rs k = rw e (unfold insert_vm_size in succeeds k)

    -- If the quantities of the size can be parsed, the size has a name behind the tier, and the parser of
    -- this name returns (a size or an error), then `computeRequirements` returns requirements: it never
    -- inserts under a label that is missing. They have each label that `init` of the labels registers as
    -- well known, but those that stand for a feature of a size.
    pub compute_requirements_total :
        (cores bytes gpus : Q.Quantity) (size : Bytes)
        → cpu Q F sku ≡ ok cores
        → memory Q F sku ≡ ok bytes
        → gpu_nvidia_count Q F sku ≡ ok gpus
        → sku.size ≡ some size
        → Returns sku.get_vm_size
        → (rs : S.Requirements) × (compute_requirements Q F S sku offerings region ≡ ok rs)
          × ((k : Bytes)
              → has_key k Labels.well_known_labels ≡ true
              → has_key k (labels_of sku_feature_to_label) ≡ false
              → S.has_label rs k ≡ true)
    unfolding compute_requirements
    compute_requirements_total cores bytes gpus size hc hm hg e sized =
        let list = requirement_list Q F S sku offerings region cores bytes gpus in
        let (rs, run, k) =
          Succeeds-ok laws (behind_list (ok list))
            (compute_requirements-Succeeds list size e sized (declared-Knows cores bytes gpus)) in
        let read : declared Q F S sku offerings region ≡ ok list =
          unfold declared in rw (hc, hm, hg) refl in
        (rs, ap behind_list read ∙ run, λ l known other. k l (well_known_declared l known other))
