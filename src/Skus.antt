-- ===== src/Skus.antt =====
-- pkg/utils/gpu.go: the virtual machine sizes with support for Nvidia's driver.
pub mod Laws
use gpu_provisioner.Base.{String, Bool, true, false, List, [], ◌∷◌, ◌||◌}
use gpu_provisioner.Base.Text.{Bytes, codes, same, to_lower, trim_suffix}

-- `NvidiaEnabledSKUs`: the keys, which all have the value true
abbrev pub nvidia_enabled_skus : List String
nvidia_enabled_skus =
    "standard_nc6" ∷ "standard_nc12" ∷ "standard_nc24" ∷ "standard_nc24r" ∷ "standard_nv6"
    ∷ "standard_nv12" ∷ "standard_nv12s_v3" ∷ "standard_nv24" ∷ "standard_nv24s_v3"
    ∷ "standard_nv24r" ∷ "standard_nv48s_v3" ∷ "standard_nd6s" ∷ "standard_nd12s" ∷ "standard_nd24s"
    ∷ "standard_nd24rs" ∷ "standard_nc6s_v2" ∷ "standard_nc12s_v2" ∷ "standard_nc24s_v2"
    ∷ "standard_nc24rs_v2" ∷ "standard_nc6s_v3" ∷ "standard_nc12s_v3" ∷ "standard_nc24s_v3"
    ∷ "standard_nc24rs_v3" ∷ "standard_nd40s_v3" ∷ "standard_nd40rs_v2" ∷ "standard_nc4as_t4_v3"
    ∷ "standard_nc8as_t4_v3" ∷ "standard_nc16as_t4_v3" ∷ "standard_nc64as_t4_v3"
    ∷ "standard_nd96asr_v4" ∷ "standard_nd112asr_a100_v4" ∷ "standard_nd120asr_a100_v4"
    ∷ "standard_nd96amsr_a100_v4" ∷ "standard_nd112amsr_a100_v4" ∷ "standard_nd120amsr_a100_v4"
    ∷ "standard_nc24ads_a100_v4" ∷ "standard_nc48ads_a100_v4" ∷ "standard_nc96ads_a100_v4"
    ∷ "standard_ncads_a100_v4" ∷ "standard_nc8ads_a10_v4" ∷ "standard_nc16ads_a10_v4"
    ∷ "standard_nc32ads_a10_v4" ∷ "standard_nv6ads_a10_v5" ∷ "standard_nv12ads_a10_v5"
    ∷ "standard_nv18ads_a10_v5" ∷ "standard_nv36ads_a10_v5" ∷ "standard_nv36adms_a10_v5"
    ∷ "standard_nv72ads_a10_v5" ∷ "standard_nd96ams_v4" ∷ "standard_nd96ams_a100_v4" ∷ []

-- `MarinerNvidiaEnabledSKUs`
abbrev pub mariner_nvidia_enabled_skus : List String
mariner_nvidia_enabled_skus =
    "standard_nc6s_v3" ∷ "standard_nc12s_v3" ∷ "standard_nc24s_v3" ∷ "standard_nc24rs_v3"
    ∷ "standard_nd40s_v3" ∷ "standard_nd40rs_v2" ∷ "standard_nc4as_t4_v3" ∷ "standard_nc8as_t4_v3"
    ∷ "standard_nc16as_t4_v3" ∷ "standard_nc64as_t4_v3" ∷ []

-- `m[k]` of a map whose values are all true
unfoldable pub is_listed : Bytes → List String → Bool
unfolding same codes
is_listed k [] = false
is_listed k (sku ∷ skus) = same (codes sku) k || is_listed k skus

unfoldable pub is_nvidia_enabled_sku : Bytes → Bool
unfolding to_lower trim_suffix is_listed
is_nvidia_enabled_sku vm_size =
    is_listed (trim_suffix (to_lower vm_size) (codes "_promo")) nvidia_enabled_skus
