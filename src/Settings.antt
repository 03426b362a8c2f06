-- ===== src/Settings.antt =====
-- pkg/apis/settings/settings.go. The packages configmap, validator and json, and
-- contexts, are parameters.
pub mod Laws
use gpu_provisioner.Base.{Option, none, some, []}
use gpu_provisioner.Base.Text.{Bytes, codes}
use gpu_provisioner.Base.Dict.{Dict}
use gpu_provisioner.Base.Result.{
  Result, ok, err, panic, out_of_fuel, wrapping, parsing_settings, validating_settings,
  marshaling_settings, unmarshalling_settings, ◌>>=◌,
}

pub record Settings : Type 0 where
  pub cluster_name : Bytes

abbrev pub default_settings : Settings
default_settings = record { cluster_name = [] }

abbrev pub config_map : Bytes
config_map = codes "gpu-provisioner-global-settings"

-- `parse_string` is `configmap.Parse` with one `AsString`, by the value that the target had before.
pub record Packages : Type 1 where
  pub parse_string : Dict Bytes → (key before : Bytes) → Result Bytes
  pub validate_struct : Settings → Result (Unit {0})
  pub marshal : Settings → Result Bytes
  pub unmarshal : Bytes → Result (Dict Bytes)
  pub Context : Type 0
  pub with_settings : Context → Settings → Context
  pub settings_of : Context → Option Settings

module _ (P : Packages) where
  open P use {Context}

  unfoldable pub validate : Settings → Result (Unit {0})
  validate s = P.validate_struct s

  unfoldable pub to_context : Context → Settings → Context
  to_context ctx s = P.with_settings ctx s

  unfoldable pub from_context : Context → Result Settings
  from_context ctx = elim (P.settings_of ctx) [ none ↦ panic | some s ↦ ok s ]

  -- Beside an error the context is the one that was given.
  unfoldable pub inject : Context → Dict Bytes → Result Context
  unfolding validate to_context
  inject ctx entries = do
    name ←
        wrapping parsing_settings
          (P.parse_string entries (codes "azure.clusterName") default_settings.cluster_name)
    _ ← wrapping validating_settings (validate (record { cluster_name = name }))
    ok (to_context ctx (record { cluster_name = name }))

  unfoldable pub settings_data : Settings → Result (Dict Bytes)
  settings_data s = do
    raw ← wrapping marshaling_settings (P.marshal s)
    wrapping unmarshalling_settings (P.unmarshal raw)
