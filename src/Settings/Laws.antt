-- ===== src/Settings/Laws.antt =====
-- What the context has after the settings were injected.
use gpu_provisioner.Base.{◌≡◌, refl, some}
use gpu_provisioner.Base.Text.{Bytes, codes}
use gpu_provisioner.Base.Dict.{Dict}
use gpu_provisioner.Base.Result.{
  Result, ok, Ensures, returned, raised, panicked, exhausted, Ensures-bind, err, panic, out_of_fuel,
  ◌>>=◌, wrapping, parsing_settings, validating_settings,
}
use gpu_provisioner.Settings.{
  Settings, Packages, default_settings, validate, to_context, from_context, inject,
}

-- A value that was put into a context is found in it.
abbrev pub HasValues : Packages → Type 0
HasValues P = (ctx : P.Context) (s : Settings) → P.settings_of (P.with_settings ctx s) ≡ some s

module _ (P : Packages) (laws : HasValues P) where
  from_context-to_context :
      (ctx : P.Context) (s : Settings) → from_context P (to_context P ctx s) ≡ ok s
  unfolding from_context to_context
  from_context-to_context ctx s = rw (laws ctx s, from_context) refl

  -- The settings of the context are there and pass the validation.
  abbrev pub HasValid : P.Context → Type 0
  HasValid ctx = (s : Settings) × (from_context P ctx ≡ ok s) × (validate P s ≡ ok tt)

  abbrev entry : Dict Bytes → Result Bytes
  entry entries =
      wrapping parsing_settings
        (P.parse_string entries (codes "azure.clusterName") default_settings.cluster_name)

  validated :
      (ctx : P.Context) (s : Settings) (r : Result (Unit {0}))
      → validate P s ≡ r
      → Ensures HasValid (wrapping validating_settings r >>= λ _. ok (to_context P ctx s))
  validated ctx s (ok u) e = returned (s, from_context-to_context ctx s, e)
  validated ctx s (err x) e = raised
  validated ctx s panic e = panicked
  validated ctx s out_of_fuel e = exhausted

  -- With contexts as documented, whatever context `Inject` returns without an error has settings, so
  -- that `FromContext` does not panic, and these settings are valid.
  pub inject-HasValid :
      (ctx : P.Context) (entries : Dict Bytes) → Ensures HasValid (inject P ctx entries)
  unfolding inject
  inject-HasValid ctx entries = Ensures-bind (entry entries) _ λ name.
      validated ctx (record { cluster_name = name }) (validate P (record { cluster_name = name }))
        refl
