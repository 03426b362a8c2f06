-- ===== src/Hack/Skus/Listing.antt =====
-- The listing in the main function of hack/code/instancetype_testdata_gen.go: the sizes of the account that are wanted.
-- The client of the SDK is a parameter; what is
-- printed on the terminal is left out.
use gpu_provisioner.Base.{
  ℕ, zero, suc, Bool, true, false, Option, none, some, List, [], ◌∷◌, ◌++◌, if◌then◌else◌,
}
use gpu_provisioner.Base.Text.{Bytes, codes}
use gpu_provisioner.Base.Dict.{has_key}
use gpu_provisioner.Base.Result.{Result, ok, err, panic, out_of_fuel, deref, ◌>>=◌}
use gpu_provisioner.Base.Effect.{M, continue}
use gpu_provisioner.Hack.Skus.{ResourceSku}

-- Packages azidentity and armcompute. A failed `NextPage` gives no page, and the pager as it stands then.
pub record Account (W Float : Type 0) : Type 1 where
  pub Credential : Type 0
  pub Client : Type 0
  pub Pager : Type 0
  pub new_client_secret_credential : (tenant client secret : Bytes) → Result Credential
  -- the credential may be nil
  pub new_resource_skus_client : (subscription : Bytes) → Option Credential → Result Client
  pub new_list_pager : Client → (filter : Bytes) → Pager
  pub more : Pager → Bool
  pub next_page : Pager → W → (Result (List (Option (ResourceSku Float))) × Pager) × W

abbrev pub read_error : {A : Type 0} → Result A → Result (Option A)
read_error (ok a) = ok (some a)
read_error (err e) = ok none
read_error panic = panic
read_error out_of_fuel = out_of_fuel

-- an error of the client or of the file system
abbrev pub or_panic : {A : Type 0} → Result A → Result A
or_panic (err e) = panic
or_panic r = r

-- the sizes of a page whose names are wanted
unfoldable pub select :
    {Float : Type 0}
    → List Bytes
    → List (Option (ResourceSku Float))
    → Result (List (Option (ResourceSku Float)))
unfolding has_key
select targets [] = ok []
select targets (none ∷ skus) = panic
select targets (some sku ∷ skus) = do
  name ← deref sku.name
  rest ← select targets skus
  ok (if has_key name targets then some sku ∷ rest else rest)

module _ {W Float : Type 0} (K : Account W Float) where
  abbrev Skus : Type 0
  Skus = List (Option (ResourceSku Float))

  -- behind a call of `NextPage`: an error is printed, and the loop goes on with no page
  abbrev pub after_page :
      List Bytes
      → (K.Pager → Skus → M W Skus)
      → Skus
      → (Result Skus × K.Pager) × W
      → Result Skus × W
  after_page targets next found ((ok page, pager), w) =
      continue (select targets page, w) (λ selected. next pager (found ++ selected))
  after_page targets next found ((err e, pager), w) = next pager found w
  after_page targets next found ((panic, pager), w) = (panic, w)
  after_page targets next found ((out_of_fuel, pager), w) = (out_of_fuel, w)

  -- the loop over the pages, with the sizes that were found so far
  unfoldable pub read_pages : List Bytes → ℕ → K.Pager → Skus → M W Skus
  unfolding select
  read_pages targets zero pager found w = (out_of_fuel, w)
  read_pages targets (suc n) pager found w = elim (K.more pager) [
    | false ↦ (ok found, w)
    | true ↦ after_page targets (read_pages targets n) found (K.next_page pager w)
  ]

  -- the client, made with no credential where there was an error
  unfoldable pub make_pager : (tenant subscription client secret : Bytes) → Result K.Pager
  make_pager tenant subscription client secret = do
    cred ← read_error (K.new_client_secret_credential tenant client secret)
    skus_client ← or_panic (K.new_resource_skus_client subscription cred)
    ok (K.new_list_pager skus_client (codes "location eq 'eastus'"))
