-- ===== src/Hack/Skus/Main.antt =====
-- The main function of hack/code/instancetype_testdata_gen.go. The environment, the arguments and the file
-- system are parameters. A call of `os.Exit` counts as a panic.
use gpu_provisioner.Base.{ℕ, ◌||◌, [], if◌then◌else◌, List, get_elem?}
use gpu_provisioner.Base.Text.{Bytes, codes, split}
use gpu_provisioner.Base.Result.{panic, deref}
use gpu_provisioner.Base.Effect.{M, lift, ◌>>=◌}
use gpu_provisioner.Config.{Env, getenv}
use gpu_provisioner.Credentials.{is_empty}
use gpu_provisioner.Hack.Skus.{Verbs, write_sku_data}
use gpu_provisioner.Hack.Skus.Listing.{Account, or_panic, make_pager, read_pages}

module _ {W Float : Type 0} (K : Account W Float) (V : Verbs Float)
    (write_file : (path text : Bytes) → M W (Unit {0})) where
  abbrev pub write_table : (path text : Bytes) → M W (Unit {0})
  write_table path text w = let (r, v) = write_file path text w in (or_panic r, v)

  -- behind the test of the variables, with the wanted names
  unfoldable pub list_and_write :
      (license now : Bytes)
      → ℕ
      → (tenant subscription client secret : Bytes) → (path region : Bytes) → List Bytes
      → M W (Unit {0})
  unfolding read_pages make_pager write_sku_data
  list_and_write license now fuel tenant subscription client secret path region targets = do
    pager ← lift (make_pager K tenant subscription client secret)
    skus ← read_pages K targets fuel pager []
    text ← lift (write_sku_data V license now region skus)
    write_table path text

  -- `main`, with the license and the time that `writeSkuData` reads
  unfoldable pub generate : (license now : Bytes) → ℕ → Env → (args : List Bytes) → M W (Unit {0})
  unfolding list_and_write split
  generate license now fuel env args = do
    path ← lift (deref (get_elem? args 2))
    region ← lift (deref (get_elem? args 3))
    selected ← lift (deref (get_elem? args 4))
    let tenant = getenv env (codes "TENANT_ID")
    let subscription = getenv env (codes "SUBSCRIPTION_ID")
    let client = getenv env (codes "AAD_CLIENT_ID")
    let secret = getenv env (codes "AAD_CLIENT_SECRET")
    let is_missing =
        is_empty tenant
        || (is_empty subscription || (is_empty client || (is_empty secret || is_empty path)))
    let run =
        list_and_write license now fuel tenant subscription client secret path region
          (split selected b',')
    if is_missing then lift panic else run
