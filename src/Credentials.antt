-- ===== src/Credentials.antt =====
-- pkg/auth/cred.go and pkg/auth/autorest_auth.go: the credentials for Azure. The packages confidential,
-- pem, tls and keyvault, the file system and the clock are parameters.
pub mod Laws
pub mod Clients
use gpu_provisioner.Base.{
  ℕ, zero, suc, ◌+◌, ◌==◌, ◌≡◌, Bool, true, false, ◌||◌, Option, none, some, List, [], ◌∷◌, ◌++◌,
  ltb, length, if◌then◌else◌,
}
use gpu_provisioner.Base.Text.{Bytes, codes, same, has_suffix}
use gpu_provisioner.Base.Result.{
  Err, Result, ok, err, panic, out_of_fuel, from_ptr, deref, creating_client_app, acquiring_token,
  federation_missing, nil_config, overlay_version_missing, malformed_cert,
}
use gpu_provisioner.Base.Effect.{M, ◌>>=◌, continue, lift, pure, fail, in_context}
use gpu_provisioner.Config.{Config, Env, getenv, with_default_bool}

-- The clock, in milliseconds since the zero time, and the file system.
pub record System (W : Type 0) : Type 0 where
  pub now : W → ℕ × W
  pub read_file : Bytes → M W Bytes

-- `confidential.AuthResult`
pub record Token : Type 0 where
  pub access_token : Bytes
  pub expires_on : ℕ
  pub granted_scopes : List Bytes
  pub declined_scopes : List Bytes

-- A private key is a value of any type in Go: a key that was parsed, or bytes.
pub data PrivateKey : Type 0 where
  parsed_rsa : ℕ → PrivateKey
  key_bytes : Bytes → PrivateKey

-- Package confidential, of the Microsoft authentication library.
pub record Confidential (W : Type 0) : Type 1 where
  pub Credential : Type 0
  pub Client : Type 0
  pub Certificate : Type 0
  pub from_callback : M W Bytes → Credential
  pub from_cert : Certificate → (key : PrivateKey) → Result Credential
  pub new : (authority client_id : Bytes) → Credential → M W Client
  pub acquire_token : Client → List Bytes → M W Token

pub record AccessToken : Type 0 where
  pub token : Bytes
  pub expires_on : ℕ

-- `authResult`, in the bearer authorizer that is made of it.
pub record AuthResult : Type 0 where
  pub access_token : Bytes
  pub expires_on : ℕ
  pub granted_scopes : List Bytes
  pub declined_scopes : List Bytes

pub record ClientAssertionCredential (Client : Type 0) : Type 0 where
  pub assertion : Bytes
  pub file : Bytes
  pub client : Option Client
  pub last_read : ℕ

-- The heap, as far as it holds credentials: the callback and the caller share a pointer to one.
pub record Heap (W Object : Type 0) : Type 1 where
  pub Pointer : Type 0
  pub alloc : Object → W → Pointer × W
  pub load : Pointer → W → Object
  pub store : Pointer → Object → W → W

-- A block of package pem, and `pem.Decode` and `pem.EncodeToMemory`.
pub record Pem : Type 1 where
  pub Block : Type 0
  pub block_type : Block → Bytes
  pub decode : Bytes → Option Block × Bytes
  pub encode : Block → Bytes

module _ (P : Pem) where
  -- what a block adds to the certificates and to the keys
  abbrev pub add_block : P.Block → Bytes × Bytes → Bytes × Bytes
  add_block block (certs, keys) =
      if same (P.block_type block) (codes "CERTIFICATE")
      then (certs ++ P.encode block, keys)
      else if same (P.block_type block) (codes "PRIVATE KEY")
      then (certs, keys ++ P.encode block)
      else (certs, keys)

  unfoldable pub split_loop : ℕ → Option P.Block × Bytes → Bytes × Bytes → Result (Bytes × Bytes)
  split_loop fuel (none, rest) found = ok found
  split_loop zero (some block, rest) found = out_of_fuel
  split_loop (suc fuel) (some block, rest) found =
      split_loop fuel (P.decode rest) (add_block block found)

  -- Every block is longer than nothing, so that the fuel is enough.
  unfoldable pub split_pem_block : Bytes → Result (Bytes × Bytes)
  unfolding split_loop
  split_pem_block pem_block = split_loop (length pem_block) (P.decode pem_block) ([], [])

-- The two variables that the webhook of the workload identity injects.
abbrev pub token_file : Env → Bytes
token_file env = getenv env (codes "AZURE_FEDERATED_TOKEN_FILE")

abbrev pub authority_host : Env → Bytes
authority_host env = getenv env (codes "AZURE_AUTHORITY_HOST")

abbrev pub is_empty : Bytes → Bool
is_empty [] = true
is_empty (_ ∷ _) = false

abbrev pub federated : Env → Result (Bytes × Bytes)
federated env =
    if is_empty (token_file env) || is_empty (authority_host env)
    then err (federation_missing (token_file env) (authority_host env))
    else ok (token_file env, authority_host env)

-- `strings.TrimSuffix(s, "/")`
unfoldable pub trim_slash : Bytes → Bytes
trim_slash [] = []
trim_slash (c ∷ []) = if c == b'/' then [] else c ∷ []
trim_slash (c ∷ d ∷ s) = c ∷ trim_slash (d ∷ s)

module _ {W : Type 0} (S : System W) (A : Confidential W) where
  open A use {Client}

  abbrev pub authority_url : Bytes → Config → Bytes
  authority_url authority cfg = authority ++ (cfg.tenant_id ++ codes "/oauth2/token")

  -- `readJWTFromFS` of autorest_auth.go
  unfoldable pub read_token_file : Bytes → M W Bytes
  read_token_file path = S.read_file path

  abbrev pub authorized : Token → AuthResult
  authorized t = record {
    access_token = t.access_token;
    expires_on = t.expires_on;
    granted_scopes = t.granted_scopes;
    declined_scopes = t.declined_scopes;
  }

  -- The configuration may be nil. Where the token cannot be acquired, the empty authorizer beside the error is left out.
  unfoldable pub new_authorizer :
      Env → Option Config → (resource_manager_endpoint : Bytes) → M W AuthResult
  unfolding read_token_file trim_slash
  new_authorizer env config endpoint = do
    (file, authority) ← lift (federated env)
    cfg ← lift (deref config)
    app ← in_context creating_client_app (
        A.new (authority_url authority cfg) cfg.user_assigned_identity_id
          (A.from_callback (read_token_file file)))
    token ←
        in_context acquiring_token
          (A.acquire_token app ((trim_slash endpoint ++ codes "/.default") ∷ []))
    pure (authorized token)

  module _ (H : Heap W (ClientAssertionCredential Client)) where
    -- Five minutes.
    abbrev pub validity : ℕ
    validity = 300000

    abbrev pub keep_assertion : H.Pointer → ℕ → Result Bytes × W → Result Bytes × W
    keep_assertion c now x = continue x λ content w.
        (ok content, H.store c (record (H.load c w) { assertion = content; last_read = now }) w)

    unfoldable pub read_jwt_from_fs : H.Pointer → M W Bytes
    read_jwt_from_fs c w =
        let (now, v) = S.now w in
        if ltb ((H.load c v).last_read + validity) now
        then keep_assertion c now (S.read_file (H.load c v).file v)
        else (ok (H.load c v).assertion, v)

    -- The secret of the key vault; its value may be nil.
    module _ (get_secret : AuthResult → (vault name : Bytes) → M W (Option Bytes)) (P : Pem)
        (key_pair : (cert key : Bytes) → Result A.Certificate) where
      unfoldable pub get_e2e_testing_cert : Env → AuthResult → M W (Option Bytes)
      get_e2e_testing_cert env authorizer =
          let version = getenv env (codes "AKS_E2E_OVERLAY_RESOURCE_VERSION") in
          if is_empty version
          then fail overlay_version_missing
          else get_secret authorizer (codes "https://hcp" ++ (version ++ codes ".vault.azure.net/"))
              (codes "e2e-arm-client-cert")

      abbrev pub from_pems : (certs keys : Bytes) → M W A.Credential
      from_pems [] keys = fail malformed_cert
      from_pems (c ∷ certs) keys = do
        cert ← lift (key_pair (c ∷ certs) keys)
        lift (A.from_cert cert (key_bytes keys))

      unfoldable pub e2e_credential : Env → AuthResult → M W A.Credential
      unfolding get_e2e_testing_cert split_pem_block
      e2e_credential env authorizer = do
        secret ← get_e2e_testing_cert env authorizer
        (certs, keys) ← lift (split_pem_block P (from_ptr secret))
        from_pems certs keys

      abbrev pub initial : Bytes → ClientAssertionCredential Client
      initial file = record { assertion = []; file = file; client = none; last_read = 0 }

      abbrev pub allocate : Bytes → M W H.Pointer
      allocate file w = let (c, v) = H.alloc (initial file) w in (ok c, v)

      abbrev pub set_client : H.Pointer → Client → M W H.Pointer
      set_client c app w = (ok c, H.store c (record (H.load c w) { client = some app }) w)

      unfoldable pub new_credential : Env → Option Config → AuthResult → M W H.Pointer
      unfolding read_jwt_from_fs e2e_credential with_default_bool
      new_credential env none authorizer = fail nil_config
      new_credential env (some cfg) authorizer = do
        (file, authority) ← lift (federated env)
        c ← allocate file
        cred ←
            if with_default_bool env (codes "E2E_TEST_MODE") false
            then e2e_credential env authorizer
            else pure (A.from_callback (read_jwt_from_fs c))
        app ←
            in_context creating_client_app
              (A.new (authority_url authority cfg) cfg.user_assigned_identity_id cred)
        set_client c app

    abbrev pub answered : Token → AccessToken
    answered t = record { token = t.access_token; expires_on = t.expires_on }

    -- The client of a credential that `NewCredential` has not finished is the zero client, which panics.
    unfoldable pub get_token : H.Pointer → List Bytes → M W AccessToken
    get_token c scopes w = elim (H.load c w).client [
      | none ↦ (panic, w)
      | some client ↦ continue (A.acquire_token client scopes w) (λ t. pure (answered t))
    ]
