-- ===== src/Credentials/Clients/Laws.antt =====
-- What becomes of the clients in the mode for end-to-end tests.
use gpu_provisioner.Base.{◌≡◌, refl, Bool, true, false, if◌then◌else◌, [], ◌∷◌, Option, none, some}
use gpu_provisioner.Base.Text.{Bytes, codes}
use gpu_provisioner.Base.Result.{
  Err, Result, ok, err, panic, out_of_fuel, deref, from_ptr, creating_client_app,
}
use gpu_provisioner.Base.Effect.{M, continue, pure, in_context, ◌>>=◌}
use gpu_provisioner.Config.{Config, Env, with_default_bool}
use gpu_provisioner.Credentials.{
  System, Confidential, ClientAssertionCredential, Heap, Pem, AuthResult, new_authorizer,
  new_credential, read_jwt_from_fs, authority_url, set_client, key_bytes, federated, from_pems,
  get_e2e_testing_cert, e2e_credential, allocate, split_pem_block,
}
use gpu_provisioner.Credentials.Clients.{Sdk, AzClient, new_az_client}

-- `NewCredFromCert` takes a key that was parsed, and refuses bytes.
pub record IsConfidential {W : Type 0} (A : Confidential W) : Type 0 where
  pub bytes_refused :
      (cert : A.Certificate) (key : Bytes) → (e : Err) × (A.from_cert cert (key_bytes key) ≡ err e)

module _ {W A : Type 0} where
  abbrev HasNone : Result A × W → Type 0
  HasNone x = (a : A) → ¬ (x.0 ≡ ok a)

  -- The call never returns a value.
  abbrev Fails : M W A → Type 0
  Fails m = (w : W) → HasNone (m w)

chosen : {W A : Type 0} (b : Bool) (m n : M W A) → b ≡ true → Fails m → Fails (if b then m else n)
chosen true m n e h = h
chosen false m n e h = cc

module _ {W A B : Type 0} where
  Fails-behind :
      (x : Result A × W) (f : A → M W B) → ((a : A) → Fails (f a)) → HasNone (continue x f)
  Fails-behind (ok a, w) f h b g = h a w b g
  Fails-behind (err e, w) f h b g = cc
  Fails-behind (panic, w) f h b g = cc
  Fails-behind (out_of_fuel, w) f h b g = cc

  Fails-first : (x : Result A × W) (f : A → M W B) → HasNone x → HasNone (continue x f)
  Fails-first (ok a, w) f h b g = absurd (h a refl)
  Fails-first (err e, w) f h b g = cc
  Fails-first (panic, w) f h b g = cc
  Fails-first (out_of_fuel, w) f h b g = cc

module _ {W : Type 0} (S : System W) (A : Confidential W)
    (H : Heap W (ClientAssertionCredential A.Client))
    (get_secret : AuthResult → (vault name : Bytes) → M W (Option Bytes)) (P : Pem)
    (key_pair : (cert key : Bytes) → Result A.Certificate) (K : Sdk W H.Pointer) (version : Bytes)
    (env : Env) where
  from_pems-Fails :
      IsConfidential A
      → (certs keys : Bytes) → Fails (from_pems S A H get_secret P key_pair certs keys)
  from_pems-Fails laws [] keys w x h = cc
  from_pems-Fails laws (c ∷ certs) keys w a g =
      Fails-behind (key_pair (c ∷ certs) keys, w) _
        (λ cert v x h. (let (e, refused) = laws.bytes_refused cert keys in cc)) a g

  e2e_credential-Fails :
      IsConfidential A
      → (authorizer : AuthResult)
      → Fails (e2e_credential S A H get_secret P key_pair env authorizer)
  unfolding e2e_credential
  e2e_credential-Fails laws authorizer w =
      Fails-behind (get_e2e_testing_cert S A H get_secret P key_pair env authorizer w) _ λ secret v.
        Fails-behind (split_pem_block P (from_ptr secret), v) _
          λ (certs, keys). from_pems-Fails laws certs keys

  abbrev with_client : Config → Bytes → H.Pointer → A.Credential → M W H.Pointer
  with_client cfg authority c cred =
      in_context creating_client_app
        (A.new (authority_url S A authority cfg) cfg.user_assigned_identity_id cred)
      >>= set_client S A H get_secret P key_pair c

  abbrev credential_of : AuthResult → H.Pointer → M W A.Credential
  credential_of authorizer c =
      if with_default_bool env (codes "E2E_TEST_MODE") false
      then e2e_credential S A H get_secret P key_pair env authorizer
      else pure (A.from_callback (read_jwt_from_fs S A H c))

  abbrev finish_credential : Config → AuthResult → Bytes → H.Pointer → M W H.Pointer
  finish_credential cfg authorizer authority c =
      credential_of authorizer c >>= with_client cfg authority c

  finish_credential-Fails :
      IsConfidential A
      → with_default_bool env (codes "E2E_TEST_MODE") false ≡ true
      → (cfg : Config) (authorizer : AuthResult) (authority : Bytes) (c : H.Pointer)
      → Fails (finish_credential cfg authorizer authority c)
  finish_credential-Fails laws e cfg authorizer authority c w =
      Fails-first (credential_of authorizer c w) (with_client cfg authority c) (
        chosen (with_default_bool env (codes "E2E_TEST_MODE") false)
          (e2e_credential S A H get_secret P key_pair env authorizer)
          (pure (A.from_callback (read_jwt_from_fs S A H c))) e
          (e2e_credential-Fails laws authorizer) w)

  -- In the mode for end-to-end tests `NewCredential` makes no credential.
  new_credential-Fails :
      IsConfidential A
      → with_default_bool env (codes "E2E_TEST_MODE") false ≡ true
      → (cfg : Option Config) (authorizer : AuthResult)
      → Fails (new_credential S A H get_secret P key_pair env cfg authorizer)
  unfolding new_credential
  new_credential-Fails laws e none authorizer w x h = cc
  new_credential-Fails laws e (some cfg) authorizer w x h =
      Fails-behind (federated env, w)
        (λ (file, authority).
          allocate S A H get_secret P key_pair file >>= finish_credential cfg authorizer authority)
        (λ (file, authority) v.
          Fails-behind (allocate S A H get_secret P key_pair file v)
            (finish_credential cfg authorizer authority)
            (finish_credential-Fails laws e cfg authorizer authority))
        x h

  -- With E2E_TEST_MODE set, `NewAZClient` makes no client, whatever the services answer, if
  -- `NewCredFromCert` refuses a key that is bytes, as documented: the code passes the bytes of the secret.
  pub new_az_client-e2e :
      IsConfidential A
      → with_default_bool env (codes "E2E_TEST_MODE") false ≡ true
      → (cfg : Option Config) (endpoint : Bytes) (w : W)
        (client : AzClient K.AgentPoolsClient K.SkuClient)
      → ¬ ((new_az_client S A H get_secret P key_pair K version env cfg endpoint w).0 ≡ ok client)
  unfolding new_az_client
  new_az_client-e2e laws e cfg endpoint w =
      Fails-behind (new_authorizer S A env cfg endpoint w) _ λ authorizer v.
        Fails-behind (deref cfg, v) _ λ c u. Fails-first _ _ (new_credential-Fails laws e cfg _ u)
