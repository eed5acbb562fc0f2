-- ===== src/Talos/Secrets.antt =====
-- internal/talos/secrets.go: the SecretManager of a cluster. The type of a secret is always Opaque.
use yk_talos_management.Prelude.{String, List, [], ◌∷◌, true, some, if◌then◌else◌}
use yk_talos_management.Prelude.Dict.{insert}
use yk_talos_management.Effects.Error.{ok, err, is_not_found, is_already_exists}
use yk_talos_management.Effects.Objects.{OwnerReference}
use yk_talos_management.Effects.Monad.{M, pure, raise, try, ◌>>=◌, ◌>>◌}
use yk_talos_management.Effects.Environment.{Env}
use yk_talos_management.Effects.Kube.{get_secret, create_secret, update_secret, delete_secret}
use yk_talos_management.Shared.Helpers.{retry_on_conflict}

-- The owner that `NewSecretManager` sets.
abbrev pub cluster_owner : String → String → OwnerReference
cluster_owner name uid = record {
  kind = "TalosCluster";
  name = name;
  uid = uid;
  controller = true;
  block_owner_deletion = some true;
}

module _ (env : Env) (owner : OwnerReference) where
  -- `Create`: a secret that exists already is left as it is
  unfoldable pub create : String → String → String → String → M (Unit {0})
  create name namespace key content = do
    r ← try (
        create_secret env (record {
          name = name;
          namespace = namespace;
          owners = owner ∷ [];
          values = (key, content) ∷ [];
        }))
    elim r [ ok _ ↦ pure tt | err e ↦ if is_already_exists e then pure tt else raise e ]

  unfoldable pub create_or_update_once : String → String → String → String → M (Unit {0})
  create_or_update_once name namespace key content = do
    r ← try (get_secret env namespace name)
    elim r [
      | err e ↦ if is_not_found e then create name namespace key content else raise e
      | ok secret ↦ update_secret env (record secret { values = insert key content secret.values })
    ]

  unfoldable pub create_or_update : String → String → String → String → M (Unit {0})
  create_or_update name namespace key content =
      retry_on_conflict env.retries (create_or_update_once name namespace key content)

module _ (env : Env) where
  unfoldable pub delete : String → String → M (Unit {0})
  delete name namespace = do
    r ← try (get_secret env namespace name)
    elim r [
      | err e ↦ if is_not_found e then pure tt else raise e
      | ok secret ↦ delete_secret env secret
    ]

  unfoldable pub delete_multiple : String → List String → M (Unit {0})
  delete_multiple namespace [] = pure tt
  delete_multiple namespace (name ∷ names) = do
    delete name namespace
    delete_multiple namespace names
