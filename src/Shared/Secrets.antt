-- ===== src/Shared/Secrets.antt =====
-- internal/controller/helpers.go, on secrets.
use yk_talos_management.Prelude.{
  String, ◌<>◌, [], ◌∷◌, Option, none, some, ◌==◌, string_eq, if◌then◌else◌,
}
use yk_talos_management.Metrics.Collectors.{Metric}
use yk_talos_management.Prelude.Dict.{lookup}
use yk_talos_management.Effects.Error.{Answer, ok, err, errorf, is_not_found}
use yk_talos_management.Effects.Objects.{Secret}
use yk_talos_management.Effects.Monad.{M, pure, raise, try, ◌>>=◌, ◌>>◌}
use yk_talos_management.Effects.Environment.{Env}
use yk_talos_management.Effects.Kube.{get_secret, create_secret, update_secret, count}
use yk_talos_management.Metrics.{result_label}
use yk_talos_management.Shared.Helpers.{retry_on_conflict}

-- An error or a value as the result of the function.
abbrev pub from_answer : {A : Type 0} → Answer A → M A
from_answer r t = (r, t)

-- `secretKey`
unfoldable pub secret_key : Secret → String → Answer String
secret_key s key =
    let missing =
      errorf ("secret " <> s.namespace <> "/" <> s.name <> " missing or empty key " <> key) in
    elim (lookup key s.values) [
      | none ↦ err missing
      | some v ↦ if v == "" then err missing else ok v
    ]

-- `newSecret`
abbrev pub new_secret : String → String → String → String → Secret
new_secret name namespace key content = record {
  name = name;
  namespace = namespace;
  owners = [];
  values = (key, content) ∷ [];
}

module _ (env : Env) where
  -- `getSecretOrSkip`; `none` tells the caller to skip
  unfoldable pub get_secret_or_skip : String → String → M (Option Secret)
  get_secret_or_skip name namespace = do
    r ← try (get_secret env namespace name)
    elim r [ ok s ↦ pure (some s) | err e ↦ if is_not_found e then pure none else raise e ]

  -- One attempt of `upsertSecret`.
  unfoldable pub upsert_secret_once : String → String → Secret → (Secret → Secret) → M (Unit {0})
  unfolding result_label
  upsert_secret_once name namespace fresh updated = do
    r ← try (get_secret env namespace name)
    elim r [
      | err e ↦
          if is_not_found e
          then (do
            w ← try (create_secret env fresh)
            count Metric.secret_operations_total ("create" ∷ result_label w ∷ [])
            from_answer w)
          else raise e
      | ok existing ↦ (do
        w ← try (update_secret env (updated existing))
        count Metric.secret_operations_total ("update" ∷ result_label w ∷ [])
        from_answer w)
    ]

  unfoldable pub upsert_secret : String → String → Secret → (Secret → Secret) → M (Unit {0})
  upsert_secret name namespace fresh updated =
      retry_on_conflict env.retries (upsert_secret_once name namespace fresh updated)
