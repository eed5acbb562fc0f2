-- ===== src/Talos/Generate.antt =====
-- `GenSecretsBundle`, `LoadOrGenSecretsBundle` and `GenConfig` of internal/talos/client.go.
use yk_talos_management.Prelude.{String, ◌<>◌, List, [], ◌∷◌, ◌==◌, string_eq, if◌then◌else◌}
use yk_talos_management.Effects.Error.{ok, err, errorf}
use yk_talos_management.Effects.Objects.{GenerateInput, type_control_plane, type_worker}
use yk_talos_management.Effects.Monad.{M, pure, raise, wrapped, ◌>>=◌, ◌>>◌}
use yk_talos_management.Effects.Environment.{Env}
use yk_talos_management.Shared.Secrets.{from_answer}

-- The bundle in memory and its JSON.
pub record Bundle : Type 0 where
  pub bundle : String
  pub json : String

pub record ClusterConfigs : Type 0 where
  pub control_plane : String
  pub worker : String
  pub talosconfig : String

module _ (env : Env) where
  unfoldable pub gen_secrets_bundle : String → M Bundle
  gen_secrets_bundle talos_version = do
    contract ← wrapped "parse version" (from_answer (env.parse_contract talos_version))
    bundle ← wrapped "gen secrets" (λ t. (env.new_bundle contract t, t))
    json ← wrapped "marshal secrets" (from_answer (env.marshal_bundle bundle))
    pure (record { bundle = bundle; json = json })

  unfoldable pub load_or_gen_secrets_bundle : String → String → M Bundle
  load_or_gen_secrets_bundle existing_json talos_version =
      if existing_json == ""
      then gen_secrets_bundle talos_version
      else elim (env.unmarshal_bundle existing_json) [
        | ok bundle ↦ pure (record { bundle = bundle; json = existing_json })
        | err e ↦ gen_secrets_bundle talos_version
      ]

  -- What `GenConfig` hands to generate.NewInput.
  unfoldable pub input_for :
      String → String → List String → String → String → String → GenerateInput
  input_for cluster_name first endpoints contract bundle kubernetes_version = record {
    cluster_name = cluster_name;
    control_plane_url = "https://" <> first <> ":6443";
    kubernetes_version =
        if kubernetes_version == "" then env.default_kubernetes_version else kubernetes_version;
    contract = contract;
    bundle = bundle;
    endpoints = endpoints;
  }

  unfoldable pub gen_config : String → List String → String → String → String → M ClusterConfigs
  gen_config cluster_name [] talos_version bundle kubernetes_version =
      raise (errorf "no endpoints configured")
  gen_config cluster_name (first ∷ endpoints) talos_version bundle kubernetes_version = do
    contract ← wrapped "parse version" (from_answer (env.parse_contract talos_version))
    let input = input_for cluster_name first (first ∷ endpoints) contract bundle kubernetes_version
    wrapped "build input" (from_answer (env.new_input input))
    cp ← wrapped "gen controlplane" (from_answer (env.machine_config input type_control_plane))
    w ← wrapped "gen worker" (from_answer (env.machine_config input type_worker))
    tc ← wrapped "gen talosconfig" (from_answer (env.talosconfig input))
    cp_bytes ← wrapped "encode controlplane" (from_answer (env.document_bytes cp))
    w_bytes ← wrapped "encode worker" (from_answer (env.document_bytes w))
    tc_bytes ← wrapped "encode talosconfig" (from_answer (env.document_bytes tc))
    pure (record { control_plane = cp_bytes; worker = w_bytes; talosconfig = tc_bytes })
