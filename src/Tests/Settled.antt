-- ===== src/Tests/Settled.antt =====
-- Instances about the reconcile after a successful one.
use yk_talos_management.Prelude.{
  String, [], ◌∷◌, false, string_eq, some, inl, ◌≡◌, refl, arith, String-discrete, ℕ_discrete,
}
use yk_talos_management.Api.{
  TalosNode, TalosCluster, TalosClusterBootstrap, Condition, NodePhase, ClusterPhase,
  BootstrapPhase, cond_true, ConditionStatus-discrete,
}
use yk_talos_management.Effects.Error.{ok}
use yk_talos_management.Effects.Calls.{Call, did, Trace, empty}
use yk_talos_management.Effects.Environment.{Env}
use yk_talos_management.Shared.Constants.{finished}
use yk_talos_management.Talos.Finalizer.{contains_finalizer}
use yk_talos_management.Talos.Conditions.{has_condition, set_condition, stamp, set_condition_status}
use yk_talos_management.Cluster
use yk_talos_management.Cluster.{
  generate, store_configs, existing_bundle_json, mark_ready, mark_provisioning, provision_saved,
  provision,
}
use yk_talos_management.Cluster.Settled.{provision-settled}
use yk_talos_management.Talos.Secrets.{create}
use yk_talos_management.Talos.Generate.{
  gen_secrets_bundle, load_or_gen_secrets_bundle, gen_config, input_for,
}
use yk_talos_management.Shared.Secrets.{secret_key, upsert_secret, upsert_secret_once}
use yk_talos_management.Shared.Helpers.{retry_on_conflict}
use yk_talos_management.Quiet.{actions}
use yk_talos_management.Node.Reconcile
use yk_talos_management.Node.Status.{drift_enabled}
use yk_talos_management.Node.Apply.{
  apply_node_config, apply_to, prepare_connection, prepare, base_config, apply_inline,
  apply_references, connect, deliver, save_node_config, mark_applied, append_documents,
}
use yk_talos_management.Node.Version.{version_from_image}
use yk_talos_management.Node.Upgrade.{
  poll_upgrade, finish_upgrade, set_extensions_up_to_date, save_upgraded,
}
use yk_talos_management.Node.Extensions.{go_on, reconcile_version}
use yk_talos_management.Node.Extensions.Settled.{poll_upgrade-settled}
use yk_talos_management.Node.Settled.Reconcile.{apply_node_config-settled}
use yk_talos_management.Bootstrap
use yk_talos_management.Bootstrap.Etcd
use yk_talos_management.Bootstrap.Etcd.{
  save_kubeconfig, store_kubeconfig, fetch_kubeconfig, mark_bootstrapped, bootstrap_over,
  dial_and_go, mark_bootstrapping, bootstrap_cluster,
}
use yk_talos_management.Bootstrap.Status.{is_bootstrap_up_to_date}
use yk_talos_management.Bootstrap.ApiServer.{probe_api_server, complete, wait_for_api_server}
use yk_talos_management.Bootstrap.Current.{is_observed}
use yk_talos_management.Bootstrap.Settled.{
  bootstrap_cluster-settled, complete-is_bootstrap_up_to_date,
}
use yk_talos_management.Tests.World.{
  connection, world, secret, upgrading_node, cluster, cluster_bootstrap, node_of,
}

abbrev condition_of_type : String → String → String → Condition
condition_of_type type reason message = record {
  type = type;
  status = cond_true;
  observed_generation = 0;
  last_transition_time = 0;
  reason = reason;
  message = message;
}

abbrev provisioned : TalosCluster
provisioned = record cluster {
  status = record {
    phase = ClusterPhase.ready;
    observed_generation = 1;
    retry_count = 0;
    last_update_time = some 0;
    conditions =
        condition_of_type "SecretsGenerated" "Generated" "Cluster secrets generated successfully"
        ∷ condition_of_type "ConfigsGenerated" "Generated" "Cluster configs generated successfully"
        ∷ [];
  };
}

abbrev after_provisioning : Env
after_provisioning = record (world upgrading_node [] []) { get_cluster = λ _ _ _. ok provisioned }

keeps_cluster_status :
    (c c' : TalosCluster) (t : Trace)
    → after_provisioning.update_cluster_status c t ≡ ok c'
    → c' ≡ c
keeps_cluster_status c c' t h = ground arith

provision-settled_example :
    ((Cluster.reconcile after_provisioning "talos" "prod" empty).0 ≡ ok finished)
    × ((Cluster.reconcile after_provisioning "talos" "prod" empty).1.calls
        ≡ did (Call.get_cluster "talos" "prod") ∷ [])
unfolding provision provision_saved mark_ready mark_provisioning generate store_configs
    existing_bundle_json load_or_gen_secrets_bundle gen_secrets_bundle gen_config input_for create
    set_condition_status set_condition stamp String-discrete ConditionStatus-discrete
    contains_finalizer
provision-settled_example =
    provision-settled after_provisioning keeps_cluster_status cluster provisioned "talos" "prod"
      empty empty refl refl refl refl

abbrev plain_node : TalosNode
plain_node =
    let n = node_of "cp1" NodePhase.pending [] in
    record n { spec = record (n.spec) { drift_detection = some false } }

abbrev applied : TalosNode
applied = record plain_node {
  status = record (plain_node.status) {
    phase = NodePhase.ready;
    message = "Configuration applied";
    last_update_time = some 0;
    conditions =
        condition_of_type "ConfigApplied" "Applied" "Configuration applied successfully" ∷ [];
  };
}

abbrev after_apply : Env
after_apply = record (world applied [] []) {
  get_secret = λ _ _ _. ok (record secret { values = ("controlplane.yaml", "m") ∷ secret.values });
}

keeps_node_status :
    (n n' : TalosNode) (t : Trace) → after_apply.update_node_status n t ≡ ok n' → n' ≡ n
keeps_node_status n n' t h = ground arith

apply_node_config-settled_example :
    ((Reconcile.reconcile after_apply "talos" "cp1" empty).0 ≡ ok finished)
    × (actions (Reconcile.reconcile after_apply "talos" "cp1" empty).1.calls ≡ 0)
unfolding apply_node_config apply_to prepare_connection prepare base_config apply_inline
    apply_references connect deliver save_node_config upsert_secret upsert_secret_once
    retry_on_conflict secret_key mark_applied drift_enabled append_documents has_condition
    set_condition_status set_condition stamp String-discrete ConditionStatus-discrete
    contains_finalizer
apply_node_config-settled_example =
    apply_node_config-settled after_apply plain_node applied "talos" "cp1" empty empty
      keeps_node_status refl refl refl refl refl refl refl refl

abbrev bootstrapped : TalosClusterBootstrap
bootstrapped = record cluster_bootstrap {
  status = record {
    phase = BootstrapPhase.completed;
    message = "Bootstrap completed";
    observed_generation = 1;
    retry_count = 0;
    last_update_time = some 0;
    conditions =
        condition_of_type "Bootstrapped" "Bootstrapped" "Cluster bootstrapped"
        ∷ condition_of_type "KubeconfigAvailable" "Retrieved" "Kubeconfig retrieved"
        ∷ condition_of_type "APIServerReady" "Ready" "Kubernetes API server is reachable"
        ∷ [];
  };
}

abbrev after_bootstrap : Env
after_bootstrap = record (world upgrading_node [] []) { get_bootstrap = λ _ _ _. ok bootstrapped }

keeps_bootstrap_status :
    (b b' : TalosClusterBootstrap) (t : Trace)
    → after_bootstrap.update_bootstrap_status b t ≡ ok b'
    → b' ≡ b
keeps_bootstrap_status b b' t h = ground arith

bootstrap_cluster-settled_example :
    ((Bootstrap.reconcile after_bootstrap "talos" "boot" empty).0 ≡ ok finished)
    × ((Bootstrap.reconcile after_bootstrap "talos" "boot" empty).1.calls
        ≡ did (Call.get_bootstrap "talos" "boot") ∷ [])
unfolding bootstrap_cluster mark_bootstrapping Etcd.connect dial_and_go bootstrap_over
    mark_bootstrapped fetch_kubeconfig store_kubeconfig save_kubeconfig wait_for_api_server
    probe_api_server complete secret_key has_condition set_condition_status set_condition stamp
    String-discrete ConditionStatus-discrete contains_finalizer
bootstrap_cluster-settled_example =
    bootstrap_cluster-settled after_bootstrap keeps_bootstrap_status cluster cluster_bootstrap
      bootstrapped "10.0.0.1" "talos" "boot" empty empty refl refl refl refl refl refl

-- A completed bootstrap, after a change of its generation.
abbrev outdated : TalosClusterBootstrap
outdated = record bootstrapped { meta = record (bootstrapped.meta) { generation = 2 } }

complete-is_bootstrap_up_to_date_example : is_bootstrap_up_to_date outdated ≡ false
unfolding complete set_condition_status set_condition stamp is_observed is_bootstrap_up_to_date
    ℕ_discrete String-discrete ConditionStatus-discrete
complete-is_bootstrap_up_to_date_example =
    complete-is_bootstrap_up_to_date after_bootstrap outdated outdated empty refl refl

-- A node that is being upgraded to the version of its spec.
abbrev polled : TalosNode
polled =
    let n = node_of "cp1" NodePhase.upgrading [] in
    record n { spec = record (n.spec) { talos_version = "v1.9.0" } }

abbrev upgraded : TalosNode
upgraded = record polled {
  status = record (polled.status) {
    phase = NodePhase.ready;
    current_talos_version = "v1.9.0";
    last_update_time = some 0;
    conditions =
        condition_of_type "TalosVersionUpToDate" "Upgraded" "Talos version v1.9.0 installed" ∷ [];
  };
}

poll_upgrade-settled_example :
    ((reconcile_version after_apply upgraded empty).0 ≡ ok (go_on upgraded))
    × ((reconcile_version after_apply upgraded empty).1.calls ≡ [])
unfolding poll_upgrade finish_upgrade set_extensions_up_to_date save_upgraded set_condition_status
    set_condition version_from_image String-discrete
poll_upgrade-settled_example =
    poll_upgrade-settled after_apply polled upgraded connection
      (record { tag = "v1.9.0"; mode = "metal" })
      (did Call.now ∷ did Call.now ∷ did (Call.get_version connection "10.0.0.1") ∷ []) empty empty
      refl refl (inl refl) refl
