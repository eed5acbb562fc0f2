-- ===== src/Tests/Clusters.antt =====
-- Instances about the TalosCluster and TalosClusterBootstrap controllers.
use yk_talos_management.Prelude.{◌+◌, [], ◌∷◌, ◌≡◌, refl, arith, String-discrete}
use yk_talos_management.Api.{TalosClusterBootstrap, cond_true, ConditionStatus-discrete}
use yk_talos_management.Effects.Error.{ok}
use yk_talos_management.Effects.Calls.{empty}
use yk_talos_management.Effects.Environment.{Env}
use yk_talos_management.Shared.Constants.{deletion_guard_requeue_delay, requeue}
use yk_talos_management.Talos.Finalizer.{contains_finalizer}
use yk_talos_management.Talos.Conditions.{has_condition}
use yk_talos_management.Talos.Secrets.{create}
use yk_talos_management.Talos.Generate.{
  gen_secrets_bundle, load_or_gen_secrets_bundle, gen_config, input_for,
}
use yk_talos_management.Cluster.{handle_deletion, generate, store_configs, existing_bundle_json}
use yk_talos_management.Cluster.Generate.{created, generate-created}
use yk_talos_management.Cluster.Laws.{removals, handle_deletion-blocked}
use yk_talos_management.Bootstrap.{reconcile_cluster}
use yk_talos_management.Bootstrap.Etcd.{bootstrap_cluster}
use yk_talos_management.Bootstrap.Order.{bootstrapped, AtMostOnce, bootstrap_cluster-already}
use yk_talos_management.Bootstrap.Once.{reconcile_cluster-AtMostOnce}
use yk_talos_management.Bootstrap.Connections.{reconcile-IsBalanced}
use yk_talos_management.Node.Reconcile.Safety.{opened, closed}
use yk_talos_management.Bootstrap
use yk_talos_management.Tests.World.{world, upgrading_node, cluster, cluster_bootstrap}

abbrev ready : Env
ready = world upgrading_node (upgrading_node ∷ []) []

handle_deletion-blocked_example :
    ((handle_deletion ready cluster empty).0 ≡ ok (requeue deletion_guard_requeue_delay))
    × (removals (handle_deletion ready cluster empty).1.calls ≡ 0)
unfolding contains_finalizer String-discrete
handle_deletion-blocked_example =
    handle_deletion-blocked ready cluster (upgrading_node ∷ []) empty refl refl (omega arith)

reconcile_cluster-AtMostOnce_example :
    AtMostOnce "10.0.0.1" [] (reconcile_cluster ready cluster_bootstrap cluster empty).1.calls
reconcile_cluster-AtMostOnce_example =
    reconcile_cluster-AtMostOnce ready cluster "10.0.0.1" ("10.0.0.2" ∷ []) cluster_bootstrap empty
      refl

reconcile-IsBalanced_example :
    opened (Bootstrap.reconcile ready "talos" "boot" empty).1.calls + 0
    ≡ closed (Bootstrap.reconcile ready "talos" "boot" empty).1.calls + 0
reconcile-IsBalanced_example = reconcile-IsBalanced ready "talos" "boot" empty

abbrev done_before : TalosClusterBootstrap
done_before = record cluster_bootstrap {
  status = record (cluster_bootstrap.status) {
    conditions =
        (record {
          type = "Bootstrapped";
          status = cond_true;
          observed_generation = 0;
          last_transition_time = 0;
          reason = "Bootstrapped";
          message = "Cluster bootstrapped";
        })
        ∷ [];
  };
}

bootstrap_cluster-already_example :
    bootstrapped (bootstrap_cluster ready done_before cluster "10.0.0.1" empty).1.calls ≡ []
unfolding has_condition String-discrete ConditionStatus-discrete
bootstrap_cluster-already_example =
    bootstrap_cluster-already ready "10.0.0.1" cluster done_before empty refl

generate-created_example :
    created (generate ready cluster empty).1.calls
    ≡ ("prod-talosconfig" ∷ "prod-worker" ∷ "prod-controlplane" ∷ "prod-secrets" ∷ [])
unfolding generate store_configs existing_bundle_json load_or_gen_secrets_bundle gen_secrets_bundle
    gen_config input_for create String-discrete
generate-created_example = generate-created ready cluster empty refl
