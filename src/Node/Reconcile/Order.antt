-- ===== src/Node/Reconcile/Order.antt =====
-- The history of calls over `Reconcile` of talosnode_controller.go.
use yk_talos_management.Prelude.{ℕ, suc, String, List, [], ◌∷◌, ◌≢◌, arith, string_eq}
use yk_talos_management.Api.{TalosNode}
use yk_talos_management.Effects.Objects.{Connection, Secret, Result}
use yk_talos_management.Effects.Error.{Answer}
use yk_talos_management.Effects.Calls.{Trace}
use yk_talos_management.Effects.Environment.{Env}
use yk_talos_management.History.{Invariant, Keeps, Records, >>=-Keeps}
use yk_talos_management.Prelude.Dict.{text_at}
use yk_talos_management.Effects.Kube.{update_node}
use yk_talos_management.Talos.Finalizer.{annotation_upgrade, annotation_reset}
use yk_talos_management.Shared.Helpers.{ensure_finalizer}
use yk_talos_management.Shared.Secrets.{get_secret_or_skip}
use yk_talos_management.Node.Status.{with_meta}
use yk_talos_management.Node.Upgrade.Order.{handle_upgrade-Keeps, check_upgrade_complete-Keeps}
use yk_talos_management.Node.Extensions.Order.{reconcile_version-Keeps}
use yk_talos_management.Node.Reset.Order.{handle_standalone_reset-Keeps}
use yk_talos_management.Node.Apply.Order.{apply_node_config-Keeps}
use yk_talos_management.Node.Deletion.Order.{handle_deletion-Keeps}
use yk_talos_management.Node.Reconcile.{
  set_error, settle_apply, apply_step, compare_configs, drift_over, check_drift,
  refresh_config_size_metric, reconcile_config, reconcile_spec, reconcile_live, reconcile_measured,
  reconcile_found, reconcile,
}

module _ (I : Invariant) (env : Env) (records : Records I env) where
  settle_apply-Keeps :
      (n k : ℕ) (success : Result) (applied : TalosNode × Answer (Unit {0}))
      → Keeps I n k k (settle_apply env success applied)
  unfolding settle_apply set_error
  settle_apply-Keeps n k success (node, outcome) t h = grind arith

  apply_step-Keeps : (n k : ℕ) (node : TalosNode) → Keeps I n k (suc k) (apply_step env node)
  unfolding apply_step
  apply_step-Keeps n k node t h = grind (arith, apply_node_config-Keeps, settle_apply-Keeps)

  drift_over-Keeps :
      (n k : ℕ) (node : TalosNode) (saved : Secret) (conn : Connection)
      → Keeps I n k (suc k) (drift_over env node saved conn)
  unfolding drift_over compare_configs
  drift_over-Keeps n k node saved conn t h =
      grind (arith, apply_node_config-Keeps, settle_apply-Keeps, I.more n k)

  get_secret_or_skip-Keeps :
      (n k : ℕ) (name namespace : String) → Keeps I n k k (get_secret_or_skip env name namespace)
  unfolding get_secret_or_skip
  get_secret_or_skip-Keeps n k name namespace t h = grind arith

  check_drift-Keeps : (n k : ℕ) (node : TalosNode) → Keeps I n k (suc k) (check_drift env node)
  unfolding check_drift
  check_drift-Keeps n k node t h =
      grind (arith, get_secret_or_skip-Keeps, drift_over-Keeps, I.more n k)

  reconcile_config-Keeps :
      (n k : ℕ) (node : TalosNode) → Keeps I n k (suc k) (reconcile_config env node)
  unfolding reconcile_config
  reconcile_config-Keeps n k node t h = grind (
    arith,
    λ (a : text_at annotation_reset node.meta.annotations ≢ "").
        handle_standalone_reset-Keeps I env records n k node a t h,
    check_drift-Keeps n k node t h,
    apply_step-Keeps n k node t h,
    I.more n k,
  )

  reconcile_spec-Keeps :
      (n k : ℕ) (node : TalosNode) → Keeps I n k (suc k) (reconcile_spec env node)
  unfolding reconcile_spec
  reconcile_spec-Keeps n k node t h =
      grind (arith, reconcile_version-Keeps I env n k node t h, reconcile_config-Keeps)

  reconcile_live-Keeps :
      (n k : ℕ) (node : TalosNode) → Keeps I n k (suc k) (reconcile_live env node)
  unfolding reconcile_live
  reconcile_live-Keeps n k node t h = grind (
    arith,
    check_upgrade_complete-Keeps I env n k node t h,
    handle_upgrade-Keeps I env n k node (text_at annotation_upgrade node.meta.annotations) t h,
    reconcile_spec-Keeps n k node t h,
    I.more n k,
  )

  ensure_finalizer-Keeps :
      (n k : ℕ) (node : TalosNode)
      → Keeps I n k k (ensure_finalizer (λ n. n.meta) with_meta (update_node env) node)
  unfolding ensure_finalizer
  ensure_finalizer-Keeps n k node t h = grind arith

  reconcile_measured-Keeps :
      (n k : ℕ) (node : TalosNode) → Keeps I n k (suc k) (reconcile_measured env node)
  unfolding reconcile_measured
  reconcile_measured-Keeps n k node t h = ground (
    arith,
    handle_deletion-Keeps I env n k node t h,
    >>=-Keeps I n k (suc k)
        (ensure_finalizer (λ (n : TalosNode). n.meta) with_meta (update_node env) node)
        (reconcile_live env) (ensure_finalizer-Keeps n k node) (reconcile_live-Keeps n k)
        (I.more n k) t h,
  )

  refresh_config_size_metric-Keeps :
      (n k : ℕ) (node : TalosNode) → Keeps I n k k (refresh_config_size_metric env node)
  unfolding refresh_config_size_metric
  refresh_config_size_metric-Keeps n k node t h = grind arith

  reconcile_found-Keeps :
      (n k : ℕ) (node : TalosNode) → Keeps I n k (suc k) (reconcile_found env node)
  unfolding reconcile_found
  reconcile_found-Keeps n k node t h =
      >>=-Keeps I n k (suc k) (refresh_config_size_metric env node) _
        (refresh_config_size_metric-Keeps n k node) (λ _. reconcile_measured-Keeps n k node)
        (I.more n k) _ h

  -- A reconcile of a node leaves no connection open that was not, and changes one machine at most.
  pub reconcile-Keeps :
      (n k : ℕ) (namespace name : String) → Keeps I n k (suc k) (reconcile env namespace name)
  unfolding reconcile
  reconcile-Keeps n k namespace name t h = grind (arith, reconcile_found-Keeps, I.more n k)

-- The history after a sequence of reconciles.
unfoldable pub run : Env → List (String × String) → Trace → Trace
run env [] t = t
run env ((namespace, name) ∷ requests) t = run env requests (reconcile env namespace name t).1
