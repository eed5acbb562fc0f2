-- ===== src/Node/Declared/Reconcile.antt =====
-- The metrics of a whole reconcile of a node.
use yk_talos_management.Prelude.{String, List, [], ◌∷◌, refl, arith, string_eq, ◌≡◌, true}
use yk_talos_management.Api.{TalosNode}
use yk_talos_management.Effects.Error.{Answer}
use yk_talos_management.Effects.Objects.{Connection, Secret, Result}
use yk_talos_management.Effects.Calls.{Trace, empty}
use yk_talos_management.Effects.Environment.{Env}
use yk_talos_management.Effects.Kube.{update_node}
use yk_talos_management.Shared.Helpers.{ensure_finalizer}
use yk_talos_management.Shared.Secrets.{get_secret_or_skip}
use yk_talos_management.Node.Status.{with_meta}
use yk_talos_management.Node.Reconcile.{
  set_error, settle_apply, apply_step, compare_configs, drift_over, check_drift,
  refresh_config_size_metric, reconcile_config, reconcile_spec, reconcile_live, reconcile_measured,
  reconcile_found, reconcile,
}
use yk_talos_management.Node.Declared.{fits, Declares, fits-phase_notes, fits-events}
use yk_talos_management.Node.Declared.Config.{
  apply_node_config-Declares, handle_upgrade-Declares, check_upgrade_complete-Declares,
  reconcile_version-Declares,
}
use yk_talos_management.Node.Reconcile.Order.{run}
use yk_talos_management.Node.Declared.Deletion.{
  handle_deletion-Declares, handle_standalone_reset-Declares,
}

module _ (env : Env) where
  settle_apply-Declares :
      (success : Result) (applied : TalosNode × Answer (Unit {0}))
      → Declares (settle_apply env success applied)
  unfolding settle_apply set_error
  settle_apply-Declares success (node, outcome) t = grind (arith, fits-phase_notes, fits-events)

  apply_step-Declares : (node : TalosNode) → Declares (apply_step env node)
  unfolding apply_step
  apply_step-Declares node t =
      grind (arith, apply_node_config-Declares, settle_apply-Declares, fits-events)

  drift_over-Declares :
      (node : TalosNode) (saved : Secret) (conn : Connection)
      → Declares (drift_over env node saved conn)
  unfolding drift_over compare_configs
  drift_over-Declares node saved conn t =
      grind (arith, apply_node_config-Declares, settle_apply-Declares, fits-events)

  get_secret_or_skip-Declares :
      (name namespace : String) → Declares (get_secret_or_skip env name namespace)
  unfolding get_secret_or_skip
  get_secret_or_skip-Declares name namespace t = grind arith

  check_drift-Declares : (node : TalosNode) → Declares (check_drift env node)
  unfolding check_drift
  check_drift-Declares node t = grind (arith, get_secret_or_skip-Declares, drift_over-Declares)

  reconcile_config-Declares : (node : TalosNode) → Declares (reconcile_config env node)
  unfolding reconcile_config
  reconcile_config-Declares node t = grind (
    arith,
    handle_standalone_reset-Declares,
    check_drift-Declares node t,
    apply_step-Declares node t,
  )

  reconcile_spec-Declares : (node : TalosNode) → Declares (reconcile_spec env node)
  unfolding reconcile_spec
  reconcile_spec-Declares node t =
      grind (arith, reconcile_version-Declares, reconcile_config-Declares)

  reconcile_live-Declares : (node : TalosNode) → Declares (reconcile_live env node)
  unfolding reconcile_live
  reconcile_live-Declares node t =
      grind
        (arith, check_upgrade_complete-Declares, handle_upgrade-Declares, reconcile_spec-Declares)

  ensure_finalizer-Declares :
      (node : TalosNode)
      → Declares (ensure_finalizer (λ n. n.meta) with_meta (update_node env) node)
  unfolding ensure_finalizer
  ensure_finalizer-Declares node t = grind arith

  reconcile_measured-Declares : (node : TalosNode) → Declares (reconcile_measured env node)
  unfolding reconcile_measured
  reconcile_measured-Declares node t =
      grind
        (arith, handle_deletion-Declares, ensure_finalizer-Declares node t, reconcile_live-Declares)

  refresh_config_size_metric-Declares :
      (node : TalosNode) → Declares (refresh_config_size_metric env node)
  unfolding refresh_config_size_metric
  refresh_config_size_metric-Declares node t = grind arith

  reconcile_found-Declares : (node : TalosNode) → Declares (reconcile_found env node)
  unfolding reconcile_found
  reconcile_found-Declares node t = grind (
    arith,
    refresh_config_size_metric-Declares node,
    reconcile_measured-Declares,
    fits-phase_notes,
  )

  reconcile-Declares : (namespace name : String) → Declares (reconcile env namespace name)
  unfolding reconcile
  reconcile-Declares namespace name t = grind (arith, reconcile_found-Declares)

  run-declares :
      (requests : List (String × String)) (t : Trace)
      → fits (run env requests t).notes ≡ fits t.notes
  unfolding run
  run-declares [] t = refl
  run-declares ((namespace, name) ∷ requests) t =
      grind (arith, run-declares requests, reconcile-Declares namespace name t)

  -- In any sequence of reconciles of any nodes, whatever the environment answers, every write to a
  -- metric that the controller makes itself calls a method that its collector has, with as many
  -- label values as the collector declares labels, so that no WithLabelValues panics. The writes
  -- that a connection to a machine makes for its RPCs are not among them.
  pub run-fits : (requests : List (String × String)) → fits (run env requests empty).notes ≡ true
  run-fits requests = run-declares requests empty
