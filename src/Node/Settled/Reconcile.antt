-- ===== src/Node/Settled/Reconcile.antt =====
-- A reconcile by talosnode_controller.go of a node that is up to date.
use yk_talos_management.Prelude.{
  String, ◌∷◌, true, false, ◌==◌, string_eq, nat_eq, none, ◌≡◌, ◌∙◌, ap, refl, arith,
  String-discrete,
}
use yk_talos_management.Api.{
  NodePhase-discrete, TalosNode, node_phase_eq, NodePhase, condition_status_eq,
}
use yk_talos_management.Effects.Error.{ok}
use yk_talos_management.Effects.Calls.{Call, did, Trace}
use yk_talos_management.Effects.Environment.{Env}
use yk_talos_management.Talos.Finalizer.{
  contains_finalizer, finalizer_cleanup, annotation_upgrade, annotation_last_upgrade,
  annotation_reset, annotation_last_reset,
}
use yk_talos_management.Shared.Constants.{finished}
use yk_talos_management.Shared.Helpers.{ensure_finalizer}
use yk_talos_management.Node.Settled.{
  apply_node_config-object, apply_node_config-is_node_up_to_date,
}
use yk_talos_management.Quiet.{actions}
use yk_talos_management.Node.Extensions.{reconcile_version}
use yk_talos_management.Node.Status.{drift_enabled}
use yk_talos_management.Node.Apply.{apply_node_config}
use yk_talos_management.Node.Reconcile.{
  is_node_up_to_date, is_requested, refresh_config_size_metric, reconcile_config, reconcile_spec,
  reconcile_live, reconcile_measured, reconcile_found, reconcile,
}

module _ (env : Env) where
  refresh_config_size_metric-actions :
      (n : TalosNode) (t : Trace)
      → actions (refresh_config_size_metric env n t).1.calls ≡ actions t.calls
  unfolding refresh_config_size_metric
  refresh_config_size_metric-actions n t = ground arith

  refresh_config_size_metric-ok :
      (n : TalosNode) (t : Trace) → (refresh_config_size_metric env n t).0 ≡ ok tt
  unfolding refresh_config_size_metric
  refresh_config_size_metric-ok n t = ground arith

  reconcile_config_quiet :
      (n : TalosNode) (t : Trace)
      → is_requested annotation_reset annotation_last_reset n ≡ false
      → drift_enabled n ≡ false
      → is_node_up_to_date n ≡ true
      → reconcile_config env n t ≡ (ok finished, t)
  unfolding reconcile_config
  reconcile_config_quiet n t r d s = rw (r, s, d) refl

  reconcile_spec_quiet :
      (n : TalosNode) (t : Trace)
      → n.spec.talos_version ≡ ""
      → reconcile_spec env n t ≡ reconcile_config env n t
  unfolding reconcile_spec reconcile_version String-discrete
  reconcile_spec_quiet n t v = rw v refl

  phase_up_to_date :
      (n : TalosNode)
      → is_node_up_to_date n ≡ true
      → (n.status.phase == NodePhase.upgrading) ≡ false
  unfolding is_node_up_to_date NodePhase-discrete
  phase_up_to_date n s = ground arith

  reconcile_live_quiet :
      (n : TalosNode) (t : Trace)
      → is_requested annotation_upgrade annotation_last_upgrade n ≡ false
      → is_node_up_to_date n ≡ true
      → reconcile_live env n t ≡ reconcile_spec env n t
  unfolding reconcile_live
  reconcile_live_quiet n t u s = rw (phase_up_to_date n s, u) refl

  reconcile_measured_quiet :
      (n : TalosNode) (t : Trace)
      → contains_finalizer n.meta.finalizers finalizer_cleanup ≡ true
      → n.meta.deletion_timestamp ≡ none
      → reconcile_measured env n t ≡ reconcile_live env n t
  unfolding reconcile_measured ensure_finalizer
  reconcile_measured_quiet n t f d = rw (d, f) refl

  reconcile_found_quiet :
      (n : TalosNode) (t : Trace)
      → ((t' : Trace) → reconcile_measured env n t' ≡ (ok finished, t'))
      → ((reconcile_found env n t).0 ≡ ok finished)
        × (actions (reconcile_found env n t).1.calls ≡ actions t.calls)
  unfolding reconcile_found
  reconcile_found_quiet n t q =
      grind (arith, refresh_config_size_metric-actions n, refresh_config_size_metric-ok n)

  -- A node that is up to date, and of which nothing else is asked, is left alone.
  up_to_date_quiet :
      (n : TalosNode) (t : Trace)
      → contains_finalizer n.meta.finalizers finalizer_cleanup ≡ true
      → n.meta.deletion_timestamp ≡ none
      → is_requested annotation_upgrade annotation_last_upgrade n ≡ false
      → is_requested annotation_reset annotation_last_reset n ≡ false
      → drift_enabled n ≡ false
      → n.spec.talos_version ≡ ""
      → is_node_up_to_date n ≡ true
      → ((reconcile_found env n t).0 ≡ ok finished)
        × (actions (reconcile_found env n t).1.calls ≡ actions t.calls)
  up_to_date_quiet n t f d u r c v s = reconcile_found_quiet n t (λ t'.
      reconcile_measured_quiet n t' f d
      ∙ reconcile_live_quiet n t' u s
      ∙ reconcile_spec_quiet n t' v
      ∙ reconcile_config_quiet n t' r c s)

  reconcile-found :
      (n : TalosNode) (namespace name : String) (t : Trace)
      → env.get_node namespace name t ≡ ok n
      → reconcile env namespace name t
        ≡ reconcile_found env n (record t { calls = did (Call.get_node namespace name) ∷ t.calls })
  unfolding reconcile
  reconcile-found n namespace name t g = rw g refl

  -- If the API server keeps the status that is written, then after a successful apply of the
  -- config of a node, a reconcile that finds the node as it was saved returns with no delay and
  -- makes no calls other than reads from the API server. The node is taken to have the finalizer,
  -- not to be deleted, to ask for no upgrade, no reset and no Talos version, and to have drift
  -- detection off.
  pub apply_node_config-settled :
      (n n' : TalosNode) (namespace name : String) (t t' : Trace)
      → ((m m' : TalosNode) (s : Trace) → env.update_node_status m s ≡ ok m' → m' ≡ m)
      → contains_finalizer n.meta.finalizers finalizer_cleanup ≡ true
      → n.meta.deletion_timestamp ≡ none
      → is_requested annotation_upgrade annotation_last_upgrade n ≡ false
      → is_requested annotation_reset annotation_last_reset n ≡ false
      → drift_enabled n ≡ false
      → n.spec.talos_version ≡ ""
      → (apply_node_config env n t).0 ≡ ok (n', ok tt)
      → env.get_node namespace name t' ≡ ok n'
      → ((reconcile env namespace name t').0 ≡ ok finished)
        × (actions (reconcile env namespace name t').1.calls ≡ actions t'.calls)
  unfolding drift_enabled
  apply_node_config-settled n n' namespace name t t' saves f d u r c v h g =
      let same = apply_node_config-object env saves n' n t h in
      let meta = ap (λ x. x.meta) same in
      let spec = ap (λ x. x.spec) same in
      rw (reconcile-found n' namespace name t' g) (
        up_to_date_quiet n' _ (rw meta f) (rw meta d) (rw meta u) (rw meta r) (rw spec c)
          (rw spec v) (apply_node_config-is_node_up_to_date env saves n' n t h))
