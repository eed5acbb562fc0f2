-- ===== src/Node/Settled.antt =====
-- The reconcile after a successful apply, in talosnode_controller.go.
pub mod Reconcile
use yk_talos_management.Prelude.{
  ℕ, String, ◌<>◌, List, [], ◌∷◌, Bool, true, false, not, ◌==◌, ◌!=◌, ◌&&◌, string_eq, nat_eq, none,
  some, ◌≡◌, ◌∙◌, ap, refl, arith, String-discrete, ℕ_discrete, if◌then◌else◌,
}
use yk_talos_management.Api.{
  NodePhase-discrete, TalosNode, node_phase_eq, NodePhase, condition_status_eq, cond_true,
}
use yk_talos_management.Effects.Error.{Answer, ok, err, wrap}
use yk_talos_management.Effects.Objects.{Connection}
use yk_talos_management.Effects.Calls.{Call, did, failed, Entry, Trace}
use yk_talos_management.Effects.Monad.{M, pure, wrapped, ◌>>=◌, ◌>>◌}
use yk_talos_management.Effects.Environment.{Env}
use yk_talos_management.Effects.Kube.{update_node_status}
use yk_talos_management.Effects.Talos.{apply_config}
use yk_talos_management.Talos.Finalizer.{
  contains_finalizer, finalizer_cleanup, annotation_upgrade, annotation_last_upgrade,
  annotation_reset, annotation_last_reset,
}
use yk_talos_management.Talos.Conditions.{has_condition, set_condition, stamp, set_condition_status}
use yk_talos_management.Talos.Conditions.Laws.{has_condition-set}
use yk_talos_management.Shared.Constants.{finished}
use yk_talos_management.Shared.Helpers.{ensure_finalizer}
use yk_talos_management.Quiet.{actions}
use yk_talos_management.Node.Extensions.{reconcile_version}
use yk_talos_management.Node.Deletion.Guard.{is_terminating}
use yk_talos_management.Node.Status.{
  drift_enabled, with_status, note_phase, condition_config_applied,
}
use yk_talos_management.Node.Apply.{
  Prepared, save_node_config, prepare_connection, mark_applied, deliver, apply_to,
  apply_node_config,
}
use yk_talos_management.Node.Reconcile.{
  is_node_up_to_date, is_requested, refresh_config_size_metric, reconcile_config, reconcile_spec,
  reconcile_live, reconcile_measured, reconcile_found, reconcile,
}

module _ (env : Env)
    (saves : (n n' : TalosNode) (t : Trace) → env.update_node_status n t ≡ ok n' → n' ≡ n) where
  mark_applied-object :
      (n' n : TalosNode) (t : Trace)
      → (mark_applied env n t).0 ≡ ok (n', ok tt)
      → with_status n' n.status ≡ n
  unfolding mark_applied set_condition_status
  mark_applied-object n' n t h = grind (arith, saves)

  mark_applied-is_node_up_to_date :
      (n' n : TalosNode) (t : Trace)
      → (mark_applied env n t).0 ≡ ok (n', ok tt)
      → is_node_up_to_date n' ≡ (n.status.observed_generation == n.meta.generation)
  unfolding mark_applied set_condition_status is_node_up_to_date
  mark_applied-is_node_up_to_date n' n t h = grind (arith, saves, has_condition-set)

  sent : TalosNode → Prepared → Connection → M (Unit {0})
  sent n p conn =
      wrapped "apply config" (apply_config env conn n.spec.node_ip p.config_bytes p.cluster_name)
      >> wrapped "save node config" (save_node_config env n p.config_bytes)

  deliver-object :
      (n' n : TalosNode) (p : Prepared) (conn : Connection) (t : Trace)
      → (deliver env n p conn t).0 ≡ ok (n', ok tt)
      → with_status n' n.status ≡ n
  unfolding deliver sent
  deliver-object n' n p conn t h = grind (arith, mark_applied-object n' n (sent n p conn t).1)

  deliver-is_node_up_to_date :
      (n' n : TalosNode) (p : Prepared) (conn : Connection) (t : Trace)
      → (deliver env n p conn t).0 ≡ ok (n', ok tt)
      → is_node_up_to_date n' ≡ (n.status.observed_generation == n.meta.generation)
  unfolding deliver sent
  deliver-is_node_up_to_date n' n p conn t h =
      grind (arith, mark_applied-is_node_up_to_date n' n (sent n p conn t).1)

  apply_to-object :
      (n' n : TalosNode) (first_apply : Bool) (t : Trace)
      → (apply_to env n first_apply t).0 ≡ ok (n', ok tt)
      → with_status n' n.status ≡ n
  unfolding apply_to
  apply_to-object n' n first_apply t h = grind (arith, deliver-object n' n)

  apply_to-is_node_up_to_date :
      (n' n : TalosNode) (first_apply : Bool) (t : Trace)
      → (apply_to env n first_apply t).0 ≡ ok (n', ok tt)
      → is_node_up_to_date n' ≡ (n.status.observed_generation == n.meta.generation)
  unfolding apply_to
  apply_to-is_node_up_to_date n' n first_apply t h = grind (arith, deliver-is_node_up_to_date n' n)

  -- The node with the status Applying.
  abbrev applying : TalosNode → TalosNode
  applying n =
      with_status n
        (record (n.status) { observed_generation = n.meta.generation; phase = NodePhase.applying })

  -- `applyConfig` from the marked node on, where the API server answers `r` to its status.
  abbrev continued : TalosNode → Answer TalosNode → M (TalosNode × Answer (Unit {0}))
  continued n (err e) = pure (applying n, err (wrap "update status" e))
  continued n (ok saved) = do
    note_phase saved n.status.phase NodePhase.applying
    apply_to env saved (not (has_condition n.status.conditions condition_config_applied cond_true))

  continued-object :
      (n' n : TalosNode) (r : Answer TalosNode) (t t' : Trace)
      → env.update_node_status (applying n) t ≡ r
      → (continued n r t').0 ≡ ok (n', ok tt)
      → with_status n' n.status ≡ n
  continued-object n' n (err e) t t' p h = ground arith
  continued-object n' n (ok saved) t t' p h =
      ap (λ x. with_status x n.status)
        (apply_to-object n' (applying n) _ _ (rw (saves (applying n) saved t p) at h))

  ==_self : (m : ℕ) → (m == m) ≡ true
  ==_self m = ground arith

  continued-is_node_up_to_date :
      (n' n : TalosNode) (r : Answer TalosNode) (t t' : Trace)
      → env.update_node_status (applying n) t ≡ r
      → (continued n r t').0 ≡ ok (n', ok tt)
      → is_node_up_to_date n' ≡ true
  continued-is_node_up_to_date n' n (err e) t t' p h = ground arith
  continued-is_node_up_to_date n' n (ok saved) t t' p h =
      apply_to-is_node_up_to_date n' (applying n) _ _ (rw (saves (applying n) saved t p) at h)
      ∙ ==_self n.meta.generation

  apply_node_config-continued :
      (n : TalosNode) (t : Trace)
      → (apply_node_config env n t)
        ≡ continued n
            (env.update_node_status (applying n) t)
            (update_node_status env (applying n) t).1
  unfolding apply_node_config
  apply_node_config-continued n t = grind arith

  pub apply_node_config-object :
      (n' n : TalosNode) (t : Trace)
      → (apply_node_config env n t).0 ≡ ok (n', ok tt)
      → with_status n' n.status ≡ n
  apply_node_config-object n' n t h =
      continued-object n' n _ t _ refl (rw (apply_node_config-continued n t) at h)

  pub apply_node_config-is_node_up_to_date :
      (n' n : TalosNode) (t : Trace)
      → (apply_node_config env n t).0 ≡ ok (n', ok tt)
      → is_node_up_to_date n' ≡ true
  apply_node_config-is_node_up_to_date n' n t h =
      continued-is_node_up_to_date n' n _ t _ refl (rw (apply_node_config-continued n t) at h)
