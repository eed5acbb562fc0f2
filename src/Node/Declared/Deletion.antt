-- ===== src/Node/Declared/Deletion.antt =====
-- The metrics of `handleStandaloneReset` and `handleDeletion`.
use yk_talos_management.Prelude.{arith, string_eq}
use yk_talos_management.Api.{TalosNode}
use yk_talos_management.Effects.Environment.{Env}
use yk_talos_management.Talos.Conditions.{set_condition_status}
use yk_talos_management.Node.Reset.{handle_standalone_reset, forget_config}
use yk_talos_management.Node.Deletion.{
  is_last_control_plane, enter_deleting, guard_quorum, drain_step, etcd_step, reset_step,
  delete_config_step, remove_endpoint_once, remove_endpoint_from_cluster, rewrite_kubeconfig,
  refresh_kubeconfig, cluster_step, release, clean_up, after_drain, after_guard, delete_steps,
  handle_deletion,
}
use yk_talos_management.Node.Declared.{
  Declares, fits-phase_notes, fits-events, retry_on_conflict-Declares,
}
use yk_talos_management.Node.Declared.Leaving.{
  try_reset-Declares, handle_etcd_leave-Declares, drain_and_delete_node-Declares,
}

module _ (env : Env) where
  forget_config-Declares : (node : TalosNode) → Declares (forget_config env node)
  unfolding forget_config set_condition_status
  forget_config-Declares node t = grind (arith, fits-phase_notes)

  pub handle_standalone_reset-Declares :
      (node : TalosNode) → Declares (handle_standalone_reset env node)
  unfolding handle_standalone_reset
  handle_standalone_reset-Declares node t =
      grind (arith, try_reset-Declares, forget_config-Declares, fits-events)

  remove_endpoint_once-Declares : (node : TalosNode) → Declares (remove_endpoint_once env node)
  unfolding remove_endpoint_once
  remove_endpoint_once-Declares node t = grind arith

  remove_endpoint-Declares : (node : TalosNode) → Declares (remove_endpoint_from_cluster env node)
  unfolding remove_endpoint_from_cluster
  remove_endpoint-Declares node =
      retry_on_conflict-Declares env.retries (remove_endpoint_once env node)
        (remove_endpoint_once-Declares node)

  refresh_kubeconfig-Declares : (node : TalosNode) → Declares (refresh_kubeconfig env node)
  unfolding refresh_kubeconfig rewrite_kubeconfig
  refresh_kubeconfig-Declares node t = grind arith

  cluster_step-Declares : (node : TalosNode) → Declares (cluster_step env node)
  unfolding cluster_step
  cluster_step-Declares node t =
      grind (arith, remove_endpoint-Declares, refresh_kubeconfig-Declares)

  delete_config_step-Declares : (node : TalosNode) → Declares (delete_config_step env node)
  unfolding delete_config_step
  delete_config_step-Declares node t = grind arith

  release-Declares : (node : TalosNode) → Declares (release env node)
  unfolding release
  release-Declares node t = grind arith

  reset_step-Declares : (node : TalosNode) → Declares (reset_step env node)
  unfolding reset_step
  reset_step-Declares node t = grind (arith, try_reset-Declares, fits-events)

  clean_up-Declares : (node : TalosNode) → Declares (clean_up env node)
  unfolding clean_up
  clean_up-Declares node t = grind (
    arith, reset_step-Declares, delete_config_step-Declares, cluster_step-Declares,
    release-Declares,
  )

  etcd_step-Declares : (node : TalosNode) → Declares (etcd_step env node)
  unfolding etcd_step
  etcd_step-Declares node t = grind (arith, handle_etcd_leave-Declares)

  drain_step-Declares : (node : TalosNode) → Declares (drain_step env node)
  unfolding drain_step
  drain_step-Declares node t = grind (arith, drain_and_delete_node-Declares)

  enter_deleting-Declares : (node : TalosNode) → Declares (enter_deleting env node)
  unfolding enter_deleting
  enter_deleting-Declares node t = grind (arith, fits-phase_notes)

  after_drain-Declares : (node : TalosNode) → Declares (after_drain env node)
  unfolding after_drain
  after_drain-Declares node t = grind (arith, etcd_step-Declares, clean_up-Declares)

  after_guard-Declares : (node : TalosNode) → Declares (after_guard env node)
  unfolding after_guard
  after_guard-Declares node t = grind (arith, drain_step-Declares, after_drain-Declares)

  guard_quorum-Declares : (node : TalosNode) → Declares (guard_quorum env node)
  unfolding guard_quorum is_last_control_plane
  guard_quorum-Declares node t = grind arith

  delete_steps-Declares : (node : TalosNode) → Declares (delete_steps env node)
  unfolding delete_steps
  delete_steps-Declares node t =
      grind (arith, enter_deleting-Declares, guard_quorum-Declares, after_guard-Declares)

  pub handle_deletion-Declares : (node : TalosNode) → Declares (handle_deletion env node)
  unfolding handle_deletion
  handle_deletion-Declares node t = grind (arith, delete_steps-Declares)
