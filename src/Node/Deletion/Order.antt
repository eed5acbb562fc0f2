-- ===== src/Node/Deletion/Order.antt =====
-- The history of calls over `handleDeletion` of talosnode_controller.go.
use yk_talos_management.Prelude.{ℕ, suc, arith, string_eq}
use yk_talos_management.Api.{TalosNode}
use yk_talos_management.Effects.Environment.{Env}
use yk_talos_management.History.{Invariant, Keeps, retry_on_conflict-Keeps}
use yk_talos_management.Node.Access.Order.{try_reset_forced-Keeps}
use yk_talos_management.Node.Etcd.Order.{handle_etcd_leave-Keeps}
use yk_talos_management.Node.Drain.Order.{drain_and_delete_node-Keeps}
use yk_talos_management.Node.Deletion.{
  is_last_control_plane, enter_deleting, guard_quorum, drain_step, etcd_step, reset_step,
  delete_config_step, remove_endpoint_once, remove_endpoint_from_cluster, rewrite_kubeconfig,
  refresh_kubeconfig, cluster_step, release, clean_up, after_drain, after_guard, delete_steps,
  handle_deletion,
}

module _ (I : Invariant) (env : Env) where
  remove_endpoint_once-Keeps :
      (n k : ℕ) (node : TalosNode) → Keeps I n k k (remove_endpoint_once env node)
  unfolding remove_endpoint_once
  remove_endpoint_once-Keeps n k node t h = grind arith

  remove_endpoint-Keeps :
      (n k : ℕ) (node : TalosNode) → Keeps I n k k (remove_endpoint_from_cluster env node)
  unfolding remove_endpoint_from_cluster
  remove_endpoint-Keeps n k node =
      retry_on_conflict-Keeps I n k env.retries (remove_endpoint_once env node)
        (remove_endpoint_once-Keeps n k node)

  refresh_kubeconfig-Keeps :
      (n k : ℕ) (node : TalosNode) → Keeps I n k k (refresh_kubeconfig env node)
  unfolding refresh_kubeconfig rewrite_kubeconfig
  refresh_kubeconfig-Keeps n k node t h = grind arith

  cluster_step-Keeps : (n k : ℕ) (node : TalosNode) → Keeps I n k k (cluster_step env node)
  unfolding cluster_step
  cluster_step-Keeps n k node t h = grind (arith, remove_endpoint-Keeps, refresh_kubeconfig-Keeps)

  delete_config_step-Keeps :
      (n k : ℕ) (node : TalosNode) → Keeps I n k k (delete_config_step env node)
  unfolding delete_config_step
  delete_config_step-Keeps n k node t h = grind arith

  release-Keeps : (n k : ℕ) (node : TalosNode) → Keeps I n k k (release env node)
  unfolding release
  release-Keeps n k node t h = grind arith

  reset_step-Keeps : (n k : ℕ) (node : TalosNode) → Keeps I n k (suc k) (reset_step env node)
  unfolding reset_step
  reset_step-Keeps n k node t h = grind (arith, try_reset_forced-Keeps, I.more n k)

  clean_up-Keeps : (n k : ℕ) (node : TalosNode) → Keeps I n k (suc k) (clean_up env node)
  unfolding clean_up
  clean_up-Keeps n k node t h =
      grind (arith, reset_step-Keeps, delete_config_step-Keeps, cluster_step-Keeps, release-Keeps)

  etcd_step-Keeps : (n k : ℕ) (node : TalosNode) → Keeps I n k k (etcd_step env node)
  unfolding etcd_step
  etcd_step-Keeps n k node t h = grind (arith, handle_etcd_leave-Keeps)

  drain_step-Keeps : (n k : ℕ) (node : TalosNode) → Keeps I n k k (drain_step env node)
  unfolding drain_step
  drain_step-Keeps n k node t h = grind (arith, drain_and_delete_node-Keeps)

  enter_deleting-Keeps : (n k : ℕ) (node : TalosNode) → Keeps I n k k (enter_deleting env node)
  unfolding enter_deleting
  enter_deleting-Keeps n k node t h = grind arith

  after_drain-Keeps : (n k : ℕ) (node : TalosNode) → Keeps I n k (suc k) (after_drain env node)
  unfolding after_drain
  after_drain-Keeps n k node t h = grind (arith, etcd_step-Keeps, clean_up-Keeps, I.more n k)

  after_guard-Keeps : (n k : ℕ) (node : TalosNode) → Keeps I n k (suc k) (after_guard env node)
  unfolding after_guard
  after_guard-Keeps n k node t h = grind (arith, drain_step-Keeps, after_drain-Keeps, I.more n k)

  guard_quorum-Keeps : (n k : ℕ) (node : TalosNode) → Keeps I n k k (guard_quorum env node)
  unfolding guard_quorum is_last_control_plane
  guard_quorum-Keeps n k node t h = grind arith

  delete_steps-Keeps : (n k : ℕ) (node : TalosNode) → Keeps I n k (suc k) (delete_steps env node)
  unfolding delete_steps
  delete_steps-Keeps n k node t h =
      grind (arith, enter_deleting-Keeps, guard_quorum-Keeps, after_guard-Keeps, I.more n k)

  pub handle_deletion-Keeps :
      (n k : ℕ) (node : TalosNode) → Keeps I n k (suc k) (handle_deletion env node)
  unfolding handle_deletion
  handle_deletion-Keeps n k node t h = grind (arith, delete_steps-Keeps, I.more n k)
