-- ===== src/Node/Deletion/Sequence.antt =====
-- The order of the calls of `handleDeletion` of talosnode_controller.go.
use yk_talos_management.Prelude.{List, true, ◌≡◌, arith, nat_eq, string_eq}
use yk_talos_management.Api.{TalosNode, node_role_eq, node_phase_eq}
use yk_talos_management.Effects.Calls.{Entry, Trace}
use yk_talos_management.Effects.Environment.{Env}
use yk_talos_management.Node.Deletion.{
  is_last_control_plane, enter_deleting, guard_quorum, drain_step, etcd_step, reset_step,
  delete_config_step, remove_endpoint_once, remove_endpoint_from_cluster, rewrite_kubeconfig,
  refresh_kubeconfig, cluster_step, release, clean_up, after_drain, after_guard, delete_steps,
  handle_deletion,
}
use yk_talos_management.Node.Deletion.Stages.{
  ordered, IsAt, Goes, ordered-more, retry_on_conflict-IsAt, try_reset-IsAt, handle_etcd_leave-IsAt,
  drain_and_delete_node-IsAt,
}

module _ (env : Env) where
  remove_endpoint_once-IsAt : (node : TalosNode) → IsAt 5 (remove_endpoint_once env node)
  unfolding remove_endpoint_once
  remove_endpoint_once-IsAt node t h = grind arith

  remove_endpoint-IsAt : (node : TalosNode) → IsAt 5 (remove_endpoint_from_cluster env node)
  unfolding remove_endpoint_from_cluster
  remove_endpoint-IsAt node =
      retry_on_conflict-IsAt 5 env.retries (remove_endpoint_once env node)
        (remove_endpoint_once-IsAt node)

  refresh_kubeconfig-IsAt : (node : TalosNode) → IsAt 5 (refresh_kubeconfig env node)
  unfolding refresh_kubeconfig rewrite_kubeconfig
  refresh_kubeconfig-IsAt node t h = grind arith

  cluster_step-IsAt : (node : TalosNode) → IsAt 5 (cluster_step env node)
  unfolding cluster_step
  cluster_step-IsAt node t h = grind (arith, remove_endpoint-IsAt, refresh_kubeconfig-IsAt)

  delete_config_step-IsAt : (node : TalosNode) → IsAt 4 (delete_config_step env node)
  unfolding delete_config_step
  delete_config_step-IsAt node t h = grind arith

  release-IsAt : (node : TalosNode) → IsAt 6 (release env node)
  unfolding release
  release-IsAt node t h = grind arith

  reset_step-IsAt : (node : TalosNode) → IsAt 3 (reset_step env node)
  unfolding reset_step
  reset_step-IsAt node t h = grind (arith, try_reset-IsAt)

  clean_up-Goes : (node : TalosNode) → Goes 3 6 (clean_up env node)
  unfolding clean_up
  clean_up-Goes node t h = grind (
    arith,
    reset_step-IsAt,
    delete_config_step-IsAt,
    cluster_step-IsAt,
    release-IsAt,
    λ (r : List Entry). ordered-more 3 4 r (omega arith),
    λ (r : List Entry). ordered-more 4 5 r (omega arith),
    λ (r : List Entry). ordered-more 5 6 r (omega arith),
  )

  etcd_step-IsAt : (node : TalosNode) → IsAt 2 (etcd_step env node)
  unfolding etcd_step
  etcd_step-IsAt node t h = grind (arith, handle_etcd_leave-IsAt)

  drain_step-IsAt : (node : TalosNode) → IsAt 1 (drain_step env node)
  unfolding drain_step
  drain_step-IsAt node t h = grind (arith, drain_and_delete_node-IsAt)

  enter_deleting-IsAt : (node : TalosNode) → IsAt 1 (enter_deleting env node)
  unfolding enter_deleting
  enter_deleting-IsAt node t h = grind arith

  guard_quorum-IsAt : (node : TalosNode) → IsAt 1 (guard_quorum env node)
  unfolding guard_quorum is_last_control_plane
  guard_quorum-IsAt node t h = grind arith

  after_drain-Goes : (node : TalosNode) → Goes 2 6 (after_drain env node)
  unfolding after_drain
  after_drain-Goes node t h = grind (
    arith,
    etcd_step-IsAt,
    clean_up-Goes,
    λ (r : List Entry). ordered-more 2 3 r (omega arith),
    λ (r : List Entry). ordered-more 2 6 r (omega arith),
  )

  after_guard-Goes : (node : TalosNode) → Goes 1 6 (after_guard env node)
  unfolding after_guard
  after_guard-Goes node t h = grind (
    arith,
    drain_step-IsAt,
    after_drain-Goes,
    λ (r : List Entry). ordered-more 1 2 r (omega arith),
    λ (r : List Entry). ordered-more 1 6 r (omega arith),
  )

  delete_steps-Goes : (node : TalosNode) → Goes 1 6 (delete_steps env node)
  unfolding delete_steps
  delete_steps-Goes node t h = grind (
    arith,
    enter_deleting-IsAt,
    guard_quorum-IsAt,
    after_guard-Goes,
    λ (r : List Entry). ordered-more 1 6 r (omega arith),
  )

  -- After a history with no calls of a deletion past the drain, and whatever the environment
  -- answers, a deletion makes its changes in this order, as far as it gets: cordon, evictions and
  -- the deletion of the Kubernetes node; the removal from etcd; the reset; the deletion of the secret
  -- with the config; the writes of the cluster and of its kubeconfig; and last the write of the node
  -- that releases the finalizer.
  pub handle_deletion-ordered :
      (node : TalosNode) (t : Trace)
      → ordered 1 t.calls ≡ true
      → ordered 6 (handle_deletion env node t).1.calls ≡ true
  unfolding handle_deletion
  handle_deletion-ordered node t h =
      grind (arith, delete_steps-Goes, ordered-more 1 6 t.calls (omega arith) h)
