-- ===== src/Node/Deletion/Laws.antt =====
-- About the guard of `handleDeletion` and `isLastControlPlane` of talosnode_controller.go.
use yk_talos_management.Prelude.{
  List, [], ◌∷◌, Bool, true, false, not, any, ◌≡◌, refl, arith, ◌==◌, ◌!=◌, ◌&&◌, string_eq,
}
use yk_talos_management.Api.{
  TalosNode, TalosCluster, NodePhase, NodeRole, node_phase_eq, node_role_eq, NodePhase-discrete,
  NodeRole-discrete,
}
use yk_talos_management.Effects.Error.{ok}
use yk_talos_management.Effects.Calls.{Call, did, Trace}
use yk_talos_management.Effects.Environment.{Env}
use yk_talos_management.Talos.Finalizer.{contains_finalizer, finalizer_cleanup}
use yk_talos_management.Shared.Constants.{deletion_guard_requeue_delay, requeue}
use yk_talos_management.Node.Deletion.{
  is_last_control_plane, enter_deleting, guard_quorum, delete_steps, handle_deletion,
}
use yk_talos_management.Node.Deletion.Guard.{is_terminating, no_other_control_plane}

-- Another control plane node of the same cluster that stays.
abbrev pub is_active_peer : TalosNode → TalosNode → Bool
is_active_peer node n =
    n.meta.name != node.meta.name
    && n.spec.cluster_ref == node.spec.cluster_ref
    && n.spec.role == NodeRole.control_plane
    && not (is_terminating n)

-- A node counts as the last of its control plane exactly when no listed node is another control
-- plane node of the same cluster that is not terminating.
no_other_control_plane-any :
    (node : TalosNode) (items : List TalosNode)
    → no_other_control_plane node items ≡ not (any (is_active_peer node) items)
unfolding no_other_control_plane
no_other_control_plane-any node [] = refl
no_other_control_plane-any node (n ∷ items) = ground (arith, no_other_control_plane-any node items)

module _ (env : Env) (node : TalosNode) where
  -- The deletion of a control plane node that has the finalizer and is in phase Deleting already,
  -- whose cluster is found and whose listed nodes hold no other control plane node of the cluster
  -- that stays: it reads the cluster and the nodes, does nothing else, and asks to be tried again
  -- after 30 seconds.
  pub handle_deletion-last_control_plane :
      (cluster : TalosCluster) (nodes : List TalosNode) (t : Trace)
      → contains_finalizer node.meta.finalizers finalizer_cleanup ≡ true
      → node.status.phase ≡ NodePhase.deleting
      → node.spec.role ≡ NodeRole.control_plane
      → env.get_cluster node.meta.namespace node.spec.cluster_ref t ≡ ok cluster
      → env.list_nodes node.meta.namespace (record t {
        calls = did (Call.get_cluster node.meta.namespace node.spec.cluster_ref) ∷ t.calls;
      })
        ≡ ok nodes
      → any (is_active_peer node) nodes ≡ false
      → handle_deletion env node t ≡ (
        ok (requeue deletion_guard_requeue_delay),
        record t {
          calls =
              did (Call.list_nodes node.meta.namespace)
              ∷ did (Call.get_cluster node.meta.namespace node.spec.cluster_ref)
              ∷ t.calls;
        },
      )
  unfolding handle_deletion delete_steps enter_deleting guard_quorum is_last_control_plane
      NodePhase-discrete NodeRole-discrete
  handle_deletion-last_control_plane cluster nodes t f p r c l a =
      ground (arith, no_other_control_plane-any node nodes)
