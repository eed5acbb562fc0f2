-- ===== src/Cluster/Laws.antt =====
-- About `handleDeletion` of taloscluster_controller.go.
use yk_talos_management.Prelude.{
  ℕ, suc, String, List, [], ◌∷◌, Bool, true, not, count_if, ◌<◌, ◌≡◌, refl, arith, ◌==◌, ◌&&◌,
  string_eq,
}
use yk_talos_management.Api.{TalosNode, TalosCluster}
use yk_talos_management.Effects.Error.{ok}
use yk_talos_management.Effects.Calls.{Call, Entry, did, failed, Trace}
use yk_talos_management.Effects.Environment.{Env}
use yk_talos_management.Talos.Finalizer.{contains_finalizer, finalizer_cleanup}
use yk_talos_management.Node.Deletion.Guard.{is_terminating}
use yk_talos_management.Shared.Constants.{deletion_guard_requeue_delay, requeue}
use yk_talos_management.Cluster.Status.{count_active}
use yk_talos_management.Cluster.{active_node_count, block_deletion, handle_deletion}

abbrev pub is_active : String → TalosNode → Bool
is_active name n = n.spec.cluster_ref == name && not (is_terminating n)

-- The active nodes are those that refer to the cluster and are not terminating.
count_active-count_if :
    (name : String) (items : List TalosNode)
    → count_active name items ≡ count_if (is_active name) items
unfolding count_active
count_active-count_if name [] = refl
count_active-count_if name (n ∷ items) = ground (arith, count_active-count_if name items)

-- The number of secrets that were deleted or tried, and of writes of clusters.
abbrev pub removals : List Entry → ℕ
removals [] = 0
removals (did (Call.delete_secret s) ∷ rest) = suc (removals rest)
removals (failed (Call.delete_secret s) ∷ rest) = suc (removals rest)
removals (did (Call.update_cluster c) ∷ rest) = suc (removals rest)
removals (failed (Call.update_cluster c) ∷ rest) = suc (removals rest)
removals (_ ∷ rest) = removals rest

module _ (env : Env) (cluster : TalosCluster) where
  -- While the listed nodes hold one that refers to the cluster and is not terminating, the
  -- deletion of a cluster with the finalizer asks to be tried again after 30 seconds, asks for the
  -- deletion of no secret, and does not write the cluster, so that the finalizer stays.
  pub handle_deletion-blocked :
      (nodes : List TalosNode) (t : Trace)
      → contains_finalizer cluster.meta.finalizers finalizer_cleanup ≡ true
      → env.list_nodes cluster.meta.namespace t ≡ ok nodes
      → 0 < count_if (is_active cluster.meta.name) nodes
      → ((handle_deletion env cluster t).0 ≡ ok (requeue deletion_guard_requeue_delay))
        × (removals (handle_deletion env cluster t).1.calls ≡ removals t.calls)
  unfolding handle_deletion active_node_count block_deletion
  handle_deletion-blocked nodes t f l a =
      ground (arith, count_active-count_if cluster.meta.name nodes)
