-- ===== src/Bootstrap/Nodes.antt =====
-- `readyControlPlaneCount`, `waitForReadyNodes`, `nodeToBootstrap` and `nodeReadyPredicate`.
use yk_talos_management.Prelude.{
  ℕ, suc, String, List, [], ◌∷◌, Bool, ltb, ◌==◌, ◌!=◌, ◌&&◌, string_eq, if◌then◌else◌, Option,
  none, some,
}
use yk_talos_management.Api.{
  TalosNode, TalosClusterBootstrap, NodePhase, NodeRole, BootstrapPhase, node_phase_eq,
  node_role_eq,
}
use yk_talos_management.Effects.Error.{Answer, ok, err, wrap}
use yk_talos_management.Effects.Objects.{Result}
use yk_talos_management.Effects.Monad.{M, pure, try, ◌>>=◌, ◌>>◌}
use yk_talos_management.Effects.Environment.{Env}
use yk_talos_management.Effects.Kube.{list_nodes, list_bootstraps, update_bootstrap_status}
use yk_talos_management.Shared.Constants.{node_ready_delay, requeue}
use yk_talos_management.Bootstrap.Status.{with_status, note_phase}

-- The test in the loop of `readyControlPlaneCount`.
unfoldable pub is_ready_control_plane : String → TalosNode → Bool
is_ready_control_plane cluster_ref n =
    n.spec.cluster_ref == cluster_ref
    && n.spec.role == NodeRole.control_plane
    && n.status.phase == NodePhase.ready

unfoldable pub count_ready : String → List TalosNode → ℕ
unfolding is_ready_control_plane
count_ready cluster_ref [] = 0
count_ready cluster_ref (n ∷ items) =
    let rest = count_ready cluster_ref items in
    if is_ready_control_plane cluster_ref n then suc rest else rest

-- The loop of `nodeToBootstrap`: the bootstraps of the node's cluster, by namespace and name.
unfoldable pub requests_for : String → List TalosClusterBootstrap → List (String × String)
requests_for cluster_ref [] = []
requests_for cluster_ref (b ∷ items) =
    let rest = requests_for cluster_ref items in
    if b.spec.cluster_ref == cluster_ref then (b.meta.namespace, b.meta.name) ∷ rest else rest

-- The update function of `nodeReadyPredicate`, on two TalosNodes.
unfoldable pub node_became_ready : TalosNode → TalosNode → Bool
node_became_ready old new =
    new.spec.role == NodeRole.control_plane
    && old.status.phase != NodePhase.ready
    && new.status.phase == NodePhase.ready

module _ (env : Env) where
  -- `nodeToBootstrap`
  unfoldable pub node_to_bootstrap : TalosNode → M (List (String × String))
  node_to_bootstrap node = if node.spec.role != NodeRole.control_plane then pure [] else (do
    r ← try (list_bootstraps env node.meta.namespace)
    elim r [ err e ↦ pure [] | ok items ↦ pure (requests_for node.spec.cluster_ref items) ])

  -- No control plane node is ready: the phase WaitingForNodes is saved. The bootstrap comes back
  -- as it is in memory.
  unfoldable pub save_waiting :
      TalosClusterBootstrap → M (TalosClusterBootstrap × Answer (Option Result))
  save_waiting bootstrap = do
    note_phase bootstrap bootstrap.status.phase BootstrapPhase.waiting_for_nodes
    let waiting = with_status bootstrap (record (bootstrap.status) {
      phase = BootstrapPhase.waiting_for_nodes;
      message = "Waiting for at least one control plane node to reach Ready phase";
    })
    r ← try (update_bootstrap_status env waiting)
    elim r [
      | err e ↦ pure (waiting, err (wrap "update status" e))
      | ok saved ↦ pure (saved, ok (some (requeue node_ready_delay)))
    ]

  -- `waitForReadyNodes`: `none` where reconciliation goes on.
  unfoldable pub wait_for_ready_nodes :
      TalosClusterBootstrap → M (TalosClusterBootstrap × Answer (Option Result))
  wait_for_ready_nodes bootstrap = do
    r ← try (list_nodes env bootstrap.meta.namespace)
    elim r [
      | err e ↦ pure (bootstrap, err (wrap "list nodes" e))
      | ok nodes ↦
          if ltb 0 (count_ready bootstrap.spec.cluster_ref nodes)
          then pure (bootstrap, ok none)
          else save_waiting bootstrap
    ]
