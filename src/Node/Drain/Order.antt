-- ===== src/Node/Drain/Order.antt =====
-- The history of calls over talosnode_drain.go.
use yk_talos_management.Prelude.{
  ℕ, zero, suc, String, List, [], ◌∷◌, true, ◌≡◌, refl, arith, string_eq,
}
use yk_talos_management.Api.{TalosNode}
use yk_talos_management.Effects.Objects.{Pod, RemoteClient}
use yk_talos_management.Effects.Calls.{Call, did}
use yk_talos_management.Effects.Environment.{Env}
use yk_talos_management.History.{Invariant, Keeps, retry_on_conflict-Keeps}
use yk_talos_management.Node.Drain.Evictable.{is_evictable}
use yk_talos_management.Node.Drain.{
  build_remote_client, resolve_node_name, cordon_once, cordon_node, evict_pod, evict_pods,
  drain_pods, poll_pods, await_tick, drain_found, drain_resolved, drain_and_delete_node,
}

module _ (I : Invariant) (env : Env) where
  cordon_once-Keeps :
      (n k : ℕ) (c : RemoteClient) (node_name : String)
      → Keeps I n k k (cordon_once env c node_name)
  unfolding cordon_once
  cordon_once-Keeps n k c node_name t h = grind arith

  cordon_node-Keeps :
      (n k : ℕ) (c : RemoteClient) (node_name : String)
      → Keeps I n k k (cordon_node env c node_name)
  unfolding cordon_node
  cordon_node-Keeps n k c node_name =
      retry_on_conflict-Keeps I n k env.retries (cordon_once env c node_name)
        (cordon_once-Keeps n k c node_name)

  evict_pod-Keeps :
      (n k : ℕ) (c : RemoteClient) (pod : Pod)
      → is_evictable pod ≡ true
      → Keeps I n k k (evict_pod env c pod)
  unfolding evict_pod
  evict_pod-Keeps n k c pod e t h = grind arith

  evict_pods-Keeps :
      (n k : ℕ) (c : RemoteClient) (pods : List Pod) → Keeps I n k k (evict_pods env c pods)
  unfolding evict_pods
  evict_pods-Keeps n k c [] t h = h
  evict_pods-Keeps n k c (pod ∷ pods) t h =
      grind (arith, evict_pod-Keeps, evict_pods-Keeps n k c pods)

  poll_pods-Keeps :
      (n k : ℕ) (c : RemoteClient) (node_name : String) → Keeps I n k k (poll_pods env c node_name)
  unfolding poll_pods
  poll_pods-Keeps n k c node_name t h = grind (arith, evict_pods-Keeps)

  await_tick-Keeps : (n k : ℕ) → Keeps I n k k (await_tick env)
  unfolding await_tick
  await_tick-Keeps n k t h = grind arith

  drain_pods-Keeps :
      (n k rounds : ℕ) (c : RemoteClient) (node_name : String) (deadline : ℕ)
      → Keeps I n k k (drain_pods env rounds c node_name deadline)
  unfolding drain_pods
  drain_pods-Keeps n k zero c node_name deadline t h = h
  drain_pods-Keeps n k (suc rounds) c node_name deadline t h = grind (
    arith,
    poll_pods-Keeps n k c node_name (record t { calls = did Call.now ∷ t.calls })
        (I.done n k Call.now t.calls refl refl h),
    await_tick-Keeps n k,
    drain_pods-Keeps n k rounds c node_name deadline,
  )

  drain_found-Keeps :
      (n k : ℕ) (node : TalosNode) (c : RemoteClient) (node_name : String)
      → Keeps I n k k (drain_found env node c node_name)
  unfolding drain_found
  drain_found-Keeps n k node c node_name t h = grind (arith, cordon_node-Keeps, drain_pods-Keeps)

  drain_resolved-Keeps :
      (n k : ℕ) (node : TalosNode) (c : RemoteClient) (node_name : String)
      → Keeps I n k k (drain_resolved env node c node_name)
  unfolding drain_resolved
  drain_resolved-Keeps n k node c node_name t h = grind (arith, drain_found-Keeps)

  resolve_node_name-Keeps :
      (n k : ℕ) (node : TalosNode) → Keeps I n k k (resolve_node_name env node)
  unfolding resolve_node_name
  resolve_node_name-Keeps n k node t h = grind arith

  build_remote_client-Keeps :
      (n k : ℕ) (cluster_ref namespace : String)
      → Keeps I n k k (build_remote_client env cluster_ref namespace)
  unfolding build_remote_client
  build_remote_client-Keeps n k cluster_ref namespace t h = grind arith

  pub drain_and_delete_node-Keeps :
      (n k : ℕ) (node : TalosNode) → Keeps I n k k (drain_and_delete_node env node)
  unfolding drain_and_delete_node
  drain_and_delete_node-Keeps n k node t h =
      grind (arith, build_remote_client-Keeps, resolve_node_name-Keeps, drain_resolved-Keeps)
