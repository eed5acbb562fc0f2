-- ===== src/Node/Drain.antt =====
-- internal/controller/talosnode_drain.go: cordon, drain and delete the node of the managed cluster.
pub mod Laws
pub mod Rounds
pub mod Order
pub mod Evictable
use yk_talos_management.Prelude.{
  ℕ, zero, suc, ◌+◌, ◌/◌, String, ◌<>◌, List, [], ◌∷◌, Bool, true, false, not, ltb, ◌==◌, nat_eq,
  if◌then◌else◌, Option, none, some,
}
use yk_talos_management.Metrics.Collectors.{Metric}
use yk_talos_management.Api.{TalosNode}
use yk_talos_management.Effects.Error.{
  Error, Answer, ok, err, wrap, errorf, is_not_found, is_too_many_requests,
}
use yk_talos_management.Effects.Objects.{Pod, KubeNode, RemoteClient, Connection}
use yk_talos_management.Effects.Calls.{Call, did, Trace}
use yk_talos_management.Effects.Monad.{M, pure, raise, try, wrapped, ◌>>=◌, ◌>>◌}
use yk_talos_management.Effects.Environment.{Env}
use yk_talos_management.Effects.Kube.{
  get_secret, remote_client, get_kube_node, update_kube_node, delete_kube_node, list_pods, evict,
  count, now,
}
use yk_talos_management.Effects.Talos.{dial, closing, get_hostname}
use yk_talos_management.Shared.Names.{cluster_talosconfig_name, cluster_kubeconfig_name}
use yk_talos_management.Shared.Constants.{
  default_drain_timeout, drain_requeue_delay, drain_poll_interval, requeue,
}
use yk_talos_management.Shared.Helpers.{retry_on_conflict}
use yk_talos_management.Shared.Secrets.{secret_key, from_answer}
use yk_talos_management.Node.Etcd.{Progress, proceed, later}
use yk_talos_management.Node.Drain.Evictable.{is_evictable}

module _ (env : Env) where
  unfoldable pub build_remote_client : String → String → M RemoteClient
  build_remote_client cluster_ref namespace = do
    secret ← get_secret env namespace (cluster_kubeconfig_name cluster_ref)
    kubeconfig ← wrapped "read kubeconfig" (from_answer (secret_key secret "kubeconfig"))
    remote_client env kubeconfig

  unfoldable pub resolve_node_name : TalosNode → M String
  resolve_node_name node = do
    secret ←
        wrapped "get talosconfig secret"
          (get_secret env node.meta.namespace (cluster_talosconfig_name node.spec.cluster_ref))
    talosconfig ← wrapped "read talosconfig" (from_answer (secret_key secret "talosconfig"))
    conn ← wrapped ("dial node " <> node.spec.node_ip) (dial env talosconfig node.spec.node_ip)
    closing conn (get_hostname env conn node.spec.node_ip)

  -- One attempt of `cordonNode`.
  unfoldable pub cordon_once : RemoteClient → String → M (Unit {0})
  cordon_once c node_name = do
    node ← wrapped "get node" (get_kube_node env c node_name)
    (if node.unschedulable
        then pure tt
        else update_kube_node env c (record node { unschedulable = true }))

  unfoldable pub cordon_node : RemoteClient → String → M (Unit {0})
  cordon_node c node_name = retry_on_conflict env.retries (cordon_once c node_name)

  -- One pod of a poll: an eviction unless it is already terminating. A pod that a disruption
  -- budget protects, and one that is gone, are no errors.
  unfoldable pub evict_pod : RemoteClient → Pod → M (Unit {0})
  evict_pod c pod = if pod.terminating then pure tt else (do
    r ← try (evict env c pod)
    elim r [
      | ok _ ↦ pure tt
      | err e ↦
          if is_too_many_requests e
          then pure tt
          else if is_not_found e
          then pure tt
          else raise (wrap ("evict pod " <> pod.namespace <> "/" <> pod.name) e)
    ])

  -- The loop over the pods of a poll; the result is `pending`.
  unfoldable pub evict_pods : RemoteClient → List Pod → M ℕ
  evict_pods c [] = pure 0
  evict_pods c (pod ∷ pods) =
      let rest = evict_pods c pods in
      if is_evictable pod then (do evict_pod c pod; pending ← rest; pure (suc pending)) else rest

  -- `ctx.Err()`
  abbrev check_context : M (Unit {0})
  check_context t = elim (env.context_error t) [ none ↦ (ok tt, t) | some e ↦ (err e, t) ]

  -- `<-ticker.C`, unless the context ends first
  unfoldable pub await_tick : M (Unit {0})
  await_tick t =
      let t' = record t { calls = did (Call.wait drain_poll_interval) ∷ t.calls } in
      check_context t'

  -- One poll of `drainPods`: the evictable pods that are left.
  unfoldable pub poll_pods : RemoteClient → String → M ℕ
  poll_pods c node_name = do
    check_context
    pods ← wrapped "list pods" (list_pods env c node_name)
    evict_pods c pods

  -- `drainPods`: at most `rounds` polls, which suffice where a poll takes its interval.
  -- The timeout that the text of its error names is left out: the text is only logged.
  unfoldable pub drain_pods : ℕ → RemoteClient → String → ℕ → M (Unit {0})
  drain_pods zero c node_name deadline t = (err (errorf "drain timeout"), t)
  drain_pods (suc rounds) c node_name deadline t =
      let again = drain_pods rounds c node_name deadline in
      (do
        time ← now env
        (if ltb time deadline
            then (do
              pending ← poll_pods c node_name
              (if pending == 0 then pure tt else (await_tick >> again)))
            else raise (errorf "drain timeout")))
        t

  -- The polls that fit in a timeout, with the first and the last one.
  abbrev pub poll_rounds : ℕ → ℕ
  poll_rounds timeout = suc (timeout / drain_poll_interval + 1)

  abbrev drain_timeout : TalosNode → ℕ
  drain_timeout node = elim (node.spec.drain_timeout) [ none ↦ default_drain_timeout | some d ↦ d ]

  -- `drainAndDeleteNode` from the cordon on.
  unfoldable pub drain_found : TalosNode → RemoteClient → String → M Progress
  drain_found node c node_name = do
    let timeout = drain_timeout node
    wrapped "cordon node" (cordon_node c node_name)
    start ← now env
    r ← try (drain_pods (poll_rounds timeout) c node_name (start + timeout))
    elim r [
      | err e ↦ (do
        count Metric.node_drain_total ("timeout" ∷ node.spec.cluster_ref ∷ [])
        pure (later (requeue drain_requeue_delay)))
      | ok _ ↦ (do
        wrapped "delete node object" (delete_kube_node env c node_name)
        count Metric.node_drain_total ("success" ∷ node.spec.cluster_ref ∷ [])
        pure proceed)
    ]

  unfoldable pub drain_resolved : TalosNode → RemoteClient → String → M Progress
  drain_resolved node c node_name = do
    found ← try (get_kube_node env c node_name)
    elim found [
      | err e ↦ if is_not_found e then pure proceed else raise (wrap ("get node " <> node_name) e)
      | ok _ ↦ drain_found node c node_name
    ]

  unfoldable pub drain_and_delete_node : TalosNode → M Progress
  drain_and_delete_node node = do
    built ← try (build_remote_client node.spec.cluster_ref node.meta.namespace)
    elim built [
      | err e ↦ if is_not_found e then pure proceed else raise e
      | ok c ↦ (do
        resolved ← try (resolve_node_name node)
        elim resolved [ err e ↦ pure proceed | ok node_name ↦ drain_resolved node c node_name ])
    ]
