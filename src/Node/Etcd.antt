-- ===== src/Node/Etcd.antt =====
-- Etcd membership of a departing control plane node: `handleEtcdLeave`, `tryEtcdLeave`,
-- `survivingPeers` of talosnode_controller.go and `dialAny` of talos_dialer.go.
pub mod Laws
pub mod Order
use yk_talos_management.Prelude.{
  ℕ, suc, ◌+◌, String, ◌<>◌, List, [], ◌∷◌, Bool, Option, none, some, ltb, if◌then◌else◌,
}
use yk_talos_management.Metrics.Collectors.{Metric}
use yk_talos_management.Api.{TalosNode}
use yk_talos_management.Effects.Error.{Error, Answer, ok, err, wrap, errorf}
use yk_talos_management.Effects.Objects.{Connection, Result}
use yk_talos_management.Effects.Monad.{M, pure, raise, try, ◌>>=◌, ◌>>◌}
use yk_talos_management.Effects.Environment.{Env}
use yk_talos_management.Effects.Kube.{update_node_status, count}
use yk_talos_management.Effects.Talos.{dial, closing, etcd_leave, etcd_force_remove}
use yk_talos_management.Shared.Constants.{etcd_leave_max_attempts, etcd_leave_retry_delay, requeue}
use yk_talos_management.Shared.Helpers.{filter_exclude}
use yk_talos_management.Node.Status.{with_status}
use yk_talos_management.Node.Access.{load_talosconfig, with_conn}

-- The results `(true, _, nil)` and `(false, result, nil)` of the steps of a deletion. The node
-- comes back, since a step may have changed it in memory.
pub data Progress : Type 0 where
  proceed : Progress
  later : Result → Progress

module _ (env : Env) where
  -- `dialAny`: the first endpoint that answers; the last error otherwise. Without endpoints the
  -- source answers a nil connection and a nil error.
  unfoldable pub dial_any : String → List String → Option Error → M (Option (Connection × String))
  dial_any talosconfig [] none t = pure none t
  dial_any talosconfig [] (some e) t = raise e t
  dial_any talosconfig (endpoint ∷ endpoints) last t =
      let next =
        λ (e : Error). dial_any talosconfig endpoints (some (wrap ("dial " <> endpoint) e)) in
      let (r, t') = dial env talosconfig endpoint t in
      elim r [ ok conn ↦ (ok (some (conn, endpoint)), t') | err e ↦ next e t' ]

  unfoldable pub try_etcd_leave : String → String → M (Unit {0})
  try_etcd_leave node_ip talosconfig =
      with_conn env talosconfig node_ip (λ conn. etcd_leave env conn node_ip)

  -- The attempts are used up: a surviving peer removes the member. Failures are only logged.
  unfoldable pub force_remove : TalosNode → String → List String → M Progress
  force_remove node talosconfig [] = pure proceed
  force_remove node talosconfig (p ∷ peers) = do
    dialed ← try (dial_any talosconfig (p ∷ peers) none)
    elim dialed [
      | err e ↦ pure proceed
      | ok found ↦ elim found [
        | none ↦ pure proceed
        | some (conn, survivor) ↦ closing conn (do
          r ← try (etcd_force_remove env conn survivor node.spec.node_ip)
          elim r [
            | err e ↦
                count Metric.etcd_leave_total ("force_remove_failed" ∷ node.spec.cluster_ref ∷ [])
            | ok _ ↦ count Metric.etcd_leave_total ("force_removed" ∷ node.spec.cluster_ref ∷ [])
          ]
          pure proceed)
      ]
    ]

  -- One graceful attempt.
  unfoldable pub leave_gracefully : TalosNode → String → M Progress
  leave_gracefully node talosconfig = do
    r ← try (try_etcd_leave node.spec.node_ip talosconfig)
    elim r [
      | err e ↦ (do
        let status = record (node.status) { deletion_attempts = node.status.deletion_attempts + 1 }
        count Metric.etcd_leave_total ("failed" ∷ node.spec.cluster_ref ∷ [])
        try (update_node_status env (with_status node status))
        pure (later (requeue etcd_leave_retry_delay)))
      | ok _ ↦ (do
        count Metric.etcd_leave_total ("success" ∷ node.spec.cluster_ref ∷ [])
        pure proceed)
    ]

  -- `handleEtcdLeave` with the talosconfig and the endpoints of the cluster.
  unfoldable pub leave_etcd : TalosNode → String × List String → M Progress
  leave_etcd node (talosconfig, endpoints) =
      if ltb node.status.deletion_attempts etcd_leave_max_attempts
      then leave_gracefully node talosconfig
      else force_remove node talosconfig (filter_exclude endpoints node.spec.node_ip)

  unfoldable pub handle_etcd_leave : TalosNode → M Progress
  handle_etcd_leave node = do
    loaded ← load_talosconfig env node
    elim loaded [ none ↦ pure proceed | some access ↦ leave_etcd node access ]
