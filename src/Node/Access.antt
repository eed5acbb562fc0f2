-- ===== src/Node/Access.antt =====
-- How the TalosNode controller reaches a node: `loadTalosconfig` and `withConn`.
pub mod Order
use yk_talos_management.Prelude.{String, ◌<>◌, List, Option, none, some, Bool, if◌then◌else◌}
use yk_talos_management.Api.{TalosNode}
use yk_talos_management.Effects.Error.{Answer, ok, err, is_not_found, errorf}
use yk_talos_management.Effects.Objects.{Connection}
use yk_talos_management.Effects.Monad.{M, pure, raise, try, wrapped, ◌>>=◌, ◌>>◌}
use yk_talos_management.Effects.Environment.{Env}
use yk_talos_management.Effects.Kube.{get_cluster, get_secret}
use yk_talos_management.Effects.Talos.{dial, closing, reset}
use yk_talos_management.Shared.Names.{cluster_talosconfig_name}
use yk_talos_management.Shared.Secrets.{secret_key, from_answer}

module _ (env : Env) where
  -- `loadTalosconfig`: the talosconfig and the endpoints of the node's cluster; `none` is `skip`,
  -- where the cluster or the secret is not found
  unfoldable pub load_talosconfig : TalosNode → M (Option (String × List String))
  load_talosconfig node = do
    r ← try (get_cluster env node.meta.namespace node.spec.cluster_ref)
    elim r [
      | err e ↦ if is_not_found e then pure none else raise e
      | ok cluster ↦ (do
        s ← try (get_secret env node.meta.namespace (cluster_talosconfig_name cluster.meta.name))
        elim s [
          | err e ↦ if is_not_found e then pure none else raise e
          | ok secret ↦ (do
            talosconfig ←
                wrapped "read talosconfig secret" (from_answer (secret_key secret "talosconfig"))
            pure (some (talosconfig, cluster.spec.endpoints)))
        ])
    ]

  -- `withConn`
  unfoldable pub with_conn : {A : Type 0} → String → String → (Connection → M A) → M A
  with_conn talosconfig endpoint op = do
    conn ← wrapped ("dial " <> endpoint) (dial env talosconfig endpoint)
    closing conn (op conn)

  -- `tryReset`
  unfoldable pub try_reset : TalosNode → Bool → M (Unit {0})
  try_reset node graceful = do
    loaded ← wrapped "load talosconfig" (load_talosconfig node)
    elim loaded [
      | none ↦ raise (errorf "talosconfig or cluster not found")
      | some (talosconfig, endpoints) ↦
          with_conn talosconfig node.spec.node_ip
            (λ conn. reset env conn node.spec.node_ip graceful)
    ]
