-- ===== src/Node/Declared/Leaving.antt =====
-- The metrics of the steps that take a node out of the cluster: drain, etcd, reset.
use yk_talos_management.Prelude.{
  ℕ, zero, suc, String, List, [], ◌∷◌, Bool, nat_eq, Option, none, some, refl, arith,
}
use yk_talos_management.Api.{TalosNode}
use yk_talos_management.Effects.Error.{Error}
use yk_talos_management.Effects.Objects.{Pod, RemoteClient}
use yk_talos_management.Effects.Environment.{Env}
use yk_talos_management.Node.Access.{load_talosconfig, with_conn, try_reset}
use yk_talos_management.Node.Etcd.{
  dial_any, force_remove, leave_gracefully, try_etcd_leave, leave_etcd, handle_etcd_leave,
}
use yk_talos_management.Node.Drain.{
  build_remote_client, resolve_node_name, cordon_once, cordon_node, evict_pod, evict_pods,
  drain_pods, poll_pods, await_tick, drain_found, drain_resolved, drain_and_delete_node,
}
use yk_talos_management.Node.Declared.{Declares, retry_on_conflict-Declares}

module _ (env : Env) where
  pub load_talosconfig-Declares : (node : TalosNode) → Declares (load_talosconfig env node)
  unfolding load_talosconfig
  load_talosconfig-Declares node t = ground arith

  pub try_reset-Declares :
      (node : TalosNode) (graceful : Bool) → Declares (try_reset env node graceful)
  unfolding try_reset with_conn
  try_reset-Declares node graceful t = grind (arith, load_talosconfig-Declares)

  dial_any-Declares :
      (talosconfig : String) (endpoints : List String) (last : Option Error)
      → Declares (dial_any env talosconfig endpoints last)
  unfolding dial_any
  dial_any-Declares talosconfig [] none t = refl
  dial_any-Declares talosconfig [] (some e) t = refl
  dial_any-Declares talosconfig (ep ∷ endpoints) last t =
      grind (arith, dial_any-Declares talosconfig endpoints)

  force_remove-Declares :
      (node : TalosNode) (talosconfig : String) (peers : List String)
      → Declares (force_remove env node talosconfig peers)
  unfolding force_remove
  force_remove-Declares node talosconfig [] t = refl
  force_remove-Declares node talosconfig (p ∷ peers) t =
      grind (arith, dial_any-Declares talosconfig (p ∷ peers) none t)

  leave_gracefully-Declares :
      (node : TalosNode) (talosconfig : String) → Declares (leave_gracefully env node talosconfig)
  unfolding leave_gracefully try_etcd_leave with_conn
  leave_gracefully-Declares node talosconfig t = grind arith

  leave_etcd-Declares :
      (node : TalosNode) (access : String × List String) → Declares (leave_etcd env node access)
  unfolding leave_etcd
  leave_etcd-Declares node (talosconfig, endpoints) t =
      grind (arith, leave_gracefully-Declares, force_remove-Declares)

  pub handle_etcd_leave-Declares : (node : TalosNode) → Declares (handle_etcd_leave env node)
  unfolding handle_etcd_leave
  handle_etcd_leave-Declares node t = grind (arith, load_talosconfig-Declares, leave_etcd-Declares)

  cordon_once-Declares :
      (c : RemoteClient) (node_name : String) → Declares (cordon_once env c node_name)
  unfolding cordon_once
  cordon_once-Declares c node_name t = grind arith

  cordon_node-Declares :
      (c : RemoteClient) (node_name : String) → Declares (cordon_node env c node_name)
  unfolding cordon_node
  cordon_node-Declares c node_name =
      retry_on_conflict-Declares env.retries (cordon_once env c node_name)
        (cordon_once-Declares c node_name)

  evict_pods-Declares : (c : RemoteClient) (pods : List Pod) → Declares (evict_pods env c pods)
  unfolding evict_pods evict_pod
  evict_pods-Declares c [] t = refl
  evict_pods-Declares c (pod ∷ pods) t = grind (arith, evict_pods-Declares c pods)

  poll_pods-Declares :
      (c : RemoteClient) (node_name : String) → Declares (poll_pods env c node_name)
  unfolding poll_pods
  poll_pods-Declares c node_name t = grind (arith, evict_pods-Declares)

  await_tick-Declares : Declares (await_tick env)
  unfolding await_tick
  await_tick-Declares t = grind arith

  drain_pods-Declares :
      (rounds : ℕ) (c : RemoteClient) (node_name : String) (deadline : ℕ)
      → Declares (drain_pods env rounds c node_name deadline)
  unfolding drain_pods
  drain_pods-Declares zero c node_name deadline t = refl
  drain_pods-Declares (suc rounds) c node_name deadline t = grind (
    arith,
    poll_pods-Declares c node_name,
    await_tick-Declares,
    drain_pods-Declares rounds c node_name deadline,
  )

  drain_found-Declares :
      (node : TalosNode) (c : RemoteClient) (node_name : String)
      → Declares (drain_found env node c node_name)
  unfolding drain_found
  drain_found-Declares node c node_name t = grind (arith, cordon_node-Declares, drain_pods-Declares)

  drain_resolved-Declares :
      (node : TalosNode) (c : RemoteClient) (node_name : String)
      → Declares (drain_resolved env node c node_name)
  unfolding drain_resolved
  drain_resolved-Declares node c node_name t = grind (arith, drain_found-Declares)

  resolve_node_name-Declares : (node : TalosNode) → Declares (resolve_node_name env node)
  unfolding resolve_node_name
  resolve_node_name-Declares node t = grind arith

  build_remote_client-Declares :
      (cluster_ref namespace : String) → Declares (build_remote_client env cluster_ref namespace)
  unfolding build_remote_client
  build_remote_client-Declares cluster_ref namespace t = grind arith

  pub drain_and_delete_node-Declares :
      (node : TalosNode) → Declares (drain_and_delete_node env node)
  unfolding drain_and_delete_node
  drain_and_delete_node-Declares node t =
      grind
        (arith, build_remote_client-Declares, resolve_node_name-Declares, drain_resolved-Declares)
