-- ===== src/Node/Deletion/Stages.antt =====
-- The stages of a deletion, as the order of their calls, and the stages of drain, etcd and reset.
use yk_talos_management.Prelude.{
  if◌then◌else◌, ◌==◌, nat_eq, leb, ◌≤◌, ◌&&◌, true, ◌≡◌, ℕ, zero, suc, String, List, [], ◌∷◌, Bool,
  nat_eq, Option, none, some, refl, arith,
}
use yk_talos_management.Api.{TalosNode}
use yk_talos_management.Effects.Error.{Error}
use yk_talos_management.Effects.Objects.{Pod, RemoteClient}
use yk_talos_management.Effects.Calls.{Call, Entry, did, failed, Trace}
use yk_talos_management.Effects.Monad.{M}
use yk_talos_management.Shared.Helpers.{retry_on_conflict}
use yk_talos_management.Effects.Environment.{Env}
use yk_talos_management.Node.Access.{load_talosconfig, with_conn, try_reset}
use yk_talos_management.Node.Etcd.{
  dial_any, force_remove, leave_gracefully, try_etcd_leave, leave_etcd, handle_etcd_leave,
}
use yk_talos_management.Node.Drain.{
  build_remote_client, resolve_node_name, cordon_once, cordon_node, evict_pod, evict_pods,
  drain_pods, poll_pods, await_tick, drain_found, drain_resolved, drain_and_delete_node,
}

-- The stage of a deletion that a call belongs to, 0 for calls of no stage: 1 the drain, 2 etcd,
-- 3 the reset of the machine, 4 the secret with its config, 5 the cluster and its kubeconfig, 6
-- the node object and its finalizer.
abbrev pub stage : Call → ℕ
stage (Call.update_kube_node c x) = 1
stage (Call.evict c pod) = 1
stage (Call.delete_kube_node c x) = 1
stage (Call.etcd_leave conn ip) = 2
stage (Call.etcd_force_remove conn survivor dead) = 2
stage (Call.reset conn ip graceful) = 3
stage (Call.delete_secret s) = 4
stage (Call.update_cluster c) = 5
stage (Call.update_secret s) = 5
stage (Call.update_node n) = 6
stage _ = 0

abbrev pub entry_stage : Entry → ℕ
entry_stage (did c) = stage c
entry_stage (failed c) = stage c

-- The calls of stages, the newest first, never go up, and none is past the stage given.
abbrev pub ordered : ℕ → List Entry → Bool
ordered last [] = true
ordered last (e ∷ r) =
    if entry_stage e == 0
    then ordered last r
    else leb (entry_stage e) last && ordered (entry_stage e) r

-- An action of a stage.
abbrev pub IsAt : {A : Type 0} → ℕ → M A → Type 0
IsAt s m = (t : Trace) → ordered s t.calls ≡ true → ordered s (m t).1.calls ≡ true

-- An action that goes from one stage to another.
abbrev pub Goes : {A : Type 0} → ℕ → ℕ → M A → Type 0
Goes a b m = (t : Trace) → ordered a t.calls ≡ true → ordered b (m t).1.calls ≡ true

pub ordered-more : (a b : ℕ) (r : List Entry) → a ≤ b → ordered a r ≡ true → ordered b r ≡ true
ordered-more a b [] l h = refl
ordered-more a b (e ∷ r) l h = ground (arith, l, h, ordered-more a b r l)

pub retry_on_conflict-IsAt :
    {A : Type 0} (s attempts : ℕ) (action : M A)
    → IsAt s action
    → IsAt s (retry_on_conflict attempts action)
unfolding retry_on_conflict
retry_on_conflict-IsAt s zero action at t h = at t h
retry_on_conflict-IsAt s (suc attempts) action at t h =
    ground (arith, at t h, retry_on_conflict-IsAt s attempts action at (action t).1)

module _ (env : Env) where
  pub load_talosconfig-IsAt : (s : ℕ) (node : TalosNode) → IsAt s (load_talosconfig env node)
  unfolding load_talosconfig
  load_talosconfig-IsAt s node t h = ground arith

  pub try_reset-IsAt : (node : TalosNode) (graceful : Bool) → IsAt 3 (try_reset env node graceful)
  unfolding try_reset with_conn
  try_reset-IsAt node graceful t h = grind (arith, load_talosconfig-IsAt)

  dial_any-IsAt :
      (talosconfig : String) (endpoints : List String) (last : Option Error)
      → IsAt 2 (dial_any env talosconfig endpoints last)
  unfolding dial_any
  dial_any-IsAt talosconfig [] none t h = h
  dial_any-IsAt talosconfig [] (some e) t h = h
  dial_any-IsAt talosconfig (ep ∷ endpoints) last t h =
      grind (arith, dial_any-IsAt talosconfig endpoints)

  force_remove-IsAt :
      (node : TalosNode) (talosconfig : String) (peers : List String)
      → IsAt 2 (force_remove env node talosconfig peers)
  unfolding force_remove
  force_remove-IsAt node talosconfig [] t h = h
  force_remove-IsAt node talosconfig (p ∷ peers) t h =
      grind (arith, dial_any-IsAt talosconfig (p ∷ peers) none t h)

  leave_gracefully-IsAt :
      (node : TalosNode) (talosconfig : String) → IsAt 2 (leave_gracefully env node talosconfig)
  unfolding leave_gracefully try_etcd_leave with_conn
  leave_gracefully-IsAt node talosconfig t h = grind arith

  leave_etcd-IsAt :
      (node : TalosNode) (access : String × List String) → IsAt 2 (leave_etcd env node access)
  unfolding leave_etcd
  leave_etcd-IsAt node (talosconfig, endpoints) t h =
      grind (arith, leave_gracefully-IsAt, force_remove-IsAt)

  pub handle_etcd_leave-IsAt : (node : TalosNode) → IsAt 2 (handle_etcd_leave env node)
  unfolding handle_etcd_leave
  handle_etcd_leave-IsAt node t h = grind (arith, load_talosconfig-IsAt, leave_etcd-IsAt)

  cordon_once-IsAt : (c : RemoteClient) (node_name : String) → IsAt 1 (cordon_once env c node_name)
  unfolding cordon_once
  cordon_once-IsAt c node_name t h = grind arith

  cordon_node-IsAt : (c : RemoteClient) (node_name : String) → IsAt 1 (cordon_node env c node_name)
  unfolding cordon_node
  cordon_node-IsAt c node_name =
      retry_on_conflict-IsAt 1 env.retries (cordon_once env c node_name)
        (cordon_once-IsAt c node_name)

  evict_pods-IsAt : (c : RemoteClient) (pods : List Pod) → IsAt 1 (evict_pods env c pods)
  unfolding evict_pods evict_pod
  evict_pods-IsAt c [] t h = h
  evict_pods-IsAt c (pod ∷ pods) t h = grind (arith, evict_pods-IsAt c pods)

  poll_pods-IsAt : (c : RemoteClient) (node_name : String) → IsAt 1 (poll_pods env c node_name)
  unfolding poll_pods
  poll_pods-IsAt c node_name t h = grind (arith, evict_pods-IsAt)

  await_tick-IsAt : IsAt 1 (await_tick env)
  unfolding await_tick
  await_tick-IsAt t h = grind arith

  drain_pods-IsAt :
      (rounds : ℕ) (c : RemoteClient) (node_name : String) (deadline : ℕ)
      → IsAt 1 (drain_pods env rounds c node_name deadline)
  unfolding drain_pods
  drain_pods-IsAt zero c node_name deadline t h = h
  drain_pods-IsAt (suc rounds) c node_name deadline t h = grind (
    arith,
    poll_pods-IsAt c node_name,
    await_tick-IsAt,
    drain_pods-IsAt rounds c node_name deadline,
  )

  drain_found-IsAt :
      (node : TalosNode) (c : RemoteClient) (node_name : String)
      → IsAt 1 (drain_found env node c node_name)
  unfolding drain_found
  drain_found-IsAt node c node_name t h = grind (arith, cordon_node-IsAt, drain_pods-IsAt)

  drain_resolved-IsAt :
      (node : TalosNode) (c : RemoteClient) (node_name : String)
      → IsAt 1 (drain_resolved env node c node_name)
  unfolding drain_resolved
  drain_resolved-IsAt node c node_name t h = grind (arith, drain_found-IsAt)

  resolve_node_name-IsAt : (node : TalosNode) → IsAt 1 (resolve_node_name env node)
  unfolding resolve_node_name
  resolve_node_name-IsAt node t h = grind arith

  build_remote_client-IsAt :
      (cluster_ref namespace : String) → IsAt 1 (build_remote_client env cluster_ref namespace)
  unfolding build_remote_client
  build_remote_client-IsAt cluster_ref namespace t h = grind arith

  pub drain_and_delete_node-IsAt : (node : TalosNode) → IsAt 1 (drain_and_delete_node env node)
  unfolding drain_and_delete_node
  drain_and_delete_node-IsAt node t h =
      grind (arith, build_remote_client-IsAt, resolve_node_name-IsAt, drain_resolved-IsAt)
