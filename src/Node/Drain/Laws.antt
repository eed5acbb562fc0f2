-- ===== src/Node/Drain/Laws.antt =====
-- About what a drain that ends has seen: `drainPods` of talosnode_drain.go.
use yk_talos_management.Prelude.{ℕ, zero, suc, String, List, [], ◌∷◌, count_if, ◌≡◌, refl, arith}
use yk_talos_management.Effects.Error.{Answer, ok, err}
use yk_talos_management.Effects.Objects.{Pod, RemoteClient}
use yk_talos_management.Effects.Calls.{Call, Entry, did, Trace}
use yk_talos_management.Effects.Environment.{Env}
use yk_talos_management.Node.Drain.{evict_pod, evict_pods, drain_pods, poll_pods, await_tick}
use yk_talos_management.Node.Drain.Evictable.{is_evictable}

module _ (env : Env) (c : RemoteClient) where
  abbrev IsCount : List Pod → Answer ℕ → Type 0
  IsCount pods (ok n) = n ≡ count_if is_evictable pods
  IsCount pods (err e) = Unit

  evict_pods-IsCount : (pods : List Pod) (t : Trace) → IsCount pods (evict_pods env c pods t).0
  unfolding evict_pods
  evict_pods-IsCount [] t = refl
  evict_pods-IsCount (pod ∷ pods) t =
      ground (arith, evict_pods-IsCount pods t, evict_pods-IsCount pods (evict_pod env c pod t).1)

  -- A poll that finds no evictable pod evicts none.
  evict_pods-none :
      (pods : List Pod) (t : Trace)
      → count_if is_evictable pods ≡ 0
      → (evict_pods env c pods t).1.calls ≡ t.calls
  unfolding evict_pods
  evict_pods-none [] t h = refl
  evict_pods-none (pod ∷ pods) t h = ground (arith, evict_pods-none pods t)

  -- The last of the calls listed the node's pods, as the managed cluster answered it then, and
  -- none of them was evictable.
  pub record WasEmpty (node_name : String) (calls : List Entry) : Type 0 where
    pub history : Trace
    pub pods : List Pod
    pub last : calls ≡ (did (Call.list_pods c node_name) ∷ history.calls)
    pub listed : env.list_pods c node_name history ≡ ok pods
    pub none_left : count_if is_evictable pods ≡ 0

  abbrev Ended : String → Answer (Unit {0}) → List Entry → Type 0
  Ended node_name (ok _) calls = WasEmpty node_name calls
  Ended node_name (err e) calls = Unit

  seen :
      (node_name : String) (t : Trace) (pods : List Pod) (calls : List Entry)
      → env.list_pods c node_name t ≡ ok pods
      → count_if is_evictable pods ≡ 0
      → calls ≡ (did (Call.list_pods c node_name) ∷ t.calls)
      → WasEmpty node_name calls
  seen node_name t pods calls h k l = record {
    history = t;
    pods = pods;
    last = l;
    listed = h;
    none_left = k;
  }

  drain_pods-Ended :
      (rounds : ℕ) (node_name : String) (deadline : ℕ) (t : Trace)
      → Ended node_name
          (drain_pods env rounds c node_name deadline t).0
          (drain_pods env rounds c node_name deadline t).1.calls
  unfolding drain_pods poll_pods await_tick
  drain_pods-Ended zero node_name deadline t = tt
  drain_pods-Ended (suc rounds) node_name deadline t = grind (
    arith,
    seen node_name,
    evict_pods-IsCount,
    evict_pods-none,
    drain_pods-Ended rounds node_name deadline,
  )

  Ended-ok :
      (node_name : String) (r : Answer (Unit {0})) (calls : List Entry)
      → Ended node_name r calls
      → r ≡ ok tt
      → WasEmpty node_name calls
  Ended-ok node_name (ok _) calls w h = w
  Ended-ok node_name (err e) calls w h = ground arith

  -- A drain that ends without an error has listed the pods of the node last of all its calls, and
  -- none of the pods that it was answered was evictable.
  pub drain_pods-WasEmpty :
      (rounds : ℕ) (node_name : String) (deadline : ℕ) (t : Trace)
      → (drain_pods env rounds c node_name deadline t).0 ≡ ok tt
      → WasEmpty node_name (drain_pods env rounds c node_name deadline t).1.calls
  drain_pods-WasEmpty rounds node_name deadline t h =
      Ended-ok node_name _ _ (drain_pods-Ended rounds node_name deadline t) h
