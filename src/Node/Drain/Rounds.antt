-- ===== src/Node/Drain/Rounds.antt =====
-- About the number of polls that the loop of `drainPods` is given.
use yk_talos_management.Prelude.{
  ℕ, zero, suc, ◌+◌, ◌-◌, ◌*◌, ◌/◌, ◌≤◌, String, List, [], ◌∷◌, ◌≡◌, refl, arith,
}
use yk_talos_management.Effects.Objects.{Pod, RemoteClient}
use yk_talos_management.Effects.Calls.{Call, Entry, did, Trace}
use yk_talos_management.Effects.Environment.{Env}
use yk_talos_management.Shared.Constants.{drain_poll_interval}
use yk_talos_management.Node.Drain.{
  evict_pod, evict_pods, drain_pods, poll_pods, await_tick, poll_rounds,
}

-- The pauses between two polls.
abbrev pub waits : List Entry → ℕ
waits [] = 0
waits (did (Call.wait d) ∷ rest) = suc (waits rest)
waits (_ ∷ rest) = waits rest

-- The clock shows at least the time of the pauses made since it showed `start`, when there had been
-- `before` of them: the ticker fires once in each interval.
abbrev pub IsTicking : Env → ℕ → ℕ → Type 0
IsTicking env start before =
    (t : Trace) → start + drain_poll_interval * (waits t.calls - before) ≤ env.now t

module _ (env : Env) (c : RemoteClient) where
  evict_pod-waits : (pod : Pod) (t : Trace) → waits (evict_pod env c pod t).1.calls ≡ waits t.calls
  unfolding evict_pod
  evict_pod-waits pod t = ground arith

  evict_pods-waits :
      (pods : List Pod) (t : Trace) → waits (evict_pods env c pods t).1.calls ≡ waits t.calls
  unfolding evict_pods
  evict_pods-waits [] t = refl
  evict_pods-waits (pod ∷ pods) t = ground (
    arith,
    evict_pod-waits pod t,
    evict_pods-waits pods t,
    evict_pods-waits pods (evict_pod env c pod t).1,
  )

  module _ (node_name : String) (start before deadline : ℕ) where
    drain_pods-enough :
        (r n : ℕ) (t : Trace)
        → IsTicking env start before
        → r ≤ n
        → before ≤ waits t.calls
        → deadline ≤ start + drain_poll_interval * ((waits t.calls - before) + r)
        → drain_pods env (suc n) c node_name deadline t
          ≡ drain_pods env (suc r) c node_name deadline t
    unfolding drain_pods poll_pods await_tick
    drain_pods-enough zero n t ticks k b d = ground (arith, ticks t)
    drain_pods-enough (suc r) zero t ticks k b d = ground arith
    drain_pods-enough (suc r) (suc n) t ticks k b d =
        grind (arith, evict_pods-waits, drain_pods-enough r n)

  -- On a clock that shows at least one poll interval for each pause since the drain began, more
  -- polls than `poll_rounds` of the timeout change nothing: the loop has ended by then.
  pub drain_pods-poll_rounds :
      (node_name : String) (timeout n : ℕ) (t : Trace)
      → IsTicking env (env.now t) (waits t.calls)
      → poll_rounds env timeout ≤ n
      → drain_pods env n c node_name (env.now t + timeout) t
        ≡ drain_pods env (poll_rounds env timeout) c node_name (env.now t + timeout) t
  drain_pods-poll_rounds node_name timeout zero t ticks k = ground (arith, k)
  drain_pods-poll_rounds node_name timeout (suc n) t ticks k =
      drain_pods-enough node_name (env.now t) (waits t.calls) (env.now t + timeout)
        (timeout / drain_poll_interval + 1) n t ticks (omega (arith, k)) (omega arith) (omega arith)
