-- ===== src/Node/Apply/Order.antt =====
-- The history of calls over `applyConfig` of talosnode_controller.go.
use yk_talos_management.Prelude.{ℕ, suc, String, List, [], ◌∷◌, Bool, true, false, arith, string_eq}
use yk_talos_management.Api.{TalosNode}
use yk_talos_management.Effects.Objects.{Connection, Secret}
use yk_talos_management.Effects.Error.{Answer, ok, err}
use yk_talos_management.Effects.Calls.{Trace}
use yk_talos_management.Effects.Environment.{Env}
use yk_talos_management.Talos.Conditions.{set_condition_status}
use yk_talos_management.History.{Invariant, Keeps, retry_on_conflict-Keeps}
use yk_talos_management.Api.{SecretKeySelector}
use yk_talos_management.Shared.Secrets.{upsert_secret_once, upsert_secret}
use yk_talos_management.Node.Patches.{Patched}
use yk_talos_management.Node.Apply.{
  Prepared, apply_reference, apply_references, prepare, connect, save_node_config, mark_applied,
  deliver, prepare_connection, apply_to, apply_node_config,
}

-- The connections that are open once one was asked for.
abbrev pub connected {ℓ} : {A : Type ℓ} → ℕ → Answer A → ℕ
connected n (ok a) = suc n
connected n (err e) = n

module _ (I : Invariant) (env : Env) where
  upsert_secret_once-Keeps :
      (n k : ℕ) (name namespace : String) (fresh : Secret) (updated : Secret → Secret)
      → Keeps I n k k (upsert_secret_once env name namespace fresh updated)
  unfolding upsert_secret_once
  upsert_secret_once-Keeps n k name namespace fresh updated t h = grind arith

  save_node_config-Keeps :
      (n k : ℕ) (node : TalosNode) (bytes : String)
      → Keeps I n k k (save_node_config env node bytes)
  unfolding save_node_config upsert_secret
  save_node_config-Keeps n k node bytes t h =
      retry_on_conflict-Keeps I n k env.retries (upsert_secret_once env _ _ _ _)
        (upsert_secret_once-Keeps n k _ _ _ _) _ h

  mark_applied-Keeps : (n k : ℕ) (node : TalosNode) → Keeps I n k k (mark_applied env node)
  unfolding mark_applied set_condition_status
  mark_applied-Keeps n k node t h = grind arith

  deliver-Keeps :
      (n k : ℕ) (node : TalosNode) (p : Prepared) (conn : Connection)
      → Keeps I n k (suc k) (deliver env node p conn)
  unfolding deliver
  deliver-Keeps n k node p conn t h = grind (arith, save_node_config-Keeps, mark_applied-Keeps)

  apply_references-Keeps :
      (n k : ℕ) (namespace : String) (refs : List SecretKeySelector) (p : Patched)
      → Keeps I n k k (apply_references env namespace refs p)
  unfolding apply_references apply_reference
  apply_references-Keeps n k namespace [] p t h = h
  apply_references-Keeps n k namespace (ref ∷ refs) p t h =
      grind (arith, apply_references-Keeps n k namespace refs)

  prepare-Keeps : (n k : ℕ) (node : TalosNode) → Keeps I n k k (prepare env node)
  unfolding prepare
  prepare-Keeps n k node t h = grind (arith, apply_references-Keeps)

  connect-Keeps :
      (n k : ℕ) (node : TalosNode) (first : Bool) (talosconfig : Answer String) (t : Trace)
      → I.holds n k t.calls
      → I.holds
          (connected n (connect env node first talosconfig t).0)
          k
          (connect env node first talosconfig t).1.calls
  unfolding connect
  connect-Keeps n k node true (ok tc) t h = grind arith
  connect-Keeps n k node true (err e) t h = grind arith
  connect-Keeps n k node false (ok tc) t h = grind arith
  connect-Keeps n k node false (err e) t h = grind arith

  prepare_connection-Keeps :
      (n k : ℕ) (node : TalosNode) (first : Bool) (t : Trace)
      → I.holds n k t.calls
      → I.holds
          (connected n (prepare_connection env node first t).0)
          k
          (prepare_connection env node first t).1.calls
  unfolding prepare_connection
  prepare_connection-Keeps n k node first t h =
      grind (arith, prepare-Keeps n k node t h, connect-Keeps n k node first)

  apply_to-Keeps :
      (n k : ℕ) (node : TalosNode) (first : Bool) → Keeps I n k (suc k) (apply_to env node first)
  unfolding apply_to
  apply_to-Keeps n k node first t h =
      grind (arith, prepare_connection-Keeps n k node first t h, deliver-Keeps, I.more n k)

  pub apply_node_config-Keeps :
      (n k : ℕ) (node : TalosNode) → Keeps I n k (suc k) (apply_node_config env node)
  unfolding apply_node_config
  apply_node_config-Keeps n k node t h = grind (arith, apply_to-Keeps, I.more n k)
