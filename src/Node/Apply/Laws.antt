-- ===== src/Node/Apply/Laws.antt =====
-- About the dials of `applyConfig` of talosnode_controller.go.
use yk_talos_management.Prelude.{ℕ, suc, String, List, [], ◌∷◌, true, ◌≡◌, refl, arith, false}
use yk_talos_management.Api.{TalosNode, SecretKeySelector, cond_true}
use yk_talos_management.Effects.Objects.{Connection, Secret}
use yk_talos_management.Effects.Monad.{M}
use yk_talos_management.Effects.Calls.{Call, Entry, did, failed, Trace}
use yk_talos_management.Effects.Environment.{Env}
use yk_talos_management.Talos.Conditions.{has_condition, set_condition_status}
use yk_talos_management.Shared.Helpers.{retry_on_conflict}
use yk_talos_management.Shared.Secrets.{upsert_secret_once, upsert_secret}
use yk_talos_management.Node.Status.{condition_config_applied}
use yk_talos_management.Node.Patches.{Patched}
use yk_talos_management.Node.Apply.{
  Prepared, apply_reference, apply_references, prepare, connect, save_node_config, mark_applied,
  deliver, prepare_connection, apply_to, apply_node_config,
}

-- The dials without mTLS, those that failed included.
abbrev pub insecure_dials : List Entry → ℕ
insecure_dials [] = 0
insecure_dials (did (Call.dial_insecure ip) ∷ rest) = suc (insecure_dials rest)
insecure_dials (failed (Call.dial_insecure ip) ∷ rest) = suc (insecure_dials rest)
insecure_dials (_ ∷ rest) = insecure_dials rest

module _ (env : Env) where
  upsert_secret_once-insecure_dials :
      (name namespace : String) (fresh : Secret) (updated : Secret → Secret) (t : Trace)
      → insecure_dials (upsert_secret_once env name namespace fresh updated t).1.calls
        ≡ insecure_dials t.calls
  unfolding upsert_secret_once
  upsert_secret_once-insecure_dials name namespace fresh updated t = ground arith

  retry_on_conflict-insecure_dials :
      (n : ℕ) (action : M (Unit {0}))
      → ((t : Trace) → insecure_dials (action t).1.calls ≡ insecure_dials t.calls)
      → (t : Trace) → insecure_dials (retry_on_conflict n action t).1.calls ≡ insecure_dials t.calls
  unfolding retry_on_conflict
  retry_on_conflict-insecure_dials ℕ.zero action keep t = keep t
  retry_on_conflict-insecure_dials (suc n) action keep t =
      ground (arith, keep t, retry_on_conflict-insecure_dials n action keep (action t).1)

  save_node_config-insecure_dials :
      (node : TalosNode) (bytes : String) (t : Trace)
      → insecure_dials (save_node_config env node bytes t).1.calls ≡ insecure_dials t.calls
  unfolding save_node_config upsert_secret
  save_node_config-insecure_dials node bytes t =
      retry_on_conflict-insecure_dials env.retries _
        (λ t'. upsert_secret_once-insecure_dials _ _ _ _ t') _

  mark_applied-insecure_dials :
      (node : TalosNode) (t : Trace)
      → insecure_dials (mark_applied env node t).1.calls ≡ insecure_dials t.calls
  unfolding mark_applied set_condition_status
  mark_applied-insecure_dials node t = ground arith

  deliver-insecure_dials :
      (node : TalosNode) (p : Prepared) (conn : Connection) (t : Trace)
      → insecure_dials (deliver env node p conn t).1.calls ≡ insecure_dials t.calls
  unfolding deliver
  deliver-insecure_dials node p conn t =
      grind (arith, save_node_config-insecure_dials, mark_applied-insecure_dials)

  apply_references-insecure_dials :
      (namespace : String) (refs : List SecretKeySelector) (p : Patched) (t : Trace)
      → insecure_dials (apply_references env namespace refs p t).1.calls ≡ insecure_dials t.calls
  unfolding apply_references apply_reference
  apply_references-insecure_dials namespace [] p t = refl
  apply_references-insecure_dials namespace (ref ∷ refs) p t =
      grind (arith, apply_references-insecure_dials namespace refs)

  prepare-insecure_dials :
      (node : TalosNode) (t : Trace)
      → insecure_dials (prepare env node t).1.calls ≡ insecure_dials t.calls
  unfolding prepare
  prepare-insecure_dials node t = grind (arith, apply_references-insecure_dials)

  prepare_connection-insecure_dials :
      (node : TalosNode) (t : Trace)
      → insecure_dials (prepare_connection env node false t).1.calls ≡ insecure_dials t.calls
  unfolding prepare_connection connect
  prepare_connection-insecure_dials node t = grind (arith, prepare-insecure_dials)

  apply_to-insecure_dials :
      (node : TalosNode) (t : Trace)
      → insecure_dials (apply_to env node false t).1.calls ≡ insecure_dials t.calls
  unfolding apply_to
  apply_to-insecure_dials node t =
      grind (arith, prepare_connection-insecure_dials, deliver-insecure_dials)

  -- A node whose condition ConfigApplied is True is never dialed without mTLS when its config is
  -- applied again.
  pub apply_node_config-insecure_dials :
      (node : TalosNode) (t : Trace)
      → has_condition node.status.conditions condition_config_applied cond_true ≡ true
      → insecure_dials (apply_node_config env node t).1.calls ≡ insecure_dials t.calls
  unfolding apply_node_config
  apply_node_config-insecure_dials node t h = grind (arith, apply_to-insecure_dials)
