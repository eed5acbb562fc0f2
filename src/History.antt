-- ===== src/History.antt =====
-- Invariants of the history of calls that the TalosNode controller keeps.
use yk_talos_management.Prelude.{
  ℕ, zero, suc, List, ◌∷◌, Bool, true, false, ◌≡◌, ◌≢◌, not, string_eq, arith, String,
}
use yk_talos_management.Prelude.Dict.{text_at}
use yk_talos_management.Api.{TalosNode}
use yk_talos_management.Effects.Error.{ok}
use yk_talos_management.Effects.Environment.{Env}
use yk_talos_management.Talos.Finalizer.{annotation_reset, annotation_last_reset}
use yk_talos_management.Effects.Objects.{Connection}
use yk_talos_management.Effects.Calls.{Call, Entry, did, failed, Trace}
use yk_talos_management.Effects.Monad.{M, ◌>>=◌}
use yk_talos_management.Shared.Helpers.{retry_on_conflict}
use yk_talos_management.Safety.{precondition, is_reset}

-- Calls that open or close a connection, change the system of a machine, or need something to
-- have happened before.
abbrev pub is_plain : Call → Bool
is_plain (Call.upgrade conn ip image) = false
is_plain (Call.reset conn ip graceful) = false
is_plain (Call.apply_config conn ip x cluster) = false
is_plain (Call.evict c pod) = false
is_plain (Call.etcd_force_remove conn survivor dead) = false
is_plain (Call.update_cluster c) = false
is_plain (Call.dial endpoint) = false
is_plain (Call.dial_insecure endpoint) = false
is_plain (Call.close conn) = false
is_plain _ = true

-- Calls that change the system of a machine, but for a graceful reset.
abbrev pub is_change : Call → Bool
is_change (Call.upgrade conn ip image) = true
is_change (Call.reset conn ip graceful) = not graceful
is_change (Call.apply_config conn ip x cluster) = true
is_change _ = false

-- Calls that are guarded but change nothing on the machine itself.
abbrev pub is_guarded : Call → Bool
is_guarded (Call.evict c pod) = true
is_guarded (Call.etcd_force_remove conn survivor dead) = true
is_guarded (Call.update_cluster c) = true
is_guarded c = is_plain c

-- A predicate on histories, by the number of connections that are open and a bound on the changes.
pub record Invariant : Type 1 where
  pub holds : ℕ → ℕ → List Entry → Type 0
  pub more : (n k : ℕ) (r : List Entry) → holds n k r → holds n (suc k) r
  pub done :
      (n k : ℕ) (c : Call) (r : List Entry)
      → is_guarded c ≡ true
      → precondition c r ≡ true
      → holds n k r
      → holds n k (did c ∷ r)
  pub undone :
      (n k : ℕ) (c : Call) (r : List Entry)
      → is_guarded c ≡ true
      → precondition c r ≡ true
      → holds n k r
      → holds n k (failed c ∷ r)
  pub changed :
      (n k : ℕ) (c : Call) (r : List Entry)
      → is_change c ≡ true
      → precondition c r ≡ true
      → holds n k r
      → holds n (suc k) (did c ∷ r)
  pub unchanged :
      (n k : ℕ) (c : Call) (r : List Entry)
      → is_change c ≡ true
      → precondition c r ≡ true
      → holds n k r
      → holds n (suc k) (failed c ∷ r)
  -- A request to reset the machine of an IP was recorded.
  pub recorded : String → List Entry → Type 0
  pub recorded_did :
      (ip : String) (c : Call) (r : List Entry)
      → is_reset c ≡ false
      → recorded ip r
      → recorded ip (did c ∷ r)
  pub recorded_failed :
      (ip : String) (c : Call) (r : List Entry)
      → is_reset c ≡ false
      → recorded ip r
      → recorded ip (failed c ∷ r)
  pub reset :
      (n k : ℕ) (conn : Connection) (ip : String) (r : List Entry)
      → recorded ip r
      → holds n k r
      → holds n (suc k) (did (Call.reset conn ip true) ∷ r)
  pub unreset :
      (n k : ℕ) (conn : Connection) (ip : String) (r : List Entry)
      → recorded ip r
      → holds n k r
      → holds n (suc k) (failed (Call.reset conn ip true) ∷ r)
  pub dialed :
      (n k : ℕ) (e : String) (r : List Entry)
      → holds n k r
      → holds (suc n) k (did (Call.dial e) ∷ r)
  pub undialed :
      (n k : ℕ) (e : String) (r : List Entry) → holds n k r → holds n k (failed (Call.dial e) ∷ r)
  pub dialed_insecure :
      (n k : ℕ) (e : String) (r : List Entry)
      → holds n k r
      → holds (suc n) k (did (Call.dial_insecure e) ∷ r)
  pub undialed_insecure :
      (n k : ℕ) (e : String) (r : List Entry)
      → holds n k r
      → holds n k (failed (Call.dial_insecure e) ∷ r)
  pub closed :
      (n k : ℕ) (c : Connection) (r : List Entry)
      → holds (suc n) k r
      → holds n k (did (Call.close c) ∷ r)

-- An action that leaves the connections as they are and changes machines often enough to lift the
-- bound from `k` to `j` at most.
abbrev pub Keeps : {A : Type 0} → Invariant → ℕ → ℕ → ℕ → M A → Type 0
Keeps I n k j m = (t : Trace) → I.holds n k t.calls → I.holds n j (m t).1.calls

-- What the environment answers to a patch that records a request is kept as a record of it.
abbrev pub Records : Invariant → Env → Type 0
Records I env =
    (n patched : TalosNode) (t : Trace)
    → env.patch_node n t ≡ ok patched
    → text_at annotation_reset n.meta.annotations ≢ ""
    → text_at annotation_last_reset n.meta.annotations ≡ text_at annotation_reset n.meta.annotations
    → I.recorded patched.spec.node_ip (did (Call.patch_node n) ∷ t.calls)

module _ (I : Invariant) where
  -- Two actions of which the first changes nothing.
  pub >>=-Keeps :
      {A B : Type 0} (n k j : ℕ) (m : M A) (f : A → M B)
      → Keeps I n k k m
      → ((a : A) → Keeps I n k j (f a))
      → ((r : List Entry) → I.holds n k r → I.holds n j r)
      → Keeps I n k j (m >>= f)
  >>=-Keeps n k j m f km kf lift t h = grind (arith, km, kf, lift)

  -- A repeated action.
  pub retry_on_conflict-Keeps :
      {A : Type 0} (n k attempts : ℕ) (action : M A)
      → Keeps I n k k action
      → Keeps I n k k (retry_on_conflict attempts action)
  unfolding retry_on_conflict
  retry_on_conflict-Keeps n k zero action keep t h = keep t h
  retry_on_conflict-Keeps n k (suc attempts) action keep t h =
      ground (arith, keep t h, retry_on_conflict-Keeps n k attempts action keep (action t).1)
