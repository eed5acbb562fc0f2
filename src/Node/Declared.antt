-- ===== src/Node/Declared.antt =====
-- The metrics that the TalosNode controller writes, against their declarations.
pub mod Leaving
pub mod Config
pub mod Deletion
pub mod Reconcile
use yk_talos_management.Prelude.{
  ℕ, zero, suc, String, List, [], ◌∷◌, ◌++◌, all, Bool, true, false, if◌then◌else◌, ◌≡◌, refl,
  arith,
}
use yk_talos_management.Api.{TalosNode, NodePhase}
use yk_talos_management.Effects.Calls.{EventType, Note, Trace}
use yk_talos_management.Effects.Environment.{Env}
use yk_talos_management.Effects.Kube.{events}
use yk_talos_management.Effects.Monad.{M}
use yk_talos_management.Metrics.Declared.{is_declared, record_node_phase-all}
use yk_talos_management.Shared.Helpers.{retry_on_conflict}
use yk_talos_management.Node.Status.{phase_notes}

-- Every note fits its collector.
abbrev pub fits : List Note → Bool
fits notes = all is_declared notes

-- An action that adds only notes that fit.
abbrev pub Declares : {A : Type 0} → M A → Type 0
Declares m = (t : Trace) → fits (m t).1.notes ≡ fits t.notes

fits-append : (xs ys : List Note) → fits xs ≡ true → fits (xs ++ ys) ≡ fits ys
fits-append [] ys h = refl
fits-append (x ∷ xs) ys h = ground (arith, h, fits-append xs ys)

phase_notes-fits : (node : TalosNode) (from to : NodePhase) → fits (phase_notes node from to) ≡ true
unfolding phase_notes
phase_notes-fits node from to = search record_node_phase-all

pub fits-phase_notes :
    (node : TalosNode) (from to : NodePhase) (s : List Note)
    → fits (phase_notes node from to ++ s) ≡ fits s
fits-phase_notes node from to s =
    fits-append (phase_notes node from to) s (phase_notes-fits node from to)

pub fits-events :
    (env : Env) (type : EventType) (reason message : String) (s : List Note)
    → fits (events env type reason message ++ s) ≡ fits s
unfolding events
fits-events env type reason message s = ground arith

pub retry_on_conflict-Declares :
    {A : Type 0} (attempts : ℕ) (action : M A)
    → Declares action
    → Declares (retry_on_conflict attempts action)
unfolding retry_on_conflict
retry_on_conflict-Declares zero action declares t = declares t
retry_on_conflict-Declares (suc attempts) action declares t =
    ground (arith, declares t, retry_on_conflict-Declares attempts action declares (action t).1)
