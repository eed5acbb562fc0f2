-- ===== src/Node/Extensions/Order.antt =====
-- The history of calls over `reconcileVersion` of talosnode_extensions.go.
use yk_talos_management.Prelude.{ℕ, suc, arith, string_eq}
use yk_talos_management.Api.{TalosNode}
use yk_talos_management.Effects.Error.{Answer, ok, err}
use yk_talos_management.Effects.Calls.{Trace}
use yk_talos_management.Effects.Environment.{Env}
use yk_talos_management.History.{Invariant, Keeps}
use yk_talos_management.Node.Upgrade.Order.{handle_upgrade-Keeps}
use yk_talos_management.Node.Extensions.{
  DesiredImage, Verdict, done, go_on, create_image, compute_desired_image, persist_schematic,
  upgrade_to, reconcile_version,
}

-- The bound after a verdict: no change where reconciliation goes on.
abbrev pub bound : ℕ → Answer Verdict → ℕ
bound k (ok (done r)) = suc k
bound k (ok (go_on node)) = k
bound k (err e) = suc k

module _ (I : Invariant) (env : Env) where
  compute_desired_image-Keeps :
      (n k : ℕ) (node : TalosNode) → Keeps I n k k (compute_desired_image env node)
  unfolding compute_desired_image create_image
  compute_desired_image-Keeps n k node t h = grind arith

  persist_schematic-Keeps :
      (n k : ℕ) (node : TalosNode) (result : DesiredImage)
      → Keeps I n k k (persist_schematic env node result)
  unfolding persist_schematic
  persist_schematic-Keeps n k node result t h = grind arith

  upgrade_to-Keeps :
      (n k : ℕ) (node : TalosNode) (result : DesiredImage) (t : Trace)
      → I.holds n k t.calls
      → I.holds n (bound k (upgrade_to env node result t).0) (upgrade_to env node result t).1.calls
  unfolding upgrade_to
  upgrade_to-Keeps n k node result t h = grind (arith, handle_upgrade-Keeps)

  pub reconcile_version-Keeps :
      (n k : ℕ) (node : TalosNode) (t : Trace)
      → I.holds n k t.calls
      → I.holds n (bound k (reconcile_version env node t).0) (reconcile_version env node t).1.calls
  unfolding reconcile_version
  reconcile_version-Keeps n k node t h =
      grind (arith, compute_desired_image-Keeps, persist_schematic-Keeps, upgrade_to-Keeps)
