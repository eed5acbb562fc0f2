-- ===== src/Node/Extensions.antt =====
-- internal/controller/talosnode_extensions.go: the upgrade that the spec asks for.
pub mod Order
pub mod Laws
pub mod Canonical
pub mod Cache
pub mod Settled
use yk_talos_management.Prelude.{
  ℕ, String, ◌<>◌, List, [], ◌∷◌, Bool, true, false, not, ◌==◌, ◌!=◌, ◌&&◌, ◌||◌, string_eq,
  if◌then◌else◌, Option, none, some,
}
use yk_talos_management.Metrics.Collectors.{Metric}
use yk_talos_management.Prelude.Dict.{text_at}
use yk_talos_management.Api.{TalosNode, cond_true}
use yk_talos_management.Effects.Error.{Error, Answer, ok, err, errorf, wrap}
use yk_talos_management.Effects.Objects.{Result}
use yk_talos_management.Effects.Calls.{Call, warning}
use yk_talos_management.Effects.Monad.{M, pure, raise, perform, try, wrapped, ◌>>=◌, ◌>>◌}
use yk_talos_management.Effects.Environment.{Env}
use yk_talos_management.Effects.Kube.{emit_event, count}
use yk_talos_management.Talos.Finalizer.{annotation_current_schematic, annotation_last_extensions}
use yk_talos_management.Talos.Conditions.{has_condition}
use yk_talos_management.Shared.Helpers.{patch_annotations}
use yk_talos_management.Node.Status.{condition_config_applied}
use yk_talos_management.Node.Version.{is_downgrade, normalize_version}
use yk_talos_management.Node.Upgrade.{handle_upgrade}
use yk_talos_management.Node.Extensions.Canonical.{canonical_extensions}

-- `desiredImageResult`
pub record DesiredImage : Type 0 where
  pub image : String
  pub new_schematic_id : String
  pub new_canonical : String

-- The results `(result, true, err)` and `({}, false, nil)` of `reconcileVersion`, with the node as
-- it is in memory where reconciliation goes on.
pub data Verdict : Type 0 where
  done : Result → Verdict
  go_on : TalosNode → Verdict

module _ (env : Env) where
  -- A cache miss of `computeDesiredImage`.
  unfoldable pub create_image : TalosNode → String → String → M DesiredImage
  create_image node version canonical = elim (env.factory) [
    | none ↦ raise (errorf "spec.systemExtensions is set but no factory client is configured")
    | some create ↦ (do
      r ← try (
          perform (Call.create_schematic node.spec.system_extensions)
            (create node.spec.system_extensions))
      elim r [
        | err e ↦ (do
          count Metric.extension_schematic_total ("error" ∷ node.spec.cluster_ref ∷ [])
          raise (wrap "create schematic" e))
        | ok schematic ↦ (do
          count Metric.extension_schematic_total ("success" ∷ node.spec.cluster_ref ∷ [])
          pure (record {
            image = "factory.talos.dev/installer/" <> schematic <> ":" <> version;
            new_schematic_id = schematic;
            new_canonical = canonical;
          }))
      ])
  ]

  -- `computeDesiredImage`
  unfoldable pub compute_desired_image : TalosNode → M DesiredImage
  compute_desired_image node =
      let version = normalize_version node.spec.talos_version in
      elim (node.spec.system_extensions) [
        | [] ↦ pure (record {
          image = "ghcr.io/siderolabs/installer:" <> version;
          new_schematic_id = "";
          new_canonical = "";
        })
        | x ∷ extensions ↦
            let canonical = canonical_extensions (x ∷ extensions) in
            let cached = text_at annotation_current_schematic node.meta.annotations in
            if canonical == text_at annotation_last_extensions node.meta.annotations && cached != ""
            then (do
              count Metric.extension_schematic_total ("cached" ∷ node.spec.cluster_ref ∷ [])
              pure (record {
                image = "factory.talos.dev/installer/" <> cached <> ":" <> version;
                new_schematic_id = "";
                new_canonical = "";
              }))
            else create_image node version canonical
      ]

  -- The new schematic is persisted before anything else is done with it.
  unfoldable pub persist_schematic : TalosNode → DesiredImage → M TalosNode
  unfolding patch_annotations
  persist_schematic node result =
      if result.new_schematic_id != ""
      then wrapped "persist schematic annotations" (
          patch_annotations env node
            ((annotation_current_schematic, result.new_schematic_id)
              ∷ (annotation_last_extensions, result.new_canonical)
              ∷ [])
            [])
      else pure node

  -- `reconcileVersion` once the image is known.
  unfoldable pub upgrade_to : TalosNode → DesiredImage → M Verdict
  upgrade_to node result =
      let schema_dirty = result.new_schematic_id != "" in
      let version_differs =
        normalize_version node.spec.talos_version
        != normalize_version node.status.current_talos_version in
      if not (version_differs || schema_dirty)
      then pure (go_on node)
      else if is_downgrade env node.status.current_talos_version
          (normalize_version node.spec.talos_version)
      then pure (go_on node)
      else (do r ← handle_upgrade env node result.image; pure (done r))

  -- `reconcileVersion`
  unfoldable pub reconcile_version : TalosNode → M Verdict
  reconcile_version node =
      if node.spec.talos_version == ""
      then pure (go_on node)
      else if not (has_condition node.status.conditions condition_config_applied cond_true)
      then pure (go_on node)
      else (do
        r ← try (compute_desired_image node)
        elim r [
          | err e ↦ (do
            emit_event env warning "ExtensionSchematicFailed"
                ("failed to compute desired image: " <> e.message)
            raise e)
          | ok result ↦ (do patched ← persist_schematic node result; upgrade_to patched result)
        ])
