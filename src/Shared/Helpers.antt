-- ===== src/Shared/Helpers.antt =====
-- internal/controller/helpers.go, on finalizers, annotations and lists; `Secrets` has the rest.
use yk_talos_management.Prelude.{
  ℕ, zero, suc, String, List, [], ◌∷◌, Bool, ◌==◌, ◌!=◌, ◌||◌, string_eq, if◌then◌else◌,
}
use yk_talos_management.Prelude.Dict.{Dict, text_at, insert_all, erase_all}
use yk_talos_management.Api.{ObjectMeta, TalosNode}
use yk_talos_management.Effects.Error.{ok, err, is_conflict}
use yk_talos_management.Effects.Monad.{M, pure, wrapped}
use yk_talos_management.Effects.Environment.{Env}
use yk_talos_management.Effects.Kube.{patch_node}
use yk_talos_management.Talos.Finalizer.{
  contains_finalizer, add_finalizer, finalizer_cleanup, annotation_skip_drain,
}

-- `ensureFinalizer`, for an object with metadata and a way to update it
unfoldable pub ensure_finalizer :
    {A : Type 0} → (A → ObjectMeta) → (A → ObjectMeta → A) → (A → M A) → A → M A
ensure_finalizer meta with_meta update object =
    if contains_finalizer (meta object).finalizers finalizer_cleanup
    then pure object
    else let finalizers = add_finalizer (meta object).finalizers finalizer_cleanup in
      wrapped "add finalizer"
        (update (with_meta object (record (meta object) { finalizers = finalizers })))

-- `filterExclude`
unfoldable pub filter_exclude : List String → String → List String
filter_exclude [] exclude = []
filter_exclude (item ∷ items) exclude =
    let rest = filter_exclude items exclude in if item != exclude then item ∷ rest else rest

unfoldable pub skip_drain : TalosNode → Bool
skip_drain node =
    node.spec.skip_drain || text_at annotation_skip_drain node.meta.annotations == "true"

-- The node with annotations set and deleted in memory.
abbrev pub annotated : TalosNode → Dict String → List String → TalosNode
annotated node set del = record node {
  meta = record (node.meta) { annotations = erase_all del (insert_all set node.meta.annotations) };
}

-- `patchAnnotations` answers the server's version of the node. Where the patch fails, the caller's
-- node is `annotated node set del`.
unfoldable pub patch_annotations : Env → TalosNode → Dict String → List String → M TalosNode
patch_annotations env node set del = patch_node env (annotated node set del)

-- `retry.RetryOnConflict`: the action again after a conflict, `n` times at most.
unfoldable pub retry_on_conflict : {A : Type 0} → ℕ → M A → M A
retry_on_conflict zero action t = action t
retry_on_conflict (suc n) action t =
    let again = retry_on_conflict n action in
    let (r, t') = action t in
    elim r [ ok a ↦ (ok a, t') | err e ↦ if is_conflict e then again t' else (err e, t') ]
