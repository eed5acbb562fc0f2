-- ===== src/Node/Apply/Merging.antt =====
-- The config and the documents that the patches of `applyConfig` in talosnode_controller.go make.
use mathlib.Core.List.{append_assoc, append-nil}
use yk_talos_management.Prelude.{
  String, List, [], ◌∷◌, ◌++◌, none, some, ◌≡◌, ◌≢◌, ◌∙◌, refl, sym, arith,
}
use yk_talos_management.Api.Yaml.{object, Fields, find}
use yk_talos_management.Effects.Error.{Error, Answer, ok, err}
use yk_talos_management.Effects.Environment.{Env}
use yk_talos_management.Node.Patches.{Patched, apply_raw_patch}
use yk_talos_management.Node.Patches.Laws.{IsUnique}
use yk_talos_management.Node.Patches.View.{View, seen, overlays, seen-merge_patches}
use yk_talos_management.Node.Apply.{apply_inline}

module _ (env : Env) where
  -- The maps among the patches that are merged into the config: those without an `apiVersion`.
  abbrev pub merging : List String → List Fields
  merging [] = []
  merging (raw ∷ raws) = elim (env.parse_yaml raw) [
    | err e ↦ merging raws
    | ok patch ↦ elim (find "apiVersion" patch) [
      | some version ↦ merging raws
      | none ↦ patch ∷ merging raws
    ]
  ]

  -- The texts of the others.
  abbrev pub documents : List String → List String
  documents [] = []
  documents (raw ∷ raws) = elim (env.parse_yaml raw) [
    | err e ↦ documents raws
    | ok patch ↦ elim (find "apiVersion" patch) [
      | some version ↦ env.trim_space raw ∷ documents raws
      | none ↦ documents raws
    ]
  ]

module _ (env : Env) where
  apply_inline-refused :
      (raw : String) (raws : List String) (p p' : Patched) (e : Error)
      → apply_raw_patch env raw p ≡ err e
      → apply_inline env (raw ∷ raws) p ≢ ok p'
  unfolding apply_inline
  apply_inline-refused raw raws p p' e q h = grind arith

  pub apply_inline-accepted :
      (raw : String) (raws : List String) (p next : Patched)
      → apply_raw_patch env raw p ≡ ok next
      → apply_inline env (raw ∷ raws) p ≡ apply_inline env raws next
  unfolding apply_inline
  apply_inline-accepted raw raws p next q = grind arith

module _ (env : Env)
    (parses : (raw : String) (patch : Fields)
      → env.parse_yaml raw ≡ ok patch
      → IsUnique patch) where
  -- The view of the config.
  abbrev pub view_of : Patched → View
  view_of p = seen (some (object p.config))

  apply_raw_patch-view :
      (raw : String) (raws : List String) (p p' : Patched)
      → apply_raw_patch env raw p ≡ ok p'
      → overlays (merging env (raw ∷ raws)) (view_of p) ≡ overlays (merging env raws) (view_of p')
  unfolding apply_raw_patch overlays
  apply_raw_patch-view raw raws p p' h =
      grind (arith, parses raw, λ (patch : Fields). seen-merge_patches patch p.config)

  apply_raw_patch-documents :
      (raw : String) (raws : List String) (p p' : Patched)
      → apply_raw_patch env raw p ≡ ok p'
      → p.standalone ++ documents env (raw ∷ raws) ≡ p'.standalone ++ documents env raws
  unfolding apply_raw_patch
  apply_raw_patch-documents raw raws p p' h =
      grind (arith, append_assoc p.standalone (env.trim_space raw ∷ []) (documents env raws))

  pub apply_inline-view :
      (raws : List String) (p p' : Patched)
      → apply_inline env raws p ≡ ok p'
      → view_of p' ≡ overlays (merging env raws) (view_of p)
  unfolding apply_inline overlays
  apply_inline-view [] p p' h = grind arith
  apply_inline-view (raw ∷ raws) p p' h =
      let of_patch : (r : Answer Patched)
          → apply_raw_patch env raw p ≡ r
          → view_of p' ≡ overlays (merging env (raw ∷ raws)) (view_of p) =
        elim [
          | err e ↦ λ q. absurd (apply_inline-refused env raw raws p p' e q h)
          | ok next ↦ λ q.
              apply_inline-view raws next p' (sym (apply_inline-accepted env raw raws p next q) ∙ h)
              ∙ sym (apply_raw_patch-view raw raws p next q)
        ] in
      of_patch _ refl

  pub apply_inline-documents :
      (raws : List String) (p p' : Patched)
      → apply_inline env raws p ≡ ok p'
      → p.standalone ++ documents env raws ≡ p'.standalone
  unfolding apply_inline
  apply_inline-documents [] p p' h = grind (arith, append-nil p.standalone)
  apply_inline-documents (raw ∷ raws) p p' h =
      let of_patch : (r : Answer Patched)
          → apply_raw_patch env raw p ≡ r
          → p.standalone ++ documents env (raw ∷ raws) ≡ p'.standalone =
        elim [
          | err e ↦ λ q. absurd (apply_inline-refused env raw raws p p' e q h)
          | ok next ↦ λ q.
              apply_raw_patch-documents raw raws p next q
              ∙ apply_inline-documents raws next p'
                  (sym (apply_inline-accepted env raw raws p next q) ∙ h)
        ] in
      of_patch _ refl
