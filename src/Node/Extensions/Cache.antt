-- ===== src/Node/Extensions/Cache.antt =====
-- `computeDesiredImage` twice, with its annotations persisted in between, where the factory is the
-- one of internal/factory/factory.go.
use mathlib.Core.List.{Permᴰ}
use yk_talos_management.Prelude.{
  String, String-discrete, ◌<>◌, List, [], ◌∷◌, length, string_eq, some, ◌⊎◌, inl, inr, ◌≡◌, ◌≢◌,
  refl, ◌∙◌, arith,
}
use yk_talos_management.Prelude.Dict.{Dict, insert, insert_all, text_at, text_at-insert}
use yk_talos_management.Api.{TalosNode}
use yk_talos_management.Effects.Error.{ok}
use yk_talos_management.Effects.Calls.{Trace}
use yk_talos_management.Effects.Environment.{Env}
use yk_talos_management.Factory.{Http, HttpClient, as_factory}
use yk_talos_management.Factory.Laws.{create_schematic-nonempty}
use yk_talos_management.Talos.Finalizer.{annotation_current_schematic, annotation_last_extensions}
use yk_talos_management.Shared.Helpers.{patch_annotations}
use yk_talos_management.Node.Version.{normalize_version}
use yk_talos_management.Node.Extensions.{
  DesiredImage, create_image, compute_desired_image, persist_schematic,
}
use yk_talos_management.Node.Extensions.Canonical.{canonical_extensions}
use yk_talos_management.Node.Extensions.Laws.{canonical_extensions_perm}

abbrev pub current_schematic : TalosNode → String
current_schematic node = text_at annotation_current_schematic node.meta.annotations

abbrev pub last_extensions : TalosNode → String
last_extensions node = text_at annotation_last_extensions node.meta.annotations

-- The image of a schematic for the version of a node.
abbrev image_of : TalosNode → String → String
image_of node schematic =
    "factory.talos.dev/installer/" <> schematic <> ":" <> normalize_version node.spec.talos_version

abbrev pub reused : String → DesiredImage
reused image = record { image = image; new_schematic_id = ""; new_canonical = "" }

length-perm : {xs ys : List String} → Permᴰ xs ys → length xs ≡ length ys
length-perm Permᴰ.nil = refl
length-perm (Permᴰ.cons e p) = omega (arith, length-perm p)
length-perm (Permᴰ.swap e k) = refl
length-perm (Permᴰ.trans p q) = length-perm p ∙ length-perm q

-- The annotations that `persist_schematic` sets.
annotations_set :
    (schematic canonical : String) (m : Dict String)
    → let set =
        insert_all
          ((annotation_current_schematic, schematic) ∷ (annotation_last_extensions, canonical) ∷ [])
          m in
      (text_at annotation_current_schematic set ≡ schematic)
      × (text_at annotation_last_extensions set ≡ canonical)
unfolding String-discrete
annotations_set schematic canonical m = (
  text_at-insert annotation_last_extensions annotation_current_schematic canonical
        (insert annotation_current_schematic schematic m)
      ∙ text_at-insert annotation_current_schematic annotation_current_schematic schematic m,
  text_at-insert annotation_last_extensions annotation_last_extensions canonical
      (insert annotation_current_schematic schematic m),
)

module _ (env : Env) where
  -- A hit of the cache.
  pub compute_desired_image-hit :
      (node : TalosNode) (t : Trace)
      → node.spec.system_extensions ≢ []
      → last_extensions node ≡ canonical_extensions node.spec.system_extensions
      → current_schematic node ≢ ""
      → ((compute_desired_image env node t).0
          ≡ ok (reused (image_of node (current_schematic node))))
        × ((compute_desired_image env node t).1.calls ≡ t.calls)
  unfolding compute_desired_image
  compute_desired_image-hit node t nonempty same filled = grind (arith, nonempty, same, filled)

  module _ (http : Http) (c : HttpClient) where
    -- An image for extensions is that of a schematic, cached or new.
    compute_desired_image-schematic :
        (node : TalosNode) (t : Trace) (result : DesiredImage)
        → env.factory ≡ some (as_factory http c)
        → node.spec.system_extensions ≢ []
        → (compute_desired_image env node t).0 ≡ ok result
        → ((result ≡ reused (image_of node (current_schematic node)))
            × (last_extensions node ≡ canonical_extensions node.spec.system_extensions)
            × (current_schematic node ≢ ""))
          ⊎ ((result.image ≡ image_of node result.new_schematic_id)
              × (result.new_canonical ≡ canonical_extensions node.spec.system_extensions)
              × (result.new_schematic_id ≢ ""))
    unfolding compute_desired_image create_image
    compute_desired_image-schematic node t result wired nonempty computed =
        grind (arith, wired, nonempty, computed, create_schematic-nonempty http c)

    persist_schematic-annotations :
        (node patched : TalosNode) (t : Trace) (result : DesiredImage)
        → ((x y : TalosNode) (s : Trace)
            → env.patch_node x s ≡ ok y
            → y.meta.annotations ≡ x.meta.annotations)
        → result.new_schematic_id ≢ ""
        → (persist_schematic env node result t).0 ≡ ok patched
        → (current_schematic patched ≡ result.new_schematic_id)
          × (last_extensions patched ≡ result.new_canonical)
    unfolding persist_schematic patch_annotations
    persist_schematic-annotations node patched t result echo filled persisted = grind (
      arith,
      echo,
      filled,
      persisted,
      annotations_set result.new_schematic_id result.new_canonical node.meta.annotations,
    )

    -- The cache of a node that was persisted, for the image that it was persisted with.
    record Cached (node patched : TalosNode) (result : DesiredImage) : Type 0 where
      image : result.image ≡ image_of node (current_schematic patched)
      canonical : last_extensions patched ≡ canonical_extensions node.spec.system_extensions
      filled : current_schematic patched ≢ ""

    persist_schematic-Cached :
        (node patched : TalosNode) (t later : Trace) (result : DesiredImage)
        → env.factory ≡ some (as_factory http c)
        → ((x y : TalosNode) (s : Trace)
            → env.patch_node x s ≡ ok y
            → y.meta.annotations ≡ x.meta.annotations)
        → node.spec.system_extensions ≢ []
        → (compute_desired_image env node t).0 ≡ ok result
        → (persist_schematic env node result later).0 ≡ ok patched
        → Cached node patched result
    unfolding persist_schematic
    persist_schematic-Cached node patched t later result wired echo nonempty computed persisted =
        elim (compute_desired_image-schematic node t result wired nonempty computed) [
          | inl (same, canonical, filled) ↦ record {
            image = grind (arith, same, persisted);
            canonical = grind (arith, same, persisted, canonical);
            filled = grind (arith, same, persisted, filled);
          }
          | inr (image, canonical, filled) ↦
              let (schematic, last) =
                persist_schematic-annotations node patched later result echo filled persisted in
              record {
                image = grind (arith, image, schematic);
                canonical = grind (arith, canonical, last);
                filled = grind (arith, schematic, filled);
              }
        ]

    -- With the client of the image factory as the factory, and an API server that stores the
    -- annotations it is sent: once `computeDesiredImage` answered an image for a list of extensions
    -- and the annotations were persisted, it answers the same image for every node that has these
    -- annotations, the same version and the same extensions in any order, and makes no call for it.
    pub compute_desired_image-cached :
        (node patched next : TalosNode) (t later last : Trace) (result : DesiredImage)
        → env.factory ≡ some (as_factory http c)
        → ((x y : TalosNode) (s : Trace)
            → env.patch_node x s ≡ ok y
            → y.meta.annotations ≡ x.meta.annotations)
        → node.spec.system_extensions ≢ []
        → (compute_desired_image env node t).0 ≡ ok result
        → (persist_schematic env node result later).0 ≡ ok patched
        → next.meta.annotations ≡ patched.meta.annotations
        → next.spec.talos_version ≡ node.spec.talos_version
        → Permᴰ node.spec.system_extensions next.spec.system_extensions
        → ((compute_desired_image env next last).0 ≡ ok (reused result.image))
          × ((compute_desired_image env next last).1.calls ≡ last.calls)
    compute_desired_image-cached node patched next t later last result wired echo nonempty computed
          persisted annotations version p =
        let cached : Cached node patched result =
          persist_schematic-Cached node patched t later result wired echo nonempty computed
            persisted in
        grind (
          arith,
          cached.image,
          cached.canonical,
          cached.filled,
          annotations,
          version,
          canonical_extensions_perm p,
          length-perm p,
          nonempty,
          compute_desired_image-hit next last,
        )
