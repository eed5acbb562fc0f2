-- ===== src/Node/Patches.antt =====
-- `mergePatches` and `applyRawPatch` of talosnode_controller.go.
pub mod Laws
pub mod View
use yk_talos_management.Prelude.{String, List, [], ◌∷◌, ◌++◌, Option, none, some}
use yk_talos_management.Api.Yaml.{Value, null, text, scalar, sequence, object, Fields, end, field}
use yk_talos_management.Api.Yaml.{find, put}
use yk_talos_management.Effects.Error.{Answer, ok, err, wrap}
use yk_talos_management.Effects.Environment.{Env}

-- Two maps are merged, and any other old value gives way.
unfoldable mutual
  -- The value that a patch gives to a key, from the value before.
  pub merge_value : Value → Option Value → Value
  merge_value (object patch) (some (object base)) = object (merge_patches patch base)
  merge_value (object patch) _ = object patch
  merge_value null _ = null
  merge_value (text s) _ = text s
  merge_value (scalar s) _ = scalar s
  merge_value (sequence items) _ = sequence items

  -- The loop over the patch, on the copy of the base.
  pub merge_patches : Fields → Fields → Fields
  merge_patches end base = base
  merge_patches (field k v patch) base =
      merge_patches patch (put k (merge_value v (find k base)) base)

-- The base config and the documents to append, after some patches.
pub record Patched : Type 0 where
  pub config : Fields
  pub standalone : List String

module _ (env : Env) where
  unfoldable pub apply_raw_patch : String → Patched → Answer Patched
  apply_raw_patch raw p = elim (env.parse_yaml raw) [
    | err e ↦ err (wrap "unmarshal patch" e)
    | ok patch ↦ elim (find "apiVersion" patch) [
      | some version ↦ ok (record p { standalone = p.standalone ++ (env.trim_space raw ∷ []) })
      | none ↦ ok (record p { config = merge_patches patch p.config })
    ]
  ]
