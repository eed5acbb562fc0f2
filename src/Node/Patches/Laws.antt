-- ===== src/Node/Patches/Laws.antt =====
-- About `mergePatches` of talosnode_controller.go, key by key.
use yk_talos_management.Prelude.{
  String, ◌==◌, string_eq, if◌then◌else◌, ◌≡◌, refl, arith, Option, none, some,
}
use yk_talos_management.Api.Yaml.{Value, null, text, scalar, sequence, object, Fields, end, field}
use yk_talos_management.Api.Yaml.{find, put}
use yk_talos_management.Node.Patches.{merge_value, merge_patches}

pub find-put :
    (k j : String) (v : Value) (m : Fields)
    → find j (put k v m) ≡ (if k == j then some v else find j m)
find-put k j v end = refl
find-put k j v (field i w m) = ground (arith, find-put k j v m)

-- No key is listed twice, as in a Go map, and in no map below it.
abbrev mutual
  pub IsUnique : Fields → Type 0
  IsUnique end = Unit
  IsUnique (field k v rest) = (find k rest ≡ none) × AreUnique v × IsUnique rest

  pub AreUnique : Value → Type 0
  AreUnique (object m) = IsUnique m
  AreUnique null = Unit
  AreUnique (text s) = Unit
  AreUnique (scalar s) = Unit
  AreUnique (sequence items) = Unit

abbrev pub merged : Option Value → Option Value → Option Value
merged none base = base
merged (some v) base = some (merge_value v base)

-- For a patch without repeated keys: at each key, the merged map has the base's value where the
-- patch has none, and otherwise the patch's value, merged into the base's where both are maps.
pub find-merge_patches :
    (patch base : Fields) (k : String)
    → IsUnique patch
    → find k (merge_patches patch base) ≡ merged (find k patch) (find k base)
unfolding merge_patches
find-merge_patches end base k u = refl
find-merge_patches (field j v patch) base k u = ground (
  arith,
  find-merge_patches patch (put j (merge_value v (find j base)) base) k u.2,
  find-put j k (merge_value v (find j base)) base,
  u.0,
)
