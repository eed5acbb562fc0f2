-- ===== src/Node/Patches/View.antt =====
-- What a config with merged patches looks like along each path of keys, for `mergePatches` of
-- talosnode_controller.go.
use mathlib.Core.Path.{fun_ext}
use yk_talos_management.Prelude.{
  String, List, [], ◌∷◌, Bool, true, false, ◌&&◌, string_eq, if◌then◌else◌, ◌≡◌, ◌∙◌, refl, arith,
  ap, Option, none, some,
}
use yk_talos_management.Api.Yaml.{
  Value, null, text, scalar, sequence, object, Fields, end, field, find,
}
use yk_talos_management.Node.Patches.{merge_value, merge_patches}
use yk_talos_management.Node.Patches.Laws.{IsUnique, AreUnique, merged, find-merge_patches}

-- What stands at the end of each path: a leaf, or a map, whose entries stand at longer paths.
abbrev pub View : Type 0
View = List String → Option Value

abbrev shape : Value → Value
shape (object m) = object end
shape null = null
shape (text s) = text s
shape (scalar s) = scalar s
shape (sequence items) = sequence items

abbrev is_object : Value → Bool
is_object (object m) = true
is_object _ = false

abbrev is_map : Option Value → Bool
is_map none = false
is_map (some v) = is_object v

abbrev entry : Value → String → Option Value
entry (object m) k = find k m
entry _ k = none

-- The view of a value.
unfoldable pub seen : Option Value → View
seen none ks = none
seen (some v) [] = some (shape v)
seen (some v) (k ∷ ks) = seen (entry v k) ks

-- A patch laid over a view: where the patch has a map over a map, the entries of both are there,
-- the patch's laid over the others; elsewhere what the patch has is all there is; and where the
-- patch has nothing, the view is as it was.
unfoldable pub overlay : Option Value → View → View
overlay none view ks = view ks
overlay (some v) view [] = some (shape v)
overlay (some v) view (k ∷ ks) =
    let below = overlay (entry v k) (λ rest. view (k ∷ rest)) ks in
    if is_object v && is_map (view []) then below else seen (entry v k) ks

-- Patches laid over a view in order.
unfoldable pub overlays : List Fields → View → View
overlays [] view = view
overlays (patch ∷ patches) view = overlays patches (overlay (some (object patch)) view)

abbrev IsTidy : Option Value → Type 0
IsTidy none = Unit
IsTidy (some v) = AreUnique v

find-IsTidy : (k : String) (m : Fields) → IsUnique m → IsTidy (find k m)
find-IsTidy k end u = tt
find-IsTidy k (field j v rest) u = ground (arith, find-IsTidy k rest u.2)

shape-merge_value : (v : Value) (base : Option Value) → shape (merge_value v base) ≡ shape v
unfolding merge_value
shape-merge_value (object p) (some (object b)) = refl
shape-merge_value (object p) (some null) = refl
shape-merge_value (object p) (some (text s)) = refl
shape-merge_value (object p) (some (scalar s)) = refl
shape-merge_value (object p) (some (sequence items)) = refl
shape-merge_value (object p) none = refl
shape-merge_value null base = refl
shape-merge_value (text s) base = refl
shape-merge_value (scalar s) base = refl
shape-merge_value (sequence items) base = refl

-- A merged value looks like the patch laid over the base.
pub seen-merged :
    (ks : List String) (patch base : Option Value)
    → IsTidy patch
    → seen (merged patch base) ks ≡ overlay patch (seen base) ks
unfolding seen overlay merge_value
seen-merged ks none base u = refl
seen-merged [] (some v) base u = ap some (shape-merge_value v base)
seen-merged (k ∷ ks) (some (object p)) (some (object b)) u =
    ap (λ x. seen x ks) (find-merge_patches p b k u)
    ∙ seen-merged ks (find k p) (find k b) (find-IsTidy k p u)
seen-merged (k ∷ ks) (some (object p)) (some null) u = refl
seen-merged (k ∷ ks) (some (object p)) (some (text s)) u = refl
seen-merged (k ∷ ks) (some (object p)) (some (scalar s)) u = refl
seen-merged (k ∷ ks) (some (object p)) (some (sequence items)) u = refl
seen-merged (k ∷ ks) (some (object p)) none u = refl
seen-merged (k ∷ ks) (some null) base u = refl
seen-merged (k ∷ ks) (some (text s)) base u = refl
seen-merged (k ∷ ks) (some (scalar s)) base u = refl
seen-merged (k ∷ ks) (some (sequence items)) base u = refl

-- The config after a patch looks like the patch laid over the config.
pub seen-merge_patches :
    (patch base : Fields)
    → IsUnique patch
    → seen (some (object (merge_patches patch base)))
      ≡ overlay (some (object patch)) (seen (some (object base)))
unfolding merge_value
seen-merge_patches patch base u =
    fun_ext (λ ks. seen-merged ks (some (object patch)) (some (object base)) u)
