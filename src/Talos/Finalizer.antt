-- ===== src/Talos/Finalizer.antt =====
-- internal/talos/finalizer.go: the annotation keys and the operations on a list of finalizers.
pub mod Laws
use yk_talos_management.Prelude.{
  String, Bool, List, [], ◌∷◌, ◌++◌, ◌==◌, ◌!=◌, string_eq, if◌then◌else◌, false, true,
}

abbrev pub finalizer_cleanup : String
finalizer_cleanup = "talos.yuriykovalchuk.dev/cleanup"

abbrev pub annotation_skip_drain : String
annotation_skip_drain = "talos.yuriykovalchuk.dev/skip-drain"

abbrev pub annotation_reset : String
annotation_reset = "talos.yuriykovalchuk.dev/reset"

abbrev pub annotation_last_reset : String
annotation_last_reset = "talos.yuriykovalchuk.dev/last-reset"

abbrev pub annotation_upgrade : String
annotation_upgrade = "talos.yuriykovalchuk.dev/upgrade"

abbrev pub annotation_last_upgrade : String
annotation_last_upgrade = "talos.yuriykovalchuk.dev/last-upgrade"

abbrev pub annotation_current_schematic : String
annotation_current_schematic = "talos.yuriykovalchuk.dev/current-schematic"

abbrev pub annotation_last_extensions : String
annotation_last_extensions = "talos.yuriykovalchuk.dev/last-extensions"

unfoldable pub contains_finalizer : List String → String → Bool
contains_finalizer [] finalizer = false
contains_finalizer (f ∷ list) finalizer =
    if f == finalizer then true else contains_finalizer list finalizer

unfoldable pub add_finalizer : List String → String → List String
unfolding contains_finalizer
add_finalizer list finalizer =
    if contains_finalizer list finalizer then list else list ++ (finalizer ∷ [])

unfoldable pub remove_finalizer : List String → String → List String
remove_finalizer [] finalizer = []
remove_finalizer (f ∷ list) finalizer =
    let rest = remove_finalizer list finalizer in if f != finalizer then f ∷ rest else rest
