-- ===== src/Talos/Finalizer/Laws.antt =====
-- About internal/talos/finalizer.go: a list of finalizers as a set.
use yk_talos_management.Prelude.{String, List, [], ◌∷◌, ◌++◌, string_eq, false, ◌≡◌, refl, arith}
use yk_talos_management.Talos.Finalizer.{contains_finalizer, add_finalizer, remove_finalizer}

remove_finalizer_absent :
    (list : List String) (f : String)
    → contains_finalizer list f ≡ false
    → remove_finalizer list f ≡ list
unfolding contains_finalizer remove_finalizer
remove_finalizer_absent [] f h = refl
remove_finalizer_absent (g ∷ list) f h = ground (arith, remove_finalizer_absent list f)

remove_finalizer-append :
    (list : List String) (f : String)
    → contains_finalizer list f ≡ false
    → remove_finalizer (list ++ (f ∷ [])) f ≡ list
unfolding contains_finalizer remove_finalizer
remove_finalizer-append [] f h = ground arith
remove_finalizer-append (g ∷ list) f h = ground (arith, remove_finalizer-append list f)

-- Removing a finalizer that was not there before it was added gives the list back, order
-- included.
remove-add_finalizer :
    (list : List String) (f : String)
    → contains_finalizer list f ≡ false
    → remove_finalizer (add_finalizer list f) f ≡ list
unfolding add_finalizer
remove-add_finalizer list f h = rw h (remove_finalizer-append list f h)
