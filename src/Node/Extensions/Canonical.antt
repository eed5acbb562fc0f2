-- ===== src/Node/Extensions/Canonical.antt =====
-- `canonicalExtensions`: `sort.Strings` and `strings.Join`, by the byte order of texts.
use Prim.Native.Nat.{Ordering}
use Prim.Native.String.{compare}
use yk_talos_management.Prelude.{String, ◌<>◌, List, [], ◌∷◌, Bool, true, false, if◌then◌else◌}

abbrev pub is_le : Ordering → Bool
is_le Ordering.gt = false
is_le _ = true

abbrev pub text_le : String → String → Bool
text_le s t = is_le (compare s t)

unfoldable pub insert_sorted : String → List String → List String
insert_sorted x [] = x ∷ []
insert_sorted x (y ∷ ys) = if text_le x y then x ∷ y ∷ ys else y ∷ insert_sorted x ys

unfoldable pub sort_texts : List String → List String
unfolding insert_sorted
sort_texts [] = []
sort_texts (x ∷ xs) = insert_sorted x (sort_texts xs)

unfoldable pub join : String → List String → String
join separator [] = ""
join separator (x ∷ []) = x
join separator (x ∷ y ∷ xs) = x <> separator <> join separator (y ∷ xs)

unfoldable pub canonical_extensions : List String → String
unfolding sort_texts join
canonical_extensions extensions = join "," (sort_texts extensions)
