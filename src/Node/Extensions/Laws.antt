-- ===== src/Node/Extensions/Laws.antt =====
-- About `canonicalExtensions` of talosnode_extensions.go, and the order of texts.
use Prim.Native.Char.{Char, code}
use Prim.Native.String.compare
use mathlib.Core.List.{Permᴰ}
use text.Mathlib.TextEquality.{Char-path}
use yk_talos_management.Prelude.{
  String, List, [], ◌∷◌, true, false, ◌||◌, ◌&&◌, ◌==◌, nat_eq, ltb, ◌≡◌, refl, ◌∙◌, ap, arith,
}
use yk_talos_management.Node.Extensions.Canonical.{
  is_le, text_le, insert_sorted, sort_texts, join, canonical_extensions,
}

-- The order on texts is that of their characters' numbers, the first difference deciding.
text_le-cons :
    (c d : Char) (s t : String)
    → text_le (String.◌∷◌ c s) (String.◌∷◌ d t)
      ≡ (ltb (code c) (code d) || (code c == code d && text_le s t))
text_le-cons c d s t = ap is_le (λ i. compare.cons-cons c d s t i) ∙ ground arith

text_le-nil : (t : String) → text_le String.[] t ≡ true
text_le-nil String.[] = refl
text_le-nil (String.◌∷◌ d t) = ap is_le (λ i. compare.nil-cons d t i)

text_le-cons_nil : (c : Char) (s : String) → text_le (String.◌∷◌ c s) String.[] ≡ false
text_le-cons_nil c s = ap is_le (λ i. compare.cons-nil c s i)

text_le_total : (s t : String) → text_le s t ≡ false → text_le t s ≡ true
text_le_total String.[] t h = ground (arith, text_le-nil t)
text_le_total (String.◌∷◌ c s) String.[] h = text_le-nil (String.◌∷◌ c s)
text_le_total (String.◌∷◌ c s) (String.◌∷◌ d t) h =
    ground (arith, text_le-cons c d s t, text_le-cons d c t s, text_le_total s t)

text_le_trans : (s t u : String) → text_le s t ≡ true → text_le t u ≡ true → text_le s u ≡ true
text_le_trans String.[] t u h k = text_le-nil u
text_le_trans (String.◌∷◌ c s) String.[] u h k = ground (arith, text_le-cons_nil c s)
text_le_trans (String.◌∷◌ c s) (String.◌∷◌ d t) String.[] h k = ground (arith, text_le-cons_nil d t)
text_le_trans (String.◌∷◌ c s) (String.◌∷◌ d t) (String.◌∷◌ e u) h k =
    ground
      (arith, text_le-cons c d s t, text_le-cons d e t u, text_le-cons c e s u, text_le_trans s t u)

cons-path : (c d : Char) (s t : String) → code c ≡ code d → s ≡ t → String.◌∷◌ c s ≡ String.◌∷◌ d t
cons-path c d s t h k i = String.◌∷◌ (Char-path c d h i) (k i)

text_le_antisym : (s t : String) → text_le s t ≡ true → text_le t s ≡ true → s ≡ t
text_le_antisym String.[] String.[] h k = refl
text_le_antisym String.[] (String.◌∷◌ d t) h k = ground (arith, text_le-cons_nil d t)
text_le_antisym (String.◌∷◌ c s) String.[] h k = ground (arith, text_le-cons_nil c s)
text_le_antisym (String.◌∷◌ c s) (String.◌∷◌ d t) h k =
    cons-path c d s t (ground (arith, text_le-cons c d s t, text_le-cons d c t s)) (
      text_le_antisym s t (ground (arith, text_le-cons c d s t, text_le-cons d c t s))
        (ground (arith, text_le-cons c d s t, text_le-cons d c t s)))

insert_sorted_comm :
    (x y : String) (list : List String)
    → insert_sorted x (insert_sorted y list) ≡ insert_sorted y (insert_sorted x list)
unfolding insert_sorted
insert_sorted_comm x y [] =
    ground (arith, text_le_total x y, text_le_total y x, text_le_antisym x y)
insert_sorted_comm x y (z ∷ list) = ground (
  arith,
  insert_sorted_comm x y list,
  text_le_total x y,
  text_le_antisym x y,
  text_le_trans x y z,
  text_le_trans y x z,
  text_le_total x z,
  text_le_total y z,
)

sort_texts_perm : {xs ys : List String} → Permᴰ xs ys → sort_texts xs ≡ sort_texts ys
unfolding sort_texts
sort_texts_perm Permᴰ.nil = refl
sort_texts_perm (Permᴰ.cons e p) = λ i. insert_sorted (e i) (sort_texts_perm p i)
sort_texts_perm (Permᴰ.swap {a} {b} {a'} {b'} {l} e k) =
    insert_sorted_comm a b (sort_texts l) ∙ λ i.
    insert_sorted (k i) (insert_sorted (e i) (sort_texts l))
sort_texts_perm (Permᴰ.trans p q) = sort_texts_perm p ∙ sort_texts_perm q

-- Two lists of the same extensions, in whatever order, have one canonical form, so that a change of
-- order alone asks for no new schematic.
pub canonical_extensions_perm :
    {xs ys : List String} → Permᴰ xs ys → canonical_extensions xs ≡ canonical_extensions ys
unfolding canonical_extensions
canonical_extensions_perm p = ap (join ",") (sort_texts_perm p)
