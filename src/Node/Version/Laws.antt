-- ===== src/Node/Version/Laws.antt =====
-- About `versionFromImage`.
use Prim.Native.Char.{code}
use Prim.Native.String.append
use yk_talos_management.Prelude.{
  String, ◌<>◌, ◌≡◌, refl, arith, Bool, true, false, none, some, ◌==◌, string_eq, nat_eq,
  if◌then◌else◌, ℕ_discrete,
}
use yk_talos_management.Node.Version.{after_last_colon, version_from_image}

abbrev pub has_colon : String → Bool
has_colon String.[] = false
has_colon (String.◌∷◌ c s) = if code c == b':' then true else has_colon s

after_last_colon-none : (s : String) → has_colon s ≡ false → after_last_colon s ≡ none
unfolding after_last_colon
after_last_colon-none String.[] h = refl
after_last_colon-none (String.◌∷◌ c s) h = ground (arith, after_last_colon-none s)

after_last_colon-tagged :
    (image tag : String)
    → has_colon tag ≡ false
    → after_last_colon (image <> (":" <> tag)) ≡ some tag
unfolding after_last_colon ℕ_discrete
after_last_colon-tagged String.[] tag h =
    rw append.nil
      (rw append.cons (rw append.nil (rw (after_last_colon-none tag h, after_last_colon) refl)))
after_last_colon-tagged (String.◌∷◌ c s) tag h =
    rw append.cons (rw (after_last_colon-tagged s tag h, after_last_colon) refl)

-- From an image with a tag that has no colon the tag is read back, whatever colons the rest has, a
-- registry's port included.
pub version_from_image-tagged :
    (image tag : String) → has_colon tag ≡ false → version_from_image (image <> (":" <> tag)) ≡ tag
unfolding version_from_image
version_from_image-tagged image tag h = rw (after_last_colon-tagged image tag h, version_from_image)

version_from_image-untagged :
    (image : String) → has_colon image ≡ false → version_from_image image ≡ ""
unfolding version_from_image
version_from_image-untagged image h = rw (after_last_colon-none image h, version_from_image)
