-- ===== src/Node/Apply/References.antt =====
-- The config and the documents that `applyConfig` of talosnode_controller.go sends: inline patches
-- and patches from references.
use yk_talos_management.Prelude.{String, List, [], ◌∷◌, ◌++◌, ◌≡◌, ◌∙◌, refl, arith}
use yk_talos_management.Prelude.Dict.{Dict, text_at}
use yk_talos_management.Api.{SecretKeySelector}
use yk_talos_management.Effects.Error.{Answer, ok, err}
use yk_talos_management.Effects.Objects.{Secret}
use yk_talos_management.Effects.Calls.{Trace}
use yk_talos_management.Effects.Monad.{continue}
use yk_talos_management.Effects.Environment.{Env}
use yk_talos_management.Node.Patches.{Patched, apply_raw_patch}
use yk_talos_management.Node.Apply.{apply_inline, apply_reference, apply_references}
use yk_talos_management.Node.Apply.Merging.{apply_inline-accepted}

-- Two lists of patches, one after the other.
pub apply_inline-append :
    (env : Env) (raws more : List String) (p next p' : Patched)
    → apply_inline env raws p ≡ ok next
    → apply_inline env more next ≡ ok p'
    → apply_inline env (raws ++ more) p ≡ ok p'
unfolding apply_inline
apply_inline-append env [] more p next p' h g = grind arith
apply_inline-append env (raw ∷ raws) more p next p' h g =
    grind (arith, apply_inline-append env raws more)

-- Where the secrets of a namespace stay as they are, the patches from references are applied like
-- inline patches with the texts that the references name.
module _ (env : Env) (namespace : String) (values : String → Dict String)
    (reads : (name : String) (s : Secret) (t : Trace)
      → env.get_secret namespace name t ≡ ok s
      → s.values ≡ values name) where
  abbrev pub referenced : List SecretKeySelector → List String
  referenced [] = []
  referenced (ref ∷ refs) = text_at ref.key (values ref.name) ∷ referenced refs

  apply_reference-raw :
      (ref : SecretKeySelector) (p p' : Patched) (t : Trace)
      → (apply_reference env namespace ref p t).0 ≡ ok p'
      → apply_raw_patch env (text_at ref.key (values ref.name)) p ≡ ok p'
  unfolding apply_reference
  apply_reference-raw ref p p' t h = grind (arith, reads)

  pub apply_references-raws :
      (refs : List SecretKeySelector) (p p' : Patched) (t : Trace)
      → (apply_references env namespace refs p t).0 ≡ ok p'
      → apply_inline env (referenced refs) p ≡ ok p'
  unfolding apply_references apply_inline
  apply_references-raws [] p p' t h = grind arith
  apply_references-raws (ref ∷ refs) p p' t h =
      let t1 = (apply_reference env namespace ref p t).1 in
      let of_reference : (r : Answer Patched)
          → (apply_reference env namespace ref p t).0 ≡ r
          → (continue r (apply_references env namespace refs) t1).0 ≡ ok p'
          → apply_inline env (referenced (ref ∷ refs)) p ≡ ok p' =
        elim [
          | err e ↦ λ q g. absurd (grind (arith, g))
          | ok next ↦ λ q g.
              apply_inline-accepted env (text_at ref.key (values ref.name)) (referenced refs) p next
                (apply_reference-raw ref p next t q)
              ∙ apply_references-raws refs next p' t1 g
        ] in
      of_reference _ refl h
