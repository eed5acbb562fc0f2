-- ===== src/Prelude/Dict.antt =====
-- Go maps with text keys, as association lists. A Go map lists a key once and in no order: what
-- a model says of a map is said through `lookup`.
use Prim.Native.String.{String}
use mathlib.Core.Path.{◌≡◌, refl}
use mathlib.Core.Option.{Option, none, some}
use mathlib.Core.List.{List, [], ◌∷◌}
use native.Mathlib.Omega.{arith}
use yk_talos_management.Prelude.Equality.{◌==◌, string_eq, if◌then◌else◌}

abbrev pub Dict {ℓ} : Type ℓ → Type ℓ
Dict V = List (String × V)

module _ {ℓ} {V : Type ℓ} where
  -- `v, ok := m[k]`
  abbrev pub lookup : String → Dict V → Option V
  lookup k [] = none
  lookup k ((j, v) ∷ m) = if j == k then some v else lookup k m

  -- `m[k] = v`
  abbrev pub insert : String → V → Dict V → Dict V
  insert k v [] = (k, v) ∷ []
  insert k v ((j, w) ∷ m) = if j == k then (k, v) ∷ m else (j, w) ∷ insert k v m

  -- `delete(m, k)`
  abbrev pub erase : String → Dict V → Dict V
  erase k [] = []
  erase k ((j, w) ∷ m) = let rest = erase k m in if j == k then rest else (j, w) ∷ rest

  -- `for k, v := range updates { m[k] = v }`
  abbrev pub insert_all : Dict V → Dict V → Dict V
  insert_all [] m = m
  insert_all ((k, v) ∷ updates) m = insert_all updates (insert k v m)

  -- `for _, k := range keys { delete(m, k) }`
  abbrev pub erase_all : List String → Dict V → Dict V
  erase_all [] m = m
  erase_all (k ∷ keys) m = erase_all keys (erase k m)

  pub lookup-insert :
      (k j : String) (v : V) (m : Dict V)
      → lookup j (insert k v m) ≡ (if k == j then some v else lookup j m)
  lookup-insert k j v [] = refl
  lookup-insert k j v ((i, w) ∷ m) = ground (arith, lookup-insert k j v m)

  pub lookup-erase :
      (k j : String) (m : Dict V) → lookup j (erase k m) ≡ (if k == j then none else lookup j m)
  lookup-erase k j [] = ground arith
  lookup-erase k j ((i, w) ∷ m) = ground (arith, lookup-erase k j m)

-- `m[k]` on a map of texts: the empty text for a missing key.
abbrev pub text_at : String → Dict String → String
text_at k m = elim (lookup k m) [ none ↦ "" | some v ↦ v ]

pub text_at-insert :
    (k j v : String) (m : Dict String)
    → text_at j (insert k v m) ≡ (if k == j then v else text_at j m)
text_at-insert k j v m = ground (arith, lookup-insert k j v m)

pub text_at-erase :
    (k j : String) (m : Dict String) → text_at j (erase k m) ≡ (if k == j then "" else text_at j m)
text_at-erase k j m = ground (arith, lookup-erase k j m)
