-- ===== src/Effects/Monad.antt =====
-- Code that makes calls and may return an error. `return err` is `raise`, and what was done before
-- it stays in the trace.
pub mod Laws
use yk_talos_management.Prelude.{String, List, ◌∷◌, ◌++◌, if◌then◌else◌, Bool}
use yk_talos_management.Effects.Error.{Error, Answer, ok, err, wrap}
use yk_talos_management.Effects.Calls.{Call, did, failed, Note, Trace}

abbrev pub M : Type 0 → Type 0
M A = Trace → Answer A × Trace

module _ {A : Type 0} where
  abbrev pub pure : A → M A
  pure a t = (ok a, t)

  abbrev pub raise : Error → M A
  raise e t = (err e, t)

  abbrev pub settle : Call → Answer A → M A
  settle c (ok a) t = (ok a, record t { calls = did c ∷ t.calls })
  settle c (err e) t = (err e, record t { calls = failed c ∷ t.calls })

  -- A call, with the environment's answer to it.
  abbrev pub perform : Call → (Trace → Answer A) → M A
  perform c answer t = settle c (answer t) t

  -- `if err != nil { return …, fmt.Errorf("text: %w", err) }`
  abbrev pub relabel : String → Answer A → Answer A
  relabel text (ok a) = ok a
  relabel text (err e) = err (wrap text e)

  abbrev pub wrapped : String → M A → M A
  wrapped text m t = let (r, t') = m t in (relabel text r, t')

  -- The error as a value, for code that looks at it.
  abbrev pub try : M A → M (Answer A)
  try m t = let (r, t') = m t in (ok r, t')

-- Events and metrics have no answer and cannot fail.
abbrev pub tell : List Note → M (Unit {0})
tell notes t = (ok tt, record t { notes = notes ++ t.notes })

module _ {A B : Type 0} where
  abbrev pub continue : Answer A → (A → M B) → M B
  continue (ok a) f t = f a t
  continue (err e) f t = (err e, t)

  infixl 5 ◌>>=◌ ◌>>◌
  abbrev pub ◌>>=◌ : M A → (A → M B) → M B
  ◌>>=◌ m f t = let (r, t') = m t in continue r f t'

  abbrev pub ◌>>◌ : M A → M B → M B
  m >> n = m >>= λ _. n

-- A statement under an `if` without `else`.
abbrev pub when : Bool → M (Unit {0}) → M (Unit {0})
when b m = if b then m else pure tt
