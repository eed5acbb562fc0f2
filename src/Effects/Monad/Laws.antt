-- ===== src/Effects/Monad/Laws.antt =====
-- How an action of several parts goes.
use yk_talos_management.Prelude.{String, List, ◌≡◌, refl, arith}
use yk_talos_management.Effects.Error.{Answer, ok, err}
use yk_talos_management.Effects.Calls.{Entry, Trace}
use yk_talos_management.Effects.Monad.{M, wrapped, continue, ◌>>=◌}

-- The rule for a sequence: what holds after its first part, and is kept by the rest where that
-- part succeeds, holds after both.
pub >>=-holds :
    {A B : Type 0} (P : List Entry → Type 0) (m : M A) (f : A → M B) (t : Trace)
    → P (m t).1.calls
    → ((a : A) → (m t).0 ≡ ok a → P (f a (m t).1).1.calls)
    → P ((m >>= f) t).1.calls
>>=-holds P m f t first next =
    let of_answer : (r : Answer _) → (m t).0 ≡ r → P (continue r f (m t).1).1.calls = elim [
      | ok a ↦ λ e. next a e
      | err e ↦ λ _. first
    ] in
    of_answer (m t).0 refl

pub wrapped-ok :
    {A : Type 0} (text : String) (m : M A) (a : A) (t : Trace)
    → (wrapped text m t).0 ≡ ok a
    → (m t).0 ≡ ok a
wrapped-ok text m a t h = ground arith

-- What follows from the success of both parts of a sequence follows from that of the sequence.
pub >>=-ok :
    {A B C : Type 0} (m : M A) (f : A → M B) (b : B) (t : Trace)
    → ((m >>= f) t).0 ≡ ok b
    → ((a : A) → (m t).0 ≡ ok a → (f a (m t).1).0 ≡ ok b → C)
    → C
>>=-ok {A} {B} {C} m f b t h next =
    let of_answer : (r : Answer A) → (m t).0 ≡ r → (continue r f (m t).1).0 ≡ ok b → C = elim [
      | ok a ↦ λ p q. next a p q
      | err e ↦ λ p q. absurd (cc q)
    ] in
    of_answer _ refl h
