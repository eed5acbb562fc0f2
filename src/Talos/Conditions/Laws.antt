-- ===== src/Talos/Conditions/Laws.antt =====
-- About internal/talos/conditions.go: a list of conditions as a map from types.
use yk_talos_management.Prelude.{
  ℕ, String, List, [], ◌∷◌, ◌==◌, ◌&&◌, string_eq, if◌then◌else◌, ◌≡◌, refl, arith, Option, none,
  some, true, false,
}
use yk_talos_management.Api.{ConditionStatus, Condition, condition_status_eq}
use yk_talos_management.Talos.Conditions.{has_condition, stamp, set_condition}

-- The condition of a type: the first in the list.
unfoldable pub condition_of : List Condition → String → Option Condition
condition_of [] type = none
condition_of (c ∷ conditions) type = if c.type == type then some c else condition_of conditions type

-- No two conditions have one type.
abbrev pub IsUnique : List Condition → Type 0
IsUnique [] = Unit
IsUnique (c ∷ conditions) = (condition_of conditions c.type ≡ none) × IsUnique conditions

-- The time of the transition to a condition that is set at a time: that of the old condition,
-- where it has the same status already.
abbrev pub transition_time : ℕ → Option Condition → Condition → ℕ
transition_time time none condition = time
transition_time time (some old) condition =
    if condition.status == old.status then old.last_transition_time else time

-- Setting a condition replaces the condition of its type, or adds it, and leaves the condition of
-- every other type as it was; the transition time is the old one if the status stays, and the
-- present time otherwise.
pub condition_of-set :
    (time : ℕ) (conditions : List Condition) (c : Condition) (type : String)
    → condition_of (set_condition time conditions c) type ≡ (
        if c.type == type
        then some (record c {
          last_transition_time = transition_time time (condition_of conditions type) c;
        })
        else condition_of conditions type)
unfolding condition_of set_condition stamp
condition_of-set time [] c type = ground arith
condition_of-set time (d ∷ conditions) c type =
    ground (arith, condition_of-set time conditions c type)

-- If no type is listed twice, none is after a condition is set.
pub set_condition-IsUnique :
    (time : ℕ) (conditions : List Condition) (c : Condition)
    → IsUnique conditions
    → IsUnique (set_condition time conditions c)
unfolding set_condition stamp condition_of
set_condition-IsUnique time [] c u = (refl, tt)
set_condition-IsUnique time (d ∷ conditions) c u =
    ground (
      arith,
      set_condition-IsUnique time conditions c u.1,
      condition_of-set time conditions c d.type,
    )

-- A condition that was set is found with its status.
pub has_condition-set :
    (time : ℕ) (conditions : List Condition) (c : Condition)
    → has_condition (set_condition time conditions c) c.type c.status ≡ true
unfolding has_condition set_condition stamp
has_condition-set time [] c = ground arith
has_condition-set time (d ∷ conditions) c = ground (arith, has_condition-set time conditions c)

-- A condition that holds after another one was set held before.
pub has_condition-before :
    (time : ℕ) (conditions : List Condition) (c : Condition) (type : String)
    (status : ConditionStatus)
    → (c.type == type && c.status == status) ≡ false
    → has_condition (set_condition time conditions c) type status ≡ true
    → has_condition conditions type status ≡ true
unfolding has_condition set_condition stamp
has_condition-before time [] c type status o h = ground arith
has_condition-before time (d ∷ conditions) c type status o h =
    ground (arith, has_condition-before time conditions c type status o)
