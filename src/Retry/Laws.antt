-- ===== src/Retry/Laws.antt =====
-- About `GetRetryDelay` of internal/config/config.go: its cap, its growth, and overflow.
use native.Mathlib.Nat.{pow-le-pow_right}
use yk_talos_management.Prelude.{
  ℕ, ◌-◌, ◌*◌, ◌%◌, ◌^◌, ◌≤◌, ◌<◌, ◌≡◌, arith, true, ltb, leb, if◌then◌else◌, nat_eq, Bool-cases,
  inl, inr,
}
use yk_talos_management.Retry.{backoff, word64, half64, less64, at_most_zero}

abbrev pub min : ℕ → ℕ → ℕ
min a b = if leb a b then a else b

-- Settings that are positive, in order, and small enough that 2 ^ 10 times the base is an int64.
pub record IsSane (base longest : ℕ) : Type 0 where
  pub ordered : base ≤ longest
  pub longest_fits : longest < half64
  pub scaled_fits : base * 1024 < half64

-- The powers that the shift takes are at most 2 ^ 10.
power_bound : (k : ℕ) → k ≤ 10 → 2 ^ k ≤ 1024
power_bound k h = pow-le-pow_right {n = 2} (omega arith) {i = k} {j = 10} h

scaled_bound : (base k : ℕ) → k ≤ 10 → base * 2 ^ k ≤ base * 1024
scaled_bound base k h = grind (arith, power_bound k h)

less64_small : (a b : ℕ) → a < half64 → b < half64 → less64 a b ≡ ltb a b
less64_small a b ha hb = ground arith

cap :
    (base longest k : ℕ)
    → IsSane base longest
    → k ≤ 10
    → (if less64 longest ((base * 2 ^ k) % word64) then longest else (base * 2 ^ k) % word64)
      ≡ min longest (base * 2 ^ k)
cap base longest k s h = ground (arith, scaled_bound base k h)

-- For sane settings and from the first retry on, the delay that `GetRetryDelay` hands to `jitter`
-- is the base doubled for each further retry, ten times at most, and never longer than the maximum:
-- no multiplication overflows.
pub backoff_lem :
    (base longest n : ℕ)
    → IsSane base longest
    → 0 < n
    → n < 2 ^ 31
    → backoff base longest n ≡ min longest (base * 2 ^ min (n - 1) 10)
unfolding backoff
backoff_lem base longest n s h k =
    ground (arith, cap base longest 10 s (omega arith), cap base longest (n - 1) s)

backoff_of_nonpositive :
    (base longest n : ℕ) → at_most_zero n ≡ true → backoff base longest n ≡ base
unfolding backoff
backoff_of_nonpositive base longest n h = rw h

power_pos : (k : ℕ) → 1 ≤ 2 ^ k
power_pos k = pow-le-pow_right {n = 2} (omega arith) {i = 0} {j = k} (omega arith)

scaled-ge : (base k : ℕ) → base ≤ base * 2 ^ k
scaled-ge base k = grind (arith, power_pos k)

-- For sane settings, the delay that `GetRetryDelay` hands to `jitter` is at least the base and at
-- most the maximum, whatever the count, a count that wrapped to a negative number included.
pub backoff_bounds :
    (base longest n : ℕ)
    → IsSane base longest
    → (base ≤ backoff base longest n) × (backoff base longest n ≤ longest)
backoff_bounds base longest n s = elim (Bool-cases (at_most_zero n)) [
  | inl stays ↦ omega (arith, backoff_of_nonpositive base longest n stays)
  | inr grows ↦ ground (
    arith,
    backoff_lem base longest n s (ground arith) (ground arith),
    scaled-ge base (min (n - 1) 10),
  )
]
