-- ===== src/Talos/Client/Bounds.antt =====
-- The timeout of the RPCs, for the values that the environment variable may have.
use yk_talos_management.Prelude.{ℕ, ◌≤◌, ◌<◌, ◌*◌, string_eq, nat_eq, some, ◌≡◌, ◌⊎◌, arith}
use yk_talos_management.Effects.Environment.{Env}
use yk_talos_management.Retry.{half64, second}
use yk_talos_management.Talos.Client.Timeout.{operation_timeout, with_timeout}

module _ (env : Env) where
  abbrev pub Fits : ℕ → Type 0
  Fits n = (n * second < half64) ⊎ (half64 ≤ n)

  operation_timeout_bounds :
      ((n : ℕ) → env.atoi (env.getenv "TALOS_OPERATION_TIMEOUT") ≡ some n → Fits n)
      → (second ≤ operation_timeout env) × (operation_timeout env < half64)
  unfolding operation_timeout
  operation_timeout_bounds fits = grind (arith, fits)

  -- If TALOS_OPERATION_TIMEOUT is no integer, or one that is not positive or whose number of
  -- nanoseconds fits an int64, `withTimeout` gives a timeout of one second at least and below 2 ^ 63
  -- nanoseconds.
  pub with_timeout_bounds :
      ((n : ℕ) → env.atoi (env.getenv "TALOS_OPERATION_TIMEOUT") ≡ some n → Fits n)
      → (d : ℕ) × (with_timeout env ≡ some d) × (second ≤ d) × (d < half64)
  unfolding with_timeout
  with_timeout_bounds fits =
      let (least, most) = operation_timeout_bounds fits in
      (operation_timeout env, ground (arith, least, most), least, most)
