-- ===== src/Retry.antt =====
-- internal/config/config.go: the delay before a retry. A `time.Duration` is an int64 number of
-- nanoseconds, kept as its two's complement word, and so is the int32 count of retries.
pub mod Laws
use yk_talos_management.Prelude.{
  ℕ, String, ◌+◌, ◌-◌, ◌*◌, ◌%◌, ◌^◌, Bool, true, false, ◌||◌, ◌==◌, ◌!=◌, nat_eq, string_eq,
  if◌then◌else◌, Option, none, some, ltb, leb,
}
use yk_talos_management.Effects.Environment.{Env}
use yk_talos_management.Effects.Calls.{Trace}

abbrev pub word64 : ℕ
word64 = 2 ^ 64

abbrev pub half64 : ℕ
half64 = 2 ^ 63

-- The order of int64 words: negative ones, from 2 ^ 63 up, come first.
abbrev pub less64 : ℕ → ℕ → Bool
less64 a b = ltb ((a + half64) % word64) ((b + half64) % word64)

-- `x <= 0` on an int32 word
abbrev pub at_most_zero : ℕ → Bool
at_most_zero n = n == 0 || leb (2 ^ 31) n

-- `RetryCount++`
abbrev pub increment : ℕ → ℕ
increment n = (n + 1) % 2 ^ 32

abbrev pub second : ℕ
second = 1000000000

abbrev pub minute : ℕ
minute = 60 * second

abbrev pub max_exponent_shift : ℕ
max_exponent_shift = 10

-- `getDurationEnv`: the value of the variable if it is set to an integer, else the default
unfoldable pub get_duration_env : Env → String → ℕ → ℕ → ℕ
get_duration_env env key default unit =
    if env.getenv key != ""
    then elim (env.atoi (env.getenv key)) [
      | none ↦ (default * unit) % word64
      | some parsed ↦ (parsed * unit) % word64
    ]
    else (default * unit) % word64

unfoldable pub retry_base_delay : Env → ℕ
unfolding get_duration_env
retry_base_delay env = get_duration_env env "RETRY_BASE_DELAY" 5 second

unfoldable pub retry_max_delay : Env → ℕ
unfolding get_duration_env
retry_max_delay env = get_duration_env env "RETRY_MAX_DELAY" 300 second

-- The delay that `GetRetryDelay` hands to `jitter`, for a base and a maximum.
unfoldable pub backoff : ℕ → ℕ → ℕ → ℕ
backoff base longest retry_count =
    if at_most_zero retry_count
    then base
    else let shift =
        if ltb max_exponent_shift (retry_count - 1) then max_exponent_shift else retry_count - 1 in
      let delay = (base * 2 ^ shift) % word64 in if less64 longest delay then longest else delay

unfoldable pub get_retry_delay : Env → ℕ → Trace → ℕ
get_retry_delay env retry_count t =
    env.jitter (backoff (retry_base_delay env) (retry_max_delay env) retry_count) t
