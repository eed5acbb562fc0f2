-- ===== src/Talos/Client/Timeout.antt =====
-- `OperationTimeout` and `withTimeout` of internal/talos/client.go. A `time.Duration` is an int64
-- number of nanoseconds, kept as its two's complement word.
use yk_talos_management.Prelude.{
  ℕ, ◌*◌, ◌%◌, Bool, ◌&&◌, ◌!=◌, nat_eq, string_eq, if◌then◌else◌, Option, none, some, ltb,
}
use yk_talos_management.Effects.Environment.{Env}
use yk_talos_management.Retry.{word64, half64, second}

-- `n > 0` on an int64 word
abbrev pub positive : ℕ → Bool
positive n = n != 0 && ltb n half64

abbrev pub default_operation_timeout : ℕ
default_operation_timeout = 60 * second

-- The initial value of `OperationTimeout`.
unfoldable pub operation_timeout : Env → ℕ
operation_timeout env =
    if env.getenv "TALOS_OPERATION_TIMEOUT" != ""
    then elim (env.atoi (env.getenv "TALOS_OPERATION_TIMEOUT")) [
      | none ↦ default_operation_timeout
      | some n ↦ if positive n then (n * second) % word64 else default_operation_timeout
    ]
    else default_operation_timeout

-- `withTimeout`; `none` leaves the context as it is
unfoldable pub with_timeout : Env → Option ℕ
with_timeout env = if positive (operation_timeout env) then some (operation_timeout env) else none
