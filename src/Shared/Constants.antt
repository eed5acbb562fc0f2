-- ===== src/Shared/Constants.antt =====
-- internal/controller/constants.go, in nanoseconds.
use yk_talos_management.Prelude.{ℕ, ◌*◌}
use yk_talos_management.Retry.{second, minute}
use yk_talos_management.Effects.Objects.{Result}

abbrev pub etcd_leave_max_attempts : ℕ
etcd_leave_max_attempts = 3

abbrev pub etcd_leave_retry_delay : ℕ
etcd_leave_retry_delay = 90 * second

abbrev pub drift_check_interval : ℕ
drift_check_interval = 5 * minute

abbrev pub default_drain_timeout : ℕ
default_drain_timeout = 5 * minute

abbrev pub drain_requeue_delay : ℕ
drain_requeue_delay = 30 * second

abbrev pub drain_poll_interval : ℕ
drain_poll_interval = 5 * second

abbrev pub node_ready_delay : ℕ
node_ready_delay = 10 * second

abbrev pub api_server_check_delay : ℕ
api_server_check_delay = 15 * second

abbrev pub deletion_guard_requeue_delay : ℕ
deletion_guard_requeue_delay = 30 * second

abbrev pub upgrade_check_interval : ℕ
upgrade_check_interval = 30 * second

-- `ctrl.Result{}` and `ctrl.Result{RequeueAfter: delay}`
abbrev pub finished : Result
finished = record { requeue_after = 0 }

abbrev pub requeue : ℕ → Result
requeue delay = record { requeue_after = delay }
