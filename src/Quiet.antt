-- ===== src/Quiet.antt =====
-- The calls that do more than read from the API server.
use yk_talos_management.Prelude.{ℕ, suc, List, [], ◌∷◌, Bool, true, false, if◌then◌else◌}
use yk_talos_management.Effects.Calls.{Call, Entry, did, failed}

abbrev pub is_read : Call → Bool
is_read (Call.get_node namespace name) = true
is_read (Call.get_cluster namespace name) = true
is_read (Call.get_bootstrap namespace name) = true
is_read (Call.get_secret namespace name) = true
is_read (Call.list_nodes namespace) = true
is_read (Call.list_bootstraps namespace) = true
is_read _ = false

-- The number of the other calls, done or failed.
abbrev pub actions : List Entry → ℕ
actions [] = 0
actions (did c ∷ rest) = if is_read c then actions rest else suc (actions rest)
actions (failed c ∷ rest) = if is_read c then actions rest else suc (actions rest)
