-- ===== src/Tests/Manager.antt =====
-- An instance of the theorem on the start of the manager.
use yk_talos_management.Prelude.{some, none, ◌∷◌, true, false, ◌≡◌, ◌⊎◌}
use yk_talos_management.Effects.Error.{ok}
use yk_talos_management.Effects.Requests.{ManagerCall}
use yk_talos_management.Effects.Calls.{Call, did, failed, empty}
use yk_talos_management.Run.{Process, run}
use yk_talos_management.Run.Laws.{starts, is_error, prepared, run-starts}

abbrev process : Process
process = record { lookup_env = λ name. some "talos"; leader_elect = none; manager = λ _ _. ok tt }

run-starts_example :
    (((run process empty).1.calls
        ≡ did (Call.manager ManagerCall.start) ∷ prepared process empty.calls)
      × (is_error (run process empty).0 ≡ false))
    ⊎ (((run process empty).1.calls
          ≡ failed (Call.manager ManagerCall.start) ∷ prepared process empty.calls)
        × (is_error (run process empty).0 ≡ true))
    ⊎ ((starts (run process empty).1.calls ≡ starts empty.calls)
        × (is_error (run process empty).0 ≡ true))
run-starts_example = run-starts process empty
