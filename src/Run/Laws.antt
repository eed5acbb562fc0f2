-- ===== src/Run/Laws.antt =====
-- When `Run` starts the manager.
use yk_talos_management.Prelude.{ℕ, suc, List, [], ◌∷◌, Bool, true, false, ◌≡◌, ◌⊎◌, arith}
use yk_talos_management.Effects.Error.{Answer, ok, err}
use yk_talos_management.Effects.Requests.{ManagerCall}
use yk_talos_management.Effects.Calls.{Call, Entry, did, failed, Trace}
use yk_talos_management.Run.{
  Process, run, setup_controllers, manager_options, cluster_setup, node_setup, bootstrap_setup,
}

-- The starts of a manager, whether it ran to a good end or not.
abbrev pub starts : List Entry → ℕ
starts [] = 0
starts (did (Call.manager ManagerCall.start) ∷ r) = suc (starts r)
starts (failed (Call.manager ManagerCall.start) ∷ r) = suc (starts r)
starts (_ ∷ r) = starts r

abbrev pub is_error : Answer (Unit {0}) → Bool
is_error (ok _) = false
is_error (err e) = true

module _ (process : Process) where
  -- All that is done before the start, the newest first.
  abbrev pub prepared : List Entry → List Entry
  prepared before =
      did (Call.manager (ManagerCall.add_readyz_check "readyz"))
      ∷ did (Call.manager (ManagerCall.add_healthz_check "healthz"))
      ∷ did (Call.manager (ManagerCall.set_up bootstrap_setup))
      ∷ did (Call.manager (ManagerCall.set_up node_setup))
      ∷ did (Call.manager (ManagerCall.set_up cluster_setup))
      ∷ did (Call.manager (ManagerCall.new_manager (manager_options process)))
      ∷ before

  -- `Run` starts the manager at most once, and only after the manager was created, the three
  -- controllers were set up and both checks were added, all with success. It returns an error
  -- whenever it does not start the manager and whenever the manager exits with one.
  pub run-starts :
      (t : Trace)
      → (((run process t).1.calls ≡ did (Call.manager ManagerCall.start) ∷ prepared t.calls)
          × (is_error (run process t).0 ≡ false))
        ⊎ (((run process t).1.calls ≡ failed (Call.manager ManagerCall.start) ∷ prepared t.calls)
            × (is_error (run process t).0 ≡ true))
        ⊎ ((starts (run process t).1.calls ≡ starts t.calls) × (is_error (run process t).0 ≡ true))
  unfolding run setup_controllers
  run-starts t = grind arith
