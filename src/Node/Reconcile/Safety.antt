-- ===== src/Node/Reconcile/Safety.antt =====
-- What holds of the history of calls of any sequence of reconciles of nodes.
use yk_talos_management.Prelude.{
  ℕ, suc, ◌+◌, ◌≤◌, String, List, [], ◌∷◌, true, false, none, inl, ◌≡◌, refl, arith,
}
use yk_talos_management.Effects.Objects.{Connection}
use yk_talos_management.Effects.Calls.{Call, Entry, did, failed, Trace, empty}
use yk_talos_management.Effects.Environment.{Env}
use yk_talos_management.Safety.{IsSafe, IsAsked, IsRecorded, is_reset, graceful_ip}
use yk_talos_management.History.{Invariant, Records, is_guarded, is_change}
use yk_talos_management.Node.Reconcile.{reconcile}
use yk_talos_management.Node.Reconcile.Order.{run, reconcile-Keeps}

module _ (env : Env) where
  guarded_asks_nothing : (c : Call) (r : List Entry) → is_guarded c ≡ true → IsAsked env c r
  guarded_asks_nothing c r g ip h = ground arith

  change_asks_nothing : (c : Call) (r : List Entry) → is_change c ≡ true → IsAsked env c r
  change_asks_nothing c r g ip h = ground arith

  unasked : (c : Call) (r : List Entry) → graceful_ip c ≡ none → IsAsked env c r
  unasked c r n ip h = absurd (cc (n, h))

  kept_did :
      (ip : String) (c : Call) (r : List Entry)
      → is_reset c ≡ false
      → IsRecorded env ip r
      → IsRecorded env ip (did c ∷ r)
  kept_did ip c r n h = ground arith

  kept_failed :
      (ip : String) (c : Call) (r : List Entry)
      → is_reset c ≡ false
      → IsRecorded env ip r
      → IsRecorded env ip (failed c ∷ r)
  kept_failed ip c r n h = ground arith

  reset-IsAsked :
      (conn : Connection) (ip : String) (r : List Entry)
      → IsRecorded env ip r
      → IsAsked env (Call.reset conn ip true) r
  reset-IsAsked conn ip r h to e = ground arith

  -- Every guarded call had what it needs before it.
  abbrev safe : Invariant
  safe = record {
    holds = λ n k r. IsSafe env r;
    more = λ n k r h. h;
    done = λ n k c r g p h. (p, guarded_asks_nothing c r g, h);
    undone = λ n k c r g p h. (p, guarded_asks_nothing c r g, h);
    changed = λ n k c r g p h. (p, change_asks_nothing c r g, h);
    unchanged = λ n k c r g p h. (p, change_asks_nothing c r g, h);
    recorded = IsRecorded env;
    recorded_did = kept_did;
    recorded_failed = kept_failed;
    reset = λ n k conn ip r a h. (refl, reset-IsAsked conn ip r a, h);
    unreset = λ n k conn ip r a h. (refl, reset-IsAsked conn ip r a, h);
    dialed = λ n k e r h. (refl, unasked (Call.dial e) r refl, h);
    undialed = λ n k e r h. (refl, unasked (Call.dial e) r refl, h);
    dialed_insecure = λ n k e r h. (refl, unasked (Call.dial_insecure e) r refl, h);
    undialed_insecure = λ n k e r h. (refl, unasked (Call.dial_insecure e) r refl, h);
    closed = λ n k c r h. (refl, unasked (Call.close c) r refl, h);
  }

  safe-Records : Records safe env
  safe-Records n patched t answered asked recorded = inl (record {
    time = t;
    patched = patched;
    after = refl;
    answered = answered;
    same_ip = refl;
    asked = asked;
    recorded = recorded;
  })

-- The connections that were opened, and those that were closed.
abbrev pub opened : List Entry → ℕ
opened [] = 0
opened (did (Call.dial e) ∷ r) = suc (opened r)
opened (did (Call.dial_insecure e) ∷ r) = suc (opened r)
opened (_ ∷ r) = opened r

abbrev pub closed : List Entry → ℕ
closed [] = 0
closed (did (Call.close c) ∷ r) = suc (closed r)
closed (_ ∷ r) = closed r

-- The calls that change the system of a machine, those that failed included.
abbrev pub changes : List Entry → ℕ
changes [] = 0
changes (did (Call.upgrade conn ip image) ∷ r) = suc (changes r)
changes (failed (Call.upgrade conn ip image) ∷ r) = suc (changes r)
changes (did (Call.reset conn ip graceful) ∷ r) = suc (changes r)
changes (failed (Call.reset conn ip graceful) ∷ r) = suc (changes r)
changes (did (Call.apply_config conn ip x cluster) ∷ r) = suc (changes r)
changes (failed (Call.apply_config conn ip x cluster) ∷ r) = suc (changes r)
changes (_ ∷ r) = changes r

-- A call that is only guarded is neither a dial nor a close nor a change.
guarded_balance :
    (c : Call) (r : List Entry)
    → is_guarded c ≡ true
    → (opened (did c ∷ r) ≡ opened r) × (closed (did c ∷ r) ≡ closed r)
guarded_balance c r g = ground arith

change_balance :
    (c : Call) (r : List Entry)
    → is_change c ≡ true
    → (opened (did c ∷ r) ≡ opened r) × (closed (did c ∷ r) ≡ closed r)
change_balance c r g = ground arith

failed_balance :
    (c : Call) (r : List Entry)
    → (opened (failed c ∷ r) ≡ opened r) × (closed (failed c ∷ r) ≡ closed r)
failed_balance c r = ground arith

balanced : Invariant
balanced = record {
  holds = λ n k r. opened r ≡ closed r + n;
  more = λ n k r h. h;
  done = λ n k c r g p h. omega (arith, guarded_balance c r g, h);
  undone = λ n k c r g p h. omega (arith, failed_balance c r, h);
  changed = λ n k c r g p h. omega (arith, change_balance c r g, h);
  unchanged = λ n k c r g p h. omega (arith, failed_balance c r, h);
  recorded = λ ip r. Unit;
  recorded_did = λ ip c r n h. tt;
  recorded_failed = λ ip c r n h. tt;
  reset = λ n k conn ip r a h. h;
  unreset = λ n k conn ip r a h. h;
  dialed = λ n k e r h. omega (arith, h);
  undialed = λ n k e r h. h;
  dialed_insecure = λ n k e r h. omega (arith, h);
  undialed_insecure = λ n k e r h. h;
  closed = λ n k c r h. omega (arith, h);
}

guarded_changes :
    (c : Call) (r : List Entry)
    → is_guarded c ≡ true
    → (changes (did c ∷ r) ≡ changes r) × (changes (failed c ∷ r) ≡ changes r)
guarded_changes c r g = ground arith

change_changes :
    (c : Call) (r : List Entry)
    → is_change c ≡ true
    → (changes (did c ∷ r) ≡ suc (changes r)) × (changes (failed c ∷ r) ≡ suc (changes r))
change_changes c r g = ground arith

few_changes : Invariant
few_changes = record {
  holds = λ n k r. changes r ≤ k;
  more = λ n k r h. omega (arith, h);
  done = λ n k c r g p h. omega (arith, guarded_changes c r g, h);
  undone = λ n k c r g p h. omega (arith, guarded_changes c r g, h);
  changed = λ n k c r g p h. omega (arith, change_changes c r g, h);
  unchanged = λ n k c r g p h. omega (arith, change_changes c r g, h);
  recorded = λ ip r. Unit;
  recorded_did = λ ip c r n h. tt;
  recorded_failed = λ ip c r n h. tt;
  reset = λ n k conn ip r a h. omega (arith, h);
  unreset = λ n k conn ip r a h. omega (arith, h);
  dialed = λ n k e r h. h;
  undialed = λ n k e r h. h;
  dialed_insecure = λ n k e r h. h;
  undialed_insecure = λ n k e r h. h;
  closed = λ n k c r h. h;
}

module _ (env : Env) where
  run-IsSafe_from :
      (requests : List (String × String)) (t : Trace)
      → IsSafe env t.calls
      → IsSafe env (run env requests t).calls
  unfolding run
  run-IsSafe_from [] t h = h
  run-IsSafe_from ((namespace, name) ∷ requests) t h =
      run-IsSafe_from requests _
        (reconcile-Keeps (safe env) env (safe-Records env) 0 0 namespace name t h)

  -- In the history of any sequence of reconciles of any nodes, whatever the environment answers,
  -- every upgrade RPC stands right after a successful status write of phase Upgrading; every
  -- graceful reset stands after a successful patch, since the last reset, that recorded a request,
  -- not an empty one, in `last-reset`, and that the API server answered with a node of the IP that
  -- is reset; only evictable pods that are not terminating are evicted; no node is asked to remove
  -- itself from etcd by force; and no cluster is written without endpoints.
  pub run-IsSafe : (requests : List (String × String)) → IsSafe env (run env requests empty).calls
  run-IsSafe requests = run-IsSafe_from requests empty tt

  run-balanced_from :
      (requests : List (String × String)) (t : Trace)
      → opened t.calls ≡ closed t.calls + 0
      → opened (run env requests t).calls ≡ closed (run env requests t).calls + 0
  unfolding run balanced
  run-balanced_from [] t h = h
  run-balanced_from ((namespace, name) ∷ requests) t h =
      run-balanced_from requests _
        (reconcile-Keeps balanced env (λ n p t a q r. tt) 0 0 namespace name t h)

  -- After any sequence of reconciles of any nodes, whatever the environment answers, exactly as many
  -- connections to machines were closed as were opened.
  pub run-opened :
      (requests : List (String × String))
      → opened (run env requests empty).calls ≡ closed (run env requests empty).calls
  run-opened requests = omega (arith, run-balanced_from requests empty refl)

  -- A reconcile of a node, whatever the environment answers, sends at most one RPC that changes the
  -- system of a machine: an upgrade, a reset or a config, failed ones included.
  pub reconcile-changes :
      (namespace name : String) (t : Trace)
      → changes (reconcile env namespace name t).1.calls ≤ suc (changes t.calls)
  unfolding few_changes
  reconcile-changes namespace name t =
      reconcile-Keeps few_changes env (λ n p t a q r. tt) 0 (changes t.calls) namespace name t
        (omega arith)
