-- ===== src/Script/Invariant.antt =====
-- What holds of the interpreter's module between two events.
use browshare.Prelude.{
  ℕ, ◌≤◌, ◌<◌, ◌≡◌, ◌≢◌, inl, inr, true, false, Option, none, some, List, [], ◌∷◌, ◌++◌, arith,
  length, length-append, Bool-cases, leb, ltb,
}
use browshare.Script.{
  Runtime, Pending, ScriptJob, ScriptResult, ScriptFailure, startup, job_limit, init, stop,
  dispatch, run_policy_script, on_ready, on_result, on_failure, on_watchdog, on_idle, on_terminated,
  close, max_queue, Event, runs, readied, answered, failed, watchdog_fired, idle_fired, terminated,
  closed, step, run, is_worker,
}

pub record Inv (s : Runtime) : Type 0 where
  pub bounded : length s.queue ≤ max_queue
  pub busy : s.current ≢ none → (s.ready ≡ true) × (s.watchdog ≡ some job_limit)
  pub ready_alive : s.ready ≡ true → s.worker ≢ none
  pub starting : (w : ℕ) → s.worker ≡ some w → s.ready ≡ false → s.watchdog ≡ some (startup w)
  pub stopped : s.terminating ≡ true → s.worker ≡ none
  pub stopping : s.terminating ≡ true → s.terminations ≢ []
  pub unwatched : s.ready ≡ true → s.current ≡ none → (s.watchdog ≡ none) × (s.queue ≡ [])
  pub idle_queue : s.worker ≡ none → s.terminating ≡ false → s.queue ≡ []

pub init-Inv : Inv init
unfolding init
init-Inv = ground arith

-- What `dispatch` needs: the invariant without what it restores.
record Loose (s : Runtime) : Type 0 where
  bounded : length s.queue ≤ max_queue
  busy : s.current ≢ none → (s.ready ≡ true) × (s.watchdog ≡ some job_limit)
  ready_alive : s.ready ≡ true → s.worker ≢ none
  starting : (w : ℕ) → s.worker ≡ some w → s.ready ≡ false → s.watchdog ≡ some (startup w)
  stopped : s.terminating ≡ true → s.worker ≡ none
  stopping : s.terminating ≡ true → s.terminations ≢ []
  unwatched : s.ready ≡ true → s.current ≡ none → s.watchdog ≡ none

dispatch-Inv : (s : Runtime) → Loose s → Inv (dispatch s)
unfolding dispatch
dispatch-Inv s v = grind arith

stop-Inv : (r : ScriptFailure) (s : Runtime) → Inv (stop r s)
unfolding stop
stop-Inv r s = grind arith

submit-Loose :
    (p : Pending) (s : Runtime)
    → Inv s
    → length s.queue < max_queue
    → Loose (record s { queue = s.queue ++ p ∷ [] })
submit-Loose p s v h = grind (arith, length-append s.queue (p ∷ []))

run_policy_script-Inv :
    (t : ℕ) (j : ScriptJob) (s : Runtime) → Inv s → Inv (run_policy_script t j s)
unfolding run_policy_script
run_policy_script-Inv t j s v = elim (Bool-cases (leb max_queue (length s.queue))) [
  | inl full ↦ rw full (grind arith)
  | inr room ↦ rw room (dispatch-Inv _ (submit-Loose _ s v (ground arith)))
]

-- An interpreter announces itself once, and then answers the job that it was given.
abbrev pub IsAllowed : Runtime → Event → Type 0
IsAllowed s (readied w) = s.worker ≡ some w → s.ready ≡ false
IsAllowed s (answered w result) = s.worker ≡ some w → s.current ≢ none
IsAllowed s _ = Unit {0}

is_worker_eq : (v : Option ℕ) (w : ℕ) → is_worker v w ≡ true → v ≡ some w
is_worker_eq none w h = cc
is_worker_eq (some v) w h = ground arith

on_ready-Loose :
    (w : ℕ) (s : Runtime)
    → Inv s
    → s.worker ≡ some w
    → s.ready ≡ false
    → Loose (record s { watchdog = none; ready = true })
on_ready-Loose w s v h fresh = grind arith

on_ready-Inv : (w : ℕ) (s : Runtime) → Inv s → IsAllowed s (readied w) → Inv (on_ready w s)
unfolding on_ready
on_ready-Inv w s v a = elim (Bool-cases (is_worker s.worker w)) [
  | inl same ↦
      let e = is_worker_eq s.worker w same in
      rw same (dispatch-Inv _ (on_ready-Loose w s v e (a e)))
  | inr other ↦ rw other v
]

on_result-Loose :
    (w : ℕ) (s : Runtime) (log : List (ℕ × ScriptResult))
    → Inv s
    → s.worker ≡ some w
    → s.current ≢ none
    → Loose (record s { watchdog = none; current = none; resolved = log })
on_result-Loose w s log v h busy = grind arith

on_result-Inv :
    (w : ℕ) (r : ScriptResult) (s : Runtime)
    → Inv s
    → IsAllowed s (answered w r)
    → Inv (on_result w r s)
unfolding on_result
on_result-Inv w r s v a = elim (Bool-cases (is_worker s.worker w)) [
  | inl same ↦
      let e = is_worker_eq s.worker w same in
      rw same (dispatch-Inv _ (on_result-Loose w s _ v e (a e)))
  | inr other ↦ rw other v
]

on_failure-Inv : (w : ℕ) (s : Runtime) → Inv s → Inv (on_failure w s)
unfolding on_failure
on_failure-Inv w s v = grind (arith, stop-Inv)

on_watchdog-Inv : (s : Runtime) → Inv s → Inv (on_watchdog s)
unfolding on_watchdog
on_watchdog-Inv s v = grind (arith, stop-Inv)

on_idle-Inv : (s : Runtime) → Inv s → Inv (on_idle s)
unfolding on_idle
on_idle-Inv s v = grind (arith, stop-Inv)

on_terminated-Loose :
    (ts : List (Option ℕ)) (s : Runtime)
    → Inv s
    → Loose (record s { terminations = ts; terminating = false })
on_terminated-Loose ts s v = grind arith

pub on_terminated-Inv : (k : ℕ) (s : Runtime) → Inv s → Inv (on_terminated k s)
unfolding on_terminated
on_terminated-Inv k s v = elim (Bool-cases (ltb k (length s.terminations))) [
  | inl here ↦ rw here (dispatch-Inv _ (on_terminated-Loose _ s v))
  | inr past ↦ rw past v
]

close-Inv : (s : Runtime) → Inv s → Inv (close s)
unfolding close
close-Inv s v = grind arith

-- Every event that the interpreters' protocol allows keeps the invariant.
pub step-Inv : (e : Event) (s : Runtime) → Inv s → IsAllowed s e → Inv (step e s)
unfolding step
step-Inv (runs t j) s v a = run_policy_script-Inv t j s v
step-Inv (readied w) s v a = on_ready-Inv w s v a
step-Inv (answered w r) s v a = on_result-Inv w r s v a
step-Inv (failed w) s v a = on_failure-Inv w s v
step-Inv watchdog_fired s v a = on_watchdog-Inv s v
step-Inv idle_fired s v a = on_idle-Inv s v
step-Inv (terminated k) s v a = on_terminated-Inv k s v
step-Inv closed s v a = close-Inv s v

abbrev pub AreAllowed : Runtime → List Event → Type 0
AreAllowed s [] = Unit {0}
AreAllowed s (e ∷ es) = IsAllowed s e × AreAllowed (step e s) es

run_from-Inv : (es : List Event) (s : Runtime) → Inv s → AreAllowed s es → Inv (run es s)
unfolding run
run_from-Inv [] s v a = v
run_from-Inv (e ∷ es) s v a = run_from-Inv es (step e s) (step-Inv e s v a.0) a.1

-- After every history in which an interpreter says that it is ready at most once and answers only
-- while a job runs: at most 16 jobs wait; a running job has a ready interpreter and its time limit
-- set; an interpreter that starts has its start limit set; a ready one without a job leaves nothing
-- waiting; and jobs wait without an interpreter only while the last one is being stopped.
pub run-Inv : (es : List Event) → AreAllowed init es → Inv (run es init)
run-Inv es a = run_from-Inv es init init-Inv a
