-- ===== src/Script/Tickets.antt =====
-- Every call of `runPolicyScript` is answered once: nothing is dropped, and nothing answered twice.
use browshare.Prelude.{
  ℕ, ◌+◌, ◌≡◌, refl, sym, ◌≢◌, Bool, true, false, Option, none, some, List, [], ◌∷◌, ◌++◌, map,
  arith, ◌==◌, if◌then◌else◌, tally, Bool-cases, inl, inr,
}
use mathlib.Core.Path.{subst}
use browshare.Script.{
  Runtime, Pending, ScriptJob, ScriptResult, ScriptFailure, failure, init, stop, dispatch,
  run_policy_script, on_ready, on_result, on_failure, on_watchdog, on_idle, on_terminated, close,
  reject_all, settle, Event, runs, readied, answered, failed, watchdog_fired, idle_fired,
  terminated, closed, step, run, remove_at, script_error, script_timeout, script_busy,
}
use browshare.Script.Invariant.{Inv, on_terminated-Inv}

abbrev pub tickets : List Pending → List ℕ
tickets ps = map (λ p. p.ticket) ps

abbrev pub answers : Runtime → List ℕ
answers s = map (λ r. r.0) s.resolved

-- How often the promise `t` is waiting in the queue or with the interpreter.
abbrev pub held : ℕ → Option Pending → ℕ
held t none = 0
held t (some p) = if p.ticket == t then 1 else 0

abbrev pub waiting : ℕ → Runtime → ℕ
waiting t s = tally t (tickets s.queue) + held t s.current

abbrev pub accounted : ℕ → Runtime → ℕ
accounted t s = waiting t s + tally t (answers s)

tally-map-append :
    (t : ℕ) (xs ys : List (ℕ × ScriptResult))
    → tally t (map (λ r. r.0) (xs ++ ys))
      ≡ tally t (map (λ r. r.0) xs) + tally t (map (λ r. r.0) ys)
tally-map-append t [] ys = omega arith
tally-map-append t (x ∷ xs) ys = omega (arith, tally-map-append t xs ys)

tally-tickets-append :
    (t : ℕ) (xs ys : List Pending)
    → tally t (tickets (xs ++ ys)) ≡ tally t (tickets xs) + tally t (tickets ys)
tally-tickets-append t [] ys = omega arith
tally-tickets-append t (x ∷ xs) ys = omega (arith, tally-tickets-append t xs ys)

tally-reject_all :
    (t : ℕ) (r : ScriptFailure) (ps : List Pending)
    → tally t (map (λ r. r.0) (reject_all r ps)) ≡ tally t (tickets ps)
tally-reject_all t r [] = refl
tally-reject_all t r (p ∷ ps) = omega (arith, tally-reject_all t r ps)

tally-settle :
    (t : ℕ) (p : Option Pending) (r : ScriptResult)
    → tally t (map (λ r. r.0) (settle p r)) ≡ held t p
tally-settle t none r = refl
tally-settle t (some p) r = omega arith

dispatch-accounted : (t : ℕ) (s : Runtime) → accounted t (dispatch s) ≡ accounted t s
unfolding dispatch
dispatch-accounted t s = ground arith

stop-accounted : (t : ℕ) (r : ScriptFailure) (s : Runtime) → accounted t (stop r s) ≡ accounted t s
unfolding stop
stop-accounted t r s =
    let cur = settle s.current (failure r) in
    let rest = reject_all r s.queue in
    omega (
      arith,
      tally-map-append t s.resolved (cur ++ rest),
      tally-map-append t cur rest,
      tally-reject_all t r s.queue,
      tally-settle t s.current (failure r),
    )

abbrev pub asked : ℕ → Event → ℕ
asked t (runs t' job) = if t' == t then 1 else 0
asked t _ = 0

run_policy_script-accounted :
    (t t' : ℕ) (j : ScriptJob) (s : Runtime)
    → accounted t (run_policy_script t' j s) ≡ accounted t s + asked t (runs t' j)
unfolding run_policy_script
run_policy_script-accounted t t' j s =
    let p : Pending = record { ticket = t'; job = j } in
    ground (
      arith,
      dispatch-accounted t (record s { queue = s.queue ++ p ∷ [] }),
      tally-tickets-append t s.queue (p ∷ []),
      tally-map-append t s.resolved ((t', failure script_busy) ∷ []),
    )

on_ready-accounted : (t w : ℕ) (s : Runtime) → accounted t (on_ready w s) ≡ accounted t s
unfolding on_ready
on_ready-accounted t w s =
    ground (arith, dispatch-accounted t (record s { watchdog = none; ready = true }))

on_result-accounted :
    (t w : ℕ) (r : ScriptResult) (s : Runtime) → accounted t (on_result w r s) ≡ accounted t s
unfolding on_result
on_result-accounted t w r s =
    let log = s.resolved ++ settle s.current r in
    ground (
      arith,
      dispatch-accounted t (record s { watchdog = none; current = none; resolved = log }),
      tally-map-append t s.resolved (settle s.current r),
      tally-settle t s.current r,
    )

on_failure-accounted : (t w : ℕ) (s : Runtime) → accounted t (on_failure w s) ≡ accounted t s
unfolding on_failure
on_failure-accounted t w s = ground (arith, stop-accounted t script_error s)

on_watchdog-accounted : (t : ℕ) (s : Runtime) → accounted t (on_watchdog s) ≡ accounted t s
unfolding on_watchdog
on_watchdog-accounted t s =
    ground (arith, stop-accounted t script_timeout (record s { watchdog = none }))

on_idle-accounted : (t : ℕ) (s : Runtime) → accounted t (on_idle s) ≡ accounted t s
unfolding on_idle
on_idle-accounted t s = ground (arith, stop-accounted t script_error (record s { idle = false }))

on_terminated-accounted : (t k : ℕ) (s : Runtime) → accounted t (on_terminated k s) ≡ accounted t s
unfolding on_terminated
on_terminated-accounted t k s = ground (
  arith,
  dispatch-accounted t
      (record s { terminations = remove_at k s.terminations; terminating = false }),
)

close-accounted : (t : ℕ) (s : Runtime) → accounted t (close s) ≡ accounted t s
unfolding close
close-accounted t s =
    let rest = reject_all script_error s.queue in
    let cur = settle s.current (failure script_error) in
    omega (
      arith,
      tally-map-append t s.resolved (rest ++ cur),
      tally-map-append t rest cur,
      tally-reject_all t script_error s.queue,
      tally-settle t s.current (failure script_error),
    )

step-accounted :
    (t : ℕ) (e : Event) (s : Runtime) → accounted t (step e s) ≡ accounted t s + asked t e
unfolding step
step-accounted t (runs t' j) s = run_policy_script-accounted t t' j s
step-accounted t (readied w) s = omega (arith, on_ready-accounted t w s)
step-accounted t (answered w r) s = omega (arith, on_result-accounted t w r s)
step-accounted t (failed w) s = omega (arith, on_failure-accounted t w s)
step-accounted t watchdog_fired s = omega (arith, on_watchdog-accounted t s)
step-accounted t idle_fired s = omega (arith, on_idle-accounted t s)
step-accounted t (terminated k) s = omega (arith, on_terminated-accounted t k s)
step-accounted t closed s = omega (arith, close-accounted t s)

abbrev pub asked_in : ℕ → List Event → ℕ
asked_in t [] = 0
asked_in t (e ∷ es) = asked t e + asked_in t es

run_from-accounted :
    (t : ℕ) (es : List Event) (s : Runtime) → accounted t (run es s) ≡ accounted t s + asked_in t es
unfolding run
run_from-accounted t [] s = omega arith
run_from-accounted t (e ∷ es) s =
    omega (arith, run_from-accounted t es (step e s), step-accounted t e s)

-- After any history, a promise has been resolved or still waits exactly as often as it was handed
-- out: no caller is forgotten, and none is answered twice.
pub run-accounted :
    (t : ℕ) (es : List Event)
    → waiting t (run es init) + tally t (answers (run es init)) ≡ asked_in t es
unfolding init
run-accounted t es = omega (arith, run_from-accounted t es init)

-- The timer and the end of `terminate()` that are due.
abbrev pub due_at : Bool → List Event
due_at true = terminated 0 ∷ watchdog_fired ∷ []
due_at false = watchdog_fired ∷ []

abbrev pub due : Runtime → List Event
due s = due_at s.terminating

abbrev IsEmpty : Runtime → Type 0
IsEmpty s = (s.queue ≡ []) × (s.current ≡ none)

on_terminated-running :
    (s : Runtime) → s.terminations ≢ [] → (on_terminated 0 s).terminating ≡ false
unfolding on_terminated dispatch
on_terminated-running s h = ground arith

-- The interpreter that the watchdog watches is the one that runs.
on_watchdog-empty_of :
    (s : Runtime) (o : Option ℕ)
    → s.worker ≡ o
    → Inv s
    → s.terminating ≡ false
    → ((on_watchdog s).queue ≡ []) × ((on_watchdog s).current ≡ none)
unfolding on_watchdog stop
on_watchdog-empty_of s none e v h = grind arith
on_watchdog-empty_of s (some w) e v h = ground (arith, v.starting w, v.unwatched, v.busy)

run-due-IsEmpty : (s : Runtime) → Inv s → IsEmpty (run (due s) s)
unfolding run step
run-due-IsEmpty s v = elim (Bool-cases s.terminating) [
  | inl stopping ↦
      let t = on_terminated 0 s in
      subst (λ b. IsEmpty (run (due_at b) s)) (sym stopping)
        (on_watchdog-empty_of t t.worker refl (on_terminated-Inv 0 s v)
          (on_terminated-running s (v.stopping stopping)))
  | inr running ↦
      subst (λ b. IsEmpty (run (due_at b) s)) (sym running)
        (on_watchdog-empty_of s s.worker refl v running)
]

asked_in-due : (t : ℕ) (b : Bool) → asked_in t (due_at b) ≡ 0
asked_in-due t true = refl
asked_in-due t false = refl

waiting_none :
    (t : ℕ) (ps : List Pending) (o : Option Pending)
    → ps ≡ []
    → o ≡ none
    → tally t (tickets ps) + held t o ≡ 0
waiting_none t ps o e f = ground (arith, e, f)

-- In a state that keeps the invariant of the interpreter's module, once the due timers have run, and
-- without a message of the interpreter, nobody waits in the queue or with the interpreter, and every
-- promise has been resolved as often as it waited before, besides the answers that it already had.
pub run-due-empty :
    (s : Runtime)
    → Inv s
    → ((run (due s) s).queue ≡ [])
      × ((run (due s) s).current ≡ none)
      × ((t : ℕ) → tally t (answers (run (due s) s)) ≡ waiting t s + tally t (answers s))
run-due-empty s v =
    let after = run (due s) s in
    let (idle, free) = run-due-IsEmpty s v in
    (
      idle,
      free,
      λ t. omega (
        arith,
        run_from-accounted t (due s) s,
        asked_in-due t s.terminating,
        waiting_none t after.queue after.current idle free,
      ),
    )
