-- ===== src/Script/Examples.antt =====
-- A run of the interpreter's module, and the theorems at it.
use browshare.Prelude.{ℕ, ◌+◌, ◌≡◌, refl, List, [], ◌∷◌, none, some, false, arith, tally}
use browshare.Script.{
  ScriptJob, value, failure, init, run, step, dispatch, stop, run_policy_script, on_ready,
  on_result, on_failure, on_watchdog, on_idle, on_terminated, close, Event, runs, readied, answered,
  watchdog_fired, terminated, script_timeout,
}
use browshare.Script.Invariant.{Inv, init-Inv, step-Inv, run-Inv}
use browshare.Script.Tickets.{asked_in, waiting, answers, due, run-accounted, run-due-empty}

machine : Unit {0}
unfolding run step dispatch stop run_policy_script on_ready on_result on_failure on_watchdog on_idle
    on_terminated close init
machine = tt

abbrev job : ScriptJob
job = record { source = "return null"; input = "{}"; validate_only = false }

-- The second job outlives its limit; the third waits for the next interpreter.
abbrev history : List Event
history =
    runs 1 job
    ∷ runs 2 job
    ∷ readied 0
    ∷ answered 0 (value "null")
    ∷ watchdog_fired
    ∷ runs 3 job
    ∷ terminated 0
    ∷ []

history_runs :
    ((run history init).resolved ≡ (1, value "null") ∷ (2, failure script_timeout) ∷ [])
    × ((run history init).worker ≡ some 1)
    × ((run history init).ready ≡ false)
unfolding machine
history_runs = (refl, refl, refl)

step-Inv_example : Inv (step (readied 0) (step (runs 1 job) init))
unfolding machine
step-Inv_example =
    step-Inv (readied 0) (step (runs 1 job) init) (step-Inv (runs 1 job) init init-Inv tt)
      (λ e. refl)

run-Inv_example : Inv (run history init)
unfolding machine
run-Inv_example =
    run-Inv history (tt, (tt, ((λ e. refl), ((λ e. ground arith), (tt, (tt, (tt, tt)))))))

run-accounted_example :
    waiting 2 (run history init) + tally 2 (answers (run history init)) ≡ asked_in 2 history
run-accounted_example = run-accounted 2 history

run-due-empty_example :
    ((run (due (run history init)) (run history init)).queue ≡ [])
    × ((run (due (run history init)) (run history init)).current ≡ none)
    × ((t : ℕ)
        → tally t (answers (run (due (run history init)) (run history init)))
          ≡ waiting t (run history init) + tally t (answers (run history init)))
run-due-empty_example = run-due-empty (run history init) run-Inv_example
