-- ===== src/Script.antt =====
-- The shared interpreter of policy scripts: packages/navigation-policy/src/script-runtime.ts. The
-- module's variables are one record; a promise is a ticket, and `resolved` is the log of the calls of
-- `resolve`. Timers and worker callbacks are events that an environment delivers.
pub mod Tickets
pub mod Invariant
mod Examples
use browshare.Prelude.{
  ℕ, ◌+◌, ◌-◌, Bool, true, false, Option, none, some, List, [], ◌∷◌, ◌++◌, map, String, leb, ltb,
  zero, suc, ◌==◌, if◌then◌else◌, length, not, ◌&&◌, ◌||◌, is_some,
}

pub data ScriptFailure : Type 0 where
  script_error script_timeout script_busy script_invalid : ScriptFailure

pub data ScriptResult : Type 0 where
  value : String → ScriptResult
  failure : ScriptFailure → ScriptResult

pub record ScriptJob : Type 0 where
  pub source : String
  pub input : String
  pub validate_only : Bool

pub record Pending : Type 0 where
  pub ticket : ℕ
  pub job : ScriptJob

-- What the one watchdog timer was set for: the start of an interpreter, or a job's 250 ms.
pub data Watchdog : Type 0 where
  startup : ℕ → Watchdog
  job_limit : Watchdog

pub record Runtime : Type 0 where
  pub queue : List Pending
  pub worker : Option ℕ  -- the interpreter, by the number of its creation
  pub current : Option Pending
  pub ready : Bool
  pub terminating : Bool
  pub watchdog : Option Watchdog
  pub idle : Bool  -- the idle timer is set
  pub created : ℕ  -- interpreters created so far
  pub terminations : List (Option ℕ)  -- calls of `stop` whose `finally` has not run, oldest first
  pub resolved : List (ℕ × ScriptResult)

pub init : Runtime
init = record {
  queue = [];
  worker = none;
  current = none;
  ready = false;
  terminating = false;
  watchdog = none;
  idle = false;
  created = 0;
  terminations = [];
  resolved = [];
}

abbrev pub reject_all : ScriptFailure → List Pending → List (ℕ × ScriptResult)
reject_all reason ps = map (λ p. (p.ticket, failure reason)) ps

-- `current?.resolve(result)`
abbrev pub settle : Option Pending → ScriptResult → List (ℕ × ScriptResult)
settle none result = []
settle (some p) result = (p.ticket, result) ∷ []

pub stop : ScriptFailure → Runtime → Runtime
stop reason s = record s {
  worker = none;
  ready = false;
  watchdog = none;
  current = none;
  queue = [];
  terminating = true;
  terminations = s.terminations ++ s.worker ∷ [];
  resolved = s.resolved ++ (settle s.current (failure reason) ++ reject_all reason s.queue);
}

-- The end of `dispatch`: the next job goes to a ready interpreter.
abbrev pub post : List Pending → Runtime → Runtime
post [] s = s
post (p ∷ ps) s =
    if s.ready then record s { queue = ps; current = some p; watchdog = some job_limit } else s

abbrev pub ensure_worker : Runtime → Runtime
ensure_worker s = elim s.worker [
  | some w ↦ s
  | none ↦ record s {
    worker = some s.created;
    created = s.created + 1;
    watchdog = some (startup s.created);
  }
]

abbrev pub is_empty : List Pending → Bool
is_empty [] = true
is_empty (p ∷ ps) = false

pub dispatch : Runtime → Runtime
dispatch s =
    if is_some s.current || s.terminating
    then s
    else if is_empty s.queue
    then record s { idle = is_some s.worker }
    else post s.queue (ensure_worker (record s { idle = false }))

abbrev pub max_queue : ℕ
max_queue = 16

-- A full queue answers at once; `ticket` names the promise that the call returns.
pub run_policy_script : ℕ → ScriptJob → Runtime → Runtime
run_policy_script ticket job s =
    if leb max_queue (length s.queue)
    then record s { resolved = s.resolved ++ (ticket, failure script_busy) ∷ [] }
    else dispatch (record s { queue = s.queue ++ record { ticket = ticket; job = job } ∷ [] })

-- `worker === created`
abbrev pub is_worker : Option ℕ → ℕ → Bool
is_worker none w = false
is_worker (some v) w = v == w

pub on_ready : ℕ → Runtime → Runtime
on_ready w s =
    if is_worker s.worker w then dispatch (record s { watchdog = none; ready = true }) else s

pub on_result : ℕ → ScriptResult → Runtime → Runtime
on_result w result s =
    if is_worker s.worker w
    then dispatch (record s {
      watchdog = none;
      current = none;
      resolved = s.resolved ++ settle s.current result;
    })
    else s

-- The handlers of 'error' and 'exit'.
pub on_failure : ℕ → Runtime → Runtime
on_failure w s = if is_worker s.worker w then stop script_error s else s

pub on_watchdog : Runtime → Runtime
on_watchdog s = elim s.watchdog [
  | none ↦ s
  | some job_limit ↦ stop script_timeout (record s { watchdog = none })
  | some (startup w) ↦
      if is_worker s.worker w
      then stop script_timeout (record s { watchdog = none })
      else record s { watchdog = none }
]

pub on_idle : Runtime → Runtime
on_idle s = if s.idle then stop script_error (record s { idle = false }) else s

abbrev pub remove_at {ℓ} : {A : Type ℓ} → ℕ → List A → List A
remove_at k [] = []
remove_at zero (x ∷ xs) = xs
remove_at (suc k) (x ∷ xs) = x ∷ remove_at k xs

-- The `finally` of one of the outstanding calls of `terminate()`, in any order.
pub on_terminated : ℕ → Runtime → Runtime
on_terminated k s =
    if ltb k (length s.terminations)
    then dispatch (record s { terminations = remove_at k s.terminations; terminating = false })
    else s

-- `closeNavigationScriptRuntime`, up to its `await`.
pub close : Runtime → Runtime
close s = record s {
  watchdog = none;
  idle = false;
  queue = [];
  current = none;
  worker = none;
  ready = false;
  resolved =
      s.resolved ++ (reject_all script_error s.queue ++ settle s.current (failure script_error));
}

-- What can happen to the module: calls, messages of an interpreter, timers, ends of `terminate()`.
pub data Event : Type 0 where
  runs : ℕ → ScriptJob → Event
  readied : ℕ → Event
  answered : ℕ → ScriptResult → Event
  failed : ℕ → Event
  watchdog_fired : Event
  idle_fired : Event
  terminated : ℕ → Event
  closed : Event

pub step : Event → Runtime → Runtime
step (runs ticket job) s = run_policy_script ticket job s
step (readied w) s = on_ready w s
step (answered w result) s = on_result w result s
step (failed w) s = on_failure w s
step watchdog_fired s = on_watchdog s
step idle_fired s = on_idle s
step (terminated k) s = on_terminated k s
step closed s = close s

pub run : List Event → Runtime → Runtime
run [] s = s
run (e ∷ es) s = run es (step e s)
