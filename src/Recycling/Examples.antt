-- ===== src/Recycling/Examples.antt =====
-- Runs of the policy clock, and the theorems at concrete clocks.
use browshare.Prelude.{
  ◌*◌, ◌≤◌, ◌≡◌, refl, ◌⊎◌, ◌↔◌, some, none, true, false, ℕ, ◌∷◌, [], List, arith,
}
use browshare.Prelude.Int.{sub_ℕ}
use browshare.Recycling.{
  SessionPolicyValues, SessionRecycleState, SessionRecycleReason, default_session_policy, new, next,
  max_duration, viewer_disconnected, deadlines, sort_by_at, insert_by_at, continue,
}
use browshare.Recycling.Deadlines.{IsArmed, Precedes, is_soft, next-IsEarliest, next-none_iff}
use browshare.Recycling.Histories.{
  Report, viewer, typed, painted, proxy, continued, run, next-run-le,
}

clock : Unit {0}
unfolding next new deadlines sort_by_at insert_by_at continue run
clock = tt

abbrev strict : SessionPolicyValues
strict = record default_session_policy {
  no_input_timeout_seconds = some 300;
  max_duration_seconds = some 300;
  countdown_seconds = 400;
}

abbrev tied : SessionRecycleState
tied = record {
  reason = max_duration;
  deadline = 310000;
  countdown_starts_at = sub_ℕ 310000 400000;
  can_continue = false;
}

-- Three limits end together: the total duration takes precedence.
ties_resolve : next (new strict 10000 10000) ≡ some tied
unfolding clock
ties_resolve = refl

next-IsEarliest_example :
    (strict.recycle_disabled ≡ false)
    × IsArmed (new strict 10000 10000) max_duration 310000
    × ((r : SessionRecycleReason) (at : ℕ)
        → IsArmed (new strict 10000 10000) r at
        → Precedes 310000 max_duration at r)
    × (false ≡ is_soft max_duration)
    × (sub_ℕ 310000 400000 ≡ sub_ℕ 310000 (400 * 1000))
unfolding new
next-IsEarliest_example = next-IsEarliest (new strict 10000 10000) tied ties_resolve

next-none_iff_example : (next (new default_session_policy 5 10) ≡ none) ↔ (
    (false ≡ true)
    ⊎ ((r : SessionRecycleReason) (at : ℕ) → ¬ IsArmed (new default_session_policy 5 10) r at))
unfolding new
next-none_iff_example = next-none_iff (new default_session_policy 5 10)

abbrev away : List Report
away =
    viewer false 20 ∷ typed 30 ∷ painted 40 ∷ continued 50 ∷ proxy false 60 ∷ viewer false 90 ∷ []

next-run-le_example :
    (n : SessionRecycleState) × (next (run away (new default_session_policy 5 10)) ≡ some n)
    × (n.deadline ≤ 300010)
unfolding new
next-run-le_example =
    next-run-le away (new default_session_policy 5 10) viewer_disconnected 300010 refl refl
      (ground arith) (10, 300, refl, refl, refl)
