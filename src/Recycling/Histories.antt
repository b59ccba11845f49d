-- ===== src/Recycling/Histories.antt =====
-- What a history of reports does to the limits of the policy clock.
use browshare.Prelude.{
  ℕ, ◌≤◌, ◌≡◌, refl, ◌∙◌, inl, inr, Bool, false, Option, some, List, [], ◌∷◌, arith, Option-cases,
  All,
}
use browshare.Recycling.{
  SessionRecycling, SessionRecycleReason, SessionRecycleState, max_duration, proxy_failure,
  viewer_disconnected, no_input, no_frame_change, viewer_connected, input, frame_changed,
  proxy_healthy, continue, next,
}
use browshare.Recycling.Deadlines.{IsArmed, is_soft, next-IsEarliest, next-none_iff}

-- The calls that the Worker makes of a clock.
pub data Report : Type 0 where
  viewer : Bool → ℕ → Report
  typed : ℕ → Report
  painted : ℕ → Report
  proxy : Bool → ℕ → Report
  continued : ℕ → Report

unfoldable pub apply : Report → SessionRecycling → SessionRecycling
unfolding viewer_connected input frame_changed proxy_healthy continue
apply (viewer connected now) s = viewer_connected connected now s
apply (typed now) s = input now s
apply (painted now) s = frame_changed now s
apply (proxy healthy now) s = proxy_healthy healthy now s
apply (continued now) s = continue now s

unfoldable pub run : List Report → SessionRecycling → SessionRecycling
unfolding apply
run [] s = s
run (e ∷ es) s = run es (apply e s)

-- The reports that end a limit which is no idle limit.
abbrev pub clears : SessionRecycleReason → Report → Bool
clears viewer_disconnected (viewer connected now) = connected
clears proxy_failure (proxy healthy now) = healthy
clears _ _ = false

apply-IsArmed :
    (e : Report) (s : SessionRecycling) (r : SessionRecycleReason) (at : ℕ)
    → is_soft r ≡ false
    → clears r e ≡ false
    → IsArmed s r at
    → IsArmed (apply e s) r at
unfolding apply
apply-IsArmed e s max_duration at soft c a = (a.0, ground arith, ground arith)
apply-IsArmed e s proxy_failure at soft c a = (a.0, a.1, ground arith, ground arith, a.4)
apply-IsArmed e s viewer_disconnected at soft c a = (a.0, a.1, ground arith, ground arith, a.4)
apply-IsArmed e s no_input at soft c a = cc
apply-IsArmed e s no_frame_change at soft c a = cc

apply-policy : (e : Report) (s : SessionRecycling) → (apply e s).policy ≡ s.policy
unfolding apply
apply-policy e s = ground arith

-- A limit that is no idle limit keeps its end over every history that does not end it.
pub run-IsArmed :
    (es : List Report) (s : SessionRecycling) (r : SessionRecycleReason) (at : ℕ)
    → is_soft r ≡ false
    → All (λ e. clears r e ≡ false) es
    → IsArmed s r at
    → IsArmed (run es s) r at
unfolding run
run-IsArmed [] s r at soft c a = a
run-IsArmed (e ∷ es) s r at soft c a =
    run-IsArmed es (apply e s) r at soft c.1 (apply-IsArmed e s r at soft c.0 a)

run-policy : (es : List Report) (s : SessionRecycling) → (run es s).policy ≡ s.policy
unfolding run
run-policy [] s = refl
run-policy (e ∷ es) s = run-policy es (apply e s) ∙ apply-policy e s

-- With recycling on, a running limit that is no idle limit ends the Session by its time: no input,
-- frame, continuation or repeated report of the same failure puts it off.
pub next-run-le :
    (es : List Report) (s : SessionRecycling) (r : SessionRecycleReason) (at : ℕ)
    → s.policy.recycle_disabled ≡ false
    → is_soft r ≡ false
    → All (λ e. clears r e ≡ false) es
    → IsArmed s r at
    → (n : SessionRecycleState) × (next (run es s) ≡ some n) × (n.deadline ≤ at)
next-run-le es s r at on soft c a = elim (Option-cases (next (run es s))) [
  | inl e ↦ elim ((next-none_iff (run es s)).0 e) [
    | inl off ↦ absurd (ground (arith, run-policy es s))
    | inr idle ↦ absurd (idle r at (run-IsArmed es s r at soft c a))
  ]
  | inr (n, e) ↦
      let (_, _, least, _, _) = next-IsEarliest (run es s) n e in
      (n, e, omega (arith, least r at (run-IsArmed es s r at soft c a)))
]

abbrev pub timeout : SessionRecycling → SessionRecycleReason → Option ℕ
timeout s max_duration = s.policy.max_duration_seconds
timeout s proxy_failure = s.policy.proxy_failure_timeout_seconds
timeout s viewer_disconnected = s.policy.viewer_disconnect_timeout_seconds
timeout s no_input = s.policy.no_input_timeout_seconds
timeout s no_frame_change = s.policy.no_frame_change_timeout_seconds
