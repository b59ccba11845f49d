-- ===== src/Recycling.antt =====
-- The policy clock of a Session: apps/worker/src/session-recycling.ts, with the policy values of
-- packages/contracts/src/session-policy.ts. Times are the milliseconds of `Date.now()`, and the ISO
-- text of a time stands for the time itself.
pub mod Deadlines
pub mod Histories
mod Examples
use browshare.Prelude.{
  ℕ, ◌+◌, ◌*◌, max, Bool, true, false, Option, none, some, List, [], ◌∷◌, ◌++◌, leb, if◌then◌else◌,
  or_else,
}
use browshare.Prelude.Int.{ℤ, sub_ℕ}

pub record SessionPolicyValues : Type 0 where
  pub recycle_disabled : Bool
  pub viewer_disconnect_timeout_seconds : Option ℕ
  pub no_input_timeout_seconds : Option ℕ
  pub no_frame_change_timeout_seconds : Option ℕ
  pub max_duration_seconds : Option ℕ
  pub proxy_failure_timeout_seconds : Option ℕ
  pub countdown_seconds : ℕ

abbrev pub default_session_policy : SessionPolicyValues
default_session_policy = record {
  recycle_disabled = false;
  viewer_disconnect_timeout_seconds = some 300;
  no_input_timeout_seconds = none;
  no_frame_change_timeout_seconds = none;
  max_duration_seconds = none;
  proxy_failure_timeout_seconds = none;
  countdown_seconds = 60;
}

pub data SessionRecycleReason : Type 0 where
  max_duration proxy_failure viewer_disconnected no_input no_frame_change : SessionRecycleReason

pub record SessionRecycleState : Type 0 where
  pub reason : SessionRecycleReason
  pub deadline : ℕ
  pub countdown_starts_at : ℤ
  pub can_continue : Bool

pub record SessionRecycling : Type 0 where
  pub policy : SessionPolicyValues
  pub created_at : ℕ
  pub disconnected_at : Option ℕ
  pub last_input_at : ℕ
  pub last_frame_changed_at : ℕ
  pub continued_at : ℕ
  pub proxy_failed_at : Option ℕ

pub new : SessionPolicyValues → ℕ → ℕ → SessionRecycling
new policy created_at ready_at = record {
  policy = policy;
  created_at = created_at;
  disconnected_at = some ready_at;
  last_input_at = ready_at;
  last_frame_changed_at = ready_at;
  continued_at = ready_at;
  proxy_failed_at = none;
}

pub viewer_connected : Bool → ℕ → SessionRecycling → SessionRecycling
viewer_connected connected now s =
    if connected
    then record s { disconnected_at = none }
    else record s { disconnected_at = some (or_else s.disconnected_at now) }

pub input : ℕ → SessionRecycling → SessionRecycling
input now s = record s { last_input_at = now }

pub frame_changed : ℕ → SessionRecycling → SessionRecycling
frame_changed now s = record s { last_frame_changed_at = now }

pub proxy_healthy : Bool → ℕ → SessionRecycling → SessionRecycling
proxy_healthy healthy now s =
    if healthy
    then record s { proxy_failed_at = none }
    else record s { proxy_failed_at = some (or_else s.proxy_failed_at now) }

pub continue : ℕ → SessionRecycling → SessionRecycling
continue now s = record s { continued_at = now }

pub record Deadline : Type 0 where
  pub reason : SessionRecycleReason
  pub at : ℕ
  pub can_continue : Bool

-- The local function `add` of `next`: the entry that it pushes, if any.
abbrev pub add : SessionRecycleReason → Option ℕ → Option ℕ → Bool → List Deadline
add reason (some since) (some timeout) can_continue =
    record { reason = reason; at = since + timeout * 1000; can_continue = can_continue } ∷ []
add _ _ _ _ = []

pub deadlines : SessionRecycling → List Deadline
deadlines s =
    add max_duration (some s.created_at) s.policy.max_duration_seconds false
    ++ (add proxy_failure s.proxy_failed_at s.policy.proxy_failure_timeout_seconds false
        ++ (add viewer_disconnected s.disconnected_at s.policy.viewer_disconnect_timeout_seconds
              false
            ++ (add no_input (some (max s.last_input_at s.continued_at))
                  s.policy.no_input_timeout_seconds true
                ++ add no_frame_change
                    (some (max (max s.last_input_at s.last_frame_changed_at) s.continued_at))
                    s.policy.no_frame_change_timeout_seconds true)))

-- `sort((a, b) => a.at - b.at)`, which is stable.
pub insert_by_at : Deadline → List Deadline → List Deadline
insert_by_at d [] = d ∷ []
insert_by_at d (e ∷ es) =
    let rest = insert_by_at d es in if leb d.at e.at then d ∷ e ∷ es else e ∷ rest

pub sort_by_at : List Deadline → List Deadline
sort_by_at [] = []
sort_by_at (d ∷ ds) = insert_by_at d (sort_by_at ds)

abbrev pub first : List Deadline → Option Deadline
first [] = none
first (d ∷ ds) = some d

abbrev pub recycle_state : ℕ → Option Deadline → Option SessionRecycleState
recycle_state countdown none = none
recycle_state countdown (some d) = some (record {
  reason = d.reason;
  deadline = d.at;
  countdown_starts_at = sub_ℕ d.at (countdown * 1000);
  can_continue = d.can_continue;
})

pub next : SessionRecycling → Option SessionRecycleState
next s =
    if s.policy.recycle_disabled
    then none
    else recycle_state s.policy.countdown_seconds (first (sort_by_at (deadlines s)))
