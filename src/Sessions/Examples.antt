-- ===== src/Sessions/Examples.antt =====
-- One Session that is delivered and accepted, another that has ended, and the theorems at them.
use browshare.Prelude.{
  throw, inl, ◌↔◌, ◌≤◌, In, ℕ, ◌≡◌, refl, Bool, true, false, none, some, List, [], ◌∷◌, String, ok,
}
use browshare.Sessions.{
  reserved, creating, ready, failed, active, released, Kind, normal, running, desired_running,
  Session, Reservation, Entry, Profile, ticket_active, Database, user_requested, code, find_session,
  consumed, session_creating, session_ready,
}
use browshare.Sessions.Lifecycle.{
  Locked, RuntimeFact, invalid_observation, lock_reservation_session, with_pending, begin, accept,
}
use browshare.Sessions.Transitions.{Consistent, Walk}
use browshare.Sessions.Begun.{Begun, begin-Begun}
use browshare.Sessions.Accepted.{Accepted, accept-Accepted}
use browshare.Sessions.Runs.{
  Operation, begin_delivery, accept_result, expire_due, close_session, run, run-Consistent,
  run-Walk, run-ended,
}
use browshare.Recycling.{default_session_policy}
use browshare.Prelude.Int.{pos}
use browshare.Sessions.Capacity.{
  Request, HasRoom, Scope, is_checked, limit_of, active_count, check_capacity, reserved_entry,
  reserve_slot, reserve_slot-Consistent, check_capacity_iff,
}
use browshare.Sessions.Policies.{
  SessionPolicy, user_profile_group, ProfileGroup, is_candidate, resolve_session_policy,
}
use browshare.Sessions.Policies.Highest.{NotBefore, resolve_session_policy-NotBefore}
use browshare.Sessions.Leases.{Worker, online, Grant, grant_fact, IsSafe, grant_fact-IsSafe}

abbrev everyone : ℕ → ℕ → Kind → Bool
everyone user profile kind = true

abbrev stable : String → Bool
stable reason = true

abbrev new_session : Session
new_session = record {
  id = 1;
  user_id = 20;
  profile_id = 30;
  worker_id = 40;
  kind = normal;
  status = reserved;
  runtime_id = none;
  profile_generation = none;
  worker_instance_id = none;
  tab_id = none;
  target_id = none;
  viewer_generation = 0;
  lease_expires_at = some 600000;
  closing_at = none;
  closed_at = none;
  cause = none;
}

abbrev new_entry : Entry
new_entry = record {
  session = new_session;
  reservation = some (record {
    id = 5;
    message_id = 7;
    profile_id = 30;
    status = active;
    expires_at = 120000;
    consumed_at = none;
    released_at = none;
    release_reason = none;
  });
}

abbrev ended_entry : Entry
ended_entry = record {
  session = record new_session {
    id = 2;
    status = failed;
    closed_at = some 3;
    cause = some (code "GONE");
  };
  reservation = some (record {
    id = 6;
    message_id = 8;
    profile_id = 30;
    status = released;
    expires_at = 100;
    consumed_at = none;
    released_at = some 3;
    release_reason = some (code "GONE");
  });
}

abbrev profile : Profile
profile = record {
  id = 30;
  worker_id = 40;
  runtime_id = some 9;
  runtime_generation = 2;
  runtime_worker_instance_id = some 4;
  runtime_state = running;
  runtime_desired_state = desired_running;
}

abbrev database : Database
database = record {
  entries = new_entry ∷ ended_entry ∷ [];
  profiles = profile ∷ [];
  tickets = record { session_id = 1; status = ticket_active } ∷ [];
  close_outbox = [];
  events = [];
  audits = [];
}

abbrev fact : RuntimeFact
fact = record {
  session_id = 1;
  profile_id = 30;
  runtime_id = 9;
  profile_generation = 2;
  status = ready;
  tab_id = some 11;
  target_id = some 12;
  viewer_generation = 0;
  lease_expires_at = some 600000;
}

abbrev history : List (ℕ × Operation)
history =
    (10, begin_delivery 7)
    ∷ (20, accept_result 7 4 fact (some 19))
    ∷ (130000, expire_due (λ _. false))
    ∷ (140000, close_session 1 user_requested)
    ∷ (150000, close_session 2 user_requested)
    ∷ []

run-Consistent_example : Consistent (run everyone stable history database).entries
run-Consistent_example = run-Consistent everyone stable history database (refl, (refl, tt))

run-Walk_example :
    (f : Entry) × (find_session 1 (run everyone stable history database).entries ≡ some f)
    × Walk reserved f.session.status
run-Walk_example = run-Walk everyone stable history database 1 new_entry (refl, (refl, tt)) refl

run-ended_example : find_session 2 (run everyone stable history database).entries ≡ some ended_entry
run-ended_example =
    run-ended everyone stable history database 2 ended_entry (refl, (refl, tt)) refl refl

abbrev begun_session : Session
begun_session = record new_session {
  status = creating;
  runtime_id = some 9;
  profile_generation = some 2;
  worker_instance_id = some 4;
}

abbrev begun_entry : Entry
begun_entry = record { session = begun_session; reservation = new_entry.reservation }

abbrev begun : Locked × Database
begun = (
  record {
    session = begun_session;
    reservation = record {
      id = 5;
      message_id = 7;
      profile_id = 30;
      status = active;
      expires_at = 120000;
      consumed_at = none;
      released_at = none;
      release_reason = none;
    };
  },
  record database { entries = begun_entry ∷ ended_entry ∷ []; events = (1, session_creating) ∷ [] },
)

begin_runs : begin everyone 10 7 database ≡ ok begun
unfolding begin with_pending lock_reservation_session
begin_runs = refl

begin_again : begin everyone 10 7 (begun.1) ≡ ok begun
unfolding begin with_pending lock_reservation_session
begin_again = refl

begin-Begun_example : Begun everyone 10 7 database begun
begin-Begun_example = begin-Begun everyone 10 7 database begun begin_runs

abbrev ready_session : Session
ready_session = record begun_session { status = ready; tab_id = some 11; target_id = some 12 }

abbrev consumed_reservation : Reservation
consumed_reservation = record {
  id = 5;
  message_id = 7;
  profile_id = 30;
  status = consumed;
  expires_at = 120000;
  consumed_at = some 20;
  released_at = none;
  release_reason = none;
}

abbrev accepted : Database
accepted = record database {
  entries =
      record { session = ready_session; reservation = some consumed_reservation }
      ∷ ended_entry
      ∷ [];
  events = (1, session_creating) ∷ (1, session_ready) ∷ [];
}

accept_runs : accept everyone 20 7 4 fact (some 19) (begun.1) ≡ ok accepted
unfolding accept with_pending lock_reservation_session
accept_runs = refl

accept_again : accept everyone 30 7 4 fact (some 29) accepted ≡ ok accepted
unfolding accept with_pending lock_reservation_session
accept_again = refl

accept_unobserved : accept everyone 20 7 4 fact none (begun.1) ≡ throw invalid_observation
unfolding accept with_pending lock_reservation_session
accept_unobserved = refl

accept-Accepted_example : Accepted everyone 20 7 4 fact (some 19) (begun.1) accepted
accept-Accepted_example =
    accept-Accepted everyone 20 7 4 fact (some 19) (begun.1) accepted accept_runs

abbrev worker : Worker
worker = record { status = online; disabled_at = none }

abbrev lease : Grant
lease = record {
  session_id = 1;
  profile_id = 30;
  runtime_id = 9;
  profile_generation = 2;
  tab_id = some 11;
  target_id = some 12;
  expires_at = 1000000;
}

abbrev extended : Database
extended = record accepted {
  entries =
      record {
        session = record ready_session { lease_expires_at = some 1000000 };
        reservation = some consumed_reservation;
      }
      ∷ ended_entry
      ∷ [];
}

grant_runs : grant_fact everyone 40 4 (some worker) 400000 fact accepted ≡ (some lease, extended)
unfolding grant_fact
grant_runs = refl

grant_fact-IsSafe_example : IsSafe everyone 40 4 400000 fact accepted extended lease
grant_fact-IsSafe_example =
    grant_fact-IsSafe everyone 40 4 (some worker) 400000 fact accepted extended lease grant_runs

abbrev request : Request
request = record {
  user_id = 20;
  profile_id = 30;
  worker_id = 40;
  kind = normal;
  max_active_sessions = some 2;
  max_normal_sessions = some 4;
  max_active_tabs = none;
}

abbrev reserved_rows : List Entry
reserved_rows = new_entry ∷ ended_entry ∷ reserved_entry 3 16 17 50 request ∷ []

reserve_slot_runs : reserve_slot 3 16 17 50 request database.entries ≡ ok reserved_rows
unfolding reserve_slot check_capacity active_count
reserve_slot_runs = refl

reserve_slot-Consistent_example :
    Consistent reserved_rows
    × ((scope : Scope) (limit : ℕ)
        → is_checked scope request ≡ true
        → limit_of scope request ≡ some limit
        → active_count scope request reserved_rows ≤ limit)
reserve_slot-Consistent_example =
    reserve_slot-Consistent 3 16 17 50 request database.entries reserved_rows (refl, (refl, tt))
      reserve_slot_runs

check_capacity_iff_example :
    (check_capacity request database.entries ≡ ok tt) ↔ HasRoom request database.entries
check_capacity_iff_example = check_capacity_iff request database.entries

abbrev group : ProfileGroup
group = record { id = 3; priority = pos 5; enabled = true; deleted = false; members = 30 ∷ [] }

abbrev policy : SessionPolicy
policy = record {
  id = 8;
  scope = user_profile_group;
  user_id = some 20;
  profile_id = none;
  profile_group_id = some 3;
  values = default_session_policy;
}

resolve_session_policy-NotBefore_example :
    (q : SessionPolicy) × (h : ProfileGroup) × In q (policy ∷ [])
    × In h (group ∷ [])
    × (is_candidate 20 30 q h ≡ true)
    × NotBefore group h
    × ((resolve_session_policy (policy ∷ []) (group ∷ []) 20 30).values ≡ q.values)
    × ((resolve_session_policy (policy ∷ []) (group ∷ []) 20 30).policy_id ≡ some q.id)
    × ((resolve_session_policy (policy ∷ []) (group ∷ []) 20 30).priority ≡ some h.priority)
resolve_session_policy-NotBefore_example =
    resolve_session_policy-NotBefore 20 30 (policy ∷ []) (group ∷ []) policy group refl (inl refl)
      (inl refl) refl
