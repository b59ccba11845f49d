-- ===== src/Sessions/Lifecycle.antt =====
-- The reservation of a Session from delivery to its end: `begin`, `accept`, `fail` and `expire` of
-- apps/backend/src/services/session-reservations.ts. The transaction's time and what `authorized`
-- answers are arguments; an exception rolls the transaction back. Of `reserve`, a part is in Capacity.
use browshare.Prelude.{
  ℕ, Bool, true, false, Option, none, some, List, [], ◌∷◌, ◌++◌, leb, ◌==◌, ◌&&◌, ◌||◌, not,
  if◌then◌else◌, is_some, or_else, same_opt, any, Outcome, ok, throw, ◌>>=◌, ◌>>◌, throw_if,
}
use browshare.Sessions.{
  Status, creating, ready, consumed, Kind, RuntimeState, running, starting, maintaining, Session,
  Reservation, Entry, Profile, session_creating, session_ready, Database, is_pending,
  is_connectable, is_terminal, is_active, is_consumed, is_maintenance, is_run, find_message,
  find_session, find_profile, store, update_profile,
}
use browshare.Sessions.Closure.{is_reserved}

pub data Failure : Type 0 where
  reservation_not_found reservation_not_active session_authorization_revoked
        session_reservation_expired profile_not_ready profile_maintenance_draining
        session_runtime_changed session_result_mismatch invalid_observation :
      Failure

-- A reservation with its Session, both locked, and the Profile.
pub record Locked : Type 0 where
  pub session : Session
  pub reservation : Reservation

-- `lockReservationSession`: the message names the Session, whose row is then read again.
abbrev pub lock_row : ℕ → Option Entry → Option Locked
lock_row m none = none
lock_row m (some e) = elim e.reservation [
  | none ↦ none
  | some r ↦
      if r.message_id == m then some (record { session = e.session; reservation = r }) else none
]

unfoldable pub lock_reservation_session : ℕ → List Entry → Option Locked
lock_reservation_session m es = elim (find_message m es) [
  | none ↦ none
  | some owner ↦ lock_row m (find_session owner.session.id es)
]

abbrev pub is_open : Bool → Locked → Bool
is_open allow_consumed l =
    (is_active l.reservation.status && is_pending l.session.status)
    || (allow_consumed && (is_consumed l.reservation.status && is_connectable l.session.status))

abbrev pub require : {E A : Type 0} → Option A → E → Outcome E A
require none e = throw e
require (some a) e = ok a

-- `profileId` of the reservation that a message names.
abbrev pub owner_profile : Entry → ℕ
owner_profile e = elim e.reservation [ none ↦ e.session.profile_id | some r ↦ r.profile_id ]

-- `#withPending` up to the call of the operation; `granted` is what `authorized` says, where it is asked.
unfoldable pub with_pending :
    (ℕ → ℕ → Kind → Bool) → ℕ → ℕ → Bool → Bool → Database → Outcome Failure (Locked × Profile)
with_pending authorized now m allow_consumed revalidate db = do
  owner ← require (find_message m db.entries) reservation_not_found
  l ← require (lock_reservation_session m db.entries) reservation_not_active
  throw_if (not (is_open allow_consumed l)) reservation_not_active
  throw_if (revalidate && not (authorized l.session.user_id l.session.profile_id l.session.kind))
      session_authorization_revoked
  throw_if (is_active l.reservation.status && leb l.reservation.expires_at now)
      session_reservation_expired
  p ← require (find_profile (owner_profile owner) db.profiles) profile_not_ready
  ok (l, p)

abbrev pub may_deliver : Kind → RuntimeState → Bool
may_deliver kind running = true
may_deliver kind starting = not (is_maintenance kind)
may_deliver kind maintaining = is_maintenance kind
may_deliver kind _ = false

-- Another Session of the Profile that has not ended.
abbrev pub has_other : ℕ → ℕ → List Entry → Bool
has_other id profile_id = any λ e.
    (e.session.profile_id == profile_id)
    && (not (e.session.id == id) && not (is_terminal e.session.status))

-- The profile row after a maintenance Session is delivered.
abbrev pub hold_profile : Kind → ℕ → List Profile → List Profile
hold_profile kind id ps =
    if is_maintenance kind
    then update_profile id (λ p. record p { runtime_state = maintaining }) ps
    else ps

-- `begin` gives a reserved Session the runtime identity, and its Session and events may not move otherwise.
abbrev pub deliver : Locked → ℕ → ℕ → Profile → Database → Outcome Failure (Locked × Database)
deliver l runtime instance_id p db =
    if is_reserved l.session.status
    then (let s : Session = record (l.session) {
      status = creating;
      runtime_id = some runtime;
      profile_generation = some p.runtime_generation;
      worker_instance_id = some instance_id;
    } in
        ok (
          record { session = s; reservation = l.reservation },
          record db {
            entries = store (record { session = s; reservation = some l.reservation }) db.entries;
            events = db.events ++ (l.session.id, session_creating) ∷ [];
            profiles = hold_profile l.session.kind p.id db.profiles;
          },
        ))
    else if same_opt l.session.runtime_id (some runtime)
        && (same_opt l.session.profile_generation (some p.runtime_generation)
            && same_opt l.session.worker_instance_id (some instance_id))
    then ok (l, record db { profiles = hold_profile l.session.kind p.id db.profiles })
    else throw session_runtime_changed

unfoldable pub begin :
    (ℕ → ℕ → Kind → Bool) → ℕ → ℕ → Database → Outcome Failure (Locked × Database)
unfolding with_pending
begin authorized now m db = do
  (l, p) ← with_pending authorized now m false true db
  runtime ← require p.runtime_id profile_not_ready
  instance_id ← require p.runtime_worker_instance_id profile_not_ready
  throw_if
      (not (leb 1 p.runtime_generation)
        || (not (is_run p.runtime_desired_state)
            || not (may_deliver l.session.kind p.runtime_state)))
      profile_not_ready
  throw_if (is_maintenance l.session.kind && has_other l.session.id p.id db.entries)
      profile_maintenance_draining
  deliver l runtime instance_id p db

-- `WorkerSessionRuntimeFact`
pub record RuntimeFact : Type 0 where
  pub session_id : ℕ
  pub profile_id : ℕ
  pub runtime_id : ℕ
  pub profile_generation : ℕ
  pub status : Status
  pub tab_id : Option ℕ
  pub target_id : Option ℕ
  pub viewer_generation : ℕ
  pub lease_expires_at : Option ℕ

abbrev pub is_ready : Status → Bool
is_ready ready = true
is_ready _ = false

abbrev pub has_runtime_state : Kind → RuntimeState → Bool
has_runtime_state kind running = not (is_maintenance kind)
has_runtime_state kind maintaining = is_maintenance kind
has_runtime_state kind _ = false

-- The negation of the first test of `accept`.
abbrev pub matches : RuntimeFact → ℕ → Locked → Profile → Bool
matches fact instance_id l p =
    is_ready fact.status
    && (is_some fact.tab_id
        && (is_some fact.target_id
            && ((fact.session_id == l.session.id)
                && ((fact.profile_id == l.session.profile_id)
                    && (same_opt p.runtime_id (some fact.runtime_id)
                        && ((p.runtime_generation == fact.profile_generation)
                            && (same_opt p.runtime_worker_instance_id (some instance_id)
                                && (same_opt l.session.runtime_id (some fact.runtime_id)
                                    && (same_opt l.session.profile_generation
                                          (some fact.profile_generation)
                                        && (same_opt l.session.worker_instance_id (some instance_id)
                                            && (has_runtime_state l.session.kind p.runtime_state
                                                && (is_run p.runtime_desired_state
                                                    && ((fact.viewer_generation == 0)
                                                        && (is_some fact.lease_expires_at
                                                            && (not (is_active l.reservation.status)
                                                            || same_opt fact.lease_expires_at (
                                                            some (
                                                            or_else l.session.lease_expires_at
                                                            0)))))))))))))))))

-- The accepted result: the Session is ready and its reservation consumed.
abbrev pub ready_entry : ℕ → RuntimeFact → Locked → Entry
ready_entry now fact l = record {
  session = record (l.session) { status = ready; tab_id = fact.tab_id; target_id = fact.target_id };
  reservation = some (record (l.reservation) { status = consumed; consumed_at = some now });
}

abbrev pub is_creating : Status → Bool
is_creating creating = true
is_creating _ = false

abbrev pub accept_matching : ℕ → RuntimeFact → Locked → Database → Outcome Failure Database
accept_matching now fact l db =
    if is_consumed l.reservation.status
    then (if same_opt l.session.tab_id fact.tab_id && same_opt l.session.target_id fact.target_id
        then ok db
        else throw session_result_mismatch)
    else if is_creating l.session.status
    then ok (record db {
      entries = store (ready_entry now fact l) db.entries;
      events = db.events ++ (l.session.id, session_ready) ∷ [];
    })
    else throw reservation_not_active

-- `observed_at` is what `Date.parse` makes of the observation time; `none` is not a number.
unfoldable pub accept :
    (ℕ → ℕ → Kind → Bool) → ℕ → ℕ → ℕ → RuntimeFact → Option ℕ → Database → Outcome Failure Database
unfolding with_pending
accept authorized now m instance_id fact observed_at db = do
  throw_if (not (is_some observed_at)) invalid_observation
  (l, p) ← with_pending authorized now m true false db
  throw_if (not (matches fact instance_id l p)) session_result_mismatch
  accept_matching now fact l db
