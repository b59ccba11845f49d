-- ===== src/Sessions/Begun.antt =====
-- What `begin` of apps/backend/src/services/session-reservations.ts found and left in the tables.
use mathlib.Core.Path.{subst}
use browshare.Prelude.{
  ap, ◌⊎◌, ◌≢◌, ◌∙◌, ◌==◌, if◌then◌else◌, List, [], ◌∷◌, Bool-cases, inl, inr, ℕ, ◌≤◌, ◌<◌, ◌≡◌,
  refl, sym, Bool, true, false, some, arith, ◌&&◌, ok,
}
use browshare.Sessions.{
  Status, reserved, creating, RuntimeState, running, starting, maintaining, maintenance,
  is_terminal, active, Kind, desired_running, Session, Reservation, Entry, Profile, Database,
  is_pending, is_active, find_message, find_session, find_profile, is_maintenance,
}
use browshare.Sessions.Lifecycle.{Locked, is_open, owner_profile, begin, may_deliver, has_other}
use browshare.Sessions.Histories.{lock_reservation_session-stored}
use browshare.Sessions.Pending.{
  begin-BeginParts, both, is_active-eq, is_run-eq, lock_reservation_session-message_id,
}
use browshare.Sessions.Deliveries.{Delivered, find_profile-id, deliver-Delivered}

-- A begun delivery: the rows that it found and what it left of them.
pub record Begun (authorized : ℕ → ℕ → Kind → Bool) (now m : ℕ) (db : Database)
    (result : Locked × Database) : Type 0 where
  pub session : Session
  pub reservation : Reservation
  pub profile : Profile
  pub found :
      find_session session.id db.entries
      ≡ some (record { session = session; reservation = some reservation })
  pub named : reservation.message_id ≡ m
  pub profile_found :
      (e : Entry) × (find_message m db.entries ≡ some e)
      × (find_profile (owner_profile e) db.profiles ≡ some profile)
  pub live : reservation.status ≡ active
  pub pending : (session.status ≡ reserved) ⊎ (session.status ≡ creating)
  pub granted : authorized session.user_id session.profile_id session.kind ≡ true
  pub in_time : now < reservation.expires_at
  pub runtime : (id : ℕ) × (profile.runtime_id ≡ some id)
  pub instance_id : (id : ℕ) × (profile.runtime_worker_instance_id ≡ some id)
  pub generation : 1 ≤ profile.runtime_generation
  pub wanted : profile.runtime_desired_state ≡ desired_running
  pub state :
      (profile.runtime_state ≡ running)
      ⊎ (profile.runtime_state ≡ (if is_maintenance session.kind then maintaining else starting))
  pub alone :
      session.kind ≡ maintenance
      → (other : ℕ) (e : Entry) → other ≢ session.id
      → find_session other db.entries ≡ some e
      → e.session.profile_id ≡ profile.id
      → is_terminal e.session.status ≡ true
  pub delivered : Delivered session reservation profile db result

pending_of : (s : Status) → is_pending s ≡ true → (s ≡ reserved) ⊎ (s ≡ creating)
pending_of s h = ground arith

may_deliver-state :
    (k : Kind) (s : RuntimeState)
    → may_deliver k s ≡ true
    → (s ≡ running) ⊎ (s ≡ (if is_maintenance k then maintaining else starting))
may_deliver-state k s h = ground arith

no_other :
    (id profile_id other : ℕ) (e : Entry) (es : List Entry)
    → has_other id profile_id es ≡ false
    → other ≢ id
    → find_session other es ≡ some e
    → e.session.profile_id ≡ profile_id
    → is_terminal e.session.status ≡ true
no_other id profile_id other e [] h ne found its = cc
no_other id profile_id other e (x ∷ es) h ne found its = elim (Bool-cases (x.session.id == other)) [
  | inl same ↦
      let here : x ≡ e = ground arith in
      let p : x.session.profile_id ≡ profile_id = ap (λ y. y.session.profile_id) here ∙ its in
      let over : is_terminal x.session.status ≡ true = ground arith in
      subst (λ y. is_terminal y.session.status ≡ true) here over
  | inr apart ↦ no_other id profile_id other e es (ground arith) ne (ground arith) its
]

open_now :
    (l : Locked)
    → is_open false l ≡ true
    → (is_active l.reservation.status && is_pending l.session.status) ≡ true
open_now l h = ground arith

-- A delivery that `begin` returns is one of the Session and the active reservation that the message
-- names, in time, with the user authorized, a Profile that is wanted, in a state to deliver to and
-- with a whole runtime identity, and, for maintenance, no other live Session. Afterwards the stored
-- row, which is also the one that is returned, is creating on the runtime of the Profile, its stored
-- reservation as it was, deadline included; the Profile is maintaining for a maintenance Session and
-- as it was for a normal one; a first delivery adds its event, a repeated one adds none and changes
-- no row of a Session; no other Session, no other Profile, no ticket, command or audit is touched.
pub begin-Begun :
    (authorized : ℕ → ℕ → Kind → Bool) (now m : ℕ) (db : Database) (result : Locked × Database)
    → begin authorized now m db ≡ ok result
    → Begun authorized now m db result
begin-Begun authorized now m db result done =
    let b = begin-BeginParts authorized now m db result done in
    let l = b.locked in
    let p = b.profile in
    let (live, pending) = both _ _ (open_now l b.pending.live) in
    let (owner, owned, known) = b.pending.profile in
    let stored = lock_reservation_session-stored m db.entries l b.pending.row in
    let its = find_profile-id (owner_profile owner) p db.profiles known in
    record {
      session = l.session;
      reservation = l.reservation;
      profile = p;
      found = stored;
      named = lock_reservation_session-message_id m db.entries l b.pending.row;
      profile_found = b.pending.profile;
      live = is_active-eq l.reservation.status live;
      pending = pending_of l.session.status pending;
      granted = b.pending.granted refl;
      in_time = b.pending.in_time live;
      runtime = b.checked.runtime;
      instance_id = b.checked.instance_id;
      generation = b.checked.generation;
      wanted = is_run-eq p.runtime_desired_state b.checked.wanted;
      state = may_deliver-state l.session.kind p.runtime_state b.checked.state;
      alone = λ k other e ne found its.
          no_other l.session.id p.id other e db.entries (b.checked.alone (ap is_maintenance k)) ne
            found its;
      delivered =
          deliver-Delivered l _ _ p db (b.checked.runtime.1) (b.checked.instance_id.1) stored
            (subst (λ id. find_profile id db.profiles ≡ some p) (sym its) known) result pending
            b.ended;
    }
