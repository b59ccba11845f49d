-- ===== src/Sessions/Accepted.antt =====
-- What `accept` of apps/backend/src/services/session-reservations.ts found and left in the tables.
use mathlib.Core.Path.{subst}
use browshare.Prelude.{
  ℕ, ◌<◌, ◌≡◌, refl, sym, ap, ◌∙◌, ◌≢◌, ◌⊎◌, Option, inl, inr, Bool, true, some, [], ◌∷◌, ◌++◌,
  arith, ok, same_opt_iff, Bool-cases, if-true, if-false,
}
use browshare.Sessions.{
  Status, reserved, connected, suspended, disconnected, creating, ready, ReservationStatus, active,
  consumed, Kind, Session, Reservation, Entry, Profile, session_ready, Database, is_active,
  is_consumed, find_message, find_session, find_profile, store,
}
use browshare.Sessions.Lifecycle.{
  Locked, is_open, owner_profile, RuntimeFact, ready_entry, is_creating, accept_matching, accept,
}
use browshare.Sessions.Transitions.{find-store}
use browshare.Sessions.Histories.{lock_reservation_session-stored, row}
use browshare.Sessions.Facts.{Describes, is_some-has, matches-Describes}
use browshare.Sessions.Pending.{
  accept-AcceptParts, both, returned, lock_reservation_session-message_id,
}

-- Statuses of a Session that has a tab.
abbrev pub HasTab : Status → Type 0
HasTab s = (s ≡ ready) ⊎ (s ≡ connected) ⊎ (s ≡ suspended) ⊎ (s ≡ disconnected)

-- Rows after a result was taken, for a first one and for a repeated one.
pub record Taken (now : ℕ) (fact : RuntimeFact) (s : Session) (r : Reservation)
    (db after : Database) : Type 0 where
  pub first :
      r.status ≡ active
      → (s.status ≡ creating)
        × (find_session s.id after.entries
            ≡ some (record {
              session = record s {
                status = ready;
                tab_id = fact.tab_id;
                target_id = fact.target_id;
              };
              reservation = some (record r { status = consumed; consumed_at = some now });
            }))
        × (after.events ≡ db.events ++ (s.id, session_ready) ∷ [])
  pub again :
      r.status ≡ consumed → (s.tab_id ≡ fact.tab_id) × (s.target_id ≡ fact.target_id) × (after ≡ db)
  pub others : (id : ℕ) → id ≢ s.id → find_session id after.entries ≡ find_session id db.entries
  pub rest :
      (after.profiles ≡ db.profiles)
      × (after.tickets ≡ db.tickets)
      × (after.close_outbox ≡ db.close_outbox)
      × (after.audits ≡ db.audits)

-- An accepted result: the rows that it found and what it left of them.
pub record Accepted (authorized : ℕ → ℕ → Kind → Bool) (now m instance_id : ℕ) (fact : RuntimeFact)
    (observed_at : Option ℕ) (db after : Database) : Type 0 where
  pub observed : (at : ℕ) × (observed_at ≡ some at)
  pub session : Session
  pub reservation : Reservation
  pub profile : Profile
  pub found :
      find_session session.id db.entries
      ≡ some (record { session = session; reservation = some reservation })
  pub named : reservation.message_id ≡ m
  pub profile_found :
      (e : Entry) × (find_message m db.entries ≡ some e)
      × (find_profile (owner_profile e) db.profiles ≡ some profile)
  pub live :
      ((reservation.status ≡ active) × ((session.status ≡ reserved) ⊎ (session.status ≡ creating)))
      ⊎ ((reservation.status ≡ consumed) × HasTab session.status)
  pub in_time : reservation.status ≡ active → now < reservation.expires_at
  pub described : Describes fact instance_id session reservation profile
  pub taken : Taken now fact session reservation db after

is_creating-eq : (s : Status) → is_creating s ≡ true → s ≡ creating
is_creating-eq s h = ground arith

is_consumed-eq : (s : ReservationStatus) → is_consumed s ≡ true → s ≡ consumed
is_consumed-eq s h = ground arith

abbrev made_ready : ℕ → RuntimeFact → Locked → Database → Database
made_ready now fact l db = record db {
  entries = store (ready_entry now fact l) db.entries;
  events = db.events ++ (l.session.id, session_ready) ∷ [];
}

live_of :
    (l : Locked)
    → is_open true l ≡ true
    → ((l.reservation.status ≡ active)
        × ((l.session.status ≡ reserved) ⊎ (l.session.status ≡ creating)))
      ⊎ ((l.reservation.status ≡ consumed) × HasTab l.session.status)
live_of l h = ground arith

accept_matching-Taken :
    (now : ℕ) (fact : RuntimeFact) (l : Locked) (db after : Database)
    → find_session l.session.id db.entries ≡ some (row l)
    → accept_matching now fact l db ≡ ok after
    → Taken now fact l.session l.reservation db after
accept_matching-Taken now fact l db after stored done =
    elim (Bool-cases (is_consumed l.reservation.status)) [
      | inl h ↦
          let (same, kept) = returned _ db after _ (sym (if-true _ _ _ h) ∙ done) in
          let (tab, target) = both _ _ same in
          subst (Taken now fact l.session l.reservation db) kept (record {
            first = λ e. cc;
            again = λ _. ((same_opt_iff _ _).0 tab, (same_opt_iff _ _).0 target, refl);
            others = λ id ne. refl;
            rest = (refl, refl, refl, refl);
          })
      | inr h ↦
          let (begun, kept) =
            returned _ (made_ready now fact l db) after _ (sym (if-false _ _ _ h) ∙ done) in
          subst (Taken now fact l.session l.reservation db) kept (record {
            first = λ _. (
              is_creating-eq l.session.status begun,
              find-store l.session.id (ready_entry now fact l) (row l) db.entries stored
                  ∙ ground arith,
              refl,
            );
            again = λ e. cc;
            others = λ id ne.
                find-store id (ready_entry now fact l) (row l) db.entries stored ∙ ground arith;
            rest = (refl, refl, refl, refl);
          })
    ]

-- A result that `accept` takes has a time of observation and is one for the Session and the reservation that the message names,
-- which is either active, in time and of a pending Session, or consumed and of one with a tab; the fact
-- reports a ready tab of that Session on the runtime, generation and Worker instance that the rows of
-- the Session and of its Profile both have, the Profile wanted and in the state that goes with the
-- kind, no viewer yet, and, while the reservation is active, the stored lease. The result for an
-- active reservation is for a creating Session, whose stored row is then ready with the reported tab
-- and target, its reservation consumed now, with one event; a result for a consumed one names the
-- stored tab and target and changes nothing. No other Session, no Profile, ticket, command or audit
-- is touched.
pub accept-Accepted :
    (authorized : ℕ → ℕ → Kind → Bool) (now m instance_id : ℕ) (fact : RuntimeFact)
    (observed_at : Option ℕ) (db after : Database)
    → accept authorized now m instance_id fact observed_at db ≡ ok after
    → Accepted authorized now m instance_id fact observed_at db after
accept-Accepted authorized now m instance_id fact observed_at db after done =
    let a = accept-AcceptParts authorized now m instance_id fact observed_at db after done in
    let l = a.locked in
    let stored = lock_reservation_session-stored m db.entries l a.pending.row in
    record {
      observed = is_some-has observed_at a.observed;
      session = l.session;
      reservation = l.reservation;
      profile = a.profile;
      found = stored;
      named = lock_reservation_session-message_id m db.entries l a.pending.row;
      profile_found = a.pending.profile;
      live = live_of l a.pending.live;
      in_time = λ e. a.pending.in_time (ap is_active e);
      described = matches-Describes fact instance_id l a.profile a.same;
      taken = accept_matching-Taken now fact l db after stored a.ended;
    }
