-- ===== src/Sessions/Deliveries.antt =====
-- The rows that `begin` of apps/backend/src/services/session-reservations.ts writes, wherever they are
-- found.
use mathlib.Core.Path.{subst}
use browshare.Prelude.{
  ℕ, ◌≡◌, refl, sym, ap, ◌∙◌, ◌≢◌, true, false, some, List, [], ◌∷◌, ◌++◌, arith, ◌==◌,
  if◌then◌else◌, ok, ok-injective, ==_iff, same_opt_iff, Bool-cases, inl, inr, if-false,
}
use browshare.Sessions.{
  Status, reserved, creating, Kind, maintaining, Session, Reservation, Entry, Profile,
  session_creating, Database, is_pending, find_session, find_profile, is_maintenance, store,
}
use browshare.Sessions.Closure.{is_reserved}
use browshare.Sessions.Lifecycle.{Locked, deliver, hold_profile}
use browshare.Sessions.Transitions.{find-store}
use browshare.Sessions.Histories.{row}
use browshare.Sessions.Pending.{both, returned}

-- The row of a Session with the runtime of its Profile.
abbrev pub on_runtime : Session → Profile → Session
on_runtime s p = record s {
  status = creating;
  runtime_id = p.runtime_id;
  profile_generation = some p.runtime_generation;
  worker_instance_id = p.runtime_worker_instance_id;
}

-- The Profile row while a Session of the kind is delivered.
abbrev pub held_by : Kind → Profile → Profile
held_by kind p = if is_maintenance kind then record p { runtime_state = maintaining } else p

-- Rows after a delivery, wherever each is found.
pub record Delivered (s : Session) (r : Reservation) (p : Profile) (db : Database)
    (result : Locked × Database) : Type 0 where
  pub given : result.0.session ≡ on_runtime s p
  pub same_reservation : result.0.reservation ≡ r
  pub written :
      find_session s.id result.1.entries
      ≡ some (record { session = on_runtime s p; reservation = some r })
  pub others : (id : ℕ) → id ≢ s.id → find_session id result.1.entries ≡ find_session id db.entries
  pub first : s.status ≡ reserved → result.1.events ≡ db.events ++ (s.id, session_creating) ∷ []
  pub again : s.status ≢ reserved → (result.1.events ≡ db.events) × (result.1.entries ≡ db.entries)
  pub held : find_profile p.id result.1.profiles ≡ some (held_by s.kind p)
  pub other_profiles :
      (id : ℕ) → id ≢ p.id → find_profile id result.1.profiles ≡ find_profile id db.profiles
  pub rest :
      (result.1.tickets ≡ db.tickets)
      × (result.1.close_outbox ≡ db.close_outbox)
      × (result.1.audits ≡ db.audits)

module _ (id : ℕ) where
  pub find_profile-id : (p : Profile) (ps : List Profile) → find_profile id ps ≡ some p → p.id ≡ id
  find_profile-id p [] h = cc
  find_profile-id p (q ∷ ps) h = elim (Bool-cases (q.id == id)) [
    | inl e ↦
        let same : q ≡ p = ground arith in
        let its : q.id ≡ id = (==_iff q.id id).0 e in ap (λ x. x.id) (sym same) ∙ its
    | inr e ↦ find_profile-id p ps (ground arith)
  ]

  hold_profile-here :
      (kind : Kind) (p : Profile) (ps : List Profile)
      → find_profile id ps ≡ some p
      → find_profile id (hold_profile kind id ps) ≡ some (held_by kind p)
  hold_profile-here kind p [] h = cc
  hold_profile-here kind p (q ∷ ps) h = ground (arith, hold_profile-here kind p ps)

  hold_profile-there :
      (kind : Kind) (other : ℕ) (ps : List Profile)
      → other ≢ id
      → find_profile other (hold_profile kind id ps) ≡ find_profile other ps
  hold_profile-there kind other [] ne = ground arith
  hold_profile-there kind other (q ∷ ps) ne = ground (arith, hold_profile-there kind other ps ne)

on_runtime-same :
    (s : Session) (p : Profile)
    → s.status ≡ creating
    → s.runtime_id ≡ p.runtime_id
    → s.profile_generation ≡ some p.runtime_generation
    → s.worker_instance_id ≡ p.runtime_worker_instance_id
    → s ≡ on_runtime s p
on_runtime-same s p a b c d = cc

creating_of : (s : Status) → is_pending s ≡ true → is_reserved s ≡ false → s ≡ creating
creating_of s h k = ground arith

reserved_of : (s : Status) → is_reserved s ≡ true → s ≡ reserved
reserved_of s h = ground arith

abbrev first_delivery : Locked → Profile → Database → Locked × Database
first_delivery l p db = (
  record { session = on_runtime l.session p; reservation = l.reservation },
  record db {
    entries =
        store (record { session = on_runtime l.session p; reservation = some l.reservation })
          db.entries;
    events = db.events ++ (l.session.id, session_creating) ∷ [];
    profiles = hold_profile l.session.kind p.id db.profiles;
  },
)

abbrev repeated : Locked → Profile → Database → Locked × Database
repeated l p db = (l, record db { profiles = hold_profile l.session.kind p.id db.profiles })

module _ (l : Locked) (runtime instance_id : ℕ) (p : Profile) (db : Database)
    (with_runtime : p.runtime_id ≡ some runtime)
    (with_instance : p.runtime_worker_instance_id ≡ some instance_id) where
  deliver_first :
      is_reserved l.session.status ≡ true
      → deliver l runtime instance_id p db ≡ ok (first_delivery l p db)
  deliver_first h = simp (h, with_runtime, with_instance)

  deliver_again :
      (result : Locked × Database)
      → is_reserved l.session.status ≡ false
      → deliver l runtime instance_id p db ≡ ok result
      → (l.session.runtime_id ≡ p.runtime_id)
        × (l.session.profile_generation ≡ some p.runtime_generation)
        × (l.session.worker_instance_id ≡ p.runtime_worker_instance_id)
        × (repeated l p db ≡ result)
  deliver_again result h done =
      let (same, kept) = returned _ (repeated l p db) result _ (sym (if-false _ _ _ h) ∙ done) in
      let (a, more) = both _ _ same in
      let (b, c) = both _ _ more in
      (
        (same_opt_iff _ _).0 a ∙ sym with_runtime,
        (same_opt_iff _ _).0 b,
        (same_opt_iff _ _).0 c ∙ sym with_instance,
        kept,
      )

  module _ (stored : find_session l.session.id db.entries ≡ some (row l))
      (known : find_profile p.id db.profiles ≡ some p) where
    first_delivery-Delivered :
        is_reserved l.session.status ≡ true
        → Delivered l.session l.reservation p db (first_delivery l p db)
    first_delivery-Delivered h = record {
      given = refl;
      same_reservation = refl;
      written = find-store l.session.id after (row l) db.entries stored ∙ ground arith;
      others = λ id ne. find-store id after (row l) db.entries stored ∙ ground arith;
      first = λ _. refl;
      again = λ ne. absurd (ne (reserved_of l.session.status h));
      held = hold_profile-here p.id l.session.kind p db.profiles known;
      other_profiles = λ id ne. hold_profile-there p.id l.session.kind id db.profiles ne;
      rest = (refl, refl, refl);
    }
      where
        after : Entry
        after = record { session = on_runtime l.session p; reservation = some l.reservation }

    repeated-Delivered :
        l.session.status ≡ creating
        → l.session ≡ on_runtime l.session p
        → Delivered l.session l.reservation p db (repeated l p db)
    repeated-Delivered h same = record {
      given = same;
      same_reservation = refl;
      written =
          stored ∙ ap (λ s. some (record { session = s; reservation = some l.reservation })) same;
      others = λ id ne. refl;
      first = λ e. cc;
      again = λ ne. (refl, refl);
      held = hold_profile-here p.id l.session.kind p db.profiles known;
      other_profiles = λ id ne. hold_profile-there p.id l.session.kind id db.profiles ne;
      rest = (refl, refl, refl);
    }

    pub deliver-Delivered :
        (result : Locked × Database)
        → is_pending l.session.status ≡ true
        → deliver l runtime instance_id p db ≡ ok result
        → Delivered l.session l.reservation p db result
    deliver-Delivered result pending done = elim (Bool-cases (is_reserved l.session.status)) [
      | inl h ↦
          subst (Delivered l.session l.reservation p db)
            (ok-injective (sym (deliver_first h) ∙ done)) (first_delivery-Delivered h)
      | inr h ↦
          let (a, b, c, kept) = deliver_again result h done in
          let begun = creating_of l.session.status pending h in
          subst (Delivered l.session l.reservation p db) kept
            (repeated-Delivered begun (on_runtime-same l.session p begun a b c))
    ]
