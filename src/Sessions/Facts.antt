-- ===== src/Sessions/Facts.antt =====
-- What `accept` of apps/backend/src/services/session-reservations.ts compares a fact of the runtime
-- with.
use browshare.Prelude.{
  ℕ, ◌≡◌, refl, Bool, true, Option, none, some, arith, ◌||◌, not, if◌then◌else◌, ==_iff,
  same_opt_iff, is_some, or_else,
}
use browshare.Sessions.{
  Status, ready, ReservationStatus, active, Kind, RuntimeState, running, maintaining,
  desired_running, Session, Reservation, Profile, is_active, is_maintenance,
}
use browshare.Sessions.Lifecycle.{Locked, RuntimeFact, is_ready, has_runtime_state, matches}
use browshare.Sessions.Pending.{both, is_run-eq}

-- A fact that reports a ready tab of the Session, on the runtime that the Session and its Profile
-- have, by the Worker instance that hosts it, with the lease of the Session while it is reserved.
pub record Describes (fact : RuntimeFact) (instance_id : ℕ) (s : Session) (r : Reservation)
    (p : Profile) : Type 0 where
  pub reported : fact.status ≡ ready
  pub tab : (id : ℕ) × (fact.tab_id ≡ some id)
  pub target : (id : ℕ) × (fact.target_id ≡ some id)
  pub its_session : fact.session_id ≡ s.id
  pub its_profile : fact.profile_id ≡ s.profile_id
  pub runtime : (p.runtime_id ≡ some fact.runtime_id) × (s.runtime_id ≡ some fact.runtime_id)
  pub generation :
      (p.runtime_generation ≡ fact.profile_generation)
      × (s.profile_generation ≡ some fact.profile_generation)
  pub instance :
      (p.runtime_worker_instance_id ≡ some instance_id) × (s.worker_instance_id ≡ some instance_id)
  pub state : p.runtime_state ≡ (if is_maintenance s.kind then maintaining else running)
  pub wanted : p.runtime_desired_state ≡ desired_running
  pub no_viewer : fact.viewer_generation ≡ 0
  pub leased : (at : ℕ) × (fact.lease_expires_at ≡ some at)
  pub same_lease : r.status ≡ active → fact.lease_expires_at ≡ some (or_else s.lease_expires_at 0)

is_ready-eq : (s : Status) → is_ready s ≡ true → s ≡ ready
is_ready-eq s h = ground arith

has_runtime_state-eq :
    (k : Kind) (s : RuntimeState)
    → has_runtime_state k s ≡ true
    → s ≡ (if is_maintenance k then maintaining else running)
has_runtime_state-eq k s h = ground arith

pub is_some-has : (o : Option ℕ) → is_some o ≡ true → (a : ℕ) × (o ≡ some a)
is_some-has none h = cc
is_some-has (some a) h = (a, refl)

same_lease_of :
    (s : ReservationStatus) (b : Bool) → (not (is_active s) || b) ≡ true → s ≡ active → b ≡ true
same_lease_of s b h e = ground arith

pub matches-Describes :
    (fact : RuntimeFact) (instance_id : ℕ) (l : Locked) (p : Profile)
    → matches fact instance_id l p ≡ true
    → Describes fact instance_id l.session l.reservation p
matches-Describes fact instance_id l p h0 =
    let (reported, h1) = both _ _ h0 in
    let (tab, h2) = both _ _ h1 in
    let (target, h3) = both _ _ h2 in
    let (its_session, h4) = both _ _ h3 in
    let (its_profile, h5) = both _ _ h4 in
    let (p_runtime, h6) = both _ _ h5 in
    let (p_generation, h7) = both _ _ h6 in
    let (p_instance, h8) = both _ _ h7 in
    let (s_runtime, h9) = both _ _ h8 in
    let (s_generation, h10) = both _ _ h9 in
    let (s_instance, h11) = both _ _ h10 in
    let (state, h12) = both _ _ h11 in
    let (wanted, h13) = both _ _ h12 in
    let (no_viewer, h14) = both _ _ h13 in
    let (leased, lease) = both _ _ h14 in
    record {
      reported = is_ready-eq fact.status reported;
      tab = is_some-has fact.tab_id tab;
      target = is_some-has fact.target_id target;
      its_session = (==_iff _ _).0 its_session;
      its_profile = (==_iff _ _).0 its_profile;
      runtime = ((same_opt_iff _ _).0 p_runtime, (same_opt_iff _ _).0 s_runtime);
      generation = ((==_iff _ _).0 p_generation, (same_opt_iff _ _).0 s_generation);
      instance = ((same_opt_iff _ _).0 p_instance, (same_opt_iff _ _).0 s_instance);
      state = has_runtime_state-eq l.session.kind p.runtime_state state;
      wanted = is_run-eq p.runtime_desired_state wanted;
      no_viewer = (==_iff _ _).0 no_viewer;
      leased = is_some-has fact.lease_expires_at leased;
      same_lease = λ e. (same_opt_iff _ _).0 (same_lease_of l.reservation.status _ lease e);
    }
