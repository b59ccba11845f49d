-- ===== src/Sessions/Pending.antt =====
-- The steps of `#withPending`, `begin` and `accept` of apps/backend/src/services/session-reservations.ts
-- that a transaction which returned has passed.
use mathlib.Core.Path.{subst}
use browshare.Prelude.{
  is_some, ◌∙◌, sym, ==_iff, ◌==◌, List, Option-cases, inl, inr, if◌then◌else◌, throw, ℕ, ◌≤◌, ◌<◌,
  ◌≡◌, refl, ap, Bool, true, false, Option, none, some, arith, leb, ◌&&◌, ◌||◌, not, Outcome, ok,
  ◌>>=◌, ◌>>◌, throw_if, bind_inversion, ok-injective,
}
use browshare.Sessions.{
  ReservationStatus, active, DesiredState, desired_running, Kind, Entry, Profile, Database,
  is_active, is_run, find_message, find_profile, is_maintenance, find_session,
}
use browshare.Sessions.Lifecycle.{
  Locked, lock_row, lock_reservation_session, is_open, require, owner_profile, with_pending, begin,
  deliver, may_deliver, has_other, RuntimeFact, accept, accept_matching, matches,
}

-- Row, Profile, authorization and time of a pending reservation.
pub record IsPending (authorized : ℕ → ℕ → Kind → Bool) (now m : ℕ)
    (allow_consumed revalidate : Bool) (db : Database) (l : Locked) (p : Profile) : Type 0 where
  pub row : lock_reservation_session m db.entries ≡ some l
  pub live : is_open allow_consumed l ≡ true
  pub granted :
      revalidate ≡ true → authorized l.session.user_id l.session.profile_id l.session.kind ≡ true
  pub in_time : is_active l.reservation.status ≡ true → now < l.reservation.expires_at
  pub profile :
      (e : Entry) × (find_message m db.entries ≡ some e)
      × (find_profile (owner_profile e) db.profiles ≡ some p)

-- Steps of a transaction that returned.
pub required :
    {E A B : Type 0} {r : B} (o : Option A) (e : E) (k : A → Outcome E B)
    → (require o e >>= k) ≡ ok r
    → (a : A) × (o ≡ some a) × (k a ≡ ok r)
required none e k h = cc
required (some a) e k h = (a, refl, h)

pub passed :
    {E B : Type 0} {r : B} (b : Bool) (e : E) (k : Outcome E B)
    → (throw_if b e >> k) ≡ ok r
    → (b ≡ false) × (k ≡ ok r)
passed true e k h = cc
passed false e k h = (refl, h)

-- A guarded result.
pub returned :
    {E A : Type 0} (b : Bool) (k x : A) (e : E)
    → (if b then ok k else throw e) ≡ ok x
    → (b ≡ true) × (k ≡ x)
returned true k x e h = (refl, ok-injective h)
returned false k x e h = cc

pub both : (a b : Bool) → (a && b) ≡ true → (a ≡ true) × (b ≡ true)
both true b h = (refl, h)
both false b h = cc

not-false : (b : Bool) → not b ≡ false → b ≡ true
not-false b h = ground arith

revalidated : (a b : Bool) → a ≡ true → (a && not b) ≡ false → b ≡ true
revalidated a b h k = ground arith

still : (a : Bool) (x y : ℕ) → a ≡ true → (a && leb x y) ≡ false → y < x
still a x y h k = ground arith

pub with_pending-IsPending :
    (authorized : ℕ → ℕ → Kind → Bool) (now m : ℕ) (allow_consumed revalidate : Bool)
    (db : Database) (l : Locked) (p : Profile)
    → with_pending authorized now m allow_consumed revalidate db ≡ ok (l, p)
    → IsPending authorized now m allow_consumed revalidate db l p
unfolding with_pending
with_pending-IsPending authorized now m allow_consumed revalidate db l p done =
    let (owner, h0, k0) = required _ _ _ done in
    let (l', h1, k1) = required _ _ _ k0 in
    let (h2, k2) = passed _ _ _ k1 in
    let (h3, k3) = passed _ _ _ k2 in
    let (h4, k4) = passed _ _ _ k3 in
    let (p', h5, k5) = required _ _ _ k4 in
    let pair : ◌≡◌ {A = Locked × Profile} (l', p') (l, p) = ok-injective k5 in
    let same : l' ≡ l = ap (λ x. x.0) pair in
    let same_p : p' ≡ p = ap (λ x. x.1) pair in
    subst (λ x. IsPending authorized now m allow_consumed revalidate db x p) same
      (subst (λ x. IsPending authorized now m allow_consumed revalidate db l' x) same_p
        (record {
          row = h1;
          live = not-false _ h2;
          granted = λ h. revalidated _ _ h h3;
          in_time = λ h. still _ _ _ h h4;
          profile = (owner, h0, h5);
        }))

-- What `begin` has checked of the Profile.
pub record IsDelivered (l : Locked) (p : Profile) (db : Database) : Type 0 where
  pub runtime : (id : ℕ) × (p.runtime_id ≡ some id)
  pub instance_id : (id : ℕ) × (p.runtime_worker_instance_id ≡ some id)
  pub generation : 1 ≤ p.runtime_generation
  pub wanted : is_run p.runtime_desired_state ≡ true
  pub state : may_deliver l.session.kind p.runtime_state ≡ true
  pub alone : is_maintenance l.session.kind ≡ true → has_other l.session.id p.id db.entries ≡ false

-- The parts of a `begin` that returned.
pub record BeginParts (authorized : ℕ → ℕ → Kind → Bool) (now m : ℕ) (db : Database)
    (result : Locked × Database) : Type 0 where
  pub locked : Locked
  pub profile : Profile
  pub pending : IsPending authorized now m false true db locked profile
  pub checked : IsDelivered locked profile db
  pub ended : deliver locked (checked.runtime.0) (checked.instance_id.0) profile db ≡ ok result

deliverable :
    (n : ℕ) (a b : Bool)
    → (not (leb 1 n) || (not a || not b)) ≡ false
    → (1 ≤ n) × (a ≡ true) × (b ≡ true)
deliverable n a b h = (ground arith, ground arith, ground arith)

none_other : (a b : Bool) → a ≡ true → (a && b) ≡ false → b ≡ false
none_other a b h k = ground arith

pub begin-BeginParts :
    (authorized : ℕ → ℕ → Kind → Bool) (now m : ℕ) (db : Database) (result : Locked × Database)
    → begin authorized now m db ≡ ok result
    → BeginParts authorized now m db result
unfolding begin
begin-BeginParts authorized now m db result done =
    let ((l, p), h0, k0) = bind_inversion _ _ done in
    let (runtime, h1, k1) = required _ _ _ k0 in
    let (instance_id, h2, k2) = required _ _ _ k1 in
    let (h3, k3) = passed _ _ _ k2 in
    let (h4, k4) = passed _ _ _ k3 in
    let (generation, wanted, state) = deliverable _ _ _ h3 in
    record {
      locked = l;
      profile = p;
      pending = with_pending-IsPending authorized now m false true db l p h0;
      checked = record {
        runtime = (runtime, h1);
        instance_id = (instance_id, h2);
        generation = generation;
        wanted = wanted;
        state = state;
        alone = λ h. none_other _ _ h h4;
      };
      ended = k4;
    }

-- The parts of an `accept` that returned.
pub record AcceptParts (authorized : ℕ → ℕ → Kind → Bool) (now m instance_id : ℕ)
    (fact : RuntimeFact) (observed_at : Option ℕ) (db after : Database) : Type 0 where
  pub observed : is_some observed_at ≡ true
  pub locked : Locked
  pub profile : Profile
  pub pending : IsPending authorized now m true false db locked profile
  pub same : matches fact instance_id locked profile ≡ true
  pub ended : accept_matching now fact locked db ≡ ok after

pub accept-AcceptParts :
    (authorized : ℕ → ℕ → Kind → Bool) (now m instance_id : ℕ) (fact : RuntimeFact)
    (observed_at : Option ℕ) (db after : Database)
    → accept authorized now m instance_id fact observed_at db ≡ ok after
    → AcceptParts authorized now m instance_id fact observed_at db after
unfolding accept
accept-AcceptParts authorized now m instance_id fact observed_at db after done =
    let (seen, k) = passed _ _ _ done in
    let ((l, p), h0, k0) = bind_inversion _ _ k in
    let (h1, k1) = passed _ _ _ k0 in
    record {
      locked = l;
      profile = p;
      pending = with_pending-IsPending authorized now m true false db l p h0;
      observed = not-false _ seen;
      same = not-false _ h1;
      ended = k1;
    }

pub is_active-eq : (s : ReservationStatus) → is_active s ≡ true → s ≡ active
is_active-eq s h = ground arith

pub is_run-eq : (s : DesiredState) → is_run s ≡ true → s ≡ desired_running
is_run-eq s h = ground arith

lock_row-message_id :
    (m : ℕ) (o : Option Entry) (l : Locked) → lock_row m o ≡ some l → l.reservation.message_id ≡ m
lock_row-message_id m none l h = cc
lock_row-message_id m (some e) l h = elim (Option-cases e.reservation) [
  | inl q ↦ ground arith
  | inr (r, q) ↦
      let named : (r.message_id == m) ≡ true = ground arith in
      let taken : ◌≡◌ {A = Locked} (record { session = e.session; reservation = r }) l =
        ground arith in
      ap (λ y. y.reservation.message_id) (sym taken) ∙ (==_iff r.message_id m).0 named
]

pub lock_reservation_session-message_id :
    (m : ℕ) (es : List Entry) (l : Locked)
    → lock_reservation_session m es ≡ some l
    → l.reservation.message_id ≡ m
unfolding lock_reservation_session
lock_reservation_session-message_id m es l h = elim (Option-cases (find_message m es)) [
  | inl q ↦ ground arith
  | inr (owner, q) ↦ lock_row-message_id m (find_session owner.session.id es) l (ground arith)
]
