-- ===== src/Sessions/Capacity.antt =====
-- The capacity of Users, Profiles and Workers, and the rows that a reservation inserts: a part of
-- `reserve` of apps/backend/src/services/session-reservations.ts. The rest of `reserve` (who may use
-- the Profile, the Worker's state, the frozen policies and the create command) is not modelled.
use mathlib.Core.Path.{subst}
use browshare.Prelude.{
  ℕ, ◌+◌, ◌≤◌, ◌≡◌, refl, Bool, true, false, Option, none, some, List, [], ◌∷◌, ◌++◌, arith, leb,
  ◌==◌, ◌&&◌, not, if◌then◌else◌, Outcome, ok, throw, ◌>>◌, ok-injective, ◌↔◌,
}
use browshare.Sessions.{reserved, active, Kind, Session, Entry, is_terminal, is_maintenance}
use browshare.Sessions.Transitions.{is_consistent, Consistent}

pub data Scope : Type 0 where
  user_scope profile_scope worker_scope : Scope

-- What the locked User, Profile and Worker say of a reservation; a limit that is null is `none`.
pub record Request : Type 0 where
  pub user_id : ℕ
  pub profile_id : ℕ
  pub worker_id : ℕ
  pub kind : Kind
  pub max_active_sessions : Option ℕ
  pub max_normal_sessions : Option ℕ
  pub max_active_tabs : Option ℕ

pub data CapacityError : Type 0 where
  capacity_exceeded : Scope → (limit active : ℕ) → CapacityError

abbrev pub is_worker_scope : Scope → Bool
is_worker_scope worker_scope = true
is_worker_scope _ = false

abbrev pub has_column : Scope → Request → Session → Bool
has_column user_scope q s = s.user_id == q.user_id
has_column profile_scope q s = s.profile_id == q.profile_id
has_column worker_scope q s = s.worker_id == q.worker_id

-- Maintenance does not count the Sessions of its own Profile, which it closes; only a Worker counts
-- maintenance Sessions otherwise.
abbrev pub is_counted_kind : Scope → Request → Session → Bool
is_counted_kind scope q s =
    if is_maintenance q.kind
    then not (s.profile_id == q.profile_id)
    else if is_worker_scope scope
    then true
    else not (is_maintenance s.kind)

abbrev pub is_counted : Scope → Request → Entry → Bool
is_counted scope q e =
    has_column scope q e.session
    && (not (is_terminal e.session.status) && is_counted_kind scope q e.session)

unfoldable pub active_count : Scope → Request → List Entry → ℕ
active_count scope q [] = 0
active_count scope q (e ∷ es) = (if is_counted scope q e then 1 else 0) + active_count scope q es

abbrev pub limit_of : Scope → Request → Option ℕ
limit_of user_scope q = q.max_active_sessions
limit_of profile_scope q = q.max_normal_sessions
limit_of worker_scope q = q.max_active_tabs

-- The limits that a maintenance Session passes over.
abbrev pub is_checked : Scope → Request → Bool
is_checked scope q = if is_maintenance q.kind then is_worker_scope scope else true

abbrev pub check_limit : Scope → Option ℕ → ℕ → Outcome CapacityError (Unit {0})
check_limit scope none count = ok tt
check_limit scope (some limit) count =
    if leb limit count then throw (capacity_exceeded scope limit count) else ok tt

-- One round of the loop over the three scopes.
abbrev pub check_scope : Scope → Request → List Entry → Outcome CapacityError (Unit {0})
check_scope scope q es =
    if is_checked scope q
    then check_limit scope (limit_of scope q) (active_count scope q es)
    else ok tt

unfoldable pub check_capacity : Request → List Entry → Outcome CapacityError (Unit {0})
check_capacity q es = do
  check_scope user_scope q es
  check_scope profile_scope q es
  check_scope worker_scope q es

-- The inserted Session and reservation.
abbrev pub reserved_entry : (session_id reservation_id message_id now : ℕ) → Request → Entry
reserved_entry session_id reservation_id message_id now q = record {
  session = record {
    id = session_id;
    user_id = q.user_id;
    profile_id = q.profile_id;
    worker_id = q.worker_id;
    kind = q.kind;
    status = reserved;
    runtime_id = none;
    profile_generation = none;
    worker_instance_id = none;
    tab_id = none;
    target_id = none;
    viewer_generation = 0;
    lease_expires_at = some (now + 600000);
    closing_at = none;
    closed_at = none;
    cause = none;
  };
  reservation = some (record {
    id = reservation_id;
    message_id = message_id;
    profile_id = q.profile_id;
    status = active;
    expires_at = now + 120000;
    consumed_at = none;
    released_at = none;
    release_reason = none;
  });
}

unfoldable pub reserve_slot :
    (session_id reservation_id message_id now : ℕ)
    → Request
    → List Entry
    → Outcome CapacityError (List Entry)
unfolding check_capacity
reserve_slot session_id reservation_id message_id now q es = elim (check_capacity q es) [
  | ok u ↦ ok (es ++ reserved_entry session_id reservation_id message_id now q ∷ [])
  | throw e ↦ throw e
]

active_count-append :
    (scope : Scope) (q : Request) (es : List Entry) (e : Entry)
    → active_count scope q (es ++ e ∷ []) ≤ active_count scope q es + 1
unfolding active_count
active_count-append scope q [] e = ground arith
active_count-append scope q (x ∷ es) e =
    let rest = active_count-append scope q es e in omega (arith, rest)

-- One limit is kept exactly if its check passes.
limit_kept :
    (scope : Scope) (b : Bool) (o : Option ℕ) (n limit : ℕ)
    → (if b then check_limit scope o n else ok tt) ≡ ok tt
    → b ≡ true
    → o ≡ some limit
    → n + 1 ≤ limit
limit_kept scope true (some l) n limit h checked known = ground arith
limit_kept scope true none n limit h checked known = cc
limit_kept scope false o n limit h checked known = cc

limit_passes :
    (scope : Scope) (b : Bool) (o : Option ℕ) (n : ℕ)
    → ((limit : ℕ) → b ≡ true → o ≡ some limit → n + 1 ≤ limit)
    → (if b then check_limit scope o n else ok tt) ≡ ok tt
limit_passes scope true (some l) n room = let enough = room l refl refl in ground arith
limit_passes scope true none n room = refl
limit_passes scope false o n room = refl

-- Room for one Session more under every limit that is checked.
abbrev pub HasRoom : Request → List Entry → Type 0
HasRoom q es =
    (scope : Scope) (limit : ℕ)
    → is_checked scope q ≡ true
    → limit_of scope q ≡ some limit
    → active_count scope q es + 1 ≤ limit

all_pass :
    (a b c : Outcome CapacityError (Unit {0}))
    → (a >> (b >> c)) ≡ ok tt
    → (a ≡ ok tt) × (b ≡ ok tt) × (c ≡ ok tt)
all_pass (ok u) (ok v) (ok w) h = (refl, refl, refl)
all_pass (ok u) (ok v) (throw e) h = cc
all_pass (ok u) (throw e) c h = cc
all_pass (throw e) b c h = cc

pass_all :
    (a b c : Outcome CapacityError (Unit {0}))
    → a ≡ ok tt
    → b ≡ ok tt
    → c ≡ ok tt
    → (a >> (b >> c)) ≡ ok tt
pass_all (ok u) (ok v) (ok w) h k l = refl
pass_all (ok u) (ok v) (throw e) h k l = cc
pass_all (ok u) (throw e) c h k l = cc
pass_all (throw e) b c h k l = cc

check_capacity-HasRoom :
    (q : Request) (es : List Entry) → check_capacity q es ≡ ok tt → HasRoom q es
unfolding check_capacity
check_capacity-HasRoom q es h scope limit checked known =
    let (user, profile, worker) =
      all_pass (check_scope user_scope q es) (check_scope profile_scope q es)
        (check_scope worker_scope q es) h in
    elim scope
        as (λ s.
          is_checked s q ≡ true → limit_of s q ≡ some limit → active_count s q es + 1 ≤ limit) [
            | user_scope ↦ limit_kept user_scope _ _ _ limit user
            | profile_scope ↦ limit_kept profile_scope _ _ _ limit profile
            | worker_scope ↦ limit_kept worker_scope _ _ _ limit worker
          ]
      checked known

HasRoom-check_capacity :
    (q : Request) (es : List Entry) → HasRoom q es → check_capacity q es ≡ ok tt
unfolding check_capacity
HasRoom-check_capacity q es room =
    pass_all (check_scope user_scope q es) (check_scope profile_scope q es)
      (check_scope worker_scope q es) (limit_passes user_scope _ _ _ (room user_scope))
      (limit_passes profile_scope _ _ _ (room profile_scope))
      (limit_passes worker_scope _ _ _ (room worker_scope))

-- The tables with the inserted rows, if there is room.
inserted :
    (o : Outcome CapacityError (Unit {0})) (es after : List Entry)
    → (elim o [ ok u ↦ ok es | throw e ↦ throw e ]) ≡ ok after
    → (o ≡ ok tt) × (es ≡ after)
inserted (ok u) es after h = (refl, ok-injective h)
inserted (throw e) es after h = cc

Consistent-append :
    (es : List Entry) (e : Entry)
    → Consistent es
    → is_consistent e ≡ true
    → Consistent (es ++ e ∷ [])
Consistent-append [] e all sound = (sound, tt)
Consistent-append (x ∷ es) e (here, all) sound = (here, Consistent-append es e all sound)

-- A reservation that is admitted to consistent tables leaves them consistent, its own Session
-- included, and keeps every limit that is checked for its kind: the Sessions that count for the
-- limit, after it is inserted, are no more than the limit.
pub reserve_slot-Consistent :
    (session_id reservation_id message_id now : ℕ) (q : Request) (es after : List Entry)
    → Consistent es
    → reserve_slot session_id reservation_id message_id now q es ≡ ok after
    → Consistent after
      × ((scope : Scope) (limit : ℕ)
          → is_checked scope q ≡ true
          → limit_of scope q ≡ some limit
          → active_count scope q after ≤ limit)
unfolding reserve_slot
reserve_slot-Consistent session_id reservation_id message_id now q es after all done =
    let e : Entry = reserved_entry session_id reservation_id message_id now q in
    let (passed, same) = inserted (check_capacity q es) (es ++ e ∷ []) after done in
    subst
      (λ t.
        Consistent t
        × ((scope : Scope) (limit : ℕ)
            → is_checked scope q ≡ true
            → limit_of scope q ≡ some limit
            → active_count scope q t ≤ limit))
      same
      (
        Consistent-append es e all refl,
        λ scope limit checked known.
            let before = check_capacity-HasRoom q es passed scope limit checked known in
            let more = active_count-append scope q es e in omega (arith, before, more),
      )

-- Exactly if there is room for one Session more under every limit that is checked for its kind, the
-- capacity admits a reservation.
pub check_capacity_iff :
    (q : Request) (es : List Entry) → (check_capacity q es ≡ ok tt) ↔ HasRoom q es
check_capacity_iff q es = (check_capacity-HasRoom q es, HasRoom-check_capacity q es)
