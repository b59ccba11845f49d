-- ===== src/Sessions/Leases.antt =====
-- Renewal of Session leases: apps/backend/src/services/session-leases.ts. A snapshot is the list of
-- the Worker's Session facts, each with the time of its transaction; what `authorized` answers, the
-- Worker's row and the excluded Sessions are arguments. A time that does not parse is `none`.
use mathlib.Core.Path.{subst}
use browshare.Prelude.{
  ℕ, ◌+◌, ◌-◌, max, ◌≤◌, ◌<◌, ◌≡◌, refl, sym, ap, Bool, true, false, Option, none, some, List, [],
  ◌∷◌, arith, leb, ltb, ◌==◌, ◌&&◌, ◌||◌, not, if◌then◌else◌, is_some, same_opt,
}
use browshare.Sessions.{
  Kind, Session, Entry, Profile, Database, is_connectable, is_run, find_session, find_profile,
  store,
}
use browshare.Sessions.Lifecycle.{RuntimeFact}

pub record Grant : Type 0 where
  pub session_id : ℕ
  pub profile_id : ℕ
  pub runtime_id : ℕ
  pub profile_generation : ℕ
  pub tab_id : Option ℕ
  pub target_id : Option ℕ
  pub expires_at : ℕ

pub data WorkerStatus : Type 0 where
  pending online offline draining disabled : WorkerStatus

pub record Worker : Type 0 where
  pub status : WorkerStatus
  pub disabled_at : Option ℕ

abbrev pub duration : ℕ
duration = 600000

abbrev pub renew_before : ℕ
renew_before = 300000

abbrev pub is_serving : WorkerStatus → Bool
is_serving online = true
is_serving offline = true
is_serving draining = true
is_serving _ = false

abbrev pub may_serve : Option Worker → Bool
may_serve none = false
may_serve (some w) = not (is_some w.disabled_at) && is_serving w.status

-- The test of the Profile's row.
abbrev pub profile_matches : ℕ → ℕ → RuntimeFact → Option Profile → Bool
profile_matches worker_id instance_id fact none = false
profile_matches worker_id instance_id fact (some p) =
    (p.worker_id == worker_id)
    && (same_opt p.runtime_id (some fact.runtime_id)
        && ((p.runtime_generation == fact.profile_generation)
            && (same_opt p.runtime_worker_instance_id (some instance_id)
                && is_run p.runtime_desired_state)))

-- The test of the Session's row.
abbrev pub session_matches : ℕ → ℕ → RuntimeFact → Session → Bool
session_matches worker_id instance_id fact s =
    is_connectable s.status
    && ((s.worker_id == worker_id)
        && ((s.profile_id == fact.profile_id)
            && (same_opt s.runtime_id (some fact.runtime_id)
                && (same_opt s.profile_generation (some fact.profile_generation)
                    && (same_opt s.worker_instance_id (some instance_id)
                        && (is_some s.tab_id
                            && (is_some s.target_id
                                && (same_opt s.tab_id fact.tab_id
                                    && (same_opt s.target_id fact.target_id
                                        && (s.viewer_generation == fact.viewer_generation))))))))))

-- A lease is extended when it is about to end.
abbrev pub expiry : ℕ → ℕ → ℕ
expiry now saved = if leb (saved - now) renew_before then now + duration else saved

abbrev pub set_lease : ℕ → Entry → Entry
set_lease at e = record e { session = record (e.session) { lease_expires_at = some at } }

abbrev pub grant_of : RuntimeFact → Session → ℕ → Grant
grant_of fact s at = record {
  session_id = s.id;
  profile_id = s.profile_id;
  runtime_id = fact.runtime_id;
  profile_generation = fact.profile_generation;
  tab_id = s.tab_id;
  target_id = s.target_id;
  expires_at = at;
}

-- The end of the transaction: the row first, then what the Worker is told.
abbrev pub write_lease : Bool → ℕ → Entry → Database → Database
write_lease true at e db = db
write_lease false at e db = record db { entries = store (set_lease at e) db.entries }

abbrev pub extend : RuntimeFact → Entry → ℕ → ℕ → ℕ → Database → Option Grant × Database
extend fact e saved at actual db = (
  if leb at actual then none else some (grant_of fact e.session at),
  write_lease (at == saved) at e db,
)

-- Neither an expired lease nor one that the database does not know is extended.
abbrev pub renew :
    ℕ → RuntimeFact → Entry → Option ℕ → Option ℕ → Database → Option Grant × Database
renew now fact e (some saved) (some actual) db =
    if leb saved now || (leb actual now || ltb saved actual)
    then (none, db)
    else extend fact e saved (expiry now saved) actual db
renew now fact e _ _ db = (none, db)

abbrev pub grant_row :
    (ℕ → ℕ → Kind → Bool)
    → ℕ
    → ℕ
    → Option Worker
    → ℕ
    → RuntimeFact
    → Option Entry
    → Database
    → Option Grant × Database
grant_row authorized worker_id instance_id worker now fact none db = (none, db)
grant_row authorized worker_id instance_id worker now fact (some e) db =
    if session_matches worker_id instance_id fact e.session
      && (may_serve worker && authorized e.session.user_id e.session.profile_id e.session.kind)
    then renew now fact e e.session.lease_expires_at fact.lease_expires_at db
    else (none, db)

-- The transaction of one fact.
unfoldable pub grant_fact :
    (ℕ → ℕ → Kind → Bool)
    → ℕ
    → ℕ
    → Option Worker
    → ℕ
    → RuntimeFact
    → Database
    → Option Grant × Database
grant_fact authorized worker_id instance_id worker now fact db =
    if profile_matches worker_id instance_id fact (find_profile fact.profile_id db.profiles)
    then grant_row authorized worker_id instance_id worker now fact
        (find_session fact.session_id db.entries) db
    else (none, db)

abbrev pub add_grant : Option Grant → List Grant → List Grant
add_grant none gs = gs
add_grant (some g) gs = g ∷ gs

-- `grant`
unfoldable pub grant :
    (ℕ → ℕ → Kind → Bool)
    → ℕ
    → ℕ
    → Option Worker
    → (ℕ → Bool)
    → List (ℕ × RuntimeFact)
    → Database
    → List Grant × Database
unfolding grant_fact
grant authorized worker_id instance_id worker excluded [] db = ([], db)
grant authorized worker_id instance_id worker excluded ((now, fact) ∷ facts) db =
    let (g, next) =
      if excluded fact.session_id || not (is_connectable fact.status)
      then (none, db)
      else grant_fact authorized worker_id instance_id worker now fact db in
    let (gs, after) = grant authorized worker_id instance_id worker excluded facts next in
    (add_grant g gs, after)

-- What a grant may be: an extension of a lease that runs both in the database and at the Worker, for
-- a row that the fact describes and a user that is still authorized.
pub record IsSafe (authorized : ℕ → ℕ → Kind → Bool) (worker_id instance_id now : ℕ)
    (fact : RuntimeFact) (db after : Database) (g : Grant) : Type 0 where
  pub row : Entry
  pub saved : ℕ
  pub actual : ℕ
  pub stored : find_session fact.session_id db.entries ≡ some row
  pub same : session_matches worker_id instance_id fact row.session ≡ true
  pub granted : authorized row.session.user_id row.session.profile_id row.session.kind ≡ true
  pub known : (row.session.lease_expires_at ≡ some saved) × (fact.lease_expires_at ≡ some actual)
  pub alive : (now < saved) × (now < actual)
  pub bounds :
      (actual < g.expires_at) × (saved ≤ g.expires_at) × (g.expires_at ≤ max saved (now + duration))
  pub written : after ≡ write_lease (g.expires_at == saved) g.expires_at row db

no_grant :
    {g : Grant} {db after : Database}
    → ◌≡◌ {A = Option Grant × Database} (none, db) (some g, after)
    → ⊥
no_grant {g = g} h = let wrong : ◌≡◌ {A = Option Grant} none (some g) = ap (λ y. y.0) h in cc

-- A granted lease comes from the branch that grants.
if-granted :
    {g : Grant} {after : Database} (b : Bool) (x : Option Grant × Database) (db : Database)
    → (if b then x else (none, db)) ≡ (some g, after)
    → (b ≡ true) × (x ≡ (some g, after))
if-granted true x db h = (refl, h)
if-granted false x db h = absurd (no_grant h)

if-refused :
    {g : Grant} {after : Database} (b : Bool) (x : Option Grant × Database) (db : Database)
    → (if b then (none, db) else x) ≡ (some g, after)
    → (b ≡ false) × (x ≡ (some g, after))
if-refused true x db h = absurd (no_grant h)
if-refused false x db h = (refl, h)

if-some :
    (b : Bool) (x g : Grant)
    → ◌≡◌ {A = Option Grant} (if b then none else some x) (some g)
    → (b ≡ false) × (x ≡ g)
if-some true x g h = cc
if-some false x g h = (refl, cc)

running_bounds :
    (now saved actual : ℕ)
    → (leb saved now || (leb actual now || ltb saved actual)) ≡ false
    → (now < saved) × (now < actual)
running_bounds now saved actual h = (ground arith, ground arith)

at_least : (a x y : ℕ) → x ≡ y → a < y → a < x
at_least a x y h k = omega (arith, h, k)

expiry_bounds :
    (now saved : ℕ)
    → now < saved
    → (saved ≤ expiry now saved) × (expiry now saved ≤ max saved (now + duration))
expiry_bounds now saved h = (ground arith, ground arith)

extend-granted :
    (fact : RuntimeFact) (e : Entry) (saved at actual : ℕ) (db after : Database) (g : Grant)
    → extend fact e saved at actual db ≡ (some g, after)
    → (actual < at) × (g.expires_at ≡ at) × (after ≡ write_lease (at == saved) at e db)
extend-granted fact e saved at actual db after g h =
    let first : ◌≡◌ {A = Option Grant}
        (if leb at actual then none else some (grant_of fact e.session at)) (some g) =
      ap (λ y. y.0) h in
    let second : write_lease (at == saved) at e db ≡ after = ap (λ y. y.1) h in
    let (longer, row) = if-some (leb at actual) (grant_of fact e.session at) g first in
    (ground arith, sym (ap (λ y. y.expires_at) row), sym second)

split_and : (a b : Bool) → (a && b) ≡ true → (a ≡ true) × (b ≡ true)
split_and true b h = (refl, h)
split_and false b h = cc

module _ (authorized : ℕ → ℕ → Kind → Bool) (worker_id instance_id : ℕ) (worker : Option Worker)
    (now : ℕ) (fact : RuntimeFact) (db after : Database) (g : Grant) where
  renew-IsSafe :
      (e : Entry) (saved actual : Option ℕ)
      → e.session.lease_expires_at ≡ saved
      → fact.lease_expires_at ≡ actual
      → find_session fact.session_id db.entries ≡ some e
      → session_matches worker_id instance_id fact e.session ≡ true
      → authorized e.session.user_id e.session.profile_id e.session.kind ≡ true
      → renew now fact e saved actual db ≡ (some g, after)
      → IsSafe authorized worker_id instance_id now fact db after g
  renew-IsSafe e none actual h k stored same granted done = absurd (no_grant done)
  renew-IsSafe e (some saved) none h k stored same granted done = absurd (no_grant done)
  renew-IsSafe e (some saved) (some actual) h k stored same granted done =
      let (running, rest) =
        if-refused (leb saved now || (leb actual now || ltb saved actual))
          (extend fact e saved (expiry now saved) actual db) db done in
      let (longer, at, written) =
        extend-granted fact e saved (expiry now saved) actual db after g rest in
      let alive = running_bounds now saved actual running in
      let (more, less) = expiry_bounds now saved alive.0 in
      record {
        row = e;
        saved = saved;
        actual = actual;
        stored = stored;
        same = same;
        granted = granted;
        known = (h, k);
        alive = alive;
        bounds = (
          at_least _ _ _ at longer,
          subst (λ x. saved ≤ x) (sym at) more,
          subst (λ x. x ≤ max saved (now + duration)) (sym at) less,
        );
        written = subst (λ x. after ≡ write_lease (x == saved) x e db) (sym at) written;
      }

  grant_row-IsSafe :
      (o : Option Entry)
      → find_session fact.session_id db.entries ≡ o
      → grant_row authorized worker_id instance_id worker now fact o db ≡ (some g, after)
      → IsSafe authorized worker_id instance_id now fact db after g
  grant_row-IsSafe none stored done = absurd (no_grant done)
  grant_row-IsSafe (some e) stored done =
      let (tests, rest) =
        if-granted _ (renew now fact e e.session.lease_expires_at fact.lease_expires_at db) db
          done in
      let (same, tests') =
        split_and (session_matches worker_id instance_id fact e.session) _ tests in
      let (serving, granted) =
        split_and (may_serve worker)
          (authorized e.session.user_id e.session.profile_id e.session.kind) tests' in
      renew-IsSafe e e.session.lease_expires_at fact.lease_expires_at refl refl stored same granted
        rest

  -- A grant that `grant_fact` gives a Worker extends a lease that has ended neither in the database nor at the Worker, of
  -- a stored Session that the fact describes in every part and whose user is still authorized. It
  -- ends later than the Worker's lease, no earlier than the stored one, and at most ten minutes from
  -- now or as stored; what is stored is then exactly what was granted, and nothing else changes.
  pub grant_fact-IsSafe :
      grant_fact authorized worker_id instance_id worker now fact db ≡ (some g, after)
      → IsSafe authorized worker_id instance_id now fact db after g
  unfolding grant_fact
  grant_fact-IsSafe done =
      let (matching, rest) =
        if-granted
          (profile_matches worker_id instance_id fact (find_profile fact.profile_id db.profiles)) _
          db done in
      grant_row-IsSafe (find_session fact.session_id db.entries) refl rest
