-- ===== src/Sessions/Histories.antt =====
-- Every operation of Closure, Lifecycle and Expiry is a sequence of moves, and so is every history of them.
use mathlib.Core.Path.{subst}
use browshare.Prelude.{
  ℕ, ◌≡◌, refl, sym, ap, inl, inr, Bool, true, false, Option, none, some, List, [], ◌∷◌, String,
  arith, ◌==◌, ◌&&◌, if◌then◌else◌, Outcome, ok, throw, Option-cases, ok-injective,
}
use browshare.Sessions.{
  creating, failed, ReservationStatus, active, released, expired, CloseReason, close_reason,
  Session, Reservation, Entry, Database, Profile, is_pending, is_active, is_consumed, find_message,
  find_session, store,
}
use browshare.Sessions.Closure.{
  queue_session_close, close_row, release_reservation, is_immediate, is_over, close_identity,
  close_live, close_later, identity_missing, is_reserved,
}
use browshare.Sessions.Lifecycle.{
  Locked, lock_row, lock_reservation_session, is_open, deliver, RuntimeFact, accept_matching,
  ready_entry, is_creating,
}
use browshare.Sessions.Expiry.{
  failed_entry, finish_reservation, fail_locked, expire_reservation, expire_row, expire_rows,
}
use browshare.Sessions.Transitions.{
  fits, is_consistent, Change, Reached, stay, change, Reached-trans, find_session-id,
}

close_now-Change :
    (e : Entry) (reason : CloseReason) (now : ℕ)
    → is_immediate e.session ≡ true
    → is_consistent e ≡ true
    → Change e (record {
      session = close_row reason now e.session;
      reservation = release_reservation (close_reason reason) now e.reservation;
    })
close_now-Change e reason now immediate sound = record {
  same = ground arith;
  moved = ground arith;
  sound = ground arith;
}

close_later-Change :
    (e : Entry) (reason : CloseReason) (now : ℕ)
    → is_over e.session.status ≡ false
    → is_immediate e.session ≡ false
    → is_consistent e ≡ true
    → Change e (record { session = close_row reason now e.session; reservation = e.reservation })
close_later-Change e reason now alive later sound = record {
  same = ground arith;
  moved = ground arith;
  sound = ground arith;
}

failed_entry-Change :
    (now : ℕ) (reason : String) (state : ReservationStatus) (s : Session) (r : Reservation)
    → fits failed state ≡ true
    → r.status ≡ active
    → is_consistent (record { session = s; reservation = some r }) ≡ true
    → Change
        (record { session = s; reservation = some r })
        (failed_entry now reason state (record { session = s; reservation = r }))
failed_entry-Change now reason state s r ends unused sound = record {
  same = ground arith;
  moved = ground arith;
  sound = ground arith;
}

-- A row that is found and takes one move.
moved :
    {es : List Entry} (e n : Entry)
    → find_session e.session.id es ≡ some e
    → (is_consistent e ≡ true → Change e n)
    → Reached es (store n es)
moved e n found sound = change e n found sound stay

-- A transaction that returns has only made moves.
abbrev pub Moves : {E A : Type 0} → (A → List Entry) → List Entry → Outcome E A → Type 0
Moves table es (ok x) = Reached es (table x)
Moves table es (throw e) = Unit

pub Moves-ok :
    {E A : Type 0} {x : A} (table : A → List Entry) (es : List Entry) (o : Outcome E A)
    → Moves table es o
    → o ≡ ok x
    → Reached es (table x)
Moves-ok table es (ok y) moves done = subst (λ z. Reached es (table z)) (ok-injective done) moves
Moves-ok table es (throw e) moves done = cc

Moves-if :
    {E A : Type 0} (table : A → List Entry) (es : List Entry) (b : Bool) (x y : Outcome E A)
    → (b ≡ true → Moves table es x)
    → (b ≡ false → Moves table es y)
    → Moves table es (if b then x else y)
Moves-if table es true x y when otherwise = when refl
Moves-if table es false x y when otherwise = otherwise refl

unchanged-if :
    {E A : Type 0} (table : A → List Entry) (b : Bool) (x : A) (e : E)
    → Moves table (table x) (if b then ok x else throw e)
unchanged-if table true x e = stay
unchanged-if table false x e = tt

abbrev pub rows : Database → List Entry
rows db = db.entries

Reached-if :
    {es : List Entry} (b : Bool) (x y : Database)
    → (b ≡ true → Reached es x.entries)
    → (b ≡ false → Reached es y.entries)
    → Reached es (if b then x else y).entries
Reached-if true x y when otherwise = when refl
Reached-if false x y when otherwise = otherwise refl

close_live-Moves :
    (e : Entry) (reason : CloseReason) (now : ℕ) (db : Database)
    → find_session e.session.id db.entries ≡ some e
    → is_over e.session.status ≡ false
    → is_immediate e.session ≡ false
    → Moves rows db.entries (close_live e reason now db)
close_live-Moves e reason now db found alive later =
    elim (Option-cases (close_identity e.session e.reservation)) [
      | inl h ↦
          subst
            (λ o. Moves rows db.entries (elim o [
              | none ↦ throw identity_missing
              | some identity ↦ ok (close_later e reason now identity db)
            ]))
            (sym h) tt
      | inr (identity, h) ↦
          subst
            (λ o. Moves rows db.entries (elim o [
              | none ↦ throw identity_missing
              | some identity ↦ ok (close_later e reason now identity db)
            ]))
            (sym h) (moved e _ found (close_later-Change e reason now alive later))
    ]

-- Closing a stored row is a move of it.
pub queue_session_close-Moves :
    (e : Entry) (reason : CloseReason) (now : ℕ) (db : Database)
    → find_session e.session.id db.entries ≡ some e
    → Moves rows db.entries (queue_session_close e reason now db)
unfolding queue_session_close
queue_session_close-Moves e reason now db found =
    Moves-if rows db.entries (is_over e.session.status) _ _ (λ _. stay)
      (λ alive.
        Moves-if rows db.entries (is_immediate e.session) _ _
          (λ i. moved e _ found (close_now-Change e reason now i))
          (λ i. close_live-Moves e reason now db found alive i))

lock_row-entry :
    (m : ℕ) (o : Option Entry) (l : Locked)
    → lock_row m o ≡ some l
    → o ≡ some (record { session = l.session; reservation = some l.reservation })
lock_row-entry m none l h = cc
lock_row-entry m (some e) l h = elim (Option-cases e.reservation) [
  | inl q ↦ ground arith
  | inr (r, q) ↦
      let named : (r.message_id == m) ≡ true = ground arith in
      let row : ◌≡◌ {A = Locked} (record { session = e.session; reservation = r }) l =
        ground arith in
      let kept : r ≡ l.reservation = ap (λ y. y.reservation) row in
      let taken : e.session ≡ l.session = ap (λ y. y.session) row in ground arith
]

-- A locked row is the stored one.
pub lock_reservation_session-stored :
    (m : ℕ) (es : List Entry) (l : Locked)
    → lock_reservation_session m es ≡ some l
    → find_session l.session.id es
      ≡ some (record { session = l.session; reservation = some l.reservation })
unfolding lock_reservation_session
lock_reservation_session-stored m es l h = elim (Option-cases (find_message m es)) [
  | inl q ↦ ground arith
  | inr (owner, q) ↦
      let read : lock_row m (find_session owner.session.id es) ≡ some l = ground arith in
      let row = lock_row-entry m (find_session owner.session.id es) l read in
      let named = find_session-id owner.session.id _ es row in
      subst
        (λ id.
          find_session id es
          ≡ some (record { session = l.session; reservation = some l.reservation }))
        (sym named) row
]

pub fail_locked-Reached :
    (now : ℕ) (reason : String) (db : Database) (o : Option Locked)
    → ((l : Locked)
        → o ≡ some l
        → find_session l.session.id db.entries
          ≡ some (record { session = l.session; reservation = some l.reservation }))
    → Reached db.entries (fail_locked now reason o db).entries
unfolding finish_reservation
fail_locked-Reached now reason db none stored = stay
fail_locked-Reached now reason db (some l) stored =
    Reached-if (is_active l.reservation.status && is_pending l.session.status) _ _
      (λ y.
        moved (record { session = l.session; reservation = some l.reservation }) _ (stored l refl)
          (failed_entry-Change now reason released l.session l.reservation refl (ground arith)))
      (λ _. stay)

abbrev pub row : Locked → Entry
row l = record { session = l.session; reservation = some l.reservation }

pub found_again :
    (id : ℕ) (e : Entry) (es : List Entry)
    → find_session id es ≡ some e
    → find_session e.session.id es ≡ some e
found_again id e es found =
    subst (λ x. find_session x es ≡ some e) (sym (find_session-id id e es found)) found

expire_reservation-Reached :
    (now : ℕ) (s : Session) (o : Option Reservation) (db : Database)
    → find_session s.id db.entries ≡ some (record { session = s; reservation = o })
    → Reached db.entries (expire_reservation now s o db).entries
unfolding finish_reservation
expire_reservation-Reached now s none db found = stay
expire_reservation-Reached now s (some r) db found =
    Reached-if (is_active r.status) _ _
      (λ h.
        moved (record { session = s; reservation = some r }) _ found
          (failed_entry-Change now "SESSION_RESERVATION_EXPIRED" expired s r refl (ground arith)))
      (λ _. stay)

expire_row-Reached :
    (now id : ℕ) (db : Database) (o : Option Entry)
    → find_session id db.entries ≡ o
    → Reached db.entries (expire_row now o db).entries
expire_row-Reached now id db none found = stay
expire_row-Reached now id db (some e) found =
    expire_reservation-Reached now e.session e.reservation db (found_again id e db.entries found)

pub expire_rows-Reached :
    (now : ℕ) (es : List Entry) (db : Database) → Reached db.entries (expire_rows now es db).entries
expire_rows-Reached now [] db = stay
expire_rows-Reached now (e ∷ es) db =
    Reached-trans (expire_row-Reached now e.session.id db _ refl)
      (expire_rows-Reached now es (expire_row now (find_session e.session.id db.entries) db))

deliver-Change :
    (l : Locked) (runtime instance_id : ℕ) (p : Profile)
    → is_open false l ≡ true
    → is_reserved l.session.status ≡ true
    → is_consistent (row l) ≡ true
    → Change (row l) (record {
      session = record (l.session) {
        status = creating;
        runtime_id = some runtime;
        profile_generation = some p.runtime_generation;
        worker_instance_id = some instance_id;
      };
      reservation = some l.reservation;
    })
deliver-Change l runtime instance_id p live early sound = record {
  same = ground arith;
  moved = ground arith;
  sound = ground arith;
}

ready_entry-Change :
    (now : ℕ) (fact : RuntimeFact) (l : Locked)
    → is_open true l ≡ true
    → is_consumed l.reservation.status ≡ false
    → is_creating l.session.status ≡ true
    → is_consistent (row l) ≡ true
    → Change (row l) (ready_entry now fact l)
ready_entry-Change now fact l live fresh begun sound = record {
  same = ground arith;
  moved = ground arith;
  sound = ground arith;
}

pub deliver-Moves :
    (l : Locked) (runtime instance_id : ℕ) (p : Profile) (db : Database)
    → find_session l.session.id db.entries ≡ some (row l)
    → is_open false l ≡ true
    → Moves (λ r. r.1.entries) db.entries (deliver l runtime instance_id p db)
deliver-Moves l runtime instance_id p db found live =
    Moves-if _ db.entries (is_reserved l.session.status) _ _
      (λ early. moved (row l) _ found (deliver-Change l runtime instance_id p live early))
      (λ _. unchanged-if (λ (r : Locked × Database). r.1.entries) _ _ _)

pub accept_matching-Moves :
    (now : ℕ) (fact : RuntimeFact) (l : Locked) (db : Database)
    → find_session l.session.id db.entries ≡ some (row l)
    → is_open true l ≡ true
    → Moves rows db.entries (accept_matching now fact l db)
accept_matching-Moves now fact l db found live =
    Moves-if rows db.entries (is_consumed l.reservation.status) _ _ (λ _. unchanged-if rows _ _ _)
      (λ fresh.
        Moves-if rows db.entries (is_creating l.session.status) _ _
          (λ begun. moved (row l) _ found (ready_entry-Change now fact l live fresh begun))
          (λ _. tt))
