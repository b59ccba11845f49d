-- ===== src/Sessions/Expiry.antt =====
-- The end of a reservation without a Session: `fail`, `expire` and `finishReservation` of
-- apps/backend/src/services/session-reservations.ts. A failure code is a string; the test that it is
-- a stable reason code is an argument. Rows that other transactions lock are an argument too.
use browshare.Prelude.{
  ℕ, zero, suc, Bool, false, Option, none, some, List, [], ◌∷◌, ◌++◌, String, leb, ◌&&◌, not,
  if◌then◌else◌, length,
}
use browshare.Sessions.{
  failed, ReservationStatus, released, expired, code, Session, Reservation, Entry, session_failed,
  Database, is_pending, is_active, find_session, store,
}
use browshare.Sessions.Lifecycle.{Locked, lock_reservation_session}

-- The two updates of `finishReservation`.
abbrev pub failed_entry : ℕ → String → ReservationStatus → Locked → Entry
failed_entry now reason state l = record {
  session = record (l.session) {
    status = failed;
    closed_at = some now;
    cause = some (code reason);
  };
  reservation = some (record (l.reservation) {
    status = state;
    released_at = some now;
    release_reason = some (code reason);
  });
}

unfoldable pub finish_reservation : ℕ → String → ReservationStatus → Locked → Database → Database
finish_reservation now reason state l db = record db {
  entries = store (failed_entry now reason state l) db.entries;
  events = db.events ++ (l.session.id, session_failed) ∷ [];
  audits = db.audits ++ (l.session.id, some (code reason)) ∷ [];
}

abbrev pub fail_locked : ℕ → String → Option Locked → Database → Database
unfolding finish_reservation
fail_locked now reason none db = db
fail_locked now reason (some l) db =
    if is_active l.reservation.status && is_pending l.session.status
    then finish_reservation now reason released l db
    else db

-- `fail`; a code that is not stable is a `TypeError`, `none`.
unfoldable pub fail : (String → Bool) → ℕ → ℕ → String → Database → Option Database
fail is_stable now m reason db =
    if is_stable reason
    then some (fail_locked now reason (lock_reservation_session m db.entries) db)
    else none

-- What the query of `expire` selects.
abbrev pub is_due_reservation : ℕ → Option Reservation → Bool
is_due_reservation now none = false
is_due_reservation now (some r) = is_active r.status && leb r.expires_at now

abbrev pub is_due : ℕ → Entry → Bool
is_due now e = is_due_reservation now e.reservation && is_pending e.session.status

abbrev pub expiry_of : Entry → ℕ
expiry_of e = elim e.reservation [ none ↦ 0 | some r ↦ r.expires_at ]

-- `orderBy(asc(expiresAt))`
abbrev pub insert_expiry : Entry → List Entry → List Entry
insert_expiry e [] = e ∷ []
insert_expiry e (x ∷ xs) =
    if leb (expiry_of e) (expiry_of x) then e ∷ x ∷ xs else x ∷ insert_expiry e xs

-- The due rows that nobody else has locked, by their deadlines.
unfoldable pub due_rows : (ℕ → Bool) → ℕ → List Entry → List Entry
due_rows is_locked now [] = []
due_rows is_locked now (e ∷ es) =
    let rest = due_rows is_locked now es in
    if is_due now e && not (is_locked e.session.id) then insert_expiry e rest else rest

abbrev pub take : ℕ → List Entry → List Entry
take n [] = []
take zero (x ∷ xs) = []
take (suc n) (x ∷ xs) = x ∷ take n xs

-- A selected row whose reservation, read again, is still active.
abbrev pub expire_reservation : ℕ → Session → Option Reservation → Database → Database
unfolding finish_reservation
expire_reservation now s none db = db
expire_reservation now s (some r) db =
    if is_active r.status
    then finish_reservation now "SESSION_RESERVATION_EXPIRED" expired
        (record { session = s; reservation = r }) db
    else db

abbrev pub expire_row : ℕ → Option Entry → Database → Database
expire_row now none db = db
expire_row now (some e) db = expire_reservation now e.session e.reservation db

abbrev pub expire_rows : ℕ → List Entry → Database → Database
expire_rows now [] db = db
expire_rows now (e ∷ es) db =
    expire_rows now es (expire_row now (find_session e.session.id db.entries) db)

unfoldable pub expire : (ℕ → Bool) → ℕ → Database → Database × ℕ
unfolding due_rows
expire is_locked now db =
    let selected = take 100 (due_rows is_locked now db.entries) in
    (expire_rows now selected db, length selected)
