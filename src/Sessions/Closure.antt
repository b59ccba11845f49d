-- ===== src/Sessions/Closure.antt =====
-- Closing a Session: apps/backend/src/services/session-closure.ts. The transaction's time is an
-- argument; an exception rolls the transaction back.
use browshare.Prelude.{
  ℕ, ◌+◌, Bool, true, false, Option, none, some, List, [], ◌∷◌, ◌++◌, ◌==◌, ◌&&◌, ◌||◌, not,
  if◌then◌else◌, is_some, Outcome, ok, throw,
}
use browshare.Sessions.{
  Status, reserved, closing, closed, failed, released, Session, Reservation, Entry, ViewerTicket,
  TicketStatus, ticket_active, ticket_revoked, CloseCommand, CloseReason, Cause, close_reason,
  session_closing, session_closed, Database, store, is_active, is_consumed,
}

abbrev pub is_over : Status → Bool
is_over closing = true
is_over closed = true
is_over failed = true
is_over _ = false

-- `releaseReservation`: only an active or consumed reservation is released.
abbrev pub release_row : Cause → ℕ → Reservation → Reservation
release_row cause now r =
    if is_active r.status || is_consumed r.status
    then record r { status = released; released_at = some now; release_reason = some cause }
    else r

abbrev pub release_reservation : Cause → ℕ → Option Reservation → Option Reservation
release_reservation cause now none = none
release_reservation cause now (some r) = some (release_row cause now r)

abbrev pub is_ticket_active : TicketStatus → Bool
is_ticket_active ticket_active = true
is_ticket_active _ = false

abbrev pub revoke_ticket : ℕ → ViewerTicket → ViewerTicket
revoke_ticket id t =
    if (t.session_id == id) && is_ticket_active t.status
    then record t { status = ticket_revoked }
    else t

abbrev pub revoke_tickets : ℕ → List ViewerTicket → List ViewerTicket
revoke_tickets id [] = []
revoke_tickets id (t ∷ ts) = revoke_ticket id t ∷ revoke_tickets id ts

abbrev pub is_reserved : Status → Bool
is_reserved reserved = true
is_reserved _ = false

-- A Session that no Worker has seen is closed at once.
abbrev pub is_immediate : Session → Bool
is_immediate s = is_reserved s.status && not (is_some s.runtime_id)

-- The update of the Session row.
abbrev pub close_row : CloseReason → ℕ → Session → Session
close_row reason now s =
    if is_immediate s
    then record s {
      status = closed;
      closing_at = some now;
      cause = some (close_reason reason);
      closed_at = some now;
    }
    else record s { status = closing; closing_at = some now; cause = some (close_reason reason) }

-- The runtime identity that a close command must name: runtime, instance, generation, reservation.
abbrev pub full_identity :
    Option ℕ → Option ℕ → Option ℕ → Reservation → Option (ℕ × ℕ × ℕ × Reservation)
full_identity (some runtime) (some instance_id) (some generation) r =
    some (runtime, instance_id, generation, r)
full_identity _ _ _ r = none

abbrev pub close_identity : Session → Option Reservation → Option (ℕ × ℕ × ℕ × Reservation)
close_identity s none = none
close_identity s (some r) = full_identity s.runtime_id s.worker_instance_id s.profile_generation r

abbrev pub close_command : Session → CloseReason → ℕ → ℕ × ℕ × ℕ × Reservation → CloseCommand
close_command s reason now (runtime, instance_id, generation, r) = record {
  session_id = s.id;
  worker_id = s.worker_id;
  instance_id = instance_id;
  profile_id = s.profile_id;
  runtime_id = runtime;
  profile_generation = generation;
  creation_expires_at = r.expires_at;
  expires_at = now + 120000;
  reason = reason;
}

pub data CloseError : Type 0 where
  identity_missing : CloseError

-- The branch of a Session without a Worker: its reservation is free at once.
abbrev pub close_now : Entry → CloseReason → ℕ → Database → Database
close_now e reason now db = record db {
  entries =
      store
        (record {
          session = close_row reason now e.session;
          reservation = release_reservation (close_reason reason) now e.reservation;
        })
        db.entries;
  tickets = revoke_tickets e.session.id db.tickets;
  events = db.events ++ (e.session.id, session_closing) ∷ (e.session.id, session_closed) ∷ [];
  audits = db.audits ++ (e.session.id, some (close_reason reason)) ∷ [];
}

-- The other branch: the Worker is told, through the outbox.
abbrev pub close_later : Entry → CloseReason → ℕ → ℕ × ℕ × ℕ × Reservation → Database → Database
close_later e reason now identity db = record db {
  entries =
      store (record { session = close_row reason now e.session; reservation = e.reservation })
        db.entries;
  tickets = revoke_tickets e.session.id db.tickets;
  events = db.events ++ (e.session.id, session_closing) ∷ [];
  close_outbox = db.close_outbox ++ close_command e.session reason now identity ∷ [];
  audits = db.audits ++ (e.session.id, some (close_reason reason)) ∷ [];
}

abbrev pub close_live : Entry → CloseReason → ℕ → Database → Outcome CloseError Database
close_live e reason now db = elim (close_identity e.session e.reservation) [
  | none ↦ throw identity_missing
  | some identity ↦ ok (close_later e reason now identity db)
]

-- `queueSessionClose` of a locked entry.
unfoldable pub queue_session_close :
    Entry → CloseReason → ℕ → Database → Outcome CloseError Database
queue_session_close e reason now db =
    if is_over e.session.status
    then ok db
    else if is_immediate e.session
    then ok (close_now e reason now db)
    else close_live e reason now db
