-- ===== src/Sessions/Closing.antt =====
-- What a close promises: `queueSessionClose` of apps/backend/src/services/session-closure.ts.
use browshare.Prelude.{ℕ, ◌≡◌, ◌⊎◌, true, false, some, [], ◌∷◌, ◌++◌, ◌==◌, ◌&&◌, All}
use browshare.Sessions.{
  closed, released, Session, Reservation, Entry, ViewerTicket, CloseCommand, Database, find_session,
}
use browshare.Sessions.Closure.{is_over, is_ticket_active}

-- The ticket no longer admits a viewer to the Session.
abbrev pub IsRevoked : ℕ → ViewerTicket → Type 0
IsRevoked id t = (t.session_id == id) && is_ticket_active t.status ≡ false

-- A command that names the runtime of a Session as the Session's row does.
pub record Names (s : Session) (c : CloseCommand) : Type 0 where
  pub session : c.session_id ≡ s.id
  pub runtime : s.runtime_id ≡ some c.runtime_id
  pub instance_id : s.worker_instance_id ≡ some c.instance_id
  pub generation : s.profile_generation ≡ some c.profile_generation

-- Either the reservation is free at once, or one command more waits for the Worker.
abbrev pub IsTold : Entry → Entry → Database → Database → Type 0
IsTold e f db after =
    ((f.session.status ≡ closed)
      × (after.close_outbox ≡ db.close_outbox)
      × ((r : Reservation) × (f.reservation ≡ some r) × (r.status ≡ released)))
    ⊎ ((c : CloseCommand) × (after.close_outbox ≡ db.close_outbox ++ c ∷ []) × Names e.session c)

pub record Closed (e : Entry) (db after : Database) : Type 0 where
  pub row : Entry
  pub stored : find_session e.session.id after.entries ≡ some row
  pub over : is_over row.session.status ≡ true
  pub revoked : All (IsRevoked e.session.id) after.tickets
  pub told : IsTold e row db after
