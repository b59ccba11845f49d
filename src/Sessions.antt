-- ===== src/Sessions.antt =====
-- Rows of the Session tables: packages/database/src/schema/enums.ts and sessions.ts, and what the
-- services below them read. A Session and its reservation are one entry: the reservation is unique
-- for its Session, and a Session without one has `none`. Identities are numbers, and so are times.
pub mod Closure
pub mod Lifecycle
pub mod Expiry
pub mod Pending
pub mod Deliveries
pub mod Begun
pub mod Facts
pub mod Accepted
pub mod Transitions
pub mod Histories
pub mod Runs
pub mod Closing
pub mod Leases
pub mod Capacity
pub mod Policies
mod Examples
use browshare.Prelude.{
  ℕ, ◌+◌, Bool, true, false, Option, none, some, List, [], ◌∷◌, ◌++◌, String, ◌==◌, ◌&&◌, ◌||◌, not,
  if◌then◌else◌,
}

pub data Status : Type 0 where
  reserved creating ready connected suspended disconnected closing closed failed : Status

pub data ReservationStatus : Type 0 where
  active consumed released expired : ReservationStatus

pub data Kind : Type 0 where
  normal maintenance : Kind

pub data RuntimeState : Type 0 where
  stopped starting running maintaining stopping error : RuntimeState

pub data DesiredState : Type 0 where
  desired_running desired_stopped : DesiredState

pub data CloseReason : Type 0 where
  user_requested admin_requested password_reset user_disabled user_deleted profile_disabled
        profile_deleted access_revoked worker_disabled :
      CloseReason

pub data Cause : Type 0 where
  close_reason : CloseReason → Cause
  code : String → Cause

pub record Session : Type 0 where
  pub id : ℕ
  pub user_id : ℕ
  pub profile_id : ℕ
  pub worker_id : ℕ
  pub kind : Kind
  pub status : Status
  pub runtime_id : Option ℕ
  pub profile_generation : Option ℕ
  pub worker_instance_id : Option ℕ
  pub tab_id : Option ℕ
  pub target_id : Option ℕ
  pub viewer_generation : ℕ
  pub lease_expires_at : Option ℕ
  pub closing_at : Option ℕ
  pub closed_at : Option ℕ
  pub cause : Option Cause  -- `closeReason` or `failureCode`

pub record Reservation : Type 0 where
  pub id : ℕ
  pub message_id : ℕ
  pub profile_id : ℕ
  pub status : ReservationStatus
  pub expires_at : ℕ
  pub consumed_at : Option ℕ
  pub released_at : Option ℕ
  pub release_reason : Option Cause

pub record Entry : Type 0 where
  pub session : Session
  pub reservation : Option Reservation

pub record Profile : Type 0 where
  pub id : ℕ
  pub worker_id : ℕ
  pub runtime_id : Option ℕ
  pub runtime_generation : ℕ
  pub runtime_worker_instance_id : Option ℕ
  pub runtime_state : RuntimeState
  pub runtime_desired_state : DesiredState

pub data TicketStatus : Type 0 where
  ticket_active ticket_consumed ticket_revoked ticket_expired : TicketStatus

pub record ViewerTicket : Type 0 where
  pub session_id : ℕ
  pub status : TicketStatus

pub record CloseCommand : Type 0 where
  pub session_id : ℕ
  pub worker_id : ℕ
  pub instance_id : ℕ
  pub profile_id : ℕ
  pub runtime_id : ℕ
  pub profile_generation : ℕ
  pub creation_expires_at : ℕ
  pub expires_at : ℕ
  pub reason : CloseReason

pub data Event : Type 0 where
  session_creating session_ready session_failed session_closing session_closed : Event

pub record Database : Type 0 where
  pub entries : List Entry
  pub profiles : List Profile
  pub tickets : List ViewerTicket
  pub close_outbox : List CloseCommand
  pub events : List (ℕ × Event)
  pub audits : List (ℕ × Option Cause)  -- the audited Session, and why it failed or closed

abbrev pub is_pending : Status → Bool
is_pending reserved = true
is_pending creating = true
is_pending _ = false

abbrev pub is_connectable : Status → Bool
is_connectable ready = true
is_connectable connected = true
is_connectable suspended = true
is_connectable disconnected = true
is_connectable _ = false

abbrev pub is_terminal : Status → Bool
is_terminal closed = true
is_terminal failed = true
is_terminal _ = false

abbrev pub is_active : ReservationStatus → Bool
is_active active = true
is_active _ = false

abbrev pub is_consumed : ReservationStatus → Bool
is_consumed consumed = true
is_consumed _ = false

abbrev pub is_maintenance : Kind → Bool
is_maintenance maintenance = true
is_maintenance normal = false

abbrev pub is_run : DesiredState → Bool
is_run desired_running = true
is_run desired_stopped = false

-- `select … where message_id = …` joined with its Session.
abbrev pub has_message : ℕ → Option Reservation → Bool
has_message m none = false
has_message m (some r) = r.message_id == m

abbrev pub find_message : ℕ → List Entry → Option Entry
find_message m [] = none
find_message m (e ∷ es) = if has_message m e.reservation then some e else find_message m es

abbrev pub find_session : ℕ → List Entry → Option Entry
find_session id [] = none
find_session id (e ∷ es) = if e.session.id == id then some e else find_session id es

abbrev pub find_profile : ℕ → List Profile → Option Profile
find_profile id [] = none
find_profile id (p ∷ ps) = if p.id == id then some p else find_profile id ps

-- `update … where id = …` of rows that the transaction has locked: the primary key names one row.
abbrev pub store : Entry → List Entry → List Entry
store n [] = []
store n (e ∷ es) = if e.session.id == n.session.id then n ∷ es else e ∷ store n es

abbrev pub update_profile : ℕ → (Profile → Profile) → List Profile → List Profile
update_profile id f [] = []
update_profile id f (p ∷ ps) = if p.id == id then f p ∷ ps else p ∷ update_profile id f ps
