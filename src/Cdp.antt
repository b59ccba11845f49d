-- ===== src/Cdp.antt =====
-- The private DevTools transport of a Worker: apps/worker/src/cdp-pipe-bridge.ts. Clients on web
-- sockets share the two pipes of one Chrome; the bridge renumbers their commands. Bytes, clients and
-- target sessions are numbers. What `JSON` and the streams do is the parameter Codec.
pub mod Operations
pub mod Frames
pub mod Events
pub mod Tables
pub mod Ownership
pub mod Answers
pub mod Isolation
mod Examples
pub use browshare.Prelude.Maps.{get, put, delete}
use browshare.Prelude.{
  ℕ, suc, ◌+◌, Bool, true, false, Option, none, some, List, [], ◌∷◌, ◌++◌, leb, ltb, ◌==◌, ◌&&◌,
  ◌||◌, not, if◌then◌else◌, length, includes, same_opt, is_some,
}

-- `Number.isSafeInteger` of an `id`, with its sign.
pub data IdField : Type 0 where
  no_id negative_id bad_id : IdField
  whole_id : ℕ → IdField

pub data TextField : Type 0 where
  no_text other_value : TextField
  text : ℕ → TextField

pub data Method : Type 0 where
  no_method attached_to_target detached_from_target attach_to_browser_target detach_from_target :
      Method
  other_method : ℕ → Method

-- The fields of a message that the bridge reads, and the rest of it.
pub record Message : Type 0 where
  pub id : IdField
  pub session_id : TextField
  pub method : Method
  pub param_session : TextField  -- `params.sessionId`
  pub result_session : TextField  -- `result.sessionId`
  pub has_error : Bool
  pub body : ℕ

-- `JSON.stringify` as UTF-8 bytes, and `parseMessage` of the bytes of a frame.
pub record Codec : Type 0 where
  pub encode : Message → List ℕ
  pub parse : List ℕ → Option Message

pub data Code : Type 0 where
  pipe_closed pipe_failed pipe_capacity pipe_invalid_message pipe_attach_failed pipe_detach_failed
        pipe_timeout pipe_cancelled pipe_command_failed bridge_failed :
      Code

-- Who waits for the answer to a command: a client, or a call of the bridge itself.
pub data Caller : Type 0 where
  command : (client original : ℕ) → Caller
  attach : ℕ → Caller
  detach : Caller
  browser_call : ℕ → Caller  -- `getVersion` and `closeBrowser`

pub data Reply : Type 0 where
  resolved : Message → Reply
  rejected : Code → Reply

pub record Client : Type 0 where
  pub id : ℕ
  pub browser_id : Option ℕ
  pub pending_ids : List ℕ

-- The state but for the read buffer. A client that is `closed` is no longer in `clients`.
pub record Core : Type 0 where
  pub closed : Bool
  pub serial : ℕ
  pub accepted : ℕ  -- the clients so far; it numbers them
  pub clients : List Client
  pub owners : List (ℕ × ℕ)  -- target session, client
  pub pending : List (ℕ × Caller)
  pub queued : ℕ  -- `writableLength`
  pub written : List Message
  pub sent : List (ℕ × Message)
  pub replies : List (Caller × Reply)  -- settled promises whose handlers have not run
  pub failures : List Code  -- calls of `onFailure`

abbrev pub max_message_bytes : ℕ
max_message_bytes = 16777216

abbrev pub max_queued_bytes : ℕ
max_queued_bytes = 33554432

abbrev pub max_pending_commands : ℕ
max_pending_commands = 16384

abbrev pub max_safe_integer : ℕ
max_safe_integer = 9007199254740991

abbrev pub find_client : ℕ → List Client → Option Client
find_client c [] = none
find_client c (x ∷ xs) = if x.id == c then some x else find_client c xs

abbrev pub update_client : ℕ → (Client → Client) → List Client → List Client
update_client c f [] = []
update_client c f (x ∷ xs) = if x.id == c then f x ∷ xs else x ∷ update_client c f xs

abbrev pub remove_client : ℕ → List Client → List Client
remove_client c [] = []
remove_client c (x ∷ xs) = if x.id == c then xs else x ∷ remove_client c xs

abbrev pub remove_number : ℕ → List ℕ → List ℕ
remove_number n [] = []
remove_number n (m ∷ ms) = if m == n then ms else m ∷ remove_number n ms

-- The promises of the bridge's own calls; commands of clients have none.
abbrev pub reject_calls : Code → List (ℕ × Caller) → List (Caller × Reply)
reject_calls code [] = []
reject_calls code ((id, command c i) ∷ ps) = reject_calls code ps
reject_calls code ((id, caller) ∷ ps) = (caller, rejected code) ∷ reject_calls code ps

-- `close`, with the code that the pending calls are rejected with.
abbrev pub shut : Code → Core → Core
shut code s = record s {
  closed = true;
  clients = [];
  owners = [];
  pending = [];
  replies = s.replies ++ reject_calls code s.pending;
}

unfoldable pub close : Core → Core
close s = if s.closed then s else shut pipe_closed s

unfoldable pub fail : Code → Core → Core
fail code s = if s.closed then s else record (shut code s) { failures = s.failures ++ code ∷ [] }
