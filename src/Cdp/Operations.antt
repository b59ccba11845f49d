-- ===== src/Cdp/Operations.antt =====
-- What `CdpPipeBridge` does with one message, one client or one answer. `buffered c` is the
-- `bufferedAmount` of a client's socket.
use browshare.Prelude.{
  ℕ, suc, ◌+◌, Bool, false, Option, none, some, List, [], ◌∷◌, ◌++◌, leb, ltb, ◌==◌, ◌||◌,
  if◌then◌else◌, length, is_some,
}
use browshare.Cdp.{
  IdField, no_id, negative_id, bad_id, whole_id, TextField, no_text, text, Method,
  attached_to_target, detached_from_target, detach_from_target, Message, Codec, Code, pipe_closed,
  pipe_capacity, pipe_command_failed, Caller, command, detach, resolved, rejected, Client, Core,
  max_message_bytes, max_queued_bytes, max_pending_commands, max_safe_integer, get, delete, put,
  find_client, update_client, remove_client, remove_number, fail,
}

abbrev pub request : Method → TextField → Message
request method session = record {
  id = no_id;
  session_id = no_text;
  method = method;
  param_session = session;
  result_session = no_text;
  has_error = false;
  body = 0;
}

-- `#nextId`: the number, or why there is none.
pub data Next : Type 0 where
  next : ℕ → Next
  refused : Code → Next

abbrev pub next_id : Core → Next
next_id s =
    if s.closed
    then refused pipe_closed
    else if leb max_pending_commands (length s.pending) || leb max_safe_integer s.serial
    then refused pipe_capacity
    else next (suc s.serial)

abbrev pub is_command_of : ℕ → Caller → Bool
is_command_of c (command d i) = d == c
is_command_of c _ = false

-- The loops of `#drop` over the pending commands and over the owners.
abbrev pub without_commands : ℕ → List (ℕ × Caller) → List (ℕ × Caller)
without_commands c [] = []
without_commands c ((id, caller) ∷ ps) =
    let rest = without_commands c ps in if is_command_of c caller then rest else (id, caller) ∷ rest

abbrev pub without_owner : ℕ → List (ℕ × ℕ) → List (ℕ × ℕ)
without_owner c [] = []
without_owner c ((session, owner) ∷ os) =
    let rest = without_owner c os in if owner == c then rest else (session, owner) ∷ rest

module _ (j : Codec) (buffered : ℕ → ℕ) where
  -- The bytes of a message with the zero byte that ends it.
  abbrev pub frame : Message → List ℕ
  frame m = j.encode m ++ 0 ∷ []

  -- `#write`: the state, and the exception if it throws.
  unfoldable pub write : Message → Core → Core × Option Code
  unfolding fail
  write m s =
      if s.closed
      then (s, some pipe_closed)
      else if ltb (suc max_message_bytes) (length (frame m))
      then (s, some pipe_capacity)
      else if ltb max_queued_bytes (s.queued + length (frame m))
      then (fail pipe_capacity s, some pipe_capacity)
      else (record s { queued = s.queued + length (frame m); written = s.written ++ m ∷ [] }, none)

  -- The `catch` of `#call`; nothing is left to do if the failure has rejected the call already.
  abbrev pub undo_call : ℕ → Caller → Core × Option Code → Core
  undo_call id caller (s, none) = s
  undo_call id caller (s, some code) =
      if is_some (get id s.pending)
      then record s {
        pending = delete id s.pending;
        replies = s.replies ++ (caller, rejected code) ∷ [];
      }
      else s

  unfoldable pub call_next : Caller → Message → Core → Next → Core
  unfolding write
  call_next caller m s (refused code) = record s {
    replies = s.replies ++ (caller, rejected code) ∷ [];
  }
  call_next caller m s (next id) = undo_call id caller (
      write (record m { id = whole_id id })
        (record s { serial = id; pending = s.pending ++ (id, caller) ∷ [] }))

  unfoldable pub call : Caller → Message → Core → Core
  unfolding call_next
  call caller m s = call_next caller m s (next_id s)

  unfoldable pub detach_session : ℕ → Core → Core
  unfolding call
  detach_session session s =
      if s.closed then s else call detach (request detach_from_target (text session)) s

  -- The part of `#drop` before the detach.
  abbrev pub forget : ℕ → Core → Core
  forget c s = record s {
    clients = remove_client c s.clients;
    pending = without_commands c s.pending;
    owners = without_owner c s.owners;
  }

  unfoldable pub detach_browser : Option ℕ → Core → Core
  detach_browser none s = s
  detach_browser (some session) s = detach_session session s

  unfoldable pub drop_client : Option Client → Core → Core
  drop_client none s = s
  drop_client (some x) s = detach_browser x.browser_id (forget x.id s)

  unfoldable pub drop : ℕ → Core → Core
  unfolding call
  drop c s = drop_client (find_client c s.clients) s

  -- `#send` hides the browser session that the bridge opened for the client.
  abbrev pub hide_text : TextField → ℕ → Message → Message
  hide_text (text t) b m = if t == b then record m { session_id = no_text } else m
  hide_text _ b m = m

  abbrev pub hide_session : Option ℕ → Message → Message
  hide_session none m = m
  hide_session (some b) m = hide_text m.session_id b m

  unfoldable pub send_to : Option Client → Message → Core → Core
  unfolding drop
  send_to none m s = s
  send_to (some x) m s =
      let output = hide_session x.browser_id m in
      if ltb max_queued_bytes (buffered x.id + length (j.encode output))
      then drop x.id s
      else record s { sent = s.sent ++ (x.id, output) ∷ [] }

  unfoldable pub send : ℕ → Message → Core → Core
  unfolding drop
  send c m s = send_to (find_client c s.clients) m s

  -- `owners.set`, where the field is a text.
  abbrev pub own : TextField → ℕ → Core → Core
  own (text t) c s = record s { owners = put t c s.owners }
  own _ c s = s

  abbrev pub disown : TextField → Core → Core
  disown (text t) s = record s { owners = delete t s.owners }
  disown _ s = s

  -- The answer to a command, for the one who waits.
  unfoldable pub answer : Caller → Message → Core → Core
  unfolding send
  answer (command c original) m s =
      send c (record m { id = whole_id original })
        (own m.result_session c (record s {
          clients =
              update_client c (λ x. record x { pending_ids = remove_number original x.pending_ids })
                s.clients;
        }))
  answer caller m s = record s {
    replies =
        s.replies
        ++ (caller, if m.has_error then rejected pipe_command_failed else resolved m) ∷ [];
  }

  unfoldable pub route_answer : ℕ → Message → Option Caller → Core → Core
  route_answer id m none s = s
  route_answer id m (some caller) s = answer caller m (record s { pending = delete id s.pending })

  -- An event of a target session, for its owner.
  unfoldable pub event_for : Method → Message → ℕ → Core → Core
  unfolding send
  event_for attached_to_target m c s = send c m (own m.param_session c s)
  event_for detached_from_target m c s = disown m.param_session (send c m s)
  event_for _ m c s = send c m s

  unfoldable pub route_event : Message → Option ℕ → Core → Core
  unfolding event_for
  route_event m none s = s
  route_event m (some c) s = event_for m.method m c s

  unfoldable pub route_fields : IdField → TextField → Message → Core → Option Core
  unfolding route_answer route_event
  route_fields bad_id t m s = none
  route_fields negative_id t m s = some s
  route_fields (whole_id id) t m s = some (route_answer id m (get id s.pending) s)
  route_fields no_id (text t) m s = some (route_event m (get t s.owners) s)
  route_fields no_id _ m s = some s

  -- `#route`; `none` is the exception for an `id` that is no integer.
  unfoldable pub route : Message → Core → Option Core
  unfolding route_fields
  route m s = route_fields m.id m.session_id m s
