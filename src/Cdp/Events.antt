-- ===== src/Cdp/Events.antt =====
-- The handlers of `CdpPipeBridge` and what it does from one event to the next. The handler of a promise
-- runs in an event of its own.
use browshare.Prelude.{
  ℕ, suc, ◌-◌, Bool, true, false, Option, none, some, List, [], ◌∷◌, ◌++◌, ◌&&◌, ◌||◌, not,
  if◌then◌else◌, includes, same_opt, is_some,
}
use browshare.Cdp.{
  IdField, whole_id, TextField, no_text, other_value, text, Method, no_method,
  attach_to_browser_target, other_method, Message, Codec, Code, pipe_attach_failed,
  pipe_detach_failed, pipe_timeout, Caller, command, attach, detach, browser_call, Reply, resolved,
  rejected, Client, Core, get, delete, find_client, update_client, close, fail,
}
use browshare.Cdp.Operations.{
  request, Next, next, refused, next_id, write, call, detach_session, drop, own,
}
use browshare.Cdp.Frames.{Bridge, with_buffer, read}

abbrev pub has_method : Method → Bool
has_method no_method = false
has_method _ = true

-- A client addresses a session of its own, or none.
abbrev pub may_address : ℕ → TextField → Core → Bool
may_address c no_text s = true
may_address c other_value s = false
may_address c (text t) s = same_opt (get t s.owners) (some c)

-- `message.sessionId ?? client.browserId`
abbrev pub target_session : TextField → Option ℕ → TextField
target_session no_text (some b) = text b
target_session field browser = field

abbrev pub add_pending : ℕ → Client → Client
add_pending original x = record x { pending_ids = x.pending_ids ++ original ∷ [] }

pub data Event : Type 0 where
  upgraded : (has_origin path_matches : Bool) → Event
  said : ℕ → Option Message → Event
  gone : ℕ → Event  -- `error` or `close` of a socket, or a failed send
  arrived : List ℕ → Event
  settled : Event
  timed_out : ℕ → Event
  called : ℕ → ℕ → Event  -- `getVersion` and `closeBrowser`
  flushed : ℕ → Event  -- bytes that the pipe to Chrome took
  broken : Code → Event  -- an end or an error of a pipe or of the server, or an abort
  closed : Event

module _ (j : Codec) (buffered : ℕ → ℕ) where
  unfoldable pub accept : Core → Core
  unfolding call
  accept s =
      let c = s.accepted in
      let t =
        call j buffered (attach c) (request attach_to_browser_target no_text)
          (record s { accepted = suc c }) in
      record t {
        clients = t.clients ++ record { id = c; browser_id = none; pending_ids = [] } ∷ [];
      }

  -- The `upgrade` handler: whether the request has an Origin, and whether its path is the private one.
  unfoldable pub upgrade : Bool → Bool → Core → Core
  unfolding accept
  upgrade has_origin path_matches s =
      if s.closed || (has_origin || not path_matches) then s else accept s

  -- The `then` of `ready`.
  unfoldable pub attached_to : ℕ → ℕ → Option Client → Core → Core
  unfolding detach_session
  attached_to c t none s = detach_session j buffered t s
  attached_to c t (some x) s =
      own j buffered (text t) c
        (record s { clients = update_client c (λ y. record y { browser_id = some t }) s.clients })

  unfoldable pub attached : ℕ → TextField → Core → Core
  unfolding attached_to fail
  attached c (text t) s = attached_to c t (find_client c s.clients) s
  attached c _ s = fail pipe_attach_failed s

  unfoldable pub settle : Caller × Reply → Core → Core
  unfolding attached fail
  settle (attach c, resolved m) s = attached c m.result_session s
  settle (attach c, rejected code) s = fail pipe_attach_failed s
  settle (detach, rejected code) s = fail pipe_detach_failed s
  settle _ s = s

  unfoldable pub settle_first : List (Caller × Reply) → Core → Core
  unfolding settle
  settle_first [] s = s
  settle_first (r ∷ rs) s = settle r (record s { replies = rs })

  -- A command of a client that passed the tests, with the outcome of `#write`.
  unfoldable pub written_or_drop : ℕ → Core × Option Code → Core
  unfolding drop
  written_or_drop c (s, none) = s
  written_or_drop c (s, some code) = drop j buffered c s

  unfoldable pub submit : Client → ℕ → Message → Next → Core → Core
  unfolding written_or_drop write
  submit x original m (refused code) s = drop j buffered x.id s
  submit x original m (next id) s = written_or_drop x.id (
      write j buffered
        (record m { id = whole_id id; session_id = target_session m.session_id x.browser_id })
        (record s {
          serial = id;
          clients = update_client x.id (add_pending original) s.clients;
          pending = s.pending ++ (id, command x.id original) ∷ [];
        }))

  unfoldable pub check_message : Client → IdField → Message → Core → Core
  unfolding submit
  check_message x (whole_id original) m s =
      if has_method m.method
        && (may_address x.id m.session_id s && not (includes x.pending_ids original))
      then submit x original m (next_id s) s
      else drop j buffered x.id s
  check_message x _ m s = drop j buffered x.id s

  -- A message of a client; `none` is a binary one or no record. It waits for `ready`.
  unfoldable pub handle_message : Option Client → Option Message → Core → Core
  unfolding check_message
  handle_message none m s = s
  handle_message (some x) none s = if is_some x.browser_id then drop j buffered x.id s else s
  handle_message (some x) (some m) s = if is_some x.browser_id then check_message x m.id m s else s

  unfoldable pub client_message : ℕ → Option Message → Core → Core
  unfolding handle_message
  client_message c m s = handle_message (find_client c s.clients) m s

  -- The timer of a pending command; those of settled ones were cleared.
  unfoldable pub time_out : ℕ → Option Caller → Core → Core
  unfolding drop
  time_out id none s = s
  time_out id (some (command c original)) s = drop j buffered c s
  time_out id (some caller) s = record s {
    pending = delete id s.pending;
    replies = s.replies ++ (caller, rejected pipe_timeout) ∷ [];
  }

  unfoldable pub handle : Event → Core → Core
  unfolding upgrade client_message drop settle_first time_out call fail close
  handle (upgraded has_origin path_matches) s = upgrade has_origin path_matches s
  handle (said c m) s = client_message c m s
  handle (gone c) s = drop j buffered c s
  handle settled s = settle_first s.replies s
  handle (timed_out id) s = time_out id (get id s.pending) s
  handle (called n method) s =
      call j buffered (browser_call n) (request (other_method method) no_text) s
  handle (flushed n) s = record s { queued = s.queued - n }
  handle (broken code) s = fail code s
  handle closed s = close s
  handle _ s = s

  unfoldable pub step : Event → Bridge → Bridge
  unfolding handle read
  step (arrived chunk) s = read j buffered chunk s
  step e s = with_buffer s.buffer (handle e s.core)

  unfoldable pub run : List Event → Bridge → Bridge
  unfolding step
  run [] s = s
  run (e ∷ es) s = run es (step e s)

-- A new bridge.
abbrev pub opened : Bridge
opened = record {
  buffer = [];
  core = record {
    closed = false;
    serial = 0;
    accepted = 0;
    clients = [];
    owners = [];
    pending = [];
    queued = 0;
    written = [];
    sent = [];
    replies = [];
    failures = [];
  };
}
