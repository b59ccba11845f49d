-- ===== src/Cdp/Ownership.antt =====
-- The tables of CdpPipeBridge between two events: `#write`, `#call` and `#detach`.
pub mod Routing
pub mod Steps
use browshare.Prelude.{
  ℕ, suc, ◌+◌, ◌≤◌, ◌<◌, ◌≡◌, ◌≢◌, refl, sym, ap, ◌∙◌, inl, inr, Bool, true, false, ◌||◌, Option,
  none, some, List, [], ◌∷◌, ◌++◌, ◌==◌, leb, ltb, if◌then◌else◌, is_some, arith, All, Bool-cases,
  if-cases, Option-cases, length, length-append,
}
use browshare.Prelude.Maps.{All-delete, All-get, All-put, delete-length}
use browshare.Cdp.{
  TextField, no_text, other_value, text, IdField, no_id, negative_id, bad_id, whole_id, Method,
  no_method, detach_from_target, attach_to_browser_target, other_method, attached_to_target,
  detached_from_target, Message, Codec, Code, pipe_closed, pipe_capacity, Caller, command, attach,
  detach, browser_call, Client, Core, max_queued_bytes, max_pending_commands, max_message_bytes,
  max_safe_integer, get, delete, put, find_client, update_client, remove_client, remove_number,
  shut, close, fail,
}
use browshare.Cdp.Operations.{
  Next, next, refused, next_id, is_command_of, without_commands, frame, write, undo_call, call_next,
  call, request, hide_session, detach_session, forget, detach_browser, drop_client, drop, send_to,
  send, own, disown, answer, route_answer, event_for, route_event, route_fields, route,
}
use browshare.Cdp.Tables.{
  present, Distinct, All-append, All-map, present-append, present-update, present-remove,
  All-without_owner, All-without_commands, Distinct-append, Distinct-delete,
  Distinct-without_commands, without_commands-length,
}

-- A command waits for a client that is connected.
abbrev pub is_awaited : List Client → Caller → Bool
is_awaited xs (command c original) = present xs c
is_awaited xs _ = true

pub record Tables (serial : ℕ) (clients : List Client) (owners : List (ℕ × ℕ))
    (pending : List (ℕ × Caller)) (queued : ℕ) : Type 0 where
  pub numbered : All (λ p. p.0 ≤ serial) pending
  pub distinct : Distinct pending
  pub awaited : All (λ p. is_awaited clients p.1 ≡ true) pending
  pub owned : All (λ o. present clients o.1 ≡ true) owners
  pub few : length pending ≤ max_pending_commands
  pub small : queued ≤ max_queued_bytes

abbrev pub Inv : Core → Type 0
Inv s = Tables s.serial s.clients s.owners s.pending s.queued

shut-Inv : (code : Code) (s : Core) → Inv s → Inv (shut code s)
shut-Inv code s v = record {
  numbered = tt;
  distinct = tt;
  awaited = tt;
  owned = tt;
  few = omega arith;
  small = v.small;
}

pub close-Inv : (s : Core) → Inv s → Inv (close s)
unfolding close
close-Inv s v =
    if-cases Inv s.closed s (shut pipe_closed s) (λ h. v) (λ h. shut-Inv pipe_closed s v)

pub fail-Inv : (code : Code) (s : Core) → Inv s → Inv (fail code s)
unfolding fail
fail-Inv code s v = if-cases Inv s.closed _ _ (λ h. v) (λ h. shut-Inv code s v)

fits-Inv :
    (n : ℕ) (s : Core)
    → s.queued + n ≤ max_queued_bytes
    → Inv s
    → Inv (record s { queued = s.queued + n })
fits-Inv n s h v = record {
  numbered = v.numbered;
  distinct = v.distinct;
  awaited = v.awaited;
  owned = v.owned;
  few = v.few;
  small = h;
}

-- A new number, and its command.
pub append-Inv :
    (s : Core) (id : ℕ) (caller : Caller)
    → Inv s
    → s.serial < id
    → length s.pending < max_pending_commands
    → is_awaited s.clients caller ≡ true
    → Inv (record s { serial = id; pending = s.pending ++ (id, caller) ∷ [] })
append-Inv s id caller v new room ready = record {
  numbered =
      All-append (λ p. p.0 ≤ id) s.pending ((id, caller) ∷ [])
        (All-map (λ p. p.0 ≤ s.serial) (λ p. p.0 ≤ id) s.pending (λ p h. omega (arith, h, new))
          v.numbered)
        (omega arith, tt);
  distinct =
      Distinct-append s.pending id caller
        (All-map (λ p. p.0 ≤ s.serial) (λ p. p.0 < id) s.pending (λ p h. omega (arith, h, new))
          v.numbered)
        v.distinct;
  awaited =
      All-append (λ p. is_awaited s.clients p.1 ≡ true) s.pending ((id, caller) ∷ []) v.awaited
        (ready, tt);
  owned = v.owned;
  few = omega (arith, length-append s.pending ((id, caller) ∷ []), room);
  small = v.small;
}

pub delete-Inv : (s : Core) (id : ℕ) → Inv s → Inv (record s { pending = delete id s.pending })
delete-Inv s id v = record {
  numbered = All-delete (λ p. p.0 ≤ s.serial) id s.pending v.numbered;
  distinct = Distinct-delete id s.pending v.distinct;
  awaited = All-delete (λ p. is_awaited s.clients p.1 ≡ true) id s.pending v.awaited;
  owned = v.owned;
  few = omega (arith, delete-length id s.pending, v.few);
  small = v.small;
}

abbrev pub IsNext : Core → Next → Type 0
IsNext s (refused code) = Unit {0}
IsNext s (next id) = (id ≡ suc s.serial) × (length s.pending < max_pending_commands)

pub next_id-IsNext : (s : Core) → IsNext s (next_id s)
next_id-IsNext s =
    if-cases (IsNext s) s.closed _ _ (λ h. tt)
      (λ h.
        if-cases (IsNext s)
          (leb max_pending_commands (length s.pending) || leb max_safe_integer s.serial) _ _
          (λ h. tt) (λ h. (refl, ground arith)))

module _ (j : Codec) (buffered : ℕ → ℕ) where
  abbrev Outcome : Core × Option Code → Type 0
  Outcome r = Inv r.0

  pub write-Inv : (m : Message) (s : Core) → Inv s → Inv (write j buffered m s).0
  unfolding write
  write-Inv m s v =
      let n = length (frame j buffered m) in
      let done = record s { queued = s.queued + n; written = s.written ++ m ∷ [] } in
      let full =
        if ltb max_queued_bytes (s.queued + n)
        then (fail pipe_capacity s, some pipe_capacity)
        else (done, none) in
      let long = if ltb (suc max_message_bytes) n then (s, some pipe_capacity) else full in
      if-cases Outcome s.closed (s, some pipe_closed) long (λ h. v)
        (λ h.
          if-cases Outcome (ltb (suc max_message_bytes) n) (s, some pipe_capacity) full (λ h. v)
            (λ h.
              if-cases Outcome (ltb max_queued_bytes (s.queued + n))
                (fail pipe_capacity s, some pipe_capacity) (done, none)
                (λ h. fail-Inv pipe_capacity s v) (λ h. fits-Inv n s (ground arith) v)))

  undo_call-Inv :
      (id : ℕ) (caller : Caller) (r : Core × Option Code)
      → Inv r.0
      → Inv (undo_call j buffered id caller r)
  undo_call-Inv id caller (s, none) v = v
  undo_call-Inv id caller (s, some code) v =
      if-cases Inv (is_some (get id s.pending)) _ _ (λ h. delete-Inv s id v) (λ h. v)

  call_next-Inv :
      (caller : Caller) (m : Message) (s : Core) (o : Next)
      → IsNext s o
      → is_awaited s.clients caller ≡ true
      → Inv s
      → Inv (call_next j buffered caller m s o)
  unfolding call_next
  call_next-Inv caller m s (refused code) h ready v = v
  call_next-Inv caller m s (next id) (new, room) ready v = undo_call-Inv id caller _ (
      write-Inv (record m { id = whole_id id })
        (record s { serial = id; pending = s.pending ++ (id, caller) ∷ [] })
        (append-Inv s id caller v (omega (arith, new)) room ready))

  pub call-Inv :
      (caller : Caller) (m : Message) (s : Core)
      → is_awaited s.clients caller ≡ true
      → Inv s
      → Inv (call j buffered caller m s)
  unfolding call
  call-Inv caller m s ready v = call_next-Inv caller m s (next_id s) (next_id-IsNext s) ready v

  pub detach_session-Inv :
      (session : ℕ) (s : Core) → Inv s → Inv (detach_session j buffered session s)
  unfolding detach_session
  detach_session-Inv session s v =
      if-cases Inv s.closed s (call j buffered detach (request detach_from_target (text session)) s)
        (λ h. v) (λ h. call-Inv detach (request detach_from_target (text session)) s refl v)
