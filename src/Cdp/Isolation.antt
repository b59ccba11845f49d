-- ===== src/Cdp/Isolation.antt =====
-- Who is sent what by `#route` and `#send` of apps/worker/src/cdp-pipe-bridge.ts.
use mathlib.Core.Path.{subst}
use browshare.Prelude.{
  ℕ, suc, ◌+◌, ◌≡◌, refl, sym, ap, ◌∙◌, ◌⊎◌, inl, inr, Option, none, some, [], ◌∷◌, ◌++◌, ◌==◌, ltb,
  if◌then◌else◌, is_some, if-cases, length,
}
use browshare.Cdp.{
  TextField, no_text, other_value, text, IdField, no_id, negative_id, bad_id, whole_id, Method,
  no_method, attached_to_target, detached_from_target, attach_to_browser_target, detach_from_target,
  other_method, Message, Codec, Code, pipe_closed, pipe_capacity, rejected, Caller, command, attach,
  detach, browser_call, Client, Core, max_queued_bytes, max_message_bytes, get, delete, find_client,
  update_client, remove_number, shut, fail,
}
use browshare.Cdp.Operations.{
  Next, next, refused, next_id, frame, write, undo_call, call_next, call, request, detach_session,
  forget, detach_browser, drop_client, drop, hide_text, hide_session, send_to, send, own, disown,
  answer, route_answer, event_for, route_event, route_fields, route,
}
use browshare.Cdp.Ownership.Steps.{find_client-id}

-- Nobody was sent anything.
abbrev Silent : Core → Core → Type 0
Silent s t = t.sent ≡ s.sent

-- At most one message was sent, to `c` and with this `id`.
abbrev pub Sent : ℕ → IdField → Core → Core → Type 0
Sent c id s t =
    (t.sent ≡ s.sent)
    ⊎ ((output : Message) × (output.id ≡ id) × (t.sent ≡ s.sent ++ (c, output) ∷ []))

-- For whom a message of Chrome is: the client that waits for the answer, with the number that this client
-- chose, or the owner of the event's target session.
pub data IsFor (m : Message) (s : Core) : ℕ → IdField → Type 0 where
  answers :
      (id c original : ℕ)
      → m.id ≡ whole_id id
      → get id s.pending ≡ some (command c original)
      → IsFor m s c (whole_id original)
  tells :
      (t c : ℕ) → m.id ≡ no_id → m.session_id ≡ text t → get t s.owners ≡ some c → IsFor m s c no_id

fail-sent : (code : Code) (s : Core) → Silent s (fail code s)
unfolding fail
fail-sent code s =
    if-cases (Silent s) s.closed s (record (shut code s) { failures = s.failures ++ code ∷ [] })
      (λ h. refl) (λ h. refl)

module _ (j : Codec) (buffered : ℕ → ℕ) where
  write-sent : (m : Message) (s : Core) → (write j buffered m s).0.sent ≡ s.sent
  unfolding write
  write-sent m s =
      let n = length (frame j buffered m) in
      let done = record s { queued = s.queued + n; written = s.written ++ m ∷ [] } in
      let full =
        if ltb max_queued_bytes (s.queued + n)
        then (fail pipe_capacity s, some pipe_capacity)
        else (done, none) in
      let long = if ltb (suc max_message_bytes) n then (s, some pipe_capacity) else full in
      if-cases (λ (r : Core × Option Code). r.0.sent ≡ s.sent) s.closed (s, some pipe_closed) long
        (λ h. refl)
        (λ h.
          if-cases (λ (r : Core × Option Code). r.0.sent ≡ s.sent) (ltb (suc max_message_bytes) n)
            (s, some pipe_capacity) full (λ h. refl)
            (λ h.
              if-cases (λ (r : Core × Option Code). r.0.sent ≡ s.sent)
                (ltb max_queued_bytes (s.queued + n)) (fail pipe_capacity s, some pipe_capacity)
                (done, none) (λ h. fail-sent pipe_capacity s) (λ h. refl)))

  undo_call-sent :
      (id : ℕ) (x : Caller) (r : Core × Option Code) → (undo_call j buffered id x r).sent ≡ r.0.sent
  undo_call-sent id x (s, none) = refl
  undo_call-sent id x (s, some code) =
      if-cases (Silent s) (is_some (get id s.pending))
        (record s { pending = delete id s.pending; replies = s.replies ++ (x, rejected code) ∷ [] })
        s (λ h. refl) (λ h. refl)

  call_next-sent :
      (x : Caller) (m : Message) (s : Core) (o : Next) → Silent s (call_next j buffered x m s o)
  unfolding call_next
  call_next-sent x m s (refused code) = refl
  call_next-sent x m s (next id) =
      undo_call-sent id x _
      ∙ write-sent (record m { id = whole_id id })
          (record s { serial = id; pending = s.pending ++ (id, x) ∷ [] })

  detach_session-sent : (t : ℕ) (s : Core) → Silent s (detach_session j buffered t s)
  unfolding detach_session call
  detach_session-sent t s =
      if-cases (Silent s) s.closed s
        (call j buffered detach (request detach_from_target (text t)) s) (λ h. refl)
        (λ h. call_next-sent detach (request detach_from_target (text t)) s (next_id s))

  detach_browser-sent : (o : Option ℕ) (s : Core) → Silent s (detach_browser j buffered o s)
  unfolding detach_browser
  detach_browser-sent none s = refl
  detach_browser-sent (some t) s = detach_session-sent t s

  drop_client-sent : (o : Option Client) (s : Core) → Silent s (drop_client j buffered o s)
  unfolding drop_client
  drop_client-sent none s = refl
  drop_client-sent (some x) s = detach_browser-sent x.browser_id (forget j buffered x.id s)

  drop-sent : (c : ℕ) (s : Core) → Silent s (drop j buffered c s)
  unfolding drop
  drop-sent c s = drop_client-sent (find_client c s.clients) s

  hide_text-id : (f : TextField) (b : ℕ) (m : Message) → (hide_text j buffered f b m).id ≡ m.id
  hide_text-id no_text b m = refl
  hide_text-id other_value b m = refl
  hide_text-id (text t) b m =
      if-cases (λ (o : Message). o.id ≡ m.id) (t == b) (record m { session_id = no_text }) m
        (λ h. refl) (λ h. refl)

  hide_session-id : (o : Option ℕ) (m : Message) → (hide_session j buffered o m).id ≡ m.id
  hide_session-id none m = refl
  hide_session-id (some b) m = hide_text-id m.session_id b m

  send_to-Sent :
      (c : ℕ) (o : Option Client) (m : Message) (s : Core)
      → find_client c s.clients ≡ o
      → Sent c m.id s (send_to j buffered o m s)
  unfolding send_to
  send_to-Sent c none m s e = inl refl
  send_to-Sent c (some x) m s e =
      let output = hide_session j buffered x.browser_id m in
      if-cases (Sent c m.id s) (ltb max_queued_bytes (buffered x.id + length (j.encode output)))
        (drop j buffered x.id s) (record s { sent = s.sent ++ (x.id, output) ∷ [] })
        (λ h. inl (drop-sent x.id s))
        (λ h. inr (
          output,
          hide_session-id x.browser_id m,
          ap (λ d. s.sent ++ (d, output) ∷ []) (find_client-id s.clients c x e),
        ))

  send-Sent : (c : ℕ) (m : Message) (s : Core) → Sent c m.id s (send j buffered c m s)
  unfolding send
  send-Sent c m s = send_to-Sent c (find_client c s.clients) m s refl

  own-sent : (f : TextField) (c : ℕ) (s : Core) → Silent s (own j buffered f c s)
  own-sent no_text c s = refl
  own-sent other_value c s = refl
  own-sent (text t) c s = refl

  disown-sent : (f : TextField) (s : Core) → Silent s (disown j buffered f s)
  disown-sent no_text s = refl
  disown-sent other_value s = refl
  disown-sent (text t) s = refl

  -- Steps that send nothing, before and after one that sends.
  Sent-through :
      (c : ℕ) (id : IdField) (s t u v : Core)
      → Silent s t
      → Sent c id t u
      → Silent u v
      → Sent c id s v
  Sent-through c id s t u v before (inl e) after = inl (after ∙ e ∙ before)
  Sent-through c id s t u v before (inr (output, named, e)) after =
      inr (output, named, after ∙ e ∙ ap (λ xs. xs ++ (c, output) ∷ []) before)

  answer-Sent :
      (x : Caller) (m : Message) (s : Core)
      → Silent s (answer j buffered x m s)
        ⊎ ((c original : ℕ) × (x ≡ command c original)
            × Sent c (whole_id original) s (answer j buffered x m s))
  unfolding answer
  answer-Sent (command c original) m s =
      let f : Client → Client =
        λ x. record x { pending_ids = remove_number original x.pending_ids } in
      let t = record s { clients = update_client c f s.clients } in
      let u = own j buffered m.result_session c t in
      let r = record m { id = whole_id original } in
      inr (
        c,
        original,
        refl,
        Sent-through c (whole_id original) s u (send j buffered c r u) (send j buffered c r u)
            (own-sent m.result_session c t) (send-Sent c r u) refl,
      )
  answer-Sent (attach d) m s = inl refl
  answer-Sent detach m s = inl refl
  answer-Sent (browser_call n) m s = inl refl

  event_for-Sent :
      (k : Method) (m : Message) (c : ℕ) (s : Core) → Sent c m.id s (event_for j buffered k m c s)
  unfolding event_for
  event_for-Sent attached_to_target m c s =
      let u = own j buffered m.param_session c s in
      Sent-through c m.id s u (send j buffered c m u) (send j buffered c m u)
        (own-sent m.param_session c s) (send-Sent c m u) refl
  event_for-Sent detached_from_target m c s =
      let u = send j buffered c m s in
      Sent-through c m.id s s u (disown j buffered m.param_session u) refl (send-Sent c m s)
        (disown-sent m.param_session u)
  event_for-Sent no_method m c s = send-Sent c m s
  event_for-Sent attach_to_browser_target m c s = send-Sent c m s
  event_for-Sent detach_from_target m c s = send-Sent c m s
  event_for-Sent (other_method n) m c s = send-Sent c m s

  abbrev pub Isolated : Message → Core → Option Core → Type 0
  Isolated m s none = Unit
  Isolated m s (some t) =
      (t.sent ≡ s.sent)
      ⊎ ((c : ℕ) × (id : IdField) × IsFor m s c id
          × (output : Message) × (output.id ≡ id)
          × (t.sent ≡ s.sent ++ (c, output) ∷ []))

  Sent-Isolated :
      (m : Message) (c : ℕ) (id : IdField) (s t : Core)
      → IsFor m s c id
      → Sent c id s t
      → Isolated m s (some t)
  Sent-Isolated m c id s t meant (inl e) = inl e
  Sent-Isolated m c id s t meant (inr (output, named, e)) = inr (c, id, meant, output, named, e)

  route_answer-Isolated :
      (id : ℕ) (m : Message) (s : Core) (o : Option Caller)
      → m.id ≡ whole_id id
      → get id s.pending ≡ o
      → Isolated m s (some (route_answer j buffered id m o s))
  unfolding route_answer
  route_answer-Isolated id m s none named e = inl refl
  route_answer-Isolated id m s (some x) named e =
      let t = record s { pending = delete id s.pending } in
      elim (answer-Sent x m t) [
        | inl quiet ↦ inl quiet
        | inr (c, original, same, sent) ↦
            Sent-Isolated m c (whole_id original) s (answer j buffered x m t)
              (answers id c original named (e ∙ ap some same)) sent
      ]

  route_event-Isolated :
      (t : ℕ) (m : Message) (s : Core) (o : Option ℕ)
      → m.id ≡ no_id
      → m.session_id ≡ text t
      → get t s.owners ≡ o
      → Isolated m s (some (route_event j buffered m o s))
  unfolding route_event
  route_event-Isolated t m s none none_id at e = inl refl
  route_event-Isolated t m s (some c) none_id at e =
      Sent-Isolated m c m.id s (event_for j buffered m.method m c s)
        (subst (λ i. IsFor m s c i) (sym none_id) (tells t c none_id at e))
        (event_for-Sent m.method m c s)

  route_fields-Isolated :
      (i : IdField) (f : TextField) (m : Message) (s : Core)
      → m.id ≡ i
      → m.session_id ≡ f
      → Isolated m s (route_fields j buffered i f m s)
  unfolding route_fields
  route_fields-Isolated bad_id f m s e at = tt
  route_fields-Isolated negative_id f m s e at = inl refl
  route_fields-Isolated (whole_id id) f m s e at =
      route_answer-Isolated id m s (get id s.pending) e refl
  route_fields-Isolated no_id (text t) m s e at =
      route_event-Isolated t m s (get t s.owners) e at refl
  route_fields-Isolated no_id no_text m s e at = inl refl
  route_fields-Isolated no_id other_value m s e at = inl refl

  -- Whatever message comes from Chrome, routing it sends at most one message, and only to the client
  -- that the message is for: the one whose command has the answer's number, which then carries the
  -- number that this client chose, or the owner of the event's target session.
  pub route-Isolated : (m : Message) (s : Core) → Isolated m s (route j buffered m s)
  unfolding route
  route-Isolated m s = route_fields-Isolated m.id m.session_id m s refl refl
