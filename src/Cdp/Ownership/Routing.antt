-- ===== src/Cdp/Ownership/Routing.antt =====
-- The tables of CdpPipeBridge: `#drop`, `#send` and `#route`.
use browshare.Prelude.{
  ℕ, ◌+◌, ◌≤◌, ◌≡◌, refl, ◌∙◌, true, false, Option, none, some, List, [], ◌∷◌, ◌++◌, ltb, arith,
  if-cases, length,
}
use browshare.Prelude.Maps.{All-delete, All-get, All-put}
use browshare.Cdp.{
  TextField, no_text, other_value, text, IdField, no_id, negative_id, bad_id, whole_id, Method,
  no_method, detach_from_target, attach_to_browser_target, other_method, attached_to_target,
  detached_from_target, Message, Codec, Caller, command, attach, detach, browser_call, Client, Core,
  max_queued_bytes, get, delete, find_client, update_client, remove_client, remove_number,
}
use browshare.Cdp.Operations.{
  is_command_of, hide_session, forget, detach_browser, drop_client, drop, send_to, send, own,
  disown, answer, route_answer, event_for, route_event, route_fields, route,
}
use browshare.Cdp.Tables.{
  present, All-map, present-update, present-remove, All-without_owner, All-without_commands,
  Distinct-without_commands, without_commands-length,
}
use browshare.Cdp.Ownership.{is_awaited, Inv, detach_session-Inv, delete-Inv}

still_awaited :
    (c : ℕ) (xs : List Client) (x : Caller)
    → is_command_of c x ≡ false
    → is_awaited xs x ≡ true
    → is_awaited (remove_client c xs) x ≡ true
still_awaited c xs (command d original) h i = present-remove xs c d h i
still_awaited c xs (attach d) h i = refl
still_awaited c xs detach h i = refl
still_awaited c xs (browser_call n) h i = refl

awaited-update :
    (c : ℕ) (f : Client → Client) (xs : List Client)
    → ((x : Client) → (f x).id ≡ x.id)
    → (x : Caller) → is_awaited xs x ≡ true
    → is_awaited (update_client c f xs) x ≡ true
awaited-update c f xs same (command d original) h = present-update xs c f same d ∙ h
awaited-update c f xs same (attach d) h = refl
awaited-update c f xs same detach h = refl
awaited-update c f xs same (browser_call n) h = refl

abbrev pub Kept : Option Core → Type 0
Kept none = Unit
Kept (some t) = Inv t

module _ (j : Codec) (buffered : ℕ → ℕ) where
  forget-Inv : (c : ℕ) (s : Core) → Inv s → Inv (forget j buffered c s)
  forget-Inv c s v = record {
    numbered =
        All-without_commands c (λ p. p.0 ≤ s.serial) (λ p. p.0 ≤ s.serial) s.pending (λ k x h i. i)
          v.numbered;
    distinct = Distinct-without_commands c s.pending v.distinct;
    awaited =
        All-without_commands c (λ p. is_awaited s.clients p.1 ≡ true)
          (λ p. is_awaited (remove_client c s.clients) p.1 ≡ true) s.pending
          (λ k x h i. still_awaited c s.clients x h i) v.awaited;
    owned =
        All-without_owner c (λ o. present s.clients o.1 ≡ true)
          (λ o. present (remove_client c s.clients) o.1 ≡ true) s.owners
          (λ t d h i. present-remove s.clients c d h i) v.owned;
    few = omega (arith, without_commands-length c s.pending, v.few);
    small = v.small;
  }

  detach_browser-Inv : (o : Option ℕ) (s : Core) → Inv s → Inv (detach_browser j buffered o s)
  unfolding detach_browser
  detach_browser-Inv none s v = v
  detach_browser-Inv (some session) s v = detach_session-Inv j buffered session s v

  drop_client-Inv : (o : Option Client) (s : Core) → Inv s → Inv (drop_client j buffered o s)
  unfolding drop_client
  drop_client-Inv none s v = v
  drop_client-Inv (some x) s v =
      detach_browser-Inv x.browser_id (forget j buffered x.id s) (forget-Inv x.id s v)

  pub drop-Inv : (c : ℕ) (s : Core) → Inv s → Inv (drop j buffered c s)
  unfolding drop
  drop-Inv c s v = drop_client-Inv (find_client c s.clients) s v

  send_to-Inv :
      (o : Option Client) (m : Message) (s : Core) → Inv s → Inv (send_to j buffered o m s)
  unfolding send_to
  send_to-Inv none m s v = v
  send_to-Inv (some x) m s v =
      let output = hide_session j buffered x.browser_id m in
      if-cases Inv (ltb max_queued_bytes (buffered x.id + length (j.encode output)))
        (drop j buffered x.id s) (record s { sent = s.sent ++ (x.id, output) ∷ [] })
        (λ h. drop-Inv x.id s v) (λ h. v)

  pub send-Inv : (c : ℕ) (m : Message) (s : Core) → Inv s → Inv (send j buffered c m s)
  unfolding send
  send-Inv c m s v = send_to-Inv (find_client c s.clients) m s v

  pub own-Inv :
      (f : TextField) (c : ℕ) (s : Core)
      → present s.clients c ≡ true
      → Inv s
      → Inv (own j buffered f c s)
  own-Inv no_text c s h v = v
  own-Inv other_value c s h v = v
  own-Inv (text t) c s h v = record {
    numbered = v.numbered;
    distinct = v.distinct;
    awaited = v.awaited;
    owned = All-put (λ o. present s.clients o.1 ≡ true) t c s.owners h v.owned;
    few = v.few;
    small = v.small;
  }

  disown-Inv : (f : TextField) (s : Core) → Inv s → Inv (disown j buffered f s)
  disown-Inv no_text s v = v
  disown-Inv other_value s v = v
  disown-Inv (text t) s v = record {
    numbered = v.numbered;
    distinct = v.distinct;
    awaited = v.awaited;
    owned = All-delete (λ o. present s.clients o.1 ≡ true) t s.owners v.owned;
    few = v.few;
    small = v.small;
  }

  -- An update of a client that leaves its number.
  pub update-Inv :
      (c : ℕ) (f : Client → Client) (s : Core)
      → ((x : Client) → (f x).id ≡ x.id)
      → Inv s
      → Inv (record s { clients = update_client c f s.clients })
  update-Inv c f s same v = record {
    numbered = v.numbered;
    distinct = v.distinct;
    awaited =
        All-map (λ p. is_awaited s.clients p.1 ≡ true)
          (λ p. is_awaited (update_client c f s.clients) p.1 ≡ true) s.pending
          (λ p h. awaited-update c f s.clients same p.1 h) v.awaited;
    owned =
        All-map (λ o. present s.clients o.1 ≡ true)
          (λ o. present (update_client c f s.clients) o.1 ≡ true) s.owners
          (λ o h. present-update s.clients c f same o.1 ∙ h) v.owned;
    few = v.few;
    small = v.small;
  }

  answer-Inv :
      (x : Caller) (m : Message) (s : Core)
      → is_awaited s.clients x ≡ true
      → Inv s
      → Inv (answer j buffered x m s)
  unfolding answer
  answer-Inv (command c original) m s h v =
      let f : Client → Client =
        λ x. record x { pending_ids = remove_number original x.pending_ids } in
      send-Inv c (record m { id = whole_id original }) _
        (own-Inv m.result_session c (record s { clients = update_client c f s.clients })
          (present-update s.clients c f (λ x. refl) c ∙ h) (update-Inv c f s (λ x. refl) v))
  answer-Inv (attach d) m s h v = v
  answer-Inv detach m s h v = v
  answer-Inv (browser_call n) m s h v = v

  route_answer-Inv :
      (id : ℕ) (m : Message) (s : Core) (o : Option Caller)
      → get id s.pending ≡ o
      → Inv s
      → Inv (route_answer j buffered id m o s)
  unfolding route_answer
  route_answer-Inv id m s none e v = v
  route_answer-Inv id m s (some x) e v =
      answer-Inv x m (record s { pending = delete id s.pending })
        (All-get (λ p. is_awaited s.clients p.1 ≡ true) id x s.pending v.awaited e)
        (delete-Inv s id v)

  event_for-Inv :
      (k : Method) (m : Message) (c : ℕ) (s : Core)
      → present s.clients c ≡ true
      → Inv s
      → Inv (event_for j buffered k m c s)
  unfolding event_for
  event_for-Inv attached_to_target m c s h v =
      send-Inv c m (own j buffered m.param_session c s) (own-Inv m.param_session c s h v)
  event_for-Inv detached_from_target m c s h v =
      disown-Inv m.param_session (send j buffered c m s) (send-Inv c m s v)
  event_for-Inv no_method m c s h v = send-Inv c m s v
  event_for-Inv attach_to_browser_target m c s h v = send-Inv c m s v
  event_for-Inv detach_from_target m c s h v = send-Inv c m s v
  event_for-Inv (other_method n) m c s h v = send-Inv c m s v

  route_event-Inv :
      (m : Message) (t : ℕ) (s : Core) (o : Option ℕ)
      → get t s.owners ≡ o
      → Inv s
      → Inv (route_event j buffered m o s)
  unfolding route_event
  route_event-Inv m t s none e v = v
  route_event-Inv m t s (some c) e v =
      event_for-Inv m.method m c s
        (All-get (λ o. present s.clients o.1 ≡ true) t c s.owners v.owned e) v

  route_fields-Inv :
      (i : IdField) (t : TextField) (m : Message) (s : Core)
      → Inv s
      → Kept (route_fields j buffered i t m s)
  unfolding route_fields
  route_fields-Inv bad_id t m s v = tt
  route_fields-Inv negative_id t m s v = v
  route_fields-Inv (whole_id id) t m s v = route_answer-Inv id m s (get id s.pending) refl v
  route_fields-Inv no_id (text t) m s v = route_event-Inv m t s (get t s.owners) refl v
  route_fields-Inv no_id no_text m s v = v
  route_fields-Inv no_id other_value m s v = v

  pub route-Inv : (m : Message) (s : Core) → Inv s → Kept (route j buffered m s)
  unfolding route
  route-Inv m s v = route_fields-Inv m.id m.session_id m s v
