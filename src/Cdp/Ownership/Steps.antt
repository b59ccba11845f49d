-- ===== src/Cdp/Ownership/Steps.antt =====
-- The tables of CdpPipeBridge: the handlers and runs of events.
use browshare.Prelude.{
  ℕ, suc, ◌-◌, ◌≡◌, refl, ◌∙◌, inl, inr, Bool, true, ◌||◌, ◌&&◌, not, Option, none, some, List, [],
  ◌∷◌, ◌++◌, ◌==◌, is_some, includes, arith, Bool-cases, if-cases,
}
use browshare.Cdp.{
  TextField, no_text, other_value, text, IdField, no_id, negative_id, bad_id, whole_id,
  attach_to_browser_target, other_method, Message, Codec, Code, pipe_attach_failed,
  pipe_detach_failed, pipe_invalid_message, Caller, command, attach, detach, browser_call, Reply,
  resolved, rejected, Client, Core, get, find_client, update_client,
}
use browshare.Cdp.Operations.{Next, next, refused, next_id, call, request, drop, route}
use browshare.Cdp.Frames.{Bridge, routed, route_parsed, route_frame, read}
use browshare.Cdp.Frames.Chunks.{read-closed}
use browshare.Cdp.Frames.Loop.{Ends, returns, throws, throws_at, goes_on, read-Ends}
use browshare.Cdp.Events.{
  has_method, may_address, target_session, add_pending, accept, upgrade, attached_to, attached,
  settle, settle_first, written_or_drop, submit, check_message, handle_message, client_message,
  time_out, Event, upgraded, said, gone, arrived, settled, timed_out, called, flushed, broken,
  closed, handle, step, run, opened,
}
use browshare.Cdp.Tables.{present, All-map, present-append, present-update}
use browshare.Cdp.Ownership.{
  is_awaited, Inv, IsNext, next_id-IsNext, close-Inv, fail-Inv, append-Inv, delete-Inv, write-Inv,
  call-Inv, detach_session-Inv,
}
use browshare.Cdp.Ownership.Routing.{drop-Inv, own-Inv, update-Inv, Kept, route-Inv}

awaited-append :
    (xs : List Client) (y : Client) (x : Caller)
    → is_awaited xs x ≡ true
    → is_awaited (xs ++ y ∷ []) x ≡ true
awaited-append xs y (command c original) h = present-append xs y c h
awaited-append xs y (attach c) h = refl
awaited-append xs y detach h = refl
awaited-append xs y (browser_call n) h = refl

add-Inv : (s : Core) (y : Client) → Inv s → Inv (record s { clients = s.clients ++ y ∷ [] })
add-Inv s y v = record {
  numbered = v.numbered;
  distinct = v.distinct;
  awaited =
      All-map (λ p. is_awaited s.clients p.1 ≡ true)
        (λ p. is_awaited (s.clients ++ y ∷ []) p.1 ≡ true) s.pending
        (λ p h. awaited-append s.clients y p.1 h) v.awaited;
  owned =
      All-map (λ o. present s.clients o.1 ≡ true) (λ o. present (s.clients ++ y ∷ []) o.1 ≡ true)
        s.owners (λ o h. present-append s.clients y o.1 h) v.owned;
  few = v.few;
  small = v.small;
}

flushed-Inv : (n : ℕ) (s : Core) → Inv s → Inv (record s { queued = s.queued - n })
flushed-Inv n s v = record {
  numbered = v.numbered;
  distinct = v.distinct;
  awaited = v.awaited;
  owned = v.owned;
  few = v.few;
  small = omega (arith, v.small);
}

found-present :
    (xs : List Client) (c : ℕ) (x : Client) → find_client c xs ≡ some x → present xs c ≡ true
found-present xs c x h = rw h refl

pub find_client-id : (xs : List Client) (c : ℕ) (x : Client) → find_client c xs ≡ some x → x.id ≡ c
find_client-id [] c x h = cc
find_client-id (y ∷ ys) c x h = elim (Bool-cases (y.id == c)) [
  | inl e ↦
      let found : ◌≡◌ {A = Option Client} (some y) (some x) = rw e at h in
      let here : y.id ≡ c = ground arith in cc
  | inr e ↦ let further : find_client c ys ≡ some x = rw e at h in find_client-id ys c x further
]

opened-Inv : Inv opened.core
opened-Inv = record {
  numbered = tt;
  distinct = tt;
  awaited = tt;
  owned = tt;
  few = omega arith;
  small = omega arith;
}

module _ (j : Codec) (buffered : ℕ → ℕ) where
  accept-Inv : (s : Core) → Inv s → Inv (accept j buffered s)
  unfolding accept
  accept-Inv s v =
      let c = s.accepted in
      let t =
        call j buffered (attach c) (request attach_to_browser_target no_text)
          (record s { accepted = suc c }) in
      add-Inv t (record { id = c; browser_id = none; pending_ids = [] })
        (call-Inv j buffered (attach c) (request attach_to_browser_target no_text)
          (record s { accepted = suc c }) refl v)

  upgrade-Inv : (a b : Bool) (s : Core) → Inv s → Inv (upgrade j buffered a b s)
  unfolding upgrade
  upgrade-Inv a b s v =
      if-cases Inv (s.closed || (a || not b)) s (accept j buffered s) (λ h. v) (λ h. accept-Inv s v)

  attached_to-Inv :
      (c t : ℕ) (o : Option Client) (s : Core)
      → find_client c s.clients ≡ o
      → Inv s
      → Inv (attached_to j buffered c t o s)
  unfolding attached_to
  attached_to-Inv c t none s e v = detach_session-Inv j buffered t s v
  attached_to-Inv c t (some x) s e v =
      let f : Client → Client = λ y. record y { browser_id = some t } in
      own-Inv j buffered (text t) c (record s { clients = update_client c f s.clients })
        (present-update s.clients c f (λ y. refl) c ∙ found-present s.clients c x e)
        (update-Inv j buffered c f s (λ y. refl) v)

  attached-Inv : (c : ℕ) (f : TextField) (s : Core) → Inv s → Inv (attached j buffered c f s)
  unfolding attached
  attached-Inv c (text t) s v = attached_to-Inv c t (find_client c s.clients) s refl v
  attached-Inv c no_text s v = fail-Inv pipe_attach_failed s v
  attached-Inv c other_value s v = fail-Inv pipe_attach_failed s v

  settle-Inv : (r : Caller × Reply) (s : Core) → Inv s → Inv (settle j buffered r s)
  unfolding settle
  settle-Inv (attach c, resolved m) s v = attached-Inv c m.result_session s v
  settle-Inv (attach c, rejected code) s v = fail-Inv pipe_attach_failed s v
  settle-Inv (detach, rejected code) s v = fail-Inv pipe_detach_failed s v
  settle-Inv (detach, resolved m) s v = v
  settle-Inv (command c i, r) s v = v
  settle-Inv (browser_call n, r) s v = v

  settle_first-Inv :
      (rs : List (Caller × Reply)) (s : Core) → Inv s → Inv (settle_first j buffered rs s)
  unfolding settle_first
  settle_first-Inv [] s v = v
  settle_first-Inv (r ∷ rs) s v = settle-Inv r (record s { replies = rs }) v

  written_or_drop-Inv :
      (c : ℕ) (r : Core × Option Code) → Inv r.0 → Inv (written_or_drop j buffered c r)
  unfolding written_or_drop
  written_or_drop-Inv c (s, none) v = v
  written_or_drop-Inv c (s, some code) v = drop-Inv j buffered c s v

  submit-Inv :
      (x : Client) (original : ℕ) (m : Message) (o : Next) (s : Core)
      → present s.clients x.id ≡ true
      → IsNext s o
      → Inv s
      → Inv (submit j buffered x original m o s)
  unfolding submit
  submit-Inv x original m (refused code) s h n v = drop-Inv j buffered x.id s v
  submit-Inv x original m (next id) s h (new, room) v =
      let f = add_pending original in
      let t = record s { clients = update_client x.id f s.clients } in
      written_or_drop-Inv x.id _ (
        write-Inv j buffered
          (record m { id = whole_id id; session_id = target_session m.session_id x.browser_id })
          (record t { serial = id; pending = s.pending ++ (id, command x.id original) ∷ [] })
          (append-Inv t id (command x.id original) (update-Inv j buffered x.id f s (λ y. refl) v)
            (omega (arith, new)) room (present-update s.clients x.id f (λ y. refl) x.id ∙ h)))

  check_message-Inv :
      (x : Client) (i : IdField) (m : Message) (s : Core)
      → present s.clients x.id ≡ true
      → Inv s
      → Inv (check_message j buffered x i m s)
  unfolding check_message
  check_message-Inv x (whole_id original) m s h v =
      if-cases Inv
        (has_method m.method
          && (may_address x.id m.session_id s && not (includes x.pending_ids original)))
        (submit j buffered x original m (next_id s) s) (drop j buffered x.id s)
        (λ e. submit-Inv x original m (next_id s) s h (next_id-IsNext s) v)
        (λ e. drop-Inv j buffered x.id s v)
  check_message-Inv x no_id m s h v = drop-Inv j buffered x.id s v
  check_message-Inv x negative_id m s h v = drop-Inv j buffered x.id s v
  check_message-Inv x bad_id m s h v = drop-Inv j buffered x.id s v

  handle_message-Inv :
      (c : ℕ) (o : Option Client) (m : Option Message) (s : Core)
      → find_client c s.clients ≡ o
      → Inv s
      → Inv (handle_message j buffered o m s)
  unfolding handle_message
  handle_message-Inv c none m s e v = v
  handle_message-Inv c (some x) none s e v =
      if-cases Inv (is_some x.browser_id) (drop j buffered x.id s) s
        (λ h. drop-Inv j buffered x.id s v) (λ h. v)
  handle_message-Inv c (some x) (some m) s e v =
      let here : present s.clients x.id ≡ true =
        rw (find_client-id s.clients c x e) (found-present s.clients c x e) in
      if-cases Inv (is_some x.browser_id) (check_message j buffered x m.id m s) s
        (λ h. check_message-Inv x m.id m s here v) (λ h. v)

  client_message-Inv :
      (c : ℕ) (m : Option Message) (s : Core) → Inv s → Inv (client_message j buffered c m s)
  unfolding client_message
  client_message-Inv c m s v = handle_message-Inv c (find_client c s.clients) m s refl v

  time_out-Inv : (id : ℕ) (o : Option Caller) (s : Core) → Inv s → Inv (time_out j buffered id o s)
  unfolding time_out
  time_out-Inv id none s v = v
  time_out-Inv id (some (command c i)) s v = drop-Inv j buffered c s v
  time_out-Inv id (some (attach c)) s v = delete-Inv s id v
  time_out-Inv id (some detach) s v = delete-Inv s id v
  time_out-Inv id (some (browser_call n)) s v = delete-Inv s id v

  routed-Inv :
      (s : Core) (o : Option Core) (rest : List ℕ)
      → Inv s
      → Kept o
      → Inv (routed j buffered s o rest).core
  routed-Inv s none rest v k = fail-Inv pipe_invalid_message s v
  routed-Inv s (some t) rest v k = k

  route_parsed-Inv :
      (o : Option Message) (s : Core) (rest : List ℕ)
      → Inv s
      → Inv (route_parsed j buffered o s rest).core
  unfolding route_parsed
  route_parsed-Inv none s rest v = fail-Inv pipe_invalid_message s v
  route_parsed-Inv (some m) s rest v =
      routed-Inv s (route j buffered m s) rest v (route-Inv j buffered m s v)

  route_frame-Inv :
      (f : List ℕ) (s : Core) (rest : List ℕ) → Inv s → Inv (route_frame j buffered f s rest).core
  unfolding route_frame
  route_frame-Inv [] s rest v = v
  route_frame-Inv (b ∷ bs) s rest v = route_parsed-Inv (j.parse (b ∷ bs)) s rest v

  abbrev OfBridge : Bridge → Type 0
  OfBridge b = Inv b.core

  Ends-Inv : (s t : Bridge) → Ends j buffered s t → OfBridge s → OfBridge t
  Ends-Inv s t (returns _ e h) v = v
  Ends-Inv s t (throws _ e h) v = fail-Inv pipe_invalid_message s.core v
  Ends-Inv s t (throws_at _ f rest e h) v = fail-Inv pipe_invalid_message s.core v
  Ends-Inv s t (goes_on _ _ f rest e h k) v =
      Ends-Inv (route_frame j buffered f s.core rest) t k (route_frame-Inv f s.core rest v)

  read-Inv : (chunk : List ℕ) (s : Bridge) → OfBridge s → OfBridge (read j buffered chunk s)
  read-Inv chunk s v = elim (Bool-cases s.core.closed) [
    | inl h ↦ rw (read-closed j buffered chunk s h) v
    | inr h ↦ Ends-Inv _ _ (read-Ends j buffered chunk s h) v
  ]

  handle-Inv : (e : Event) (s : Core) → Inv s → Inv (handle j buffered e s)
  unfolding handle
  handle-Inv (upgraded a b) s v = upgrade-Inv a b s v
  handle-Inv (said c m) s v = client_message-Inv c m s v
  handle-Inv (gone c) s v = drop-Inv j buffered c s v
  handle-Inv settled s v = settle_first-Inv s.replies s v
  handle-Inv (timed_out id) s v = time_out-Inv id (get id s.pending) s v
  handle-Inv (called n k) s v =
      call-Inv j buffered (browser_call n) (request (other_method k) no_text) s refl v
  handle-Inv (flushed n) s v = flushed-Inv n s v
  handle-Inv (broken code) s v = fail-Inv code s v
  handle-Inv closed s v = close-Inv s v
  handle-Inv (arrived chunk) s v = v

  step-Inv : (e : Event) (s : Bridge) → OfBridge s → OfBridge (step j buffered e s)
  unfolding step
  step-Inv (arrived chunk) s v = read-Inv chunk s v
  step-Inv (upgraded a b) s v = handle-Inv (upgraded a b) s.core v
  step-Inv (said c m) s v = handle-Inv (said c m) s.core v
  step-Inv (gone c) s v = handle-Inv (gone c) s.core v
  step-Inv settled s v = handle-Inv settled s.core v
  step-Inv (timed_out id) s v = handle-Inv (timed_out id) s.core v
  step-Inv (called n k) s v = handle-Inv (called n k) s.core v
  step-Inv (flushed n) s v = handle-Inv (flushed n) s.core v
  step-Inv (broken code) s v = handle-Inv (broken code) s.core v
  step-Inv closed s v = handle-Inv closed s.core v

  run_from-Inv : (es : List Event) (s : Bridge) → OfBridge s → OfBridge (run j buffered es s)
  unfolding run
  run_from-Inv [] s v = v
  run_from-Inv (e ∷ es) s v = run_from-Inv es (step j buffered e s) (step-Inv e s v)

  -- After any events, whatever JSON and the sockets do: no two pending commands of a new bridge share a
  -- number, none has a number that is still to be given out, every command of a client and every target
  -- session belongs to a client that is connected, at most 16384 commands are pending and at most 32 MiB
  -- wait in the pipe.
  pub run-opened-Inv : (es : List Event) → Inv (run j buffered es opened).core
  run-opened-Inv es = run_from-Inv es opened opened-Inv
