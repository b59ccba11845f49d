-- ===== src/Cdp/Answers.antt =====
-- Commands of a client of CdpPipeBridge, their numbers, and Chrome's answers to them.
use browshare.Prelude.{
  ℕ, suc, ◌+◌, ◌≤◌, ◌<◌, ◌≡◌, refl, ap, ◌∙◌, inl, inr, true, false, ◌&&◌, not, Option, none, some,
  List, [], ◌∷◌, ◌++◌, ◌==◌, leb, ltb, if◌then◌else◌, is_some, includes, arith, All, Bool-cases,
  if-true, if-false, length,
}
use browshare.Cdp.{
  TextField, no_text, other_value, text, whole_id, Message, Codec, command, Client, Core,
  max_queued_bytes, max_pending_commands, max_message_bytes, max_safe_integer, get, delete,
  find_client, update_client, remove_number,
}
use browshare.Cdp.Operations.{
  next_id, next, frame, write, hide_session, drop, send_to, send, own, answer, route_answer,
  route_fields, route,
}
use browshare.Cdp.Events.{
  has_method, may_address, target_session, add_pending, submit, check_message, handle_message,
  client_message, written_or_drop,
}
use browshare.Cdp.Ownership.{Inv}

equal_self : (n : ℕ) → (n == n) ≡ true
equal_self n = ground arith

get-new :
    {V : Type 0} (n : ℕ) (m : List (ℕ × V)) (v : V)
    → All (λ p. p.0 ≤ n) m
    → get (suc n) (m ++ (suc n, v) ∷ []) ≡ some v
get-new n [] v h = rw (equal_self (suc n)) refl
get-new n ((k, w) ∷ m) v (first, h) =
    let other : (k == suc n) ≡ false = ground arith in rw other (get-new n m v h)

delete-new :
    {V : Type 0} (n : ℕ) (m : List (ℕ × V)) (v : V)
    → All (λ p. p.0 ≤ n) m
    → delete (suc n) (m ++ (suc n, v) ∷ []) ≡ m
delete-new n [] v h = rw (equal_self (suc n)) refl
delete-new n ((k, w) ∷ m) v (first, h) =
    let other : (k == suc n) ≡ false = ground arith in
    rw other (ap (λ x. (k, w) ∷ x) (delete-new n m v h))

update-back :
    (c : ℕ) (f g : Client → Client) (xs : List Client) (x : Client)
    → find_client c xs ≡ some x
    → (f x).id ≡ x.id
    → g (f x) ≡ x
    → update_client c g (update_client c f xs) ≡ xs
update-back c f g [] x e same back = refl
update-back c f g (y ∷ ys) x e same back = elim (Bool-cases (y.id == c)) [
  | inl h ↦
      let found : ◌≡◌ {A = Option Client} (some y) (some x) = rw h at e in
      let here : y ≡ x = cc in
      let kept : (f y).id ≡ y.id = rw here same in
      let again : ((f y).id == c) ≡ true = rw kept h in
      let undone : g (f y) ≡ y = rw here back in rw (h, again) (ap (λ z. z ∷ ys) undone)
  | inr h ↦
      let further : find_client c ys ≡ some x = rw h at e in
      rw (h, h) (ap (λ z. y ∷ z) (update-back c f g ys x further same back))
]

remove-last : (n : ℕ) (ns : List ℕ) → includes ns n ≡ false → remove_number n (ns ++ n ∷ []) ≡ ns
remove-last n [] h = rw (equal_self n) refl
remove-last n (m ∷ ns) h =
    let other : (m == n) ≡ false = ground arith in
    let rest : includes ns n ≡ false = ground arith in
    rw other (ap (λ z. m ∷ z) (remove-last n ns rest))

-- The tests that a command of a client passes, and the room that it finds.
pub record IsAdmitted (j : Codec) (x : Client) (b original : ℕ) (m : Message) (s : Core)
    : Type 0 where
  pub alive : s.closed ≡ false
  pub connected : find_client x.id s.clients ≡ some x
  pub attached : x.browser_id ≡ some b
  pub numbered : m.id ≡ whole_id original
  pub method : has_method m.method ≡ true
  pub addressed : may_address x.id m.session_id s ≡ true
  pub free : includes x.pending_ids original ≡ false
  pub few : length s.pending < max_pending_commands
  pub low : s.serial < max_safe_integer

-- What the bridge writes for it.
abbrev pub renumbered : Client → Message → Core → Message
renumbered x m s = record m {
  id = whole_id (suc s.serial);
  session_id = target_session m.session_id x.browser_id;
}

module _ (j : Codec) (buffered : ℕ → ℕ) where
  next_id-new :
      (s : Core)
      → s.closed ≡ false
      → length s.pending < max_pending_commands
      → s.serial < max_safe_integer
      → next_id s ≡ next (suc s.serial)
  next_id-new s alive few low =
      let room : leb max_pending_commands (length s.pending) ≡ false = ground arith in
      let more : leb max_safe_integer s.serial ≡ false = ground arith in simp (alive, room, more)

  write-done :
      (m : Message) (s : Core)
      → s.closed ≡ false
      → length (frame j buffered m) ≤ suc max_message_bytes
      → s.queued + length (frame j buffered m) ≤ max_queued_bytes
      → write j buffered m s ≡ (
        record s { queued = s.queued + length (frame j buffered m); written = s.written ++ m ∷ [] },
        none,
      )
  unfolding write
  write-done m s alive short room =
      let fits : ltb (suc max_message_bytes) (length (frame j buffered m)) ≡ false = ground arith in
      let waits : ltb max_queued_bytes (s.queued + length (frame j buffered m)) ≡ false =
        ground arith in
      simp (alive, fits, waits)

  -- The state after the command was written.
  abbrev pub submitted : Client → ℕ → Message → Core → Core
  submitted x original m s =
      let output = renumbered x m s in
      record s {
        serial = suc s.serial;
        clients = update_client x.id (add_pending original) s.clients;
        pending = s.pending ++ (suc s.serial, command x.id original) ∷ [];
        queued = s.queued + length (frame j buffered output);
        written = s.written ++ output ∷ [];
      }

  client_message-submitted :
      (x : Client) (b original : ℕ) (m : Message) (s : Core)
      → IsAdmitted j x b original m s
      → length (frame j buffered (renumbered x m s)) ≤ suc max_message_bytes
      → s.queued + length (frame j buffered (renumbered x m s)) ≤ max_queued_bytes
      → client_message j buffered x.id (some m) s ≡ submitted x original m s
  unfolding client_message handle_message check_message submit written_or_drop
  client_message-submitted x b original m s a short room =
      let tests =
        has_method m.method
        && (may_address x.id m.session_id s && not (includes x.pending_ids original)) in
      let pass : tests ≡ true = simp (a.method, a.addressed, a.free) in
      let t = record s {
        serial = suc s.serial;
        clients = update_client x.id (add_pending original) s.clients;
        pending = s.pending ++ (suc s.serial, command x.id original) ∷ [];
      } in
      ap (λ o. handle_message j buffered o (some m) s) a.connected
      ∙ if-true (is_some x.browser_id) (check_message j buffered x m.id m s) s
          (ap is_some a.attached)
      ∙ ap (λ i. check_message j buffered x i m s) a.numbered
      ∙ if-true tests (submit j buffered x original m (next_id s) s) (drop j buffered x.id s) pass
      ∙ ap (λ n. submit j buffered x original m n s) (next_id-new s a.alive a.few a.low)
      ∙ ap (λ o. written_or_drop j buffered x.id o)
          (write-done (renumbered x m s) t a.alive short room)

  sent-client :
      (x : Client) (b : ℕ) (r : Message) (s : Core)
      → find_client x.id s.clients ≡ some x
      → x.browser_id ≡ some b
      → buffered x.id + length (j.encode (hide_session j buffered (some b) r)) ≤ max_queued_bytes
      → send j buffered x.id r s
        ≡ record s { sent = s.sent ++ (x.id, hide_session j buffered (some b) r) ∷ [] }
  unfolding send send_to
  sent-client x b r s e known room =
      let output = λ (o : Option ℕ). hide_session j buffered o r in
      let waits : ltb max_queued_bytes (buffered x.id + length (j.encode (output (some b))))
          ≡ false =
        ground arith in
      ap (λ o. send_to j buffered o r s) e
      ∙ ap
          (λ o.
            if ltb max_queued_bytes (buffered x.id + length (j.encode (output o)))
            then drop j buffered x.id s
            else record s { sent = s.sent ++ (x.id, output o) ∷ [] })
          known
      ∙ if-false (ltb max_queued_bytes (buffered x.id + length (j.encode (output (some b)))))
          (drop j buffered x.id s) (record s { sent = s.sent ++ (x.id, output (some b)) ∷ [] })
          waits

  -- What a connected client is sent, after `owners.set`.
  sent-own :
      (f : TextField) (x : Client) (b : ℕ) (r : Message) (s : Core)
      → find_client x.id s.clients ≡ some x
      → x.browser_id ≡ some b
      → buffered x.id + length (j.encode (hide_session j buffered (some b) r)) ≤ max_queued_bytes
      → send j buffered x.id r (own j buffered f x.id s)
        ≡ own j buffered f x.id
            (record s { sent = s.sent ++ (x.id, hide_session j buffered (some b) r) ∷ [] })
  unfolding send
  sent-own no_text x b r s e known room = sent-client x b r s e known room
  sent-own other_value x b r s e known room = sent-client x b r s e known room
  sent-own (text t) x b r s e known room =
      sent-client x b r (own j buffered (text t) x.id s) e known room

  answered-back :
      (x : Client) (b original : ℕ) (m r : Message) (s : Core)
      → Inv s
      → IsAdmitted j x b original m s
      → r.id ≡ whole_id (suc s.serial)
      → buffered x.id
          + length
              (j.encode (hide_session j buffered (some b) (record r { id = whole_id original })))
        ≤ max_queued_bytes
      → route j buffered r (submitted x original m s)
        ≡ some (
            own j buffered r.result_session x.id (record (submitted x original m s) {
              clients = s.clients;
              pending = s.pending;
              sent =
                  s.sent
                  ++ (x.id, hide_session j buffered (some b) (record r { id = whole_id original }))
                    ∷ [];
            }))
  unfolding route route_fields route_answer answer send send_to
  answered-back x b original m r s v a named room =
      let n = suc s.serial in
      let t = submitted x original m s in
      let back : Client → Client =
        λ y. record y { pending_ids = remove_number original y.pending_ids } in
      let output = hide_session j buffered (some b) (record r { id = whole_id original }) in
      let rest = record t { clients = s.clients; pending = s.pending } in
      let clients : update_client x.id back t.clients ≡ s.clients =
        update-back x.id (add_pending original) back s.clients x a.connected refl (
          ap (λ ids. record x { pending_ids = ids }) (remove-last original x.pending_ids a.free)) in
      ap (λ i. route_fields j buffered i r.session_id r t) named
      ∙ ap (λ o. some (route_answer j buffered n r o t))
          (get-new s.serial s.pending (command x.id original) v.numbered)
      ∙ ap (λ ps. some (answer j buffered (command x.id original) r (record t { pending = ps })))
          (delete-new s.serial s.pending (command x.id original) v.numbered)
      ∙ ap
          (λ xs. some (
            send j buffered x.id (record r { id = whole_id original })
              (own j buffered r.result_session x.id
                (record t { clients = xs; pending = s.pending }))))
          clients
      ∙ ap (λ u. some u)
          (sent-own r.result_session x b (record r { id = whole_id original }) rest a.connected
            a.attached room)

  -- When a ready client sends a command that passes the tests and for which there is room, the bridge
  -- writes it once, with the next number and with the client's own session where it named none. The
  -- answer that carries this number then goes to that client, with the number that the client chose,
  -- if its socket has room; nobody else is sent anything, and apart from a session that the answer opens
  -- the bridge's tables are as they were.
  pub command-answer :
      (x : Client) (b original : ℕ) (m r : Message) (s : Core)
      → Inv s
      → IsAdmitted j x b original m s
      → length (frame j buffered (renumbered x m s)) ≤ suc max_message_bytes
      → s.queued + length (frame j buffered (renumbered x m s)) ≤ max_queued_bytes
      → r.id ≡ whole_id (suc s.serial)
      → buffered x.id
          + length
              (j.encode (hide_session j buffered (some b) (record r { id = whole_id original })))
        ≤ max_queued_bytes
      → ((client_message j buffered x.id (some m) s).written ≡ s.written ++ renumbered x m s ∷ [])
        × (route j buffered r (client_message j buffered x.id (some m) s)
            ≡ some (
                own j buffered r.result_session x.id (record s {
                  serial = suc s.serial;
                  queued = s.queued + length (frame j buffered (renumbered x m s));
                  written = s.written ++ renumbered x m s ∷ [];
                  sent =
                      s.sent
                      ++ (
                        x.id,
                        hide_session j buffered (some b) (record r { id = whole_id original }),
                      )
                        ∷ [];
                })))
  command-answer x b original m r s v a short room named waits =
      let done = client_message-submitted x b original m s a short room in
      (
        ap (λ (t : Core). t.written) done,
        ap (λ t. route j buffered r t) done ∙ answered-back x b original m r s v a named waits,
      )
