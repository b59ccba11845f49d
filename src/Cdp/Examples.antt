-- ===== src/Cdp/Examples.antt =====
-- A codec of one byte a message, a bridge with one client, and the theorems at them.
use browshare.Prelude.{
  ℕ, suc, ◌-◌, ◌≡◌, refl, true, false, none, some, List, [], ◌∷◌, ◌==◌, if◌then◌else◌, arith,
}
use browshare.Cdp.{
  no_text, text, no_id, whole_id, other_method, Message, Codec, command, Client, Core,
}
use browshare.Cdp.Operations.{hide_session, send_to, own, answer, route}
use browshare.Cdp.Frames.{with_buffer, route_parsed, read, read_all}
use browshare.Cdp.Frames.Stream.{feed}
use browshare.Cdp.Frames.Chunks.{concat, read_all-feed}
use browshare.Cdp.Frames.Messages.{frames, route_all, read_all-frames}
use browshare.Cdp.Frames.Loop.{Ends, read-Ends}
use browshare.Cdp.Events.{
  client_message, upgraded, said, arrived, settled, flushed, Event, run, opened,
}
use browshare.Cdp.Ownership.{Inv}
use browshare.Cdp.Ownership.Steps.{run-opened-Inv}
use browshare.Cdp.Answers.{IsAdmitted, renumbered, command-answer}
use browshare.Cdp.Isolation.{Isolated, route-Isolated}

abbrev notice : ℕ → Message
notice body = record {
  id = no_id;
  session_id = text 7;
  method = other_method 1;
  param_session = no_text;
  result_session = no_text;
  has_error = false;
  body = body;
}

-- The answer to the first command: the browser session 7.
abbrev attached_answer : Message
attached_answer = record (notice 8) {
  id = whole_id 1;
  session_id = no_text;
  result_session = text 7;
}

abbrev bytes : Codec
bytes = record {
  encode = λ m. suc m.body ∷ [];
  parse = λ bs. elim bs [
    | [] ↦ none
    | (b ∷ _) ↦ some (if b == 9 then attached_answer else notice (b - 1))
  ];
}

abbrev idle : ℕ → ℕ
idle c = 0

abbrev one_client : Client
one_client = record { id = 0; browser_id = some 7; pending_ids = [] }

abbrev connected_core : Core
connected_core = record (opened.core) {
  serial = 1;
  accepted = 1;
  clients = one_client ∷ [];
  owners = (7, 0) ∷ [];
}

abbrev asked : Message
asked = record (notice 3) { id = whole_id 40; session_id = no_text }

abbrev replied : Message
replied = record (notice 4) { id = whole_id 2; session_id = text 7 }

connected_core-Inv : Inv connected_core
connected_core-Inv = record {
  numbered = tt;
  distinct = tt;
  awaited = tt;
  owned = (refl, tt);
  few = omega arith;
  small = omega arith;
}

asked-IsAdmitted : IsAdmitted bytes one_client 7 40 asked connected_core
asked-IsAdmitted = record {
  alive = refl;
  connected = refl;
  attached = refl;
  numbered = refl;
  method = refl;
  addressed = refl;
  free = refl;
  few = omega arith;
  low = omega arith;
}

read_all-feed_example :
    read_all bytes idle ((2 ∷ 0 ∷ []) ∷ (3 ∷ []) ∷ (0 ∷ []) ∷ []) (with_buffer [] connected_core)
    ≡ feed bytes idle
        (concat ((2 ∷ 0 ∷ []) ∷ (3 ∷ []) ∷ (0 ∷ []) ∷ []))
        (with_buffer [] connected_core)
read_all-feed_example =
    read_all-feed bytes idle ((2 ∷ 0 ∷ []) ∷ (3 ∷ []) ∷ (0 ∷ []) ∷ [])
      (with_buffer [] connected_core) (tt, omega arith)

read_all-frames_example :
    read_all bytes idle ((2 ∷ []) ∷ (0 ∷ 3 ∷ 0 ∷ []) ∷ []) (with_buffer [] connected_core)
    ≡ with_buffer [] (route_all bytes idle (notice 1 ∷ notice 2 ∷ []) connected_core)
unfolding concat frames
read_all-frames_example =
    read_all-frames bytes idle (notice 1 ∷ notice 2 ∷ []) ((2 ∷ []) ∷ (0 ∷ 3 ∷ 0 ∷ []) ∷ [])
      connected_core
      (
        ((ground arith, tt), omega arith, omega arith, refl),
        (((ground arith, tt), omega arith, omega arith, refl), tt),
      )
      refl

-- Both of them reach the client.
sent_to_client :
    (route_all bytes idle (notice 1 ∷ notice 2 ∷ []) connected_core).sent
    ≡ (0, record (notice 1) { session_id = no_text })
      ∷ (0, record (notice 2) { session_id = no_text })
      ∷ []
unfolding route_all route send_to
sent_to_client = refl

read-Ends_example :
    Ends bytes idle
      (record { buffer = 2 ∷ 0 ∷ 3 ∷ []; core = connected_core })
      (read bytes idle (0 ∷ 3 ∷ []) (record { buffer = 2 ∷ []; core = connected_core }))
read-Ends_example =
    read-Ends bytes idle (0 ∷ 3 ∷ []) (record { buffer = 2 ∷ []; core = connected_core }) refl

abbrev history : List Event
history =
    upgraded false true
    ∷ arrived (9 ∷ 0 ∷ [])
    ∷ settled
    ∷ said 0 (some asked)
    ∷ flushed 2
    ∷ arrived (5 ∷ 0 ∷ 6 ∷ [])
    ∷ []

run-opened-Inv_example : Inv (run bytes idle history opened).core
run-opened-Inv_example = run-opened-Inv bytes idle history

-- The client is attached at the end, and its command waits.
pending_command : (run bytes idle history opened).core.pending ≡ (2, command 0 40) ∷ []
unfolding run route_parsed answer send_to
pending_command = refl

command-answer_example :
    ((client_message bytes idle 0 (some asked) connected_core).written
      ≡ renumbered one_client asked connected_core ∷ [])
    × (route bytes idle replied (client_message bytes idle 0 (some asked) connected_core)
        ≡ some (
            own bytes idle replied.result_session 0 (record connected_core {
              serial = 2;
              queued = 2;
              written = renumbered one_client asked connected_core ∷ [];
              sent =
                  (0, hide_session bytes idle (some 7) (record replied { id = whole_id 40 })) ∷ [];
            })))
command-answer_example =
    command-answer bytes idle one_client 7 40 asked replied connected_core connected_core-Inv
      asked-IsAdmitted (omega arith) (omega arith) refl (omega arith)

route-Isolated_example :
    Isolated bytes idle (notice 1) connected_core (route bytes idle (notice 1) connected_core)
route-Isolated_example = route-Isolated bytes idle (notice 1) connected_core
