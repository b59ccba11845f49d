-- ===== src/Sessions/Runs.antt =====
-- Histories of the operations on Sessions, in any order and with any arguments; each is a
-- transaction, and one that throws leaves the tables as they were.
use browshare.Prelude.{
  ℕ, ◌≡◌, refl, Bool, true, false, Option, none, some, List, [], ◌∷◌, String, if◌then◌else◌,
  Outcome, ok, throw,
}
use browshare.Sessions.{Kind, CloseReason, Entry, Database, find_session, is_terminal}
use browshare.Sessions.Closure.{queue_session_close}
use browshare.Sessions.Lifecycle.{Failure, Locked, begin, RuntimeFact, accept}
use browshare.Sessions.Expiry.{fail, take, due_rows, expire}
use browshare.Sessions.Pending.{begin-BeginParts, accept-AcceptParts}
use browshare.Sessions.Transitions.{
  Reached, stay, Consistent, Reached-trans, Reached-Consistent, Walk, Reached-Walk, Reached-ended,
}
use browshare.Sessions.Histories.{
  Moves, Moves-ok, rows, queue_session_close-Moves, lock_reservation_session-stored,
  fail_locked-Reached, expire_rows-Reached, deliver-Moves, accept_matching-Moves, found_again,
}

pub data Operation : Type 0 where
  begin_delivery : ℕ → Operation
  accept_result : (message instance_id : ℕ) → RuntimeFact → Option ℕ → Operation
  fail_creation : ℕ → String → Operation
  expire_due : (ℕ → Bool) → Operation
  close_session : ℕ → CloseReason → Operation

abbrev pub or_rolled_back : {E : Type 0} → Database → Outcome E Database → Database
or_rolled_back db (ok x) = x
or_rolled_back db (throw e) = db

-- `begin` gives its caller the rows too.
abbrev pub tables : Outcome Failure (Locked × Database) → Outcome Failure Database
tables (ok (l, x)) = ok x
tables (throw e) = throw e

-- The callers of `queueSessionClose` lock the row that they close.
abbrev pub close_found : Option Entry → CloseReason → ℕ → Database → Database
close_found none reason now db = db
close_found (some e) reason now db = or_rolled_back db (queue_session_close e reason now db)

abbrev pub or_same : Database → Option Database → Database
or_same db none = db
or_same db (some x) = x

rolled_back-Reached :
    {E : Type 0} (db : Database) (o : Outcome E Database)
    → Moves rows db.entries o
    → Reached db.entries (or_rolled_back db o).entries
rolled_back-Reached db (ok x) moves = moves
rolled_back-Reached db (throw e) moves = stay

tables-Moves :
    (db : Database) (o : Outcome Failure (Locked × Database))
    → ((r : Locked × Database) → o ≡ ok r → Reached db.entries r.1.entries)
    → Moves rows db.entries (tables o)
tables-Moves db (ok (l, x)) moves = moves (l, x) refl
tables-Moves db (throw e) moves = tt

returns-Moves :
    {E : Type 0} (db : Database) (o : Outcome E Database)
    → ((x : Database) → o ≡ ok x → Reached db.entries x.entries)
    → Moves rows db.entries o
returns-Moves db (ok x) moves = moves x refl
returns-Moves db (throw e) moves = tt

same_if :
    (b : Bool) (db x : Database)
    → Reached db.entries x.entries
    → Reached db.entries (or_same db (if b then some x else none)).entries
same_if true db x moves = moves
same_if false db x moves = stay

module _ (authorized : ℕ → ℕ → Kind → Bool) (is_stable : String → Bool) where
  unfoldable pub step : ℕ → Operation → Database → Database
  step now (begin_delivery m) db = or_rolled_back db (tables (begin authorized now m db))
  step now (accept_result m instance_id fact observed_at) db =
      or_rolled_back db (accept authorized now m instance_id fact observed_at db)
  step now (fail_creation m reason) db = or_same db (fail is_stable now m reason db)
  step now (expire_due is_locked) db = (expire is_locked now db).0
  step now (close_session id reason) db = close_found (find_session id db.entries) reason now db

  unfoldable pub run : List (ℕ × Operation) → Database → Database
  run [] db = db
  run ((now, o) ∷ os) db = run os (step now o db)

  begin-Reached :
      (now m : ℕ) (db : Database)
      → Reached db.entries (or_rolled_back db (tables (begin authorized now m db))).entries
  begin-Reached now m db = rolled_back-Reached db _ (
      tables-Moves db _ λ r done.
        let b = begin-BeginParts authorized now m db r done in
        Moves-ok _ db.entries _
          (deliver-Moves b.locked _ _ b.profile db
            (lock_reservation_session-stored m db.entries b.locked b.pending.row) b.pending.live)
          b.ended)

  accept-Reached :
      (now m instance_id : ℕ) (fact : RuntimeFact) (observed_at : Option ℕ) (db : Database)
      → Reached db.entries
          (or_rolled_back db (accept authorized now m instance_id fact observed_at db)).entries
  accept-Reached now m instance_id fact observed_at db = rolled_back-Reached db _ (
      returns-Moves db _ λ x done.
        let a = accept-AcceptParts authorized now m instance_id fact observed_at db x done in
        Moves-ok rows db.entries _
          (accept_matching-Moves now fact a.locked db
            (lock_reservation_session-stored m db.entries a.locked a.pending.row) a.pending.live)
          a.ended)

  fail-Reached :
      (now m : ℕ) (reason : String) (db : Database)
      → Reached db.entries (or_same db (fail is_stable now m reason db)).entries
  unfolding fail
  fail-Reached now m reason db =
      same_if (is_stable reason) db _
        (fail_locked-Reached now reason db _ (lock_reservation_session-stored m db.entries))

  close_found-Reached :
      (id : ℕ) (reason : CloseReason) (now : ℕ) (db : Database) (o : Option Entry)
      → find_session id db.entries ≡ o
      → Reached db.entries (close_found o reason now db).entries
  close_found-Reached id reason now db none found = stay
  close_found-Reached id reason now db (some e) found =
      rolled_back-Reached db _
        (queue_session_close-Moves e reason now db (found_again id e db.entries found))

  -- A step makes moves only.
  pub step-Reached :
      (now : ℕ) (o : Operation) (db : Database) → Reached db.entries (step now o db).entries
  unfolding step expire
  step-Reached now (begin_delivery m) db = begin-Reached now m db
  step-Reached now (accept_result m instance_id fact observed_at) db =
      accept-Reached now m instance_id fact observed_at db
  step-Reached now (fail_creation m reason) db = fail-Reached now m reason db
  step-Reached now (expire_due is_locked) db =
      expire_rows-Reached now (take 100 (due_rows is_locked now db.entries)) db
  step-Reached now (close_session id reason) db = close_found-Reached id reason now db _ refl

  pub run-Reached :
      (os : List (ℕ × Operation)) (db : Database) → Reached db.entries (run os db).entries
  unfolding run
  run-Reached [] db = stay
  run-Reached ((now, o) ∷ os) db =
      Reached-trans (step-Reached now o db) (run-Reached os (step now o db))

  -- If every Session is consistent with its reservation before a history of deliveries, results,
  -- failures, expiries and closes, every Session is after it: one that is reserved has an active
  -- reservation and no runtime, one that is created an active one and a runtime, one that is ready a
  -- consumed one; one that closes either of these; and the reservation of one that has ended is
  -- released or, after a failure, expired.
  pub run-Consistent :
      (os : List (ℕ × Operation)) (db : Database)
      → Consistent db.entries
      → Consistent (run os db).entries
  run-Consistent os db all = Reached-Consistent (run-Reached os db) all

  -- A Session of consistent tables that is found before a history is found after it, and its status
  -- went from the one to the other by the allowed moves only.
  pub run-Walk :
      (os : List (ℕ × Operation)) (db : Database) (id : ℕ) (e : Entry)
      → Consistent db.entries
      → find_session id db.entries ≡ some e
      → (f : Entry) × (find_session id (run os db).entries ≡ some f)
        × Walk e.session.status f.session.status
  run-Walk os db id e all found = Reached-Walk id e (run-Reached os db) all found

  -- No history changes the row or the reservation of a Session of consistent tables that is closed or
  -- failed.
  pub run-ended :
      (os : List (ℕ × Operation)) (db : Database) (id : ℕ) (e : Entry)
      → Consistent db.entries
      → find_session id db.entries ≡ some e
      → is_terminal e.session.status ≡ true
      → find_session id (run os db).entries ≡ some e
  run-ended os db id e all found ended = Reached-ended id e (run-Reached os db) all found ended
