-- ===== src/Sessions/Transitions.antt =====
-- What a Session and its reservation can be at the same time, the moves of a Session's status, and
-- that every operation of Closure, Lifecycle and Expiry is a sequence of such moves.
use mathlib.Core.Path.{subst}
use browshare.Prelude.{
  ℕ, ◌≡◌, sym, ap, ◌∙◌, ◌≢◌, inl, inr, Bool, true, false, Option, none, some, List, [], ◌∷◌, arith,
  ◌==◌, ◌&&◌, not, if◌then◌else◌, is_some, Bool-cases, ==_iff, All,
}
use browshare.Sessions.{
  Status, reserved, creating, ready, connected, suspended, disconnected, closing, closed, failed,
  ReservationStatus, active, consumed, released, expired, Session, Reservation, Entry, is_terminal,
  find_session, store,
}

-- The reservation states that go with a status of the Session.
abbrev pub fits : Status → ReservationStatus → Bool
fits reserved active = true
fits creating active = true
fits ready consumed = true
fits connected consumed = true
fits suspended consumed = true
fits disconnected consumed = true
fits closing active = true
fits closing consumed = true
fits closed released = true
fits failed released = true
fits failed expired = true
fits _ _ = false

abbrev pub has_identity : Session → Bool
has_identity s =
    is_some s.runtime_id && (is_some s.profile_generation && is_some s.worker_instance_id)

-- A reserved Session has no runtime, and every other one that has not ended has one.
abbrev pub identity_fits : Status → Session → Bool
identity_fits reserved s = not (is_some s.runtime_id)
identity_fits closed s = true
identity_fits failed s = true
identity_fits _ s = has_identity s

abbrev pub reservation_fits : Status → Option Reservation → Bool
reservation_fits status none = false
reservation_fits status (some r) = fits status r.status

abbrev pub is_consistent : Entry → Bool
is_consistent e =
    reservation_fits e.session.status e.reservation && identity_fits e.session.status e.session

-- The moves of a status.
abbrev pub may_move : Status → Status → Bool
may_move reserved creating = true
may_move reserved closed = true
may_move reserved failed = true
may_move creating ready = true
may_move creating closing = true
may_move creating failed = true
may_move ready closing = true
may_move connected closing = true
may_move suspended closing = true
may_move disconnected closing = true
may_move closing failed = true
may_move _ _ = false

-- A row of the same Session that took one move and is consistent.
pub record Change (e n : Entry) : Type 0 where
  pub same : n.session.id ≡ e.session.id
  pub moved : may_move e.session.status n.session.status ≡ true
  pub sound : is_consistent n ≡ true

-- Entries that come from others by moves of rows, each of them consistent before and after.
pub data Reached : List Entry → List Entry → Type 0 where
  stay : {es : List Entry} → Reached es es
  change :
      {es fs : List Entry} (e n : Entry)
      → find_session e.session.id es ≡ some e
      → (is_consistent e ≡ true → Change e n)
      → Reached (store n es) fs
      → Reached es fs

abbrev pub Consistent : List Entry → Type 0
Consistent = All (λ e. is_consistent e ≡ true)

pub Reached-trans : {es fs gs : List Entry} → Reached es fs → Reached fs gs → Reached es gs
Reached-trans stay r = r
Reached-trans (change e n found sound rest) r = change e n found sound (Reached-trans rest r)

pub find_session-id :
    (id : ℕ) (e : Entry) (es : List Entry) → find_session id es ≡ some e → e.session.id ≡ id
find_session-id id e [] found = cc
find_session-id id e (x ∷ es) found = elim (Bool-cases (x.session.id == id)) [
  | inl h ↦
      (let same : x ≡ e = ground arith in
        (let named : x.session.id ≡ id = ground arith in ap (λ y. y.session.id) (sym same) ∙ named))
  | inr h ↦ find_session-id id e es (ground arith)
]

pub find_session-Consistent :
    (id : ℕ) (e : Entry) (es : List Entry)
    → Consistent es
    → find_session id es ≡ some e
    → is_consistent e ≡ true
find_session-Consistent id e [] all found = cc
find_session-Consistent id e (x ∷ es) (sound, all) found =
    let rest = find_session-Consistent id e es all in ground arith

pub store-Consistent :
    (n : Entry) (es : List Entry) → Consistent es → is_consistent n ≡ true → Consistent (store n es)
store-Consistent n [] all sound = tt
store-Consistent n (x ∷ es) (here, all) sound =
    let rest = store-Consistent n es all sound in ground arith

-- Sequences of moves keep all rows consistent.
pub Reached-Consistent : {es fs : List Entry} → Reached es fs → Consistent es → Consistent fs
Reached-Consistent stay all = all
Reached-Consistent {es = es} (change e n found sound rest) all =
    Reached-Consistent rest (
      store-Consistent n es all (sound (find_session-Consistent e.session.id e es all found)).sound)

pub find-store :
    (id : ℕ) (n e : Entry) (es : List Entry)
    → find_session n.session.id es ≡ some e
    → find_session id (store n es) ≡ (if n.session.id == id then some n else find_session id es)
find-store id n e [] found = cc
find-store id n e (x ∷ es) found = let rest = find-store id n e es in ground arith

-- A status and those that it came to be, one move after another.
pub data Walk : Status → Status → Type 0 where
  rest : {s : Status} → Walk s s
  move : (s t : Status) {u : Status} → may_move s t ≡ true → Walk t u → Walk s u

no_move : (s t : Status) → is_terminal s ≡ true → may_move s t ≢ true
no_move s t ended h = ground arith

module _ (id : ℕ) (e n x : Entry) (es : List Entry) (at : find_session e.session.id es ≡ some e)
    (same : n.session.id ≡ e.session.id) (found : find_session id es ≡ some x) where
  found_at : find_session n.session.id es ≡ some e
  found_at = subst (λ i. find_session i es ≡ some e) (sym same) at

  -- The written row is found under its Session, whose row was the one that is replaced.
  pub store-here : (n.session.id == id) ≡ true → find_session id (store n es) ≡ some n
  store-here h = let all = find-store id n e es found_at in ground arith

  store-there : (n.session.id == id) ≡ false → find_session id (store n es) ≡ some x
  store-there h = let all = find-store id n e es found_at in ground arith

  replaced : (n.session.id == id) ≡ true → e ≡ x
  replaced h =
      let named : n.session.id ≡ id = (==_iff n.session.id id).0 h in
      let again : find_session id es ≡ some e =
        subst (λ i. find_session i es ≡ some e) named found_at in
      let both : ◌≡◌ {A = Option Entry} (some e) (some x) = sym again ∙ found in cc

pub Reached-Walk :
    {es fs : List Entry} (id : ℕ) (x : Entry)
    → Reached es fs
    → Consistent es
    → find_session id es ≡ some x
    → (f : Entry) × (find_session id fs ≡ some f) × Walk x.session.status f.session.status
Reached-Walk id x stay all found = (x, found, rest)
Reached-Walk {es = es} id x (change e n at step more) all found =
    let moved = step (find_session-Consistent e.session.id e es all at) in
    let kept = store-Consistent n es all moved.sound in
    elim (Bool-cases (n.session.id == id)) [
      | inl h ↦
          let (f, there, w) =
            Reached-Walk id n more kept (store-here id e n x es at moved.same found h) in
          let was : e.session.status ≡ x.session.status =
            ap (λ y. y.session.status) (replaced id e n x es at moved.same found h) in
          (f, there, subst (λ s. Walk s f.session.status) was (move _ _ moved.moved w))
      | inr h ↦ Reached-Walk id x more kept (store-there id e n x es at moved.same found h)
    ]

pub Reached-ended :
    {es fs : List Entry} (id : ℕ) (x : Entry)
    → Reached es fs
    → Consistent es
    → find_session id es ≡ some x
    → is_terminal x.session.status ≡ true
    → find_session id fs ≡ some x
Reached-ended id x stay all found ended = found
Reached-ended {es = es} id x (change e n at step more) all found ended =
    let moved = step (find_session-Consistent e.session.id e es all at) in
    let kept = store-Consistent n es all moved.sound in
    elim (Bool-cases (n.session.id == id)) [
      | inl h ↦
          let was : e.session.status ≡ x.session.status =
            ap (λ y. y.session.status) (replaced id e n x es at moved.same found h) in
          absurd
            (no_move e.session.status n.session.status (ap is_terminal was ∙ ended) moved.moved)
      | inr h ↦ Reached-ended id x more kept (store-there id e n x es at moved.same found h) ended
    ]
