-- ===== src/Recycling/Deadlines.antt =====
-- What `next` chooses, against a description of the five limits that does not go through the list.
use browshare.Prelude.{
  ℕ, ◌+◌, ◌*◌, ◌≤◌, ◌<◌, max, ◌≡◌, refl, ap, ◌∙◌, ◌↔◌, ◌⊎◌, inl, inr, sym, Bool, true, false,
  Option, none, some, List, [], ◌∷◌, arith, leb, if◌then◌else◌, Option-cases, Bool-cases, In,
  In-append,
}
use mathlib.Core.Path.{subst, subst₂}
use browshare.Prelude.Int.{sub_ℕ}
use browshare.Recycling.{
  SessionRecycling, SessionRecycleReason, SessionRecycleState, max_duration, proxy_failure,
  viewer_disconnected, no_input, no_frame_change, Deadline, add, deadlines, insert_by_at,
  sort_by_at, first, next,
}

-- The limit `reason` runs and ends at the time `at`.
abbrev pub IsArmed : SessionRecycling → SessionRecycleReason → ℕ → Type 0
IsArmed s max_duration at =
    (t : ℕ) × (s.policy.max_duration_seconds ≡ some t) × (at ≡ s.created_at + t * 1000)
IsArmed s proxy_failure at =
    (since : ℕ) × (t : ℕ) × (s.proxy_failed_at ≡ some since)
    × (s.policy.proxy_failure_timeout_seconds ≡ some t)
    × (at ≡ since + t * 1000)
IsArmed s viewer_disconnected at =
    (since : ℕ) × (t : ℕ) × (s.disconnected_at ≡ some since)
    × (s.policy.viewer_disconnect_timeout_seconds ≡ some t)
    × (at ≡ since + t * 1000)
IsArmed s no_input at =
    (t : ℕ) × (s.policy.no_input_timeout_seconds ≡ some t)
    × (at ≡ max s.last_input_at s.continued_at + t * 1000)
IsArmed s no_frame_change at =
    (t : ℕ) × (s.policy.no_frame_change_timeout_seconds ≡ some t)
    × (at ≡ max (max s.last_input_at s.last_frame_changed_at) s.continued_at + t * 1000)

-- The order in which limits that end together take precedence.
abbrev pub rank : SessionRecycleReason → ℕ
rank max_duration = 0
rank proxy_failure = 1
rank viewer_disconnected = 2
rank no_input = 3
rank no_frame_change = 4

-- The idle limits, which a deliberate continuation resets.
abbrev pub is_soft : SessionRecycleReason → Bool
is_soft no_input = true
is_soft no_frame_change = true
is_soft _ = false

abbrev pub Precedes : ℕ → SessionRecycleReason → ℕ → SessionRecycleReason → Type 0
Precedes at r at' r' = (at < at') ⊎ ((at ≡ at') × (rank r ≤ rank r'))

-- The least entry by one pass.
abbrev earlier : Deadline → Option Deadline → Deadline
earlier d none = d
earlier d (some e) = if leb d.at e.at then d else e

abbrev pick : List Deadline → Option Deadline
pick [] = none
pick (d ∷ ds) = some (earlier d (pick ds))

first-insert :
    (d : Deadline) (es : List Deadline) → first (insert_by_at d es) ≡ some (earlier d (first es))
unfolding insert_by_at
first-insert d [] = refl
first-insert d (e ∷ es) = ground arith

first-sort : (ds : List Deadline) → first (sort_by_at ds) ≡ pick ds
unfolding sort_by_at
first-sort [] = refl
first-sort (d ∷ ds) = ground (arith, first-insert d (sort_by_at ds), first-sort ds)

-- A list in the order of precedence.
abbrev Ranked : ℕ → List Deadline → Type 0
Ranked n [] = Unit {0}
Ranked n (d ∷ ds) = (n ≤ rank d.reason) × Ranked (rank d.reason) ds

Ranked-In : (n : ℕ) (d : Deadline) (ds : List Deadline) → Ranked n ds → In d ds → n ≤ rank d.reason
Ranked-In n d [] k h = absurd h
Ranked-In n d (x ∷ ds) k (inl e) = ground arith
Ranked-In n d (x ∷ ds) k (inr h) = omega (arith, Ranked-In (rank x.reason) d ds k.1 h)

pick-In : (d : Deadline) (ds : List Deadline) → pick ds ≡ some d → In d ds
pick-In d [] h = cc
pick-In d (x ∷ []) h = inl (cc)
pick-In d (x ∷ y ∷ ds) h = elim (Bool-cases (leb x.at (earlier y (pick ds)).at)) [
  | inl e ↦ inl (ground arith)
  | inr e ↦ inr (pick-In d (y ∷ ds) (ground arith))
]

pick-none : (d : Deadline) (ds : List Deadline) → pick ds ≡ none → ¬ In d ds
pick-none d [] h i = i
pick-none d (x ∷ ds) h i = cc

pick-Precedes :
    (n : ℕ) (d e : Deadline) (ds : List Deadline)
    → Ranked n ds
    → pick ds ≡ some d
    → In e ds
    → Precedes d.at d.reason e.at e.reason
pick-Precedes n d e [] k h i = absurd i
pick-Precedes n d e (x ∷ []) k h (inl i) = inr (ground arith)
pick-Precedes n d e (x ∷ []) k h (inr i) = elim i [ ]
pick-Precedes n d e (x ∷ y ∷ ds) k h (inl i) =
    let z = earlier y (pick ds) in
    ground (arith, Ranked-In (rank x.reason) z (y ∷ ds) k.1 (pick-In z (y ∷ ds) refl))
pick-Precedes n d e (x ∷ y ∷ ds) k h (inr i) =
    let z = earlier y (pick ds) in
    ground (
      arith,
      pick-Precedes (rank x.reason) z e (y ∷ ds) k.1 refl i,
      Ranked-In (rank x.reason) e (y ∷ ds) k.1 i,
    )

-- An entry of the list is a running limit with the flag that belongs to its reason.
abbrev IsEntry : SessionRecycling → Deadline → Type 0
IsEntry s d = IsArmed s d.reason d.at × (d.can_continue ≡ is_soft d.reason)

-- What an entry of one kind must satisfy carries over to the entry that `add` pushes.
add-IsEntry :
    (s : SessionRecycling) (r : SessionRecycleReason) (since t : Option ℕ) (c : Bool) (d : Deadline)
    → ((a b : ℕ) → since ≡ some a → t ≡ some b → IsArmed s r (a + b * 1000))
    → c ≡ is_soft r
    → In d (add r since t c)
    → IsEntry s d
add-IsEntry s r none t c d k e h = elim h [ ]
add-IsEntry s r (some a) none c d k e h = elim h [ ]
add-IsEntry s r (some a) (some b) c d k e (inr h) = elim h [ ]
add-IsEntry s r (some a) (some b) c d k e (inl h) = subst (IsEntry s) (sym h) (k a b refl refl, e)

deadlines-IsEntry : (s : SessionRecycling) (d : Deadline) → In d (deadlines s) → IsEntry s d
unfolding deadlines
deadlines-IsEntry s d h = elim (In-append d _ _ h) [
  | inl i ↦
      add-IsEntry s max_duration (some s.created_at) _ _ d (λ a b p q. (b, q, ground arith)) refl i
  | inr h ↦ elim (In-append d _ _ h) [
    | inl i ↦ add-IsEntry s proxy_failure _ _ _ d (λ a b p q. (a, b, p, q, refl)) refl i
    | inr h ↦ elim (In-append d _ _ h) [
      | inl i ↦ add-IsEntry s viewer_disconnected _ _ _ d (λ a b p q. (a, b, p, q, refl)) refl i
      | inr h ↦ elim (In-append d _ _ h) [
        | inl i ↦
            add-IsEntry s no_input (some (max s.last_input_at s.continued_at)) _ _ d
              (λ a b p q. (b, q, ground arith)) refl i
        | inr i ↦
            add-IsEntry s no_frame_change
              (some (max (max s.last_input_at s.last_frame_changed_at) s.continued_at)) _ _ d
              (λ a b p q. (b, q, ground arith)) refl i
      ]
    ]
  ]
]

deadlines-Ranked : (s : SessionRecycling) → Ranked 0 (deadlines s)
unfolding deadlines
deadlines-Ranked s = ground arith

IsArmed-In :
    (s : SessionRecycling) (r : SessionRecycleReason) (at : ℕ)
    → IsArmed s r at
    → (d : Deadline) × In d (deadlines s) × (d.reason ≡ r) × (d.at ≡ at)
unfolding deadlines
IsArmed-In s max_duration at h =
    (record { reason = max_duration; at = at; can_continue = false }, ground arith, refl, refl)
IsArmed-In s proxy_failure at h =
    (record { reason = proxy_failure; at = at; can_continue = false }, ground arith, refl, refl)
IsArmed-In s viewer_disconnected at h = (
  record { reason = viewer_disconnected; at = at; can_continue = false },
  ground arith,
  refl,
  refl,
)
IsArmed-In s no_input at h =
    (record { reason = no_input; at = at; can_continue = true }, ground arith, refl, refl)
IsArmed-In s no_frame_change at h =
    (record { reason = no_frame_change; at = at; can_continue = true }, ground arith, refl, refl)

abbrev IsFirst : SessionRecycling → SessionRecycleState → Deadline → Type 0
IsFirst s n d =
    (s.policy.recycle_disabled ≡ false)
    × (pick (deadlines s) ≡ some d)
    × (n.reason ≡ d.reason)
    × (n.deadline ≡ d.at)
    × (n.can_continue ≡ d.can_continue)
    × (n.countdown_starts_at ≡ sub_ℕ d.at (s.policy.countdown_seconds * 1000))

next-IsFirst :
    (s : SessionRecycling) (n : SessionRecycleState)
    → next s ≡ some n
    → (d : Deadline) × IsFirst s n d
unfolding next
next-IsFirst s n h = elim (Option-cases (pick (deadlines s))) [
  | inl e ↦ absurd (ground (arith, first-sort (deadlines s)))
  | inr (d, e) ↦ (d, ground (arith, first-sort (deadlines s)))
]

-- `next` reports a limit that runs, the earliest one, and of those that end together the one that
-- takes precedence; only an idle limit can be continued; the countdown starts ahead of the end by
-- the configured time.
pub next-IsEarliest :
    (s : SessionRecycling) (n : SessionRecycleState)
    → next s ≡ some n
    → (s.policy.recycle_disabled ≡ false)
      × IsArmed s n.reason n.deadline
      × ((r : SessionRecycleReason) (at : ℕ) → IsArmed s r at → Precedes n.deadline n.reason at r)
      × (n.can_continue ≡ is_soft n.reason)
      × (n.countdown_starts_at ≡ sub_ℕ n.deadline (s.policy.countdown_seconds * 1000))
next-IsEarliest s n h =
    let (d, chosen) = next-IsFirst s n h in
    let (on, least, reason, at, flag, countdown) = chosen in
    let (armed, soft) = deadlines-IsEntry s d (pick-In d (deadlines s) least) in
    (
      on,
      subst₂ (IsArmed s) (sym reason) (sym at) armed,
      λ r t a.
          let (e, i, same, same_at) = IsArmed-In s r t a in
          ground (arith, pick-Precedes 0 d e (deadlines s) (deadlines-Ranked s) least i),
      flag ∙ soft ∙ ap is_soft (sym reason),
      rw at countdown,
    )

-- `next` reports nothing exactly if recycling is off or no limit runs.
pub next-none_iff :
    (s : SessionRecycling)
    → (next s ≡ none) ↔ (
        (s.policy.recycle_disabled ≡ true)
        ⊎ ((r : SessionRecycleReason) (at : ℕ) → ¬ IsArmed s r at))
unfolding next
next-none_iff s = (
  λ h. elim (Bool-cases s.policy.recycle_disabled) [
    | inl off ↦ inl off
    | inr on ↦ inr (λ r at a.
        let (d, i, _, _) = IsArmed-In s r at a in
        pick-none d (deadlines s) (ground (arith, first-sort (deadlines s))) i)
  ],
  λ h. elim h [
    | inl off ↦ rw off
    | inr idle ↦ elim (Option-cases (pick (deadlines s))) [
      | inl e ↦ ground (arith, first-sort (deadlines s))
      | inr (d, e) ↦
          absurd (idle d.reason d.at (deadlines-IsEntry s d (pick-In d (deadlines s) e)).0)
    ]
  ],
)
