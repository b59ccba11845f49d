-- ===== src/Downloads/Claims.antt =====
-- The leases of one download of WorkerRetainedDownloads, and changes of them.
pub mod Steps
pub mod Runs
use mathlib.Core.Path.{subst}
use browshare.Prelude.{
  ℕ, suc, ◌+◌, ◌≡◌, ◌≢◌, refl, sym, ap, ◌∙◌, ◌⊎◌, inl, inr, Bool, true, false, Option, none, some,
  List, [], ◌∷◌, ◌++◌, ◌==◌, if◌then◌else◌, same_opt, same_opt_iff, is_some, arith, All, Bool-cases,
  if-cases,
}
use browshare.Prelude.Maps.{
  get, put, delete, update, Unique, get-put, get-put_other, get-delete, get-delete_other,
  get-update, get-update_other, Unique-put, Unique-delete,
}
use browshare.Downloads.Operations.{without_lease}
use browshare.Downloads.{is_available, File, DownloadReservation, ActiveDownload}

-- A lease that has delivered the file.
abbrev pub IsDone : ℕ → ActiveDownload → Type 0
IsDone id a = (a.file ≡ id) × (is_some a.finished_at ≡ true)

-- The file can no longer be served.
abbrev pub Gone : Option File → Type 0
Gone none = Unit
Gone (some f) = is_available f.status ≡ false

pub record Once (id : ℕ) (files : List (ℕ × File)) (active : List (ℕ × ℕ))
    (leases : List (ℕ × ActiveDownload)) (reservations : List DownloadReservation) : Type 0 where
  pub fresh : All (λ r. (r.id == id) ≡ false) reservations
  pub unique : Unique active
  pub single :
      (n m : ℕ) (a b : ActiveDownload)
      → get n leases ≡ some a
      → get m leases ≡ some b
      → IsDone id a
      → IsDone id b
      → n ≡ m
  pub held :
      (n : ℕ) (a : ActiveDownload)
      → get n leases ≡ some a
      → IsDone id a
      → (get id active ≡ some n) ⊎ ((get id active ≡ none) × Gone (get id files))

pub some-injective : {V : Type 0} {v w : V} → ◌≡◌ {A = Option V} (some v) (some w) → v ≡ w
some-injective h = cc

get-update_inv :
    {V : Type 0} (k l : ℕ) (g : V → V) (w : V) (m : List (ℕ × V))
    → get l (update k g m) ≡ some w
    → (v : V) × (get l m ≡ some v) × ((w ≡ v) ⊎ ((l ≡ k) × (w ≡ g v)))
get-update_inv k l g w [] h = cc
get-update_inv {V} k l g w ((j, v) ∷ m) h = elim (Bool-cases (j == k)) [
  | inl e ↦ elim (Bool-cases (j == l)) [
    | inl f ↦
        let found : ◌≡◌ {A = Option V} (some (g v)) (some w) = rw (e, f) at h in
        (v, rw f refl, inr (ground arith, sym (some-injective found)))
    | inr f ↦ let found : get l m ≡ some w = rw (e, f) at h in (w, rw f found, inl refl)
  ]
  | inr e ↦ elim (Bool-cases (j == l)) [
    | inl f ↦
        let found : ◌≡◌ {A = Option V} (some v) (some w) = rw (e, f) at h in
        (v, rw f refl, inl (sym (some-injective found)))
    | inr f ↦
        let found : get l (update k g m) ≡ some w = rw (e, f) at h in
        let (x, ex, c) = get-update_inv k l g w m found in (x, rw f ex, c)
  ]
]

pub get-append_inv :
    {V : Type 0} (k l : ℕ) (x w : V) (m : List (ℕ × V))
    → get l (m ++ (k, x) ∷ []) ≡ some w
    → (get l m ≡ some w) ⊎ (w ≡ x)
get-append_inv {V} k l x w [] h = elim (Bool-cases (k == l)) [
  | inl e ↦
      let found : ◌≡◌ {A = Option V} (some x) (some w) = rw e at h in
      inr (sym (some-injective found))
  | inr e ↦ let found : ◌≡◌ {A = Option V} none (some w) = rw e at h in inl found
]
get-append_inv {V} k l x w ((j, v) ∷ m) h = elim (Bool-cases (j == l)) [
  | inl e ↦ let found : ◌≡◌ {A = Option V} (some v) (some w) = rw e at h in inl (rw e found)
  | inr e ↦
      let found : get l (m ++ (k, x) ∷ []) ≡ some w = rw e at h in
      rw e (get-append_inv k l x w m found)
]

-- A lease that has delivered the file after a change had delivered it before.
IsDone-before :
    {id k l : ℕ} (x a : ActiveDownload) (g : ActiveDownload → ActiveDownload)
    → ((b : ActiveDownload) → (g b).file ≡ b.file)
    → ((b : ActiveDownload) → (g b).finished_at ≡ b.finished_at)
    → (a ≡ x) ⊎ ((l ≡ k) × (a ≡ g x))
    → IsDone id a
    → IsDone id x
IsDone-before x a g same_file same_end (inl e) (for, end) = (
  ap (λ (b : ActiveDownload). b.file) (sym e) ∙ for,
  ap (λ (b : ActiveDownload). is_some b.finished_at) (sym e) ∙ end,
)
IsDone-before x a g same_file same_end (inr (at, e)) (for, end) = (
  sym (same_file x) ∙ ap (λ (b : ActiveDownload). b.file) (sym e) ∙ for,
  ap is_some (sym (same_end x)) ∙ ap (λ (b : ActiveDownload). is_some b.finished_at) (sym e) ∙ end,
)

old_lease :
    {id : ℕ} (leases : List (ℕ × ActiveDownload)) (n : ℕ) (x : ActiveDownload) (lease : ℕ)
    (a : ActiveDownload)
    → a.finished_at ≡ none
    → get n (leases ++ (lease, a) ∷ []) ≡ some x
    → IsDone id x
    → get n leases ≡ some x
old_lease leases n x lease a new e (for, end) = elim (get-append_inv lease n a x leases e) [
  | inl h ↦ h
  | inr h ↦
      let unfinished : false ≡ true =
        sym (ap is_some new) ∙ ap (λ (b : ActiveDownload). is_some b.finished_at) (sym h) ∙ end in
      cc
]

module _ {id : ℕ} {files : List (ℕ × File)} {active : List (ℕ × ℕ)}
    {leases : List (ℕ × ActiveDownload)} {reservations : List DownloadReservation}
    (v : Once id files active leases reservations) where
  pub Once-files :
      (fs : List (ℕ × File))
      → (Gone (get id files) → Gone (get id fs))
      → Once id fs active leases reservations
  Once-files fs keeps = record {
    fresh = v.fresh;
    unique = v.unique;
    single = v.single;
    held = λ n a e d. elim (v.held n a e d) [
      | inl h ↦ inl h
      | inr (none_active, gone) ↦ inr (none_active, keeps gone)
    ];
  }

  pub Once-update :
      (k : ℕ) (g : ActiveDownload → ActiveDownload)
      → ((a : ActiveDownload) → (g a).file ≡ a.file)
      → ((a : ActiveDownload) → (g a).finished_at ≡ a.finished_at)
      → Once id files active (update k g leases) reservations
  Once-update k g same_file same_end = record {
    fresh = v.fresh;
    unique = v.unique;
    single = λ n m a b ea eb da db.
        let (x, ex, cx) = get-update_inv k n g a leases ea in
        let (y, ey, cy) = get-update_inv k m g b leases eb in
        v.single n m x y ex ey (IsDone-before x a g same_file same_end cx da)
          (IsDone-before y b g same_file same_end cy db);
    held = λ n a e d.
        let (x, ex, cx) = get-update_inv k n g a leases e in
        v.held n x ex (IsDone-before x a g same_file same_end cx d);
  }

  -- A new lease, where the file may be served and has none.
  pub Once-acquire :
      (k lease : ℕ) (a : ActiveDownload)
      → a.finished_at ≡ none
      → ((k ≡ id) → (get id active ≡ none) × ¬ Gone (get id files))
      → Once id files (put k lease active) (leases ++ (lease, a) ∷ []) reservations
  Once-acquire k lease a new free = record {
    fresh = v.fresh;
    unique = Unique-put k lease active v.unique;
    single = λ n m x y ex ey dx dy.
        v.single n m x y (old_lease leases n x lease a new ex dx)
          (old_lease leases m y lease a new ey dy) dx dy;
    held = λ n x ex dx. elim (Bool-cases (id == k)) [
      | inl e ↦
          let (none_active, served) = free (ground arith) in
          elim (v.held n x (old_lease leases n x lease a new ex dx) dx) [
            | inl h ↦ cc
            | inr (h, gone) ↦ absurd (served gone)
          ]
      | inr e ↦
          subst (λ o. (o ≡ some n) ⊎ ((o ≡ none) × Gone (get id files)))
            (sym (get-put_other k id lease active e))
            (v.held n x (old_lease leases n x lease a new ex dx) dx)
    ];
  }

  left :
      (k lease : ℕ)
      → ((a : ActiveDownload)
          → get lease leases ≡ some a
          → IsDone id a
          → k ≡ id
          → Gone (get id files))
      → (n : ℕ) (x : ActiveDownload) → get n leases ≡ some x
      → IsDone id x
      → get k active ≡ some lease
      → (get id (delete k active) ≡ some n)
        ⊎ ((get id (delete k active) ≡ none) × Gone (get id files))
  left k lease free n x ex dx was = elim (Bool-cases (id == k)) [
    | inl e ↦
        let same : k ≡ id = ground arith in
        let none_left : get id (delete k active) ≡ none =
          ap (λ i. get i (delete k active)) (sym same) ∙ get-delete k active v.unique in
        elim (v.held n x ex dx) [
          | inl h ↦
              let it : n ≡ lease =
                some-injective (sym h ∙ ap (λ i. get i active) (sym same) ∙ was) in
              inr (none_left, free x (ap (λ i. get i leases) (sym it) ∙ ex) dx same)
          | inr (h, gone) ↦ inr (none_left, gone)
        ]
    | inr e ↦
        subst (λ o. (o ≡ some n) ⊎ ((o ≡ none) × Gone (get id files)))
          (sym (get-delete_other k id active e)) (v.held n x ex dx)
  ]

  -- A lease that leaves, and has not delivered the file unless the file is gone.
  pub Once-leave :
      (k lease : ℕ)
      → ((a : ActiveDownload)
          → get lease leases ≡ some a
          → IsDone id a
          → k ≡ id
          → Gone (get id files))
      → Once id files (without_lease k lease active) leases reservations
  Once-leave k lease free = record {
    fresh = v.fresh;
    unique =
        if-cases (λ (m : List (ℕ × ℕ)). Unique m) (same_opt (get k active) (some lease))
          (delete k active) active (λ h. Unique-delete k active v.unique) (λ h. v.unique);
    single = v.single;
    held = λ n x ex dx.
        if-cases
          (λ (m : List (ℕ × ℕ)). (get id m ≡ some n) ⊎ ((get id m ≡ none) × Gone (get id files)))
          (same_opt (get k active) (some lease)) (delete k active) active
          (λ h. left k lease free n x ex dx ((same_opt_iff (get k active) (some lease)).0 h))
          (λ h. v.held n x ex dx);
  }

  -- What has delivered the file after a lease finishes.
  IsDone-after :
      (lease now : ℕ) (a : ActiveDownload)
      → get lease leases ≡ some a
      → (n : ℕ) (x : ActiveDownload)
      → get n (update lease (λ b. record b { finished_at = some now; deadline = none }) leases)
        ≡ some x
      → IsDone id x
      → ((n ≡ lease) × (a.file ≡ id))
        ⊎ ((y : ActiveDownload) × (get n leases ≡ some y) × IsDone id y)
  IsDone-after lease now a e n x ex (for, end) =
      let (y, ey, c) =
        get-update_inv lease n (λ b. record b { finished_at = some now; deadline = none }) x leases
          ex in
      elim c [
        | inl same ↦ inr (y, ey, subst (λ (b : ActiveDownload). IsDone id b) same (for, end))
        | inr (at, same) ↦
            let it : y ≡ a = some-injective (sym ey ∙ ap (λ i. get i leases) at ∙ e) in
            inl (
              at,
              ap (λ (b : ActiveDownload). b.file) (sym it)
                  ∙ ap (λ (b : ActiveDownload). b.file) (sym same)
                  ∙ for,
            )
      ]

  against :
      (lease : ℕ) (a : ActiveDownload)
      → get a.file active ≡ some lease
      → a.file ≡ id
      → (n : ℕ) (y : ActiveDownload) → get n leases ≡ some y
      → IsDone id y
      → n ≡ lease
  against lease a held for n y ey dy = elim (v.held n y ey dy) [
    | inl h ↦ some-injective (sym h ∙ ap (λ i. get i active) (sym for) ∙ held)
    | inr (h, gone) ↦
        let nothing : ◌≡◌ {A = Option ℕ} (some lease) none =
          sym held ∙ ap (λ i. get i active) for ∙ h in
        cc
  ]

  -- A lease that delivers the file.
  pub Once-finish :
      (lease now : ℕ) (a : ActiveDownload)
      → get lease leases ≡ some a
      → get a.file active ≡ some lease
      → Once id files active
          (update lease (λ b. record b { finished_at = some now; deadline = none }) leases)
          reservations
  Once-finish lease now a e held = record {
    fresh = v.fresh;
    unique = v.unique;
    single = λ n m x y ex ey dx dy. elim (IsDone-after lease now a e n x ex dx) [
      | inl (n_is, for) ↦ elim (IsDone-after lease now a e m y ey dy) [
        | inl (m_is, f) ↦ n_is ∙ sym m_is
        | inr (z, ez, dz) ↦ n_is ∙ sym (against lease a held for m z ez dz)
      ]
      | inr (w, ew, dw) ↦ elim (IsDone-after lease now a e m y ey dy) [
        | inl (m_is, for) ↦ against lease a held for n w ew dw ∙ sym m_is
        | inr (z, ez, dz) ↦ v.single n m w z ew ez dw dz
      ]
    ];
    held = λ n x ex dx. elim (IsDone-after lease now a e n x ex dx) [
      | inl (n_is, for) ↦ inl (ap (λ i. get i active) (sym for) ∙ held ∙ ap some (sym n_is))
      | inr (y, ey, dy) ↦ v.held n y ey dy
    ];
  }
