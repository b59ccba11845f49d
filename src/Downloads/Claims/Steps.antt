-- ===== src/Downloads/Claims/Steps.antt =====
-- The leases of one download through `acquire`, `release`, `finish`, `expire` and the others.
use mathlib.Core.Path.{subst}
use browshare.Prelude.{
  ℕ, ◌≡◌, refl, sym, ap, ◌∙◌, inl, inr, Bool, true, false, ◌&&◌, ◌||◌, not, Option, none, some,
  List, [], ◌∷◌, ◌++◌, ◌==◌, leb, includes, arith, Bool-cases, if-cases, throw_if-ok,
  bind_inversion, ok-injective, length, Outcome, ok, throw, throw_if, same_opt, same_opt_iff,
  is_some,
}
use browshare.Prelude.Maps.{
  get, put, update, remove_number, Unique, delete, get-delete, get-delete_other, get-put,
  get-put_other, get-update,
}
use browshare.Storage.{FilePath}
use browshare.Downloads.{
  claimed, expired, is_available, File, DownloadRetentionPolicy, ActiveDownload, Downloads, Layout,
  schedule_deadline, schedule_at, schedule, persist, free_bytes, delete_bytes,
}
use browshare.Downloads.Operations.{
  DownloadError, not_found, download_busy, abort_lease, file, file_if, is_served, bad_request,
  ended_file, end_file, acquire, deactivate, release_active, release_lease, is_current,
  finish_active,
}
use browshare.Downloads.Operations.Disposal.{
  claim_file, lease_of, is_finished, abort_active, expire_if, is_ended, delete_ended, expire_file,
  acknowledge_file,
}
use browshare.Downloads.Events.{or_same}
use browshare.Downloads.Durable.{row-of}
use browshare.Downloads.Durable.Steps.{D, schedule_at-files, persist-files, found-D, and-first}
use browshare.Downloads.Claims.{
  Gone, Once, Once-files, Once-update, Once-acquire, Once-leave, Once-finish, some-injective,
}

pub schedule_deadline-file :
    (f : File) (now : ℕ) (a : ActiveDownload) → (schedule_deadline f now a).file ≡ a.file
schedule_deadline-file f now a = ground arith

pub schedule_deadline-finished :
    (f : File) (now : ℕ) (a : ActiveDownload)
    → (schedule_deadline f now a).finished_at ≡ a.finished_at
schedule_deadline-finished f now a = ground arith

last-test : (a b c d : Bool) → (a || (b || (not c || not d))) ≡ false → d ≡ true
last-test a b c d h = ground arith

served :
    (o : Option File) (now : ℕ) (f : File)
    → file_if o now ≡ ok f
    → (o ≡ some f) × (is_available f.status ≡ true)
served none now f h = cc
served (some g) now f h = elim (Bool-cases (is_served g now)) [
  | inl e ↦
      let found : ◌≡◌ {A = Outcome DownloadError File} (ok g) (ok f) = rw e at h in
      let same : g ≡ f = ok-injective found in
      (
        ap some same,
        ap (λ (x : File). is_available x.status) (sym same) ∙ and-first (is_available g.status) _ e,
      )
  | inr e ↦
      let found : ◌≡◌ {A = Outcome DownloadError File} (throw not_found) (ok f) = rw e at h in cc
]

not_some : (o : Option ℕ) → is_some o ≡ false → o ≡ none
not_some none h = refl
not_some (some n) h = cc

module _ (id : ℕ) where
  abbrev pub O : Downloads → Type 0
  O s = Once id s.files s.active s.leases s.reservations

  pub schedule_at-O :
      (o : Option ℕ) (f : File) (now : ℕ) (s : Downloads) → O s → O (schedule_at o f now s)
  schedule_at-O none f now s v = v
  schedule_at-O (some lease) f now s v =
      Once-update v lease (schedule_deadline f now) (schedule_deadline-file f now)
        (schedule_deadline-finished f now)

  persist-O :
      (f : File) (now : ℕ) (s : Downloads)
      → O s
      → (Gone (get id s.files) → Gone (get id (put f.id f s.files)))
      → O (persist f now s)
  unfolding persist
  persist-O f now s v keeps =
      schedule_at-O (get f.id s.active) f now _ (Once-files v (put f.id f s.files) keeps)

  gone-put :
      (g : File) (fs : List (ℕ × File))
      → is_available g.status ≡ false
      → Gone (get id fs)
      → Gone (get id (put g.id g fs))
  gone-put g fs ended h = elim (Bool-cases (id == g.id)) [
    | inl e ↦
        let same : g.id ≡ id = ground arith in
        subst Gone (sym (ap (λ i. get i (put g.id g fs)) (sym same) ∙ get-put g.id g fs)) ended
    | inr e ↦ subst Gone (sym (get-put_other g.id id g fs e)) h
  ]

  gone-same :
      (f g : File) (fs : List (ℕ × File))
      → get g.id fs ≡ some f
      → g.status ≡ f.status
      → Gone (get id fs)
      → Gone (get id (put g.id g fs))
  gone-same f g fs found same_status h = elim (Bool-cases (id == g.id)) [
    | inl e ↦
        let same : g.id ≡ id = ground arith in
        let before : Gone (some f) = subst Gone (ap (λ i. get i fs) (sym same) ∙ found) h in
        subst Gone (sym (ap (λ i. get i (put g.id g fs)) (sym same) ∙ get-put g.id g fs))
          (ap is_available same_status ∙ before)
    | inr e ↦ subst Gone (sym (get-put_other g.id id g fs e)) h
  ]

  pub gone-other :
      (f : File) (fs : List (ℕ × File))
      → (f.id == id) ≡ false
      → Gone (get id fs)
      → Gone (get id (put f.id f fs))
  gone-other f fs ne h =
      let other : (id == f.id) ≡ false = ground arith in
      subst Gone (sym (get-put_other f.id id f fs other)) h

  gone-delete :
      (k : ℕ) (fs : List (ℕ × File)) → Unique fs → Gone (get id fs) → Gone (get id (delete k fs))
  gone-delete k fs u h = elim (Bool-cases (id == k)) [
    | inl e ↦
        let same : k ≡ id = ground arith in
        subst Gone (sym (ap (λ i. get i (delete k fs)) (sym same) ∙ get-delete k fs u)) tt
    | inr e ↦ subst Gone (sym (get-delete_other k id fs e)) h
  ]

  persist_again-O :
      (f g : File) (now : ℕ) (s : Downloads)
      → O s
      → get g.id s.files ≡ some f
      → g.status ≡ f.status
      → O (persist g now (schedule g now (record s { files = put g.id g s.files })))
  persist_again-O f g now s v found same =
      let t = record s { files = put g.id g s.files } in
      let u = schedule g now t in
      let before =
        schedule_at-O (get g.id s.active) g now t
          (Once-files v (put g.id g s.files) (gone-same f g s.files found same)) in
      persist-O g now u before (
        gone-same g g u.files
          (ap (λ fs. get g.id fs) (schedule_at-files (get g.id s.active) g now t)
            ∙ get-put g.id g s.files)
          refl)

  pub end_file-O :
      (policy : DownloadRetentionPolicy) (session at now k : ℕ) (o : Option File) (s : Downloads)
      → get k s.files ≡ o
      → D s
      → O s
      → O (end_file policy session at now o s)
  unfolding end_file
  end_file-O policy session at now k none s e d v = v
  end_file-O policy session at now k (some f) s e d v =
      let updated = ended_file policy at f in
      if-cases O (not (f.session_id == session) || is_some f.session_ended_at) s
        (persist updated now (schedule updated now (record s { files = put f.id updated s.files })))
        (λ h. v) (λ h. persist_again-O f updated now s v (found-D k f s e d) refl)

  release_active-O :
      (lease : ℕ) (o : Option ActiveDownload) (s : Downloads)
      → get lease s.leases ≡ o
      → O s
      → O (release_active lease o s)
  release_active-O lease none s e v = v
  release_active-O lease (some a) s e v =
      let t = record s { leases = update lease abort_lease s.leases } in
      if-cases O (is_some a.finished_at) s (deactivate a.file lease t) (λ h. v)
        (λ h.
          Once-leave (Once-update v lease abort_lease (λ b. refl) (λ b. refl)) a.file lease
            (λ x ex (for, end) same.
              let it : x ≡ abort_lease a =
                some-injective (sym ex ∙ get-update lease abort_lease a s.leases e) in
              let unfinished : true ≡ false =
                sym end ∙ ap (λ (b : ActiveDownload). is_some b.finished_at) it ∙ h in
              cc))

  pub release_lease-O : (lease : ℕ) (s : Downloads) → O s → O (release_lease lease s)
  unfolding release_lease
  release_lease-O lease s v = release_active-O lease (get lease s.leases) s refl v

  pub finish_active-O :
      (lease now : ℕ) (o : Option ActiveDownload) (s : Downloads)
      → get lease s.leases ≡ o
      → O s
      → O (finish_active lease now o s).0
  unfolding finish_active
  finish_active-O lease now none s e v = v
  finish_active-O lease now (some a) s e v =
      if-cases (λ (r : Downloads × Option DownloadError). O r.0)
        (a.aborted
          || (is_some a.finished_at
              || (not (is_current (get a.file s.files) now)
                  || not (same_opt (get a.file s.active) (some lease)))))
        (release_lease lease s, some not_found)
        (
          record s {
            leases =
                update lease (λ b. record b { finished_at = some now; deadline = none }) s.leases;
            claims = s.claims ++ lease ∷ [];
          },
          none,
        )
        (λ h. release_lease-O lease s v)
        (λ h. Once-finish v lease now a e (
          (same_opt_iff (get a.file s.active) (some lease)).0
            (last-test a.aborted (is_some a.finished_at) _ _ h)))

  pub or_same-O :
      {A : Type 0} (f : A → Downloads) (o : Outcome DownloadError A) (s : Downloads)
      → ((a : A) → o ≡ ok a → O (f a))
      → O s
      → O (or_same f o s)
  or_same-O f (ok a) s h v = h a refl
  or_same-O f (throw e) s h v = v

  pub acquire-O :
      (k session now : ℕ) (s : Downloads)
      → D s
      → O s
      → O (or_same (λ r. r.0) (acquire k session now s) s)
  unfolding acquire
  acquire-O k session now s d v =
      or_same-O (λ (r : Downloads × ℕ). r.0) (acquire k session now s) s
        (λ r e.
          let (f, found, e1) = bind_inversion (file k now s) _ e in
          let (u, mine, e2) =
            bind_inversion (throw_if (not (f.session_id == session)) not_found) _ e1 in
          let (w, idle, e3) =
            bind_inversion (throw_if (is_some (get k s.active)) download_busy) _ e2 in
          let (there, up) = served (get k s.files) now f found in
          let fresh : ActiveDownload = record {
            file = k;
            aborted = false;
            deadline = none;
            finished_at = none;
          } in
          let lease = length s.leases in
          subst (λ (q : Downloads × ℕ). O q.0) (ok-injective e3)
            (Once-acquire v k lease (schedule_deadline f now fresh)
              (schedule_deadline-finished f now fresh)
              (λ same. (
                ap (λ i. get i s.active) (sym same)
                    ∙ not_some (get k s.active)
                        (throw_if-ok download_busy (is_some (get k s.active)) idle),
                λ gone.
                    let over : is_available f.status ≡ false =
                      subst Gone (ap (λ i. get i s.files) (sym same) ∙ there) gone in
                    let both : true ≡ false = sym up ∙ over in cc,
              ))))
        v

  module _ (names : Layout) (lstat : FilePath → Option ℕ) where
    pub claim_file-O :
        (lease : ℕ) (a : ActiveDownload) (now : ℕ) (o : Option File) (s : Downloads)
        → get a.file s.files ≡ o
        → D s
        → O s
        → O (claim_file names lstat lease a now o s)
    unfolding claim_file delete_bytes
    claim_file-O lease a now none s e d v = v
    claim_file-O lease a now (some f) s e d v =
        let g = record f { status = claimed; claimed_at = a.finished_at } in
        let (stored, there, m, i, kept) = row-of d a.file f e in
        Once-leave (persist-O g now s v (gone-put g s.files refl)) a.file lease (λ x ex done same.
          subst Gone
            (sym (
              ap (λ fs. get id fs) (persist-files g now s)
              ∙ ap (λ k. get k (put f.id g s.files)) (sym same ∙ sym i)
              ∙ get-put f.id g s.files))
            refl)

    aborted-O :
        (o : Option ℕ) (g : File) (now : ℕ) (s : Downloads)
        → is_available g.status ≡ false
        → O s
        → O (persist g now (abort_active names lstat o s))
    aborted-O none g now s ended v = persist-O g now s v (gone-put g s.files ended)
    aborted-O (some lease) g now s ended v =
        persist-O g now
          (record s { leases = update lease (λ a. record a { aborted = true }) s.leases })
          (Once-update v lease (λ a. record a { aborted = true }) (λ a. refl) (λ a. refl))
          (gone-put g s.files ended)

    expire_if-O :
        (due : Bool) (f : File) (now : ℕ) (s : Downloads)
        → O s
        → O (expire_if names lstat due f now s)
    unfolding expire_if
    expire_if-O false f now s v = v
    expire_if-O true f now s v =
        aborted-O (get f.id s.active) (record f { status = expired }) now s refl v

    pub expire_file-O :
        (now : ℕ) (o : Option File) (s : Downloads) → O s → O (expire_file names lstat now o s)
    unfolding expire_file delete_ended delete_bytes
    expire_file-O now none s v = v
    expire_file-O now (some f) s v =
        let t = expire_if names lstat (is_available f.status && leb f.expires_at now) f now s in
        if-cases O (is_finished names lstat (lease_of names lstat f.id s)) s
          (delete_ended names lstat f.id t) (λ h. v)
          (λ h.
            if-cases O (is_ended names lstat (get f.id t.files) && includes t.allocated f.id)
              (delete_bytes names lstat f.id t) t
              (λ h. expire_if-O (is_available f.status && leb f.expires_at now) f now s v)
              (λ h. expire_if-O (is_available f.status && leb f.expires_at now) f now s v))

    pub acknowledge_file-O :
        (k : ℕ) (o : Option File) (s : Downloads)
        → D s
        → O s
        → O (acknowledge_file names lstat k o s).0
    unfolding acknowledge_file
    acknowledge_file-O k none s d v = v
    acknowledge_file-O k (some f) s d v =
        if-cases (λ (r : Downloads × Option DownloadError). O r.0) (is_available f.status)
          (s, some bad_request)
          (
            record s {
              files = delete k s.files;
              allocated = remove_number k s.allocated;
              disk = delete k s.disk;
              protection = free_bytes lstat (names.key k) s.protection;
            },
            none,
          )
          (λ h. v) (λ h. Once-files v (delete k s.files) (gone-delete k s.files d.files_unique))
