-- ===== src/Downloads/Claims/Runs.antt =====
-- The leases of one download through the sink, and through runs of operations.
use mathlib.Core.Path.{subst}
use browshare.Prelude.{
  ℕ, ◌+◌, ◌≡◌, refl, inl, inr, Bool, true, false, ◌||◌, not, Option, none, some, List, [], ◌∷◌,
  ◌==◌, Bool-cases, if-cases, bind_inversion, ok-injective, ◌≢◌, All, throw_if, ltb, ◌-◌, same_opt,
  is_some,
}
use browshare.Prelude.Maps.{Unique, get, put, keys}
use browshare.Storage.{FilePath, max_safe_integer}
use browshare.Downloads.{
  File, DownloadRetentionPolicy, DownloadReservation, ActiveDownload, Downloads, Layout,
  schedule_deadline, keep_bytes,
}
use browshare.Downloads.Operations.{
  DownloadError, is_for, put_reservation, delete_reservation, file_limit_exceeded, reserved_bytes,
  reserve_bytes, size_of, id_of, file_transfer_failed, bad_request, find_reservation,
  with_protection, completed_file, move_download, commit_reserved, commit_download, end_file,
  end_files, reserve_download,
}
use browshare.Downloads.Operations.Disposal.{
  claim_lease, run_first, expire_file, expire_files, abort_reserved, abort_download, time_out_file,
  time_out_lease, time_out,
}
use browshare.Downloads.Events.{
  Event, reserved, committed, aborted, ended, acquired, released, finished, claim_ran, expiry_ran,
  acknowledged, timed_out, or_same, step, run,
}
use browshare.Downloads.Durable.{Durable}
use browshare.Downloads.Durable.Steps.{D, end_file-D}
use browshare.Downloads.Durable.Runs.{step-D}
use browshare.Downloads.Claims.{IsDone, Once, Once-files, Once-update}
use browshare.Downloads.Claims.Steps.{
  O, schedule_deadline-file, schedule_deadline-finished, gone-other, end_file-O, release_lease-O,
  finish_active-O, or_same-O, acquire-O, claim_file-O, expire_file-O, acknowledge_file-O,
}

module _ (id : ℕ) where
  -- Reservations for other downloads.
  abbrev pub Others : List DownloadReservation → Type 0
  Others rs = All (λ r. (r.id == id) ≡ false) rs

  Others-find :
      (session download : ℕ) (rs : List DownloadReservation) (r : DownloadReservation)
      → Others rs
      → find_reservation session download rs ≡ some r
      → (r.id == id) ≡ false
  Others-find session download [] r h e = cc
  Others-find session download (x ∷ rs) r (first, h) e =
      elim (Bool-cases (is_for session download x)) [
        | inl here ↦
            let found : ◌≡◌ {A = Option DownloadReservation} (some x) (some r) = rw here at e in
            let same : x ≡ r = cc in rw⁻¹ same first
        | inr there ↦
            let further : find_reservation session download rs ≡ some r = rw there at e in
            Others-find session download rs r h further
      ]

  Others-put :
      (n : DownloadReservation) (rs : List DownloadReservation)
      → (n.id == id) ≡ false
      → Others rs
      → Others (put_reservation n rs)
  Others-put n [] new h = (new, tt)
  Others-put n (x ∷ rs) new (first, h) = elim (Bool-cases (is_for n.session_id n.download_id x)) [
    | inl e ↦ rw e ((new, h))
    | inr e ↦ rw e ((first, Others-put n rs new h))
  ]

  Others-delete :
      (session download : ℕ) (rs : List DownloadReservation)
      → Others rs
      → Others (delete_reservation session download rs)
  Others-delete session download [] h = tt
  Others-delete session download (x ∷ rs) (first, h) =
      elim (Bool-cases (is_for session download x)) [
        | inl e ↦ rw e h
        | inr e ↦ rw e ((first, Others-delete session download rs h))
      ]

  id_of-other :
      (fresh session download : ℕ) (rs : List DownloadReservation) (o : Option DownloadReservation)
      → find_reservation session download rs ≡ o
      → (fresh == id) ≡ false
      → Others rs
      → (id_of fresh o == id) ≡ false
  id_of-other fresh session download rs none e new h = new
  id_of-other fresh session download rs (some r) e new h = Others-find session download rs r h e

  Once-reservations :
      (s : Downloads) (rs : List DownloadReservation)
      → O id s
      → Others rs
      → Once id s.files s.active s.leases rs
  Once-reservations s rs v h = record {
    fresh = h;
    unique = v.unique;
    single = v.single;
    held = v.held;
  }

  -- A new identity is not this one.
  abbrev pub IsNew : Event → Type 0
  IsNew (reserved session max_bytes uploads profile fresh asked download size) =
      (fresh == id) ≡ false
  IsNew e = Unit {0}

  module _ (names : Layout) (policy : DownloadRetentionPolicy) where
    abbrev Left : Downloads × Option DownloadError → Type 0
    Left r = O id r.0

    reserve_download-O :
        (session max_bytes uploads profile fresh asked download size : ℕ) (s : Downloads)
        → (fresh == id) ≡ false
        → O id s
        → O id (
            or_same
              (λ t. t)
              (reserve_download names session max_bytes uploads profile fresh asked download size s)
              s)
    unfolding reserve_download
    reserve_download-O session max_bytes uploads profile fresh asked download size s new v =
        let same = λ (t : Downloads). t in
        let previous = find_reservation session download s.reservations in
        let over =
          ltb max_safe_integer size
          || ltb max_bytes (reserved_bytes session s - size_of previous + size + uploads) in
        or_same-O id same
          (reserve_download names session max_bytes uploads profile fresh asked download size s) s
          (λ t e.
            let (u, mine, e1) =
              bind_inversion (throw_if (not (asked == session)) bad_request) _ e in
            let (w, fits, e2) = bind_inversion (throw_if over file_limit_exceeded) _ e1 in
            let (p, admitted, e3) =
              bind_inversion
                (reserve_bytes names (id_of fresh previous) profile download size s.protection) _
                e2 in
            let entry : DownloadReservation = record {
              id = id_of fresh previous;
              session_id = session;
              download_id = download;
              size = size;
            } in
            subst (O id) (ok-injective e3) (
              Once-reservations s (put_reservation entry s.reservations) v (
                Others-put entry s.reservations
                  (id_of-other fresh session download s.reservations previous refl new v.fresh)
                  v.fresh)))
          v

    move_download-O :
        (moved : Bool) (r : DownloadReservation) (now : ℕ) (s : Downloads)
        → (r.id == id) ≡ false
        → O id s
        → O id (move_download names moved (completed_file names policy r now) r s).0
    move_download-O false r now s ne v = v
    move_download-O true r now s ne v =
        let f = completed_file names policy r now in
        Once-files
          (Once-reservations s (delete_reservation r.session_id r.download_id s.reservations) v
            (Others-delete r.session_id r.download_id s.reservations v.fresh))
          (put f.id f s.files) (gone-other id f s.files ne)

    commit_reserved-O :
        (o : Option DownloadReservation) (session download size now : ℕ) (local_path : FilePath)
        (source : Option ℕ) (moved : Bool) (s : Downloads)
        → find_reservation session download s.reservations ≡ o
        → O id s
        → O id (commit_reserved names policy o size now local_path source moved s).0
    unfolding commit_reserved
    commit_reserved-O none session download size now local_path source moved s e v = v
    commit_reserved-O (some r) session download size now local_path source moved s e v =
        let f = completed_file names policy r now in
        let p =
          keep_bytes (names.key f.id) f.size
            (local_path ∷ names.staging_data f.id ∷ names.data_path f.id ∷ []) s.protection in
        if-cases Left (not (r.size == size) || not (same_opt source (some size)))
          (s, some file_transfer_failed) (move_download names moved f r (with_protection p s))
          (λ h. v)
          (λ h.
            move_download-O moved r now (with_protection p s)
              (Others-find session download s.reservations r v.fresh e) v)

    commit_download-O :
        (session asked download size now : ℕ) (local_path : FilePath) (source : Option ℕ)
        (moved : Bool) (s : Downloads)
        → O id s
        → O id
            (commit_download names policy session asked download size now local_path source moved
              s).0
    unfolding commit_download
    commit_download-O session asked download size now local_path source moved s v =
        let found = find_reservation session download s.reservations in
        if-cases Left (not (asked == session)) (s, some bad_request)
          (commit_reserved names policy found size now local_path source moved s) (λ h. v)
          (λ h. commit_reserved-O found session download size now local_path source moved s refl v)

    abort_reserved-O :
        (lstat : FilePath → Option ℕ) (o : Option DownloadReservation) (s : Downloads)
        → O id s
        → O id (abort_reserved names lstat o s)
    unfolding abort_reserved
    abort_reserved-O lstat none s v = v
    abort_reserved-O lstat (some r) s v =
        Once-reservations s (delete_reservation r.session_id r.download_id s.reservations) v
          (Others-delete r.session_id r.download_id s.reservations v.fresh)

    abort_download-O :
        (lstat : FilePath → Option ℕ) (session asked download : ℕ) (s : Downloads)
        → O id s
        → O id (abort_download names lstat session asked download s).0
    unfolding abort_download
    abort_download-O lstat session asked download s v =
        let found = find_reservation session download s.reservations in
        if-cases Left (not (asked == session)) (s, some bad_request)
          (abort_reserved names lstat found s, none) (λ h. v)
          (λ h. abort_reserved-O lstat found s v)

    end_files-O :
        (session at now : ℕ) (ids : List ℕ) (s : Downloads)
        → D s
        → O id s
        → O id (end_files policy session at now ids s)
    unfolding end_files
    end_files-O session at now [] s d v = v
    end_files-O session at now (k ∷ ids) s d v =
        let o = get k s.files in
        end_files-O session at now ids (end_file policy session at now o s)
          (end_file-D policy session at now k o s refl d)
          (end_file-O id policy session at now k o s refl d v)

    expire_files-O :
        (lstat : FilePath → Option ℕ) (now : ℕ) (ids : List ℕ) (s : Downloads)
        → O id s
        → O id (expire_files names lstat now ids s)
    unfolding expire_files
    expire_files-O lstat now [] s v = v
    expire_files-O lstat now (k ∷ ids) s v =
        let o = get k s.files in
        expire_files-O lstat now ids (expire_file names lstat now o s)
          (expire_file-O id names lstat now o s v)

    claim_lease-O :
        (lstat : FilePath → Option ℕ) (lease now : ℕ) (o : Option ActiveDownload) (s : Downloads)
        → D s
        → O id s
        → O id (claim_lease names lstat lease now o s)
    unfolding claim_lease
    claim_lease-O lstat lease now none s d v = v
    claim_lease-O lstat lease now (some a) s d v =
        claim_file-O id names lstat lease a now (get a.file s.files) s refl d v

    run_first-O :
        (lstat : FilePath → Option ℕ) (now : ℕ) (ls : List ℕ) (s : Downloads)
        → D s
        → O id s
        → O id (run_first names lstat now ls s)
    unfolding run_first
    run_first-O lstat now [] s d v = v
    run_first-O lstat now (lease ∷ claims) s d v =
        claim_lease-O lstat lease now (get lease s.leases) (record s { claims = claims }) d v

    time_out_file-O :
        (lease now : ℕ) (o : Option File) (s : Downloads)
        → O id s
        → O id (time_out_file lease now o s)
    time_out_file-O lease now none s v = v
    time_out_file-O lease now (some f) s v =
        Once-update v lease (schedule_deadline f now) (schedule_deadline-file f now)
          (schedule_deadline-finished f now)

    time_out_lease-O :
        (lease now : ℕ) (o : Option ActiveDownload) (s : Downloads)
        → O id s
        → O id (time_out_lease lease now o s)
    time_out_lease-O lease now none s v = v
    time_out_lease-O lease now (some a) s v =
        if-cases (O id) (is_some a.deadline) (time_out_file lease now (get a.file s.files) s) s
          (λ h. time_out_file-O lease now (get a.file s.files) s v) (λ h. v)

    step-O : (e : Event) (s : Downloads) → IsNew e → D s → O id s → O id (step names policy e s)
    unfolding step time_out
    step-O (reserved session max_bytes uploads profile fresh asked download size) s new d v =
        reserve_download-O session max_bytes uploads profile fresh asked download size s new v
    step-O (committed session asked download size now local_path source moved) s new d v =
        commit_download-O session asked download size now local_path source moved s v
    step-O (aborted lstat session asked download) s new d v =
        abort_download-O lstat session asked download s v
    step-O (ended session at now) s new d v = end_files-O session at now (keys s.files) s d v
    step-O (acquired k session now) s new d v = acquire-O id k session now s d v
    step-O (released lease) s new d v = release_lease-O id lease s v
    step-O (finished lease now) s new d v =
        finish_active-O id lease now (get lease s.leases) s refl v
    step-O (claim_ran lstat now) s new d v = run_first-O lstat now s.claims s d v
    step-O (expiry_ran lstat now) s new d v = expire_files-O lstat now (keys s.files) s v
    step-O (acknowledged lstat k) s new d v =
        acknowledge_file-O id names lstat k (get k s.files) s d v
    step-O (timed_out lease now) s new d v = time_out_lease-O lease now (get lease s.leases) s v

    run_from-O :
        (es : List Event) (s : Downloads)
        → All IsNew es
        → D s
        → O id s
        → O id (run names policy es s)
    unfolding run
    run_from-O [] s new d v = v
    run_from-O (e ∷ es) s (first, new) d v =
        run_from-O es (step names policy e s) new (step-D names policy e s d) (step-O e s first d v)

-- A download whose identity no reservation has, and that no lease is for.
pub record IsUntouched (id : ℕ) (s : Downloads) : Type 0 where
  pub reserved_once : Others id s.reservations
  pub active_unique : Unique s.active
  pub no_lease : (n : ℕ) (a : ActiveDownload) → get n s.leases ≡ some a → a.file ≢ id

-- From a state where memory and directory agree and no lease is for a download, as it is when its
-- download was just committed, through any operations in which its identity is not given out again:
-- if two leases have both delivered the download to the end, they are the same lease.
pub run-single :
    (id : ℕ) (names : Layout) (policy : DownloadRetentionPolicy) (es : List Event) (s : Downloads)
    → All (IsNew id) es
    → Durable s.files s.disk s.allocated
    → IsUntouched id s
    → (n m : ℕ) (a b : ActiveDownload) → get n (run names policy es s).leases ≡ some a
    → get m (run names policy es s).leases ≡ some b
    → IsDone id a
    → IsDone id b
    → n ≡ m
run-single id names policy es s new d u n m a b ea eb da db =
    let start : O id s = record {
      fresh = u.reserved_once;
      unique = u.active_unique;
      single = λ n m a b ea eb da db. absurd (u.no_lease n a ea da.0);
      held = λ n a e done. absurd (u.no_lease n a e done.0);
    } in
    (run_from-O id names policy es s new d start).single n m a b ea eb da db
