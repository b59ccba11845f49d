-- ===== src/Downloads/Durable/Runs.antt =====
-- Memory and directory of WorkerRetainedDownloads: the sink, and runs of operations.
use browshare.Prelude.{
  ℕ, ◌+◌, refl, Bool, true, false, ◌||◌, not, Option, none, some, List, [], ◌∷◌, ◌==◌, if-cases,
  throw_if, ltb, ◌-◌, same_opt, is_some,
}
use browshare.Prelude.Maps.{get, keys}
use browshare.Storage.{FilePath, Protection, max_safe_integer}
use browshare.Downloads.{
  is_available, File, DownloadRetentionPolicy, DownloadReservation, ActiveDownload, Downloads,
  Layout,
}
use browshare.Downloads.Operations.{
  DownloadError, file_limit_exceeded, reserved_bytes, reserve_bytes, size_of, id_of,
  file_transfer_failed, bad_request, find_reservation, completed_file, move_download,
  commit_reserved, commit_download, reserve_download,
}
use browshare.Downloads.Operations.Disposal.{
  expire_files, acknowledge_file, abort_reserved, abort_download, time_out_file, time_out_lease,
  time_out,
}
use browshare.Downloads.Events.{
  Event, reserved, committed, aborted, ended, acquired, released, finished, claim_ran, expiry_ran,
  acknowledged, timed_out, or_same, step, run,
}
use browshare.Downloads.Recovery.{new_store}
use browshare.Downloads.Durable.{Durable, add-Durable, remove-Durable}
use browshare.Downloads.Durable.Steps.{
  D, or_same-D, bind-Good, end_files-D, release_lease-D, finish_active-D, acquire-D,
}
use browshare.Downloads.Durable.Steps.Disposal.{run_first-D, expire_file-D}

new_store-D : (p : Option Protection) → D (new_store p)
new_store-D p = record { rows = λ id. refl; files_unique = tt; disk_unique = tt }

pub time_out_file-D :
    (lease now : ℕ) (o : Option File) (s : Downloads) → D s → D (time_out_file lease now o s)
time_out_file-D lease now none s v = v
time_out_file-D lease now (some f) s v = v

time_out_lease-D :
    (lease now : ℕ) (o : Option ActiveDownload) (s : Downloads)
    → D s
    → D (time_out_lease lease now o s)
time_out_lease-D lease now none s v = v
time_out_lease-D lease now (some a) s v =
    if-cases D (is_some a.deadline) (time_out_file lease now (get a.file s.files) s) s
      (λ h. time_out_file-D lease now (get a.file s.files) s v) (λ h. v)

time_out-D : (lease now : ℕ) (s : Downloads) → D s → D (time_out lease now s)
unfolding time_out
time_out-D lease now s v = time_out_lease-D lease now (get lease s.leases) s v

abbrev Left : Downloads × Option DownloadError → Type 0
Left r = D r.0

module _ (names : Layout) where
  reserve_download-D :
      (session max_bytes uploads profile fresh asked download size : ℕ) (s : Downloads)
      → D s
      → D (
          or_same
            (λ t. t)
            (reserve_download names session max_bytes uploads profile fresh asked download size s)
            s)
  unfolding reserve_download
  reserve_download-D session max_bytes uploads profile fresh asked download size s v =
      let same = λ (t : Downloads). t in
      let previous = find_reservation session download s.reservations in
      let over =
        ltb max_safe_integer size
        || ltb max_bytes (reserved_bytes session s - size_of previous + size + uploads) in
      or_same-D same
        (reserve_download names session max_bytes uploads profile fresh asked download size s) s
        (bind-Good same (throw_if (not (asked == session)) bad_request) _ (λ u.
          bind-Good same (throw_if over file_limit_exceeded) _ (λ w.
            bind-Good same
              (reserve_bytes names (id_of fresh previous) profile download size s.protection) _
              (λ p. v))))
        v

  move_download-D :
      (moved : Bool) (r : DownloadReservation) (policy : DownloadRetentionPolicy) (now : ℕ)
      (s : Downloads)
      → D s
      → D (move_download names moved (completed_file names policy r now) r s).0
  move_download-D false r policy now s v = v
  move_download-D true r policy now s v = add-Durable v (completed_file names policy r now) refl

  commit_reserved-D :
      (policy : DownloadRetentionPolicy) (o : Option DownloadReservation) (size now : ℕ)
      (local_path : FilePath) (source : Option ℕ) (moved : Bool) (s : Downloads)
      → D s
      → D (commit_reserved names policy o size now local_path source moved s).0
  unfolding commit_reserved
  commit_reserved-D policy none size now local_path source moved s v = v
  commit_reserved-D policy (some r) size now local_path source moved s v =
      if-cases Left (not (r.size == size) || not (same_opt source (some size)))
        (s, some file_transfer_failed) _ (λ h. v) (λ h. move_download-D moved r policy now _ v)

  commit_download-D :
      (policy : DownloadRetentionPolicy) (session asked download size now : ℕ)
      (local_path : FilePath) (source : Option ℕ) (moved : Bool) (s : Downloads)
      → D s
      → D (commit_download names policy session asked download size now local_path source moved s).0
  unfolding commit_download
  commit_download-D policy session asked download size now local_path source moved s v =
      if-cases Left (not (asked == session)) (s, some bad_request)
        (commit_reserved names policy (find_reservation session download s.reservations) size now
          local_path source moved s)
        (λ h. v)
        (λ h.
          commit_reserved-D policy (find_reservation session download s.reservations) size now
            local_path source moved s v)

module _ (names : Layout) (lstat : FilePath → Option ℕ) where
  expire_files-D :
      (now : ℕ) (ids : List ℕ) (s : Downloads) → D s → D (expire_files names lstat now ids s)
  unfolding expire_files
  expire_files-D now [] s v = v
  expire_files-D now (id ∷ ids) s v =
      expire_files-D now ids _ (expire_file-D names lstat id now (get id s.files) s refl v)

  acknowledge_file-D :
      (id : ℕ) (o : Option File) (s : Downloads) → D s → D (acknowledge_file names lstat id o s).0
  unfolding acknowledge_file
  acknowledge_file-D id none s v = v
  acknowledge_file-D id (some f) s v =
      if-cases Left (is_available f.status) (s, some bad_request) _ (λ h. v)
        (λ h. remove-Durable v id)

  abort_reserved-D :
      (o : Option DownloadReservation) (s : Downloads) → D s → D (abort_reserved names lstat o s)
  unfolding abort_reserved
  abort_reserved-D none s v = v
  abort_reserved-D (some r) s v = v

  abort_download-D :
      (session asked download : ℕ) (s : Downloads)
      → D s
      → D (abort_download names lstat session asked download s).0
  unfolding abort_download
  abort_download-D session asked download s v =
      if-cases Left (not (asked == session)) (s, some bad_request)
        (abort_reserved names lstat (find_reservation session download s.reservations) s, none)
        (λ h. v) (λ h. abort_reserved-D (find_reservation session download s.reservations) s v)

module _ (names : Layout) (policy : DownloadRetentionPolicy) where
  pub step-D : (e : Event) (s : Downloads) → D s → D (step names policy e s)
  unfolding step
  step-D (reserved session max_bytes uploads profile fresh asked download size) s v =
      reserve_download-D names session max_bytes uploads profile fresh asked download size s v
  step-D (committed session asked download size now local_path source moved) s v =
      commit_download-D names policy session asked download size now local_path source moved s v
  step-D (aborted lstat session asked download) s v =
      abort_download-D names lstat session asked download s v
  step-D (ended session at now) s v = end_files-D policy session at now (keys s.files) s v
  step-D (acquired id session now) s v = acquire-D id session now s v
  step-D (released lease) s v = release_lease-D lease s v
  step-D (finished lease now) s v = finish_active-D lease now (get lease s.leases) s v
  step-D (claim_ran lstat now) s v = run_first-D names lstat now s.claims s v
  step-D (expiry_ran lstat now) s v = expire_files-D names lstat now (keys s.files) s v
  step-D (acknowledged lstat id) s v = acknowledge_file-D names lstat id (get id s.files) s v
  step-D (timed_out lease now) s v = time_out-D lease now s v

  pub run_from-D : (es : List Event) (s : Downloads) → D s → D (run names policy es s)
  unfolding run
  run_from-D [] s v = v
  run_from-D (e ∷ es) s v = run_from-D es (step names policy e s) (step-D e s v)

  -- After any operations of a store that began empty, its memory and its directory agree on every
  -- download: the manifest on the disk is the file in memory, and the bytes are there, of the file's
  -- size, and counted as allocated exactly as long as the file is available.
  pub run-Durable :
      (p : Option Protection) (es : List Event)
      → let s = run names policy es (new_store p) in Durable s.files s.disk s.allocated
  run-Durable p es = run_from-D es (new_store p) (new_store-D p)
