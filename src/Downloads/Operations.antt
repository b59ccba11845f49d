-- ===== src/Downloads/Operations.antt =====
-- The operations of WorkerRetainedDownloads. Those that the code runs one after another are steps;
-- the task that `finish` leaves in the queue is a step of its own, `run_claim`.
pub mod Disposal
use browshare.Prelude.{
  ℕ, ◌+◌, ◌-◌, min, Bool, true, false, Option, none, some, List, [], ◌∷◌, ◌++◌, ltb, leb, ◌==◌,
  ◌&&◌, ◌||◌, not, if◌then◌else◌, includes, same_opt, is_some, length, Outcome, ok, throw, ◌>>=◌,
  ◌>>◌, throw_if,
}
use browshare.Prelude.Maps.{get, put, delete, update, keys, add_number, remove_number}
use browshare.Storage.{FilePath, Protection, max_safe_integer}
use browshare.Storage.Operations.{StorageError, blocked, invalid, unavailable, reserve}
use browshare.Downloads.{
  available, claimed, expired, is_available, File, DownloadRetentionPolicy, DownloadReservation,
  ActiveDownload, Downloads, Layout, schedule_deadline, schedule, persist, keep_bytes, free_bytes,
  delete_bytes,
}

pub data DownloadError : Type 0 where
  file_limit_exceeded file_transfer_failed not_found download_busy : DownloadError
  bad_request : DownloadError  -- TypeError
  failed : DownloadError  -- an error of the file system

abbrev pub is_for : ℕ → ℕ → DownloadReservation → Bool
is_for session download r = (r.session_id == session) && (r.download_id == download)

-- `#reservations`, a map from `${sessionId}:${downloadId}`
abbrev pub find_reservation : ℕ → ℕ → List DownloadReservation → Option DownloadReservation
find_reservation session download [] = none
find_reservation session download (r ∷ rs) =
    if is_for session download r then some r else find_reservation session download rs

abbrev pub put_reservation :
    DownloadReservation → List DownloadReservation → List DownloadReservation
put_reservation n [] = n ∷ []
put_reservation n (r ∷ rs) =
    if is_for n.session_id n.download_id r then n ∷ rs else r ∷ put_reservation n rs

abbrev pub delete_reservation : ℕ → ℕ → List DownloadReservation → List DownloadReservation
delete_reservation session download [] = []
delete_reservation session download (r ∷ rs) =
    if is_for session download r then rs else r ∷ delete_reservation session download rs

abbrev pub file_bytes : ℕ → List ℕ → List (ℕ × File) → ℕ
file_bytes session allocated [] = 0
file_bytes session allocated ((id, f) ∷ fs) =
    (if (f.session_id == session) && includes allocated f.id then f.size else 0)
    + file_bytes session allocated fs

abbrev pub reservation_bytes : ℕ → List DownloadReservation → ℕ
reservation_bytes session [] = 0
reservation_bytes session (r ∷ rs) =
    (if r.session_id == session then r.size else 0) + reservation_bytes session rs

unfoldable pub reserved_bytes : ℕ → Downloads → ℕ
reserved_bytes session s =
    file_bytes session s.allocated s.files + reservation_bytes session s.reservations

abbrev pub size_of : Option DownloadReservation → ℕ
size_of none = 0
size_of (some r) = r.size

abbrev pub id_of : ℕ → Option DownloadReservation → ℕ
id_of fresh none = fresh
id_of fresh (some r) = r.id

abbrev pub with_protection : Option Protection → Downloads → Downloads
with_protection p s = record s { protection = p }

-- What `reserve` of the sink makes of the answer of StorageProtection.
abbrev pub translate : Outcome StorageError Protection → Outcome DownloadError (Option Protection)
translate (ok p) = ok (some p)
translate (throw (blocked reason)) = throw file_limit_exceeded
translate (throw invalid) = throw bad_request
translate (throw unavailable) = throw failed

module _ (names : Layout) where
  unfoldable pub reserve_bytes :
      ℕ → ℕ → ℕ → ℕ → Option Protection → Outcome DownloadError (Option Protection)
  unfolding reserve
  reserve_bytes id profile download size none = ok none
  reserve_bytes id profile download size (some p) =
      translate (reserve (names.key id) profile size (names.spool_paths download) p)

  -- `reserve` of the sink of a Session; `uploads` is what its uploads have reserved, `fresh` the new
  -- identity. The reservation that it replaces is a part of `reserved_bytes`.
  unfoldable pub reserve_download :
      (session max_bytes uploads profile fresh : ℕ)
      → (asked download size : ℕ) → Downloads
      → Outcome DownloadError Downloads
  unfolding reserved_bytes reserve_bytes
  reserve_download session max_bytes uploads profile fresh asked download size s = do
    throw_if (not (asked == session)) bad_request
    let previous = find_reservation session download s.reservations
    throw_if
        (ltb max_safe_integer size
          || ltb max_bytes (reserved_bytes session s - size_of previous + size + uploads))
        file_limit_exceeded
    let id = id_of fresh previous
    p ← reserve_bytes id profile download size s.protection
    ok (record s {
      reservations =
          put_reservation
            (record { id = id; session_id = session; download_id = download; size = size })
            s.reservations;
      protection = p;
    })

  abbrev pub completed_file : DownloadRetentionPolicy → DownloadReservation → ℕ → File
  completed_file policy r now = record {
    id = r.id;
    session_id = r.session_id;
    size = r.size;
    status = available;
    completed_at = now;
    expires_at = now + policy.completed_milliseconds;
    session_ended_at = none;
    claimed_at = none;
  }

  -- The `try` of `commit`: `moved` says whether the files could be moved and written.
  abbrev pub move_download :
      Bool → File → DownloadReservation → Downloads → Downloads × Option DownloadError
  move_download false f r s = (s, some failed)
  move_download true f r s = (
    record s {
      files = put f.id f s.files;
      allocated = add_number f.id s.allocated;
      reservations = delete_reservation r.session_id r.download_id s.reservations;
      disk = put f.id (record { manifest = f; bytes = some f.size }) s.disk;
    },
    none,
  )

  -- `commit` with the reservation that it finds; `source` is the size of the file at `local_path`.
  unfoldable pub commit_reserved :
      DownloadRetentionPolicy
      → Option DownloadReservation
      → (size now : ℕ) → FilePath
      → Option ℕ
      → Bool
      → Downloads
      → Downloads × Option DownloadError
  unfolding keep_bytes
  commit_reserved policy none size now local_path source moved s = (s, some file_transfer_failed)
  commit_reserved policy (some r) size now local_path source moved s =
      if not (r.size == size) || not (same_opt source (some size))
      then (s, some file_transfer_failed)
      else let f = completed_file policy r now in
        move_download moved f r (
          with_protection
            (keep_bytes (names.key f.id) f.size
              (local_path ∷ names.staging_data f.id ∷ names.data_path f.id ∷ []) s.protection)
            s)

  unfoldable pub commit_download :
      DownloadRetentionPolicy
      → (session asked download size now : ℕ) → FilePath
      → Option ℕ
      → Bool
      → Downloads
      → Downloads × Option DownloadError
  unfolding commit_reserved
  commit_download policy session asked download size now local_path source moved s =
      if not (asked == session)
      then (s, some bad_request)
      else commit_reserved policy (find_reservation session download s.reservations) size now
          local_path source moved s

-- `file`
abbrev pub is_served : File → ℕ → Bool
is_served f now = is_available f.status && ltb now f.expires_at

abbrev pub file_if : Option File → ℕ → Outcome DownloadError File
file_if none now = throw not_found
file_if (some f) now = if is_served f now then ok f else throw not_found

abbrev pub file : ℕ → ℕ → Downloads → Outcome DownloadError File
file id now s = file_if (get id s.files) now

-- `endSession`, for one file.
abbrev pub ended_file : DownloadRetentionPolicy → ℕ → File → File
ended_file policy at f = record f {
  session_ended_at = some at;
  expires_at = min f.expires_at (at + policy.after_session_milliseconds);
}

unfoldable pub end_file :
    DownloadRetentionPolicy → (session at now : ℕ) → Option File → Downloads → Downloads
unfolding persist
end_file policy session at now none s = s
end_file policy session at now (some f) s =
    if not (f.session_id == session) || is_some f.session_ended_at
    then s
    else let updated = ended_file policy at f in
      persist updated now (schedule updated now (record s { files = put f.id updated s.files }))

unfoldable pub end_files :
    DownloadRetentionPolicy → (session at now : ℕ) → List ℕ → Downloads → Downloads
unfolding end_file
end_files policy session at now [] s = s
end_files policy session at now (id ∷ ids) s =
    end_files policy session at now ids (end_file policy session at now (get id s.files) s)

unfoldable pub end_session : DownloadRetentionPolicy → (session at now : ℕ) → Downloads → Downloads
unfolding end_files
end_session policy session at now s = end_files policy session at now (keys s.files) s

-- `acquire`; the lease is numbered.
unfoldable pub acquire : (id session now : ℕ) → Downloads → Outcome DownloadError (Downloads × ℕ)
acquire id session now s = do
  f ← file id now s
  throw_if (not (f.session_id == session)) not_found
  throw_if (is_some (get id s.active)) download_busy
  let lease = length s.leases
  let fresh : ActiveDownload = record {
    file = id;
    aborted = false;
    deadline = none;
    finished_at = none;
  }
  ok (
    record s {
      active = put id lease s.active;
      leases = s.leases ++ (lease, schedule_deadline f now fresh) ∷ [];
    },
    lease,
  )

-- `if (this.#active.get(id) === active) this.#active.delete(id)`
abbrev pub without_lease : ℕ → ℕ → List (ℕ × ℕ) → List (ℕ × ℕ)
without_lease file lease active =
    if same_opt (get file active) (some lease) then delete file active else active

abbrev pub deactivate : ℕ → ℕ → Downloads → Downloads
deactivate file lease s = record s { active = without_lease file lease s.active }

abbrev pub abort_lease : ActiveDownload → ActiveDownload
abort_lease a = record a { aborted = true; deadline = none }

abbrev pub release_active : ℕ → Option ActiveDownload → Downloads → Downloads
release_active lease none s = s
release_active lease (some a) s =
    if is_some a.finished_at
    then s
    else deactivate a.file lease (record s { leases = update lease abort_lease s.leases })

unfoldable pub release_lease : ℕ → Downloads → Downloads
release_lease lease s = release_active lease (get lease s.leases) s

abbrev pub is_current : Option File → ℕ → Bool
is_current none now = false
is_current (some f) now = ltb now f.expires_at

-- `finish`, when the response is done: whether the file may be claimed, and the task that claims it.
unfoldable pub finish_active :
    (lease now : ℕ) → Option ActiveDownload → Downloads → Downloads × Option DownloadError
unfolding release_lease
finish_active lease now none s = (s, some not_found)
finish_active lease now (some a) s =
    if a.aborted
      || (is_some a.finished_at
          || (not (is_current (get a.file s.files) now)
              || not (same_opt (get a.file s.active) (some lease))))
    then (release_lease lease s, some not_found)
    else (
      record s {
        leases = update lease (λ b. record b { finished_at = some now; deadline = none }) s.leases;
        claims = s.claims ++ lease ∷ [];
      },
      none,
    )

unfoldable pub finish : (lease now : ℕ) → Downloads → Downloads × Option DownloadError
unfolding finish_active
finish lease now s = finish_active lease now (get lease s.leases) s
