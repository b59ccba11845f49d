-- ===== src/Downloads/Operations/Disposal.antt =====
-- How downloads end: claims, expiry, acknowledgement, and the timers of leases.
use browshare.Prelude.{
  ℕ, Bool, true, false, Option, none, some, List, [], ◌∷◌, leb, ◌==◌, ◌&&◌, not, if◌then◌else◌,
  includes, is_some,
}
use browshare.Prelude.Maps.{get, delete, update, keys, remove_number}
use browshare.Storage.{FilePath}
use browshare.Downloads.{
  claimed, expired, is_available, File, DownloadReservation, ActiveDownload, Downloads, Layout,
  schedule_deadline, persist, free_bytes, delete_bytes,
}
use browshare.Downloads.Operations.{
  DownloadError, bad_request, find_reservation, delete_reservation, deactivate,
}

module _ (names : Layout) (lstat : FilePath → Option ℕ) where
  unfoldable pub claim_file : ℕ → ActiveDownload → ℕ → Option File → Downloads → Downloads
  unfolding persist delete_bytes
  claim_file lease a now none s = s
  claim_file lease a now (some f) s = deactivate a.file lease (
      delete_bytes names lstat a.file
        (persist (record f { status = claimed; claimed_at = a.finished_at }) now s))

  unfoldable pub claim_lease : ℕ → ℕ → Option ActiveDownload → Downloads → Downloads
  unfolding claim_file
  claim_lease lease now none s = s
  claim_lease lease now (some a) s = claim_file lease a now (get a.file s.files) s

  unfoldable pub run_first : ℕ → List ℕ → Downloads → Downloads
  unfolding claim_lease
  run_first now [] s = s
  run_first now (lease ∷ claims) s =
      claim_lease lease now (get lease s.leases) (record s { claims = claims })

  unfoldable pub run_claim : ℕ → Downloads → Downloads
  unfolding run_first
  run_claim now s = run_first now s.claims s

  -- `expire`, for one file: the lease of the file, if it has one.
  abbrev pub lease_of : ℕ → Downloads → Option ActiveDownload
  lease_of id s = elim (get id s.active) [ none ↦ none | some lease ↦ get lease s.leases ]

  abbrev pub is_finished : Option ActiveDownload → Bool
  is_finished none = false
  is_finished (some a) = is_some a.finished_at

  -- `active?.controller.abort()`
  abbrev pub abort_active : Option ℕ → Downloads → Downloads
  abort_active none s = s
  abort_active (some lease) s = record s {
    leases = update lease (λ a. record a { aborted = true }) s.leases;
  }

  unfoldable pub expire_if : Bool → File → ℕ → Downloads → Downloads
  unfolding persist
  expire_if false f now s = s
  expire_if true f now s =
      persist (record f { status = expired }) now (abort_active (get f.id s.active) s)

  abbrev pub is_ended : Option File → Bool
  is_ended none = false
  is_ended (some f) = not (is_available f.status)

  unfoldable pub delete_ended : ℕ → Downloads → Downloads
  unfolding delete_bytes
  delete_ended id s =
      if is_ended (get id s.files) && includes s.allocated id
      then delete_bytes names lstat id s
      else s

  unfoldable pub expire_file : ℕ → Option File → Downloads → Downloads
  unfolding expire_if delete_ended
  expire_file now none s = s
  expire_file now (some f) s =
      if is_finished (lease_of f.id s)
      then s
      else delete_ended f.id (expire_if (is_available f.status && leb f.expires_at now) f now s)

  unfoldable pub expire_files : ℕ → List ℕ → Downloads → Downloads
  unfolding expire_file
  expire_files now [] s = s
  expire_files now (id ∷ ids) s = expire_files now ids (expire_file now (get id s.files) s)

  unfoldable pub expire : ℕ → Downloads → Downloads
  unfolding expire_files
  expire now s = expire_files now (keys s.files) s

  unfoldable pub acknowledge_file : ℕ → Option File → Downloads → Downloads × Option DownloadError
  unfolding free_bytes
  acknowledge_file id none s = (s, none)
  acknowledge_file id (some f) s = if is_available f.status then (s, some bad_request) else (
    record s {
      files = delete id s.files;
      allocated = remove_number id s.allocated;
      disk = delete id s.disk;
      protection = free_bytes lstat (names.key id) s.protection;
    },
    none,
  )

  unfoldable pub acknowledge : ℕ → Downloads → Downloads × Option DownloadError
  unfolding acknowledge_file
  acknowledge id s = acknowledge_file id (get id s.files) s

  -- `abort` of the sink.
  unfoldable pub abort_reserved : Option DownloadReservation → Downloads → Downloads
  unfolding free_bytes
  abort_reserved none s = s
  abort_reserved (some r) s = record s {
    reservations = delete_reservation r.session_id r.download_id s.reservations;
    protection = free_bytes lstat (names.key r.id) s.protection;
  }

  unfoldable pub abort_download :
      (session asked download : ℕ) → Downloads → Downloads × Option DownloadError
  unfolding abort_reserved
  abort_download session asked download s =
      if not (asked == session)
      then (s, some bad_request)
      else (abort_reserved (find_reservation session download s.reservations) s, none)

-- The timer of a lease.
abbrev pub time_out_file : ℕ → ℕ → Option File → Downloads → Downloads
time_out_file lease now none s = s
time_out_file lease now (some f) s = record s {
  leases = update lease (schedule_deadline f now) s.leases;
}

abbrev pub time_out_lease : ℕ → ℕ → Option ActiveDownload → Downloads → Downloads
time_out_lease lease now none s = s
time_out_lease lease now (some a) s =
    if is_some a.deadline then time_out_file lease now (get a.file s.files) s else s

unfoldable pub time_out : (lease now : ℕ) → Downloads → Downloads
time_out lease now s = time_out_lease lease now (get lease s.leases) s
