-- ===== src/Downloads/Examples.antt =====
-- One download from its reservation to its claim, and the theorems at it.
use browshare.Prelude.{
  ℕ, ◌+◌, ◌≤◌, ◌≡◌, refl, true, false, Option, none, some, List, [], ◌∷◌, includes, ok,
}
use browshare.Prelude.Maps.{get}
use browshare.Storage.{FilePath}
use browshare.Downloads.{DownloadRetentionPolicy, ActiveDownload, Downloads, Layout}
use browshare.Downloads.Operations.{reserved_bytes, reserve_download}
use browshare.Downloads.Operations.Disposal.{expire}
use browshare.Downloads.Events.{
  Event, reserved, committed, acquired, released, finished, claim_ran, run,
}
use browshare.Downloads.Durable.{Durable}
use browshare.Downloads.Durable.Runs.{run-Durable}
use browshare.Downloads.Recovery.{new_store, initialize}
use browshare.Downloads.Recovery.Restart.{entries, initialize-run}
use browshare.Downloads.Claims.Runs.{IsUntouched, run-single}
use browshare.Downloads.Budget.{reserve_download-within_quota}

abbrev layout : Layout
layout = record {
  key = λ id. id;
  spool_paths = λ download. (1 ∷ download ∷ []) ∷ [];
  staging_data = λ id. 2 ∷ id ∷ [];
  data_path = λ id. 3 ∷ id ∷ [];
}

abbrev retention : DownloadRetentionPolicy
retention = record { completed_milliseconds = 60000; after_session_milliseconds = 10000 }

abbrev unread : FilePath → Option ℕ
unread path = none

-- Download 7 of Session 1 becomes file 50.
abbrev delivered : List Event
delivered = reserved 1 100 10 5 50 1 7 40 ∷ committed 1 1 7 40 1000 (9 ∷ []) (some 40) true ∷ []

abbrev served_once : List Event
served_once =
    acquired 50 1 2000
    ∷ released 0
    ∷ acquired 50 1 2100
    ∷ finished 1 2200
    ∷ claim_ran unread 2300
    ∷ []

abbrev reserved_store : Downloads
reserved_store = record (new_store none) {
  reservations = record { id = 50; session_id = 1; download_id = 7; size = 40 } ∷ [];
}

reserve_download-within_quota_example : reserved_bytes 1 reserved_store + 10 ≤ 100
unfolding reserve_download
reserve_download-within_quota_example =
    reserve_download-within_quota layout 1 100 10 5 50 1 7 40 (new_store none) reserved_store refl

run-Durable_example :
    let s = run layout retention delivered (new_store none) in Durable s.files s.disk s.allocated
run-Durable_example = run-Durable layout retention none delivered

initialize-run_example :
    let s = run layout retention delivered (new_store none) in
    (t : Downloads) × (initialize layout unread 3000 none (entries s.disk)
      ≡ ok (expire layout unread 3000 t))
    × ((id : ℕ) → get id t.files ≡ get id s.files)
    × ((id : ℕ) → includes t.allocated id ≡ includes s.allocated id)
initialize-run_example = initialize-run layout retention none none delivered unread 3000

-- The file is there, and allocated.
delivered_file : (run layout retention delivered (new_store none)).allocated ≡ 50 ∷ []
unfolding run
delivered_file = refl

delivered-IsUntouched : IsUntouched 50 (run layout retention delivered (new_store none))
unfolding run
delivered-IsUntouched = record { reserved_once = tt; active_unique = tt; no_lease = λ n a h. cc }

abbrev finished_lease : ActiveDownload
finished_lease = record { file = 50; aborted = false; deadline = none; finished_at = some 2200 }

run-single_example : ◌≡◌ {A = ℕ} 1 1
unfolding run
run-single_example =
    run-single 50 layout retention served_once (run layout retention delivered (new_store none))
      (tt, (tt, (tt, (tt, (tt, tt))))) (run-Durable layout retention none delivered)
      delivered-IsUntouched 1 1 finished_lease finished_lease refl refl (refl, refl) (refl, refl)
