-- ===== src/Downloads/Events.antt =====
-- What a store goes through: its operations in any order, with any arguments, and its timers.
use browshare.Prelude.{ℕ, Bool, Option, List, [], ◌∷◌, Outcome, ok, throw}
use browshare.Storage.{FilePath}
use browshare.Downloads.{DownloadRetentionPolicy, Downloads, Layout}
use browshare.Downloads.Operations.{
  DownloadError, reserve_download, commit_download, end_session, acquire, release_lease, finish,
}
use browshare.Downloads.Operations.Disposal.{
  abort_download, run_claim, expire, acknowledge, time_out,
}

pub data Event : Type 0 where
  reserved : (session max_bytes uploads profile fresh asked download size : ℕ) → Event
  committed :
      (session asked download size now : ℕ) (local_path : FilePath) (source : Option ℕ)
      (moved : Bool)
      → Event
  aborted : (lstat : FilePath → Option ℕ) (session asked download : ℕ) → Event
  ended : (session at now : ℕ) → Event
  acquired : (id session now : ℕ) → Event
  released : (lease : ℕ) → Event
  finished : (lease now : ℕ) → Event
  claim_ran : (lstat : FilePath → Option ℕ) (now : ℕ) → Event
  expiry_ran : (lstat : FilePath → Option ℕ) (now : ℕ) → Event
  acknowledged : (lstat : FilePath → Option ℕ) (id : ℕ) → Event
  timed_out : (lease now : ℕ) → Event

abbrev pub or_same :
    {A : Type 0} → (A → Downloads) → Outcome DownloadError A → Downloads → Downloads
or_same f (ok a) s = f a
or_same f (throw e) s = s

module _ (names : Layout) (policy : DownloadRetentionPolicy) where
  unfoldable pub step : Event → Downloads → Downloads
  unfolding reserve_download commit_download abort_download end_session acquire release_lease finish
      run_claim expire acknowledge time_out
  step (reserved session max_bytes uploads profile fresh asked download size) s =
      or_same (λ t. t)
        (reserve_download names session max_bytes uploads profile fresh asked download size s) s
  step (committed session asked download size now local_path source moved) s =
      (commit_download names policy session asked download size now local_path source moved s).0
  step (aborted lstat session asked download) s =
      (abort_download names lstat session asked download s).0
  step (ended session at now) s = end_session policy session at now s
  step (acquired id session now) s = or_same (λ r. r.0) (acquire id session now s) s
  step (released lease) s = release_lease lease s
  step (finished lease now) s = (finish lease now s).0
  step (claim_ran lstat now) s = run_claim names lstat now s
  step (expiry_ran lstat now) s = expire names lstat now s
  step (acknowledged lstat id) s = (acknowledge names lstat id s).0
  step (timed_out lease now) s = time_out lease now s

  unfoldable pub run : List Event → Downloads → Downloads
  unfolding step
  run [] s = s
  run (e ∷ es) s = run es (step e s)
