-- ===== src/Downloads.antt =====
-- The downloads that a Worker keeps for its Users: apps/worker/src/retained-downloads.ts, class
-- WorkerRetainedDownloads, with the metadata of packages/contracts/src/downloads.ts. The directory of
-- the store is a part of the state. Operations on the disk succeed, but for those of `commit`.
pub mod Operations
pub mod Events
pub mod Recovery
pub mod Durable
pub mod Claims
pub mod Budget
mod Examples
use browshare.Prelude.{
  ℕ, suc, ◌+◌, ◌-◌, min, Bool, true, false, Option, none, some, List, [], ◌∷◌, ◌++◌, ltb, leb, ◌==◌,
  ◌&&◌, ◌||◌, not, if◌then◌else◌, includes, same_opt, is_some,
}
use browshare.Prelude.Maps.{get, put, update, remove_number}
use browshare.Storage.{FilePath, Protection}
use browshare.Storage.Operations.{retain, release}

pub data FileStatus : Type 0 where
  available claimed expired : FileStatus

-- RetainedDownload, without its name.
pub record File : Type 0 where
  pub id : ℕ
  pub session_id : ℕ
  pub size : ℕ
  pub status : FileStatus
  pub completed_at : ℕ
  pub expires_at : ℕ
  pub session_ended_at : Option ℕ
  pub claimed_at : Option ℕ

pub record DownloadRetentionPolicy : Type 0 where
  pub completed_milliseconds : ℕ
  pub after_session_milliseconds : ℕ

pub record DownloadReservation : Type 0 where
  pub id : ℕ
  pub session_id : ℕ
  pub download_id : ℕ
  pub size : ℕ

-- ActiveDownload, with the file that it is for. `deadline` is the timer.
pub record ActiveDownload : Type 0 where
  pub file : ℕ
  pub aborted : Bool
  pub deadline : Option ℕ
  pub finished_at : Option ℕ

-- A directory of the store: `manifest.json`, and the size of `data` if it is there.
pub record Stored : Type 0 where
  pub manifest : File
  pub bytes : Option ℕ

pub record Downloads : Type 0 where
  pub files : List (ℕ × File)
  pub allocated : List ℕ
  pub active : List (ℕ × ℕ)  -- file, lease
  pub leases : List (ℕ × ActiveDownload)
  pub reservations : List DownloadReservation
  pub claims : List ℕ  -- leases whose finish waits in the queue
  pub disk : List (ℕ × Stored)
  pub protection : Option Protection

-- How the store names things: the keys that it uses at StorageProtection, and its paths.
pub record Layout : Type 0 where
  pub key : ℕ → ℕ  -- `download:${id}`
  pub spool_paths : ℕ → List FilePath
  pub staging_data : ℕ → FilePath
  pub data_path : ℕ → FilePath

abbrev pub is_available : FileStatus → Bool
is_available available = true
is_available _ = false

abbrev pub max_timer : ℕ
max_timer = 2147483647

-- `#scheduleDeadline`, on the lease.
abbrev pub schedule_deadline : File → ℕ → ActiveDownload → ActiveDownload
schedule_deadline f now a =
    if is_some a.finished_at || a.aborted
    then record a { deadline = none }
    else if leb f.expires_at now
    then record a { aborted = true; deadline = none }
    else record a { deadline = some (now + min (f.expires_at - now) max_timer) }

abbrev pub schedule_at : Option ℕ → File → ℕ → Downloads → Downloads
schedule_at none f now s = s
schedule_at (some lease) f now s = record s {
  leases = update lease (schedule_deadline f now) s.leases;
}

abbrev pub schedule : File → ℕ → Downloads → Downloads
schedule f now s = schedule_at (get f.id s.active) f now s

-- `#persist`
unfoldable pub persist : File → ℕ → Downloads → Downloads
persist f now s = schedule f now (record s {
  files = put f.id f s.files;
  disk = update f.id (λ d. record d { manifest = f }) s.disk;
})

unfoldable pub keep_bytes : ℕ → ℕ → List FilePath → Option Protection → Option Protection
unfolding retain
keep_bytes key bytes paths none = none
keep_bytes key bytes paths (some p) = some (retain key bytes paths p)

unfoldable pub free_bytes : (FilePath → Option ℕ) → ℕ → Option Protection → Option Protection
unfolding release
free_bytes lstat key none = none
free_bytes lstat key (some p) = some (release lstat key p)

module _ (names : Layout) (lstat : FilePath → Option ℕ) where
  -- `#deleteBytes`
  unfoldable pub delete_bytes : ℕ → Downloads → Downloads
  unfolding free_bytes
  delete_bytes id s = record s {
    allocated = remove_number id s.allocated;
    disk = update id (λ d. record d { bytes = none }) s.disk;
    protection = free_bytes lstat (names.key id) s.protection;
  }
