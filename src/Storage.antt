-- ===== src/Storage.antt =====
-- Storage accounting of a Worker: apps/worker/src/storage-protection.ts, with `containsPath` of
-- storage-observation.ts. A canonical absolute path is the list of its components; components,
-- Profile identities and reservation keys, which are only compared, are numbers. A `Map` is an
-- association list in insertion order.
pub mod Operations
pub mod Usage
pub mod Counting
pub mod Admission
pub mod Policies
mod Examples
use mathlib.Core.Option
pub use browshare.Prelude.Maps.{get, put, delete}
use browshare.Prelude.{
  ℕ, ◌+◌, ◌*◌, ◌/◌, max, min, Bool, true, false, Option, none, some, List, [], ◌∷◌, ◌++◌, map, leb,
  ltb, ◌==◌, ◌&&◌, ◌||◌, not, if◌then◌else◌, or_else, is_some, any, Outcome, ok, throw, ◌>>=◌, ◌>>◌,
  throw_if,
}
use browshare.Quota.{
  DiskState, disk_ok, low_disk, critical_disk, disk_unknown, QuotaState, quota_ok, exceeded,
  quota_unknown, StorageBlockReason, worker_quota_exceeded, profile_quota_exceeded,
  storage_unavailable, StoragePolicy, WorkerStorageFact, ProfileStorageUsage,
}

abbrev pub FilePath : Type 0
FilePath = List ℕ

abbrev pub same_path : FilePath → FilePath → Bool
same_path [] [] = true
same_path (a ∷ p) (b ∷ q) = (a == b) && same_path p q
same_path _ _ = false

-- `containsPath(parent, path)`: the path is the parent or lies below it.
abbrev pub contains_path : FilePath → FilePath → Bool
contains_path [] path = true
contains_path (a ∷ parent) [] = false
contains_path (a ∷ parent) (b ∷ path) = (a == b) && contains_path parent path

-- `relative(source, path)` below the source.
abbrev pub below : FilePath → FilePath → FilePath
below [] path = path
below (a ∷ source) [] = []
below (a ∷ source) (b ∷ path) = below source path

abbrev pub max_safe_integer : ℕ
max_safe_integer = 9007199254740991

pub record Reservation : Type 0 where
  pub bytes : ℕ
  pub paths : List FilePath

pub record Thresholds : Type 0 where
  pub low_bytes : ℕ
  pub low_percent : ℕ
  pub critical_bytes : ℕ
  pub critical_percent : ℕ

pub record RootAlias : Type 0 where
  pub source : FilePath
  pub canonical : FilePath

pub record Protection : Type 0 where
  pub worker_policy : Option StoragePolicy
  pub profile_policies : List (ℕ × StoragePolicy)
  pub reservations : List (ℕ × Reservation)
  pub files : Option (List (FilePath × ℕ))
  pub volumes : List DiskState  -- the disk state of each observed volume
  pub roots : List FilePath
  pub root_aliases : List RootAlias
  pub profile_root : FilePath

-- `readStorageSnapshot`, as far as the disk state depends on it.
pub record VolumeSnapshot : Type 0 where
  pub total_bytes : ℕ
  pub available_bytes : ℕ
  pub available_inodes : Option ℕ

-- `Math.max(bytes, Math.ceil(total * percent / 100))`
abbrev pub threshold : ℕ → ℕ → ℕ → ℕ
threshold bytes percent total = max bytes ((total * percent + 99) / 100)

-- The disk state of a volume; `none` is a volume that could not be read.
pub volume_state : Thresholds → Option VolumeSnapshot → DiskState
volume_state t none = disk_unknown
volume_state t (some v) =
    if or_else (Option.map (λ n. n == 0) v.available_inodes) false
      || ltb v.available_bytes (threshold t.critical_bytes t.critical_percent v.total_bytes)
    then critical_disk
    else if ltb v.available_bytes (threshold t.low_bytes t.low_percent v.total_bytes)
    then low_disk
    else disk_ok

abbrev pub Files : Type 0
Files = List (FilePath × ℕ)

abbrev pub size_of : FilePath → Files → ℕ
size_of p [] = 0
size_of p ((q, n) ∷ fs) = if same_path q p then n else size_of p fs

abbrev pub remove_file : FilePath → Files → Files
remove_file p [] = []
remove_file p ((q, n) ∷ fs) = if same_path q p then fs else (q, n) ∷ remove_file p fs

abbrev pub set_file : FilePath → ℕ → Files → Files
set_file p n [] = (p, n) ∷ []
set_file p n ((q, k) ∷ fs) = if same_path q p then (p, n) ∷ fs else (q, k) ∷ set_file p n fs

abbrev pub total : Files → ℕ
total [] = 0
total ((q, n) ∷ fs) = n + total fs

-- The inner loop of `#usage`: what the paths hold, and the files that are left.
pub claim : List FilePath → Files → ℕ × Files
claim [] fs = (0, fs)
claim (p ∷ ps) fs =
    let (actual, left) = claim ps (remove_file p fs) in (size_of p fs + actual, left)

-- The outer loop: each reservation counts for its bytes or its files, whichever is more.
pub count_reservations : List (ℕ × Reservation) → Files → ℕ
unfolding claim
count_reservations [] fs = total fs
count_reservations ((k, r) ∷ rs) fs =
    let (actual, left) = claim r.paths fs in max r.bytes actual + count_reservations rs left

pub usage_of : List (ℕ × Reservation) → Option Files → Option ℕ
usage_of rs none = none
usage_of rs (some fs) = some (min max_safe_integer (count_reservations rs fs))

pub usage : Protection → Option ℕ
unfolding usage_of
usage s = usage_of s.reservations s.files

-- `used === null ? 'UNKNOWN' : quota !== null && used >= quota ? 'EXCEEDED' : 'OK'`
pub quota_state_of : Option ℕ → Option ℕ → QuotaState
quota_state_of none quota = quota_unknown
quota_state_of (some used) none = quota_ok
quota_state_of (some used) (some quota) = if leb quota used then exceeded else quota_ok

abbrev pub is_disk : DiskState → DiskState → Bool
is_disk disk_ok disk_ok = true
is_disk low_disk low_disk = true
is_disk critical_disk critical_disk = true
is_disk disk_unknown disk_unknown = true
is_disk _ _ = false

abbrev pub has_state : DiskState → List DiskState → Bool
has_state d [] = false
has_state d (x ∷ xs) = is_disk x d || has_state d xs

abbrev pub are_two : List DiskState → Bool
are_two (a ∷ b ∷ []) = true
are_two _ = false

-- The worst state of the two volumes.
pub disk_state_of : List DiskState → DiskState
disk_state_of states =
    if not (are_two states) || has_state disk_unknown states
    then disk_unknown
    else if has_state critical_disk states
    then critical_disk
    else if has_state low_disk states
    then low_disk
    else disk_ok

abbrev pub default_policy : StoragePolicy
default_policy = record { version = 1; quota_bytes = none }
