-- ===== src/Storage/Operations.antt =====
-- The operations of `StorageProtection`: snapshots, admission, reservations and policies.
use mathlib.Core.Option
use browshare.Prelude.{
  ℕ, ◌+◌, Bool, true, false, Option, none, some, List, [], ◌∷◌, ◌++◌, map, ltb, ◌&&◌, ◌||◌, not,
  if◌then◌else◌, or_else, any, Outcome, ok, throw, ◌>>◌, throw_if,
}
use browshare.Quota.{
  DiskState, disk_unknown, StorageBlockReason, worker_quota_exceeded, profile_quota_exceeded,
  storage_unavailable, policy_stale, StoragePolicy, WorkerStorageFact, ProfileStorageUsage,
  is_exceeded, is_unknown,
}
use browshare.Storage.{
  FilePath, same_path, contains_path, below, max_safe_integer, Reservation, RootAlias, Protection,
  get, put, delete, Files, remove_file, set_file, usage_of, usage, quota_state_of, is_disk,
  disk_state_of, default_policy,
}

pub data StorageError : Type 0 where
  blocked : StorageBlockReason → StorageError  -- StorageProtectionError
  invalid : StorageError  -- TypeError
  unavailable : StorageError  -- Error

unfoldable pub snapshot : Protection → WorkerStorageFact
unfolding usage quota_state_of disk_state_of
snapshot s =
    let policy = or_else s.worker_policy default_policy in
    record {
      used_bytes = usage s;
      applied_policy_version = policy.version;
      quota_bytes = policy.quota_bytes;
      quota_state = quota_state_of (usage s) policy.quota_bytes;
      disk_state = disk_state_of s.volumes;
    }

-- The bytes of the files below a directory.
abbrev pub bytes_below : FilePath → Files → ℕ
bytes_below dir [] = 0
bytes_below dir ((q, n) ∷ fs) = (if contains_path dir q then n else 0) + bytes_below dir fs

unfoldable pub profile_usage : ℕ → Protection → ProfileStorageUsage
unfolding quota_state_of
profile_usage id s =
    let policy = or_else (get id s.profile_policies) default_policy in
    let used = Option.map (bytes_below (s.profile_root ++ id ∷ [])) s.files in
    record {
      profile_id = id;
      used_bytes = used;
      applied_policy_version = policy.version;
      quota_bytes = policy.quota_bytes;
      quota_state = quota_state_of used policy.quota_bytes;
    }

-- `#assertAdmission`, on the two reports that it reads.
unfoldable pub admit :
    WorkerStorageFact → ProfileStorageUsage → Bool → Outcome StorageError (Unit {0})
admit fact profile transfer = do
  throw_if
      (is_disk fact.disk_state disk_unknown
        || (is_unknown fact.quota_state || is_unknown profile.quota_state))
      (blocked storage_unavailable)
  throw_if (is_disk fact.disk_state DiskState.critical_disk)
      (blocked StorageBlockReason.critical_disk)
  throw_if (not transfer && is_disk fact.disk_state DiskState.low_disk)
      (blocked StorageBlockReason.low_disk)
  throw_if (is_exceeded fact.quota_state) (blocked worker_quota_exceeded)
  throw_if (is_exceeded profile.quota_state) (blocked profile_quota_exceeded)

unfoldable pub assert_admission : ℕ → Bool → Protection → Outcome StorageError (Unit {0})
assert_admission id transfer s = admit (snapshot s) (profile_usage id s) transfer

abbrev pub is_stale : Option StoragePolicy → Option StoragePolicy → Bool
is_stale none current = false
is_stale (some asked) none = ltb asked.version 1
is_stale (some asked) (some current) = ltb asked.version current.version

-- `assertCanStart`, after its `refresh`.
unfoldable pub assert_can_start :
    ℕ → Option StoragePolicy → Option StoragePolicy → Protection → Outcome StorageError (Unit {0})
assert_can_start id worker profile s = do
  throw_if (is_stale worker s.worker_policy || is_stale profile (get id s.profile_policies))
      (blocked policy_stale)
  assert_admission id false s

-- `#canonicalPath`; `find` takes the first alias that contains the path.
unfoldable pub canonical_path : List RootAlias → FilePath → FilePath
canonical_path [] path = path
canonical_path (a ∷ aliases) path =
    if contains_path a.source path
    then a.canonical ++ below a.source path
    else canonical_path aliases path

abbrev pub has_path : FilePath → List FilePath → Bool
has_path p [] = false
has_path p (q ∷ ps) = same_path q p || has_path p ps

-- `new Set([...old, ...new])`
abbrev pub add_paths : List FilePath → List FilePath → List FilePath
add_paths old [] = old
add_paths old (p ∷ ps) = add_paths (if has_path p old then old else old ++ p ∷ []) ps

abbrev pub paths_of : Option Reservation → List FilePath
paths_of none = []
paths_of (some r) = r.paths

-- `quota != null && projected > quota`
abbrev pub is_above : Option StoragePolicy → ℕ → Bool
is_above none projected = false
is_above (some p) projected = or_else (Option.map (λ q. ltb q projected) p.quota_bytes) false

abbrev pub grows : ℕ → Option Reservation → Bool
grows bytes none = true
grows bytes (some r) = ltb r.bytes bytes

abbrev pub within_roots : List FilePath → List FilePath → Bool
within_roots roots [] = true
within_roots roots (p ∷ ps) = any (λ root. contains_path root p) roots && within_roots roots ps

-- A new reservation is admitted first; a known one only changes.
abbrev pub admit_new : Option Reservation → ℕ → Protection → Outcome StorageError (Unit {0})
admit_new none id s = assert_admission id true s
admit_new (some r) id s = ok tt

abbrev pub check_quota : Option StoragePolicy → Bool → Option ℕ → Outcome StorageError (Unit {0})
check_quota policy growing none = throw (blocked storage_unavailable)
check_quota policy growing (some projected) =
    throw_if (growing && is_above policy projected) (blocked worker_quota_exceeded)

unfoldable pub reserve : ℕ → ℕ → ℕ → List FilePath → Protection → Outcome StorageError Protection
reserve key id bytes paths s = do
  let asked = map (canonical_path s.root_aliases) paths
  let current = get key s.reservations
  throw_if (ltb max_safe_integer bytes || not (within_roots s.roots asked)) invalid
  admit_new current id s
  let next : Reservation = record { bytes = bytes; paths = add_paths (paths_of current) asked }
  let after = put key next s.reservations
  check_quota s.worker_policy (grows bytes current) (usage_of after s.files)
  ok (record s { reservations = after })

unfoldable pub retain : ℕ → ℕ → List FilePath → Protection → Protection
retain key bytes paths s =
    let asked = map (canonical_path s.root_aliases) paths in
    let current = get key s.reservations in
    record s {
      reservations =
          put key (record { bytes = bytes; paths = add_paths (paths_of current) asked })
            s.reservations;
    }

-- What `lstat` says of the reserved paths goes into the observed files; `none` is ENOENT.
abbrev pub observe_paths : (FilePath → Option ℕ) → List FilePath → Files → Files
observe_paths lstat [] fs = fs
observe_paths lstat (p ∷ ps) fs =
    observe_paths lstat ps (elim (lstat p) [ none ↦ remove_file p fs | some n ↦ set_file p n fs ])

unfoldable pub release : (FilePath → Option ℕ) → ℕ → Protection → Protection
release lstat key s = elim (get key s.reservations) [
  | none ↦ s
  | some r ↦ record s {
    files = Option.map (observe_paths lstat r.paths) s.files;
    reservations = delete key s.reservations;
  }
]
