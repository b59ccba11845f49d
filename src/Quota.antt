-- ===== src/Quota.antt =====
-- Storage facts and policies: packages/contracts/src/storage.ts, and the admission check of the
-- Backend in apps/backend/src/services/storage.ts. Byte counts and versions are numbers.
use browshare.Prelude.{
  ℕ, Bool, true, false, Option, none, some, ◌==◌, ◌&&◌, if◌then◌else◌, Outcome, ok, throw,
}

pub data DiskState : Type 0 where
  disk_ok low_disk critical_disk disk_unknown : DiskState

pub data QuotaState : Type 0 where
  quota_ok exceeded quota_unknown : QuotaState

pub data StorageBlockReason : Type 0 where
  low_disk critical_disk worker_quota_exceeded profile_quota_exceeded storage_unavailable
        policy_stale :
      StorageBlockReason

pub record StoragePolicy : Type 0 where
  pub version : ℕ
  pub quota_bytes : Option ℕ

-- The parts of `WorkerStorageFact` that admission reads.
pub record WorkerStorageFact : Type 0 where
  pub used_bytes : Option ℕ
  pub applied_policy_version : ℕ
  pub quota_bytes : Option ℕ
  pub quota_state : QuotaState
  pub disk_state : DiskState

pub record ProfileStorageUsage : Type 0 where
  pub profile_id : ℕ
  pub used_bytes : Option ℕ
  pub applied_policy_version : ℕ
  pub quota_bytes : Option ℕ
  pub quota_state : QuotaState

-- The columns of a Worker row and of a Profile row that hold quotas and the last reports.
pub record WorkerQuota : Type 0 where
  pub storage_quota_bytes : Option ℕ
  pub storage_policy_version : ℕ
  pub storage_snapshot : Option WorkerStorageFact

pub record ProfileQuota : Type 0 where
  pub storage_quota_bytes : Option ℕ
  pub storage_policy_version : ℕ
  pub storage_usage : Option ProfileStorageUsage

-- `quota === 0`
abbrev pub is_zero : Option ℕ → Bool
is_zero none = false
is_zero (some q) = q == 0

abbrev pub is_exceeded : QuotaState → Bool
is_exceeded exceeded = true
is_exceeded _ = false

abbrev pub is_unknown : QuotaState → Bool
is_unknown quota_unknown = true
is_unknown _ = false

abbrev pub usage_block : ProfileQuota → Option ProfileStorageUsage → Option StorageBlockReason
usage_block p none = none
usage_block p (some u) =
    if u.applied_policy_version == p.storage_policy_version
    then if is_exceeded u.quota_state
      then some profile_quota_exceeded
      else if is_unknown u.quota_state
      then some storage_unavailable
      else none
    else none

-- The last checks of `storageBlockReason`, on the Profile's report.
abbrev pub profile_block : Option ProfileQuota → Option StorageBlockReason
profile_block none = none
profile_block (some p) = usage_block p p.storage_usage

abbrev pub quota_block :
    WorkerQuota → WorkerStorageFact → Option ProfileQuota → Option StorageBlockReason
quota_block w fact p =
    if is_unknown fact.quota_state
    then some storage_unavailable
    else if (fact.applied_policy_version == w.storage_policy_version)
        && is_exceeded fact.quota_state
    then some worker_quota_exceeded
    else profile_block p

abbrev pub fact_block :
    WorkerQuota → Option WorkerStorageFact → Option ProfileQuota → Option StorageBlockReason
fact_block w none p = profile_block p
fact_block w (some fact) p = elim fact.disk_state [
  | critical_disk ↦ some critical_disk
  | low_disk ↦ some low_disk
  | disk_unknown ↦ some storage_unavailable
  | disk_ok ↦ quota_block w fact p
]

abbrev pub profile_zero : Option ProfileQuota → Bool
profile_zero none = false
profile_zero (some p) = is_zero p.storage_quota_bytes

unfoldable pub storage_block_reason : WorkerQuota → Option ProfileQuota → Option StorageBlockReason
storage_block_reason w p =
    if is_zero w.storage_quota_bytes
    then some worker_quota_exceeded
    else if profile_zero p
    then some profile_quota_exceeded
    else fact_block w w.storage_snapshot p

pub assert_storage_admission :
    WorkerQuota → Option ProfileQuota → Outcome StorageBlockReason (Unit {0})
unfolding storage_block_reason
assert_storage_admission w p = elim (storage_block_reason w p) [
  | none ↦ ok tt
  | some reason ↦ throw reason
]
