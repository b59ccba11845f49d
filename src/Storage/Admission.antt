-- ===== src/Storage/Admission.antt =====
-- Admission: what a Worker lets start, and that the Backend blocks the same.
use mathlib.Core.Path.{subst}
use browshare.Prelude.{
  ℕ, ◌≤◌, ◌≡◌, refl, ap, ◌∙◌, ◌↔◌, ◌≢◌, ◌⊎◌, Bool, true, false, Option, none, some, [], ◌∷◌, arith,
  ok,
}
use browshare.Quota.{
  DiskState, disk_ok, low_disk, QuotaState, quota_ok, WorkerStorageFact, ProfileStorageUsage,
  WorkerQuota, ProfileQuota, storage_block_reason,
}
use browshare.Storage.{
  Protection, Thresholds, VolumeSnapshot, volume_state, threshold, disk_state_of, quota_state_of,
}
use browshare.Storage.Operations.{snapshot, profile_usage, admit, assert_admission}

-- The conditions of an operation; a transfer may go on while space is only low.
pub record IsClear (fact : WorkerStorageFact) (profile : ProfileStorageUsage) (transfer : Bool)
    : Type 0 where
  pub disk : (fact.disk_state ≡ disk_ok) ⊎ ((fact.disk_state ≡ low_disk) × (transfer ≡ true))
  pub worker : fact.quota_state ≡ quota_ok
  pub own : profile.quota_state ≡ quota_ok

admit_sound :
    (fact : WorkerStorageFact) (profile : ProfileStorageUsage) (transfer : Bool)
    → admit fact profile transfer ≡ ok tt
    → IsClear fact profile transfer
unfolding admit
admit_sound fact profile transfer h = ground arith

admit_complete :
    (fact : WorkerStorageFact) (profile : ProfileStorageUsage) (transfer : Bool)
    → IsClear fact profile transfer
    → admit fact profile transfer ≡ ok tt
unfolding admit
admit_complete fact profile transfer h = ground arith

-- An operation is admitted exactly if the disk has room for it and both quotas are known and free.
pub assert_admission-IsClear :
    (id : ℕ) (transfer : Bool) (s : Protection)
    → (assert_admission id transfer s ≡ ok tt) ↔ IsClear (snapshot s) (profile_usage id s) transfer
unfolding assert_admission
assert_admission-IsClear id transfer s = (
  admit_sound (snapshot s) (profile_usage id s) transfer,
  admit_complete (snapshot s) (profile_usage id s) transfer,
)

-- The Backend holds the Worker's current report and the policy that the Worker has applied.
pub record IsCurrent (id : ℕ) (s : Protection) (w : WorkerQuota) (p : ProfileQuota) : Type 0 where
  pub worker_report : w.storage_snapshot ≡ some (snapshot s)
  pub worker_quota : w.storage_quota_bytes ≡ (snapshot s).quota_bytes
  pub worker_version : w.storage_policy_version ≡ (snapshot s).applied_policy_version
  pub profile_report : p.storage_usage ≡ some (profile_usage id s)
  pub profile_quota : p.storage_quota_bytes ≡ (profile_usage id s).quota_bytes
  pub profile_version : p.storage_policy_version ≡ (profile_usage id s).applied_policy_version

-- A report whose quota state follows from its numbers.
abbrev IsConsistent : Option ℕ → Option ℕ → QuotaState → Type 0
IsConsistent used quota state = state ≡ quota_state_of used quota

block_agrees :
    (fact : WorkerStorageFact) (u : ProfileStorageUsage) (w : WorkerQuota) (p : ProfileQuota)
    → w.storage_snapshot ≡ some fact
    → w.storage_quota_bytes ≡ fact.quota_bytes
    → w.storage_policy_version ≡ fact.applied_policy_version
    → p.storage_usage ≡ some u
    → p.storage_quota_bytes ≡ u.quota_bytes
    → p.storage_policy_version ≡ u.applied_policy_version
    → IsConsistent fact.used_bytes fact.quota_bytes fact.quota_state
    → IsConsistent u.used_bytes u.quota_bytes u.quota_state
    → (storage_block_reason w (some p) ≡ none) ↔ IsClear fact u false
unfolding storage_block_reason quota_state_of
block_agrees fact u w p a b c d e f g h = (λ z. ground arith, λ z. ground arith)

snapshot-IsConsistent :
    (s : Protection)
    → IsConsistent (snapshot s).used_bytes (snapshot s).quota_bytes (snapshot s).quota_state
unfolding snapshot
snapshot-IsConsistent s = refl

profile_usage-IsConsistent :
    (id : ℕ) (s : Protection)
    → IsConsistent
        (profile_usage id s).used_bytes
        (profile_usage id s).quota_bytes
        (profile_usage id s).quota_state
unfolding profile_usage
profile_usage-IsConsistent id s = refl

-- With current reports the Backend blocks a Profile's Runtimes and Sessions exactly if its Worker
-- refuses to start them, although the two look at the causes in different orders.
pub storage_block_reason-assert_admission :
    (id : ℕ) (s : Protection) (w : WorkerQuota) (p : ProfileQuota)
    → IsCurrent id s w p
    → (storage_block_reason w (some p) ≡ none) ↔ (assert_admission id false s ≡ ok tt)
storage_block_reason-assert_admission id s w p c =
    let agree =
      block_agrees (snapshot s) (profile_usage id s) w p c.worker_report c.worker_quota
        c.worker_version c.profile_report c.profile_quota c.profile_version
        (snapshot-IsConsistent s) (profile_usage-IsConsistent id s) in
    let clear = assert_admission-IsClear id false s in
    (λ h. clear.1 (agree.0 h), λ h. agree.1 (clear.0 h))

-- A volume was read, has an inode left where it counts them, and has the space that is wanted.
abbrev pub HasRoom : Thresholds → Bool → Option VolumeSnapshot → Type 0
HasRoom t transfer none = ⊥
HasRoom t transfer (some v) =
    (v.available_inodes ≢ some 0)
    × (threshold t.critical_bytes t.critical_percent v.total_bytes ≤ v.available_bytes)
    × (transfer ≡ false → threshold t.low_bytes t.low_percent v.total_bytes ≤ v.available_bytes)

volume_state-HasRoom :
    (t : Thresholds) (transfer : Bool) (v : Option VolumeSnapshot)
    → (volume_state t v ≡ disk_ok) ⊎ ((volume_state t v ≡ low_disk) × (transfer ≡ true))
    → HasRoom t transfer v
unfolding volume_state
volume_state-HasRoom t transfer none h = ground arith
volume_state-HasRoom t transfer (some v) h = ground arith

abbrev IsRoomy : Bool → DiskState → Type 0
IsRoomy transfer d = (d ≡ disk_ok) ⊎ ((d ≡ low_disk) × (transfer ≡ true))

-- The report is no better than either volume.
disk_state_of-IsRoomy :
    (transfer : Bool) (a b : DiskState)
    → IsRoomy transfer (disk_state_of (a ∷ b ∷ []))
    → IsRoomy transfer a × IsRoomy transfer b
unfolding disk_state_of
disk_state_of-IsRoomy transfer a b h = ground arith

snapshot_disk : (s : Protection) → (snapshot s).disk_state ≡ disk_state_of s.volumes
unfolding snapshot
snapshot_disk s = refl

-- Whatever is admitted, both volumes were read and have room: a transfer wants the critical
-- threshold and a free inode, any other operation the low threshold too.
pub assert_admission-HasRoom :
    (id : ℕ) (transfer : Bool) (s : Protection) (t : Thresholds) (a b : Option VolumeSnapshot)
    → s.volumes ≡ volume_state t a ∷ volume_state t b ∷ []
    → assert_admission id transfer s ≡ ok tt
    → HasRoom t transfer a × HasRoom t transfer b
assert_admission-HasRoom id transfer s t a b e h =
    let clear = (assert_admission-IsClear id transfer s).0 h in
    let roomy =
      disk_state_of-IsRoomy transfer (volume_state t a) (volume_state t b)
        (subst (IsRoomy transfer) (snapshot_disk s ∙ ap disk_state_of e) clear.disk) in
    (volume_state-HasRoom t transfer a roomy.0, volume_state-HasRoom t transfer b roomy.1)
