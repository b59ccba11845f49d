-- ===== src/Storage/Examples.antt =====
-- A Worker's storage at concrete sizes, and the theorems there.
use browshare.Prelude.{
  ℕ, ◌≤◌, min, ◌≡◌, refl, ◌↔◌, true, false, Option, none, some, List, [], ◌∷◌, ok, arith,
}
use browshare.Quota.{disk_ok, StoragePolicy, WorkerQuota, ProfileQuota, storage_block_reason}
use browshare.Storage.{
  Files, Reservation, Protection, Thresholds, VolumeSnapshot, volume_state, disk_state_of, claim,
  count_reservations, usage_of, usage, max_safe_integer, quota_state_of, get, total,
}
use browshare.Storage.Operations.{
  snapshot, profile_usage, admit, assert_admission, canonical_path, reserve, grows,
}
use browshare.Storage.Usage.{reserved_bytes, Reserved, reserve-within_quota, reserve-reserved_le}
use browshare.Storage.Counting.{counted, usage_of-counted}
use browshare.Storage.Admission.{
  IsClear, IsCurrent, HasRoom, assert_admission-IsClear, storage_block_reason-assert_admission,
  assert_admission-HasRoom,
}
use browshare.Storage.Policies.{PolicyStore, choose, choose_all, commit, apply_policy}
use browshare.Storage.Policies.Newest.{
  WorkerResult, ProfileResult, apply_policy-IsNewest, apply_policy-again,
}

machine : Unit {0}
unfolding volume_state disk_state_of claim count_reservations usage_of usage quota_state_of snapshot
    profile_usage admit assert_admission canonical_path reserve
machine = tt

abbrev limits : Thresholds
limits = record { low_bytes = 50; low_percent = 10; critical_bytes = 10; critical_percent = 1 }

abbrev volume : Option VolumeSnapshot
volume = some (record { total_bytes = 1000; available_bytes = 700; available_inodes = some 9 })

abbrev quota : StoragePolicy
quota = record { version = 2; quota_bytes = some 300 }

abbrev observed : Files
observed = (1 ∷ 7 ∷ [], 120) ∷ (1 ∷ 8 ∷ [], 40) ∷ []

abbrev storage : Protection
storage = record {
  worker_policy = some quota;
  profile_policies = [];
  reservations = (4, record { bytes = 60; paths = (1 ∷ 8 ∷ []) ∷ [] }) ∷ [];
  files = some observed;
  volumes = disk_ok ∷ disk_ok ∷ [];
  roots = (1 ∷ []) ∷ [];
  root_aliases = [];
  profile_root = 1 ∷ [];
}

abbrev transfer : Reservation
transfer = record { bytes = 100; paths = (1 ∷ 9 ∷ []) ∷ [] }

abbrev reserved : Protection
reserved = record storage {
  reservations = (4, record { bytes = 60; paths = (1 ∷ 8 ∷ []) ∷ [] }) ∷ (5, transfer) ∷ [];
}

reserve_runs :
    (reserve 5 7 100 ((1 ∷ 9 ∷ []) ∷ []) storage ≡ ok reserved) × (usage reserved ≡ some 280)
unfolding machine
reserve_runs = (refl, refl)

-- The second reservation names a file of the first and one of its own.
abbrev shared : List (ℕ × Reservation)
shared =
    (4, record { bytes = 60; paths = (1 ∷ 8 ∷ []) ∷ [] })
    ∷ (5, record { bytes = 100; paths = (1 ∷ 8 ∷ []) ∷ (1 ∷ 7 ∷ []) ∷ [] })
    ∷ []

usage_of-counted_example :
    usage_of shared (some observed) ≡ some (min max_safe_integer (counted shared observed))
usage_of-counted_example = usage_of-counted shared observed (refl, (refl, tt))

counted_runs : counted shared observed ≡ 180
counted_runs = refl

reserve-within_quota_example :
    Reserved 5 100 storage reserved
    × ((used : ℕ) × (usage reserved ≡ some used)
        × (grows 100 (get 5 storage.reservations) ≡ true
            → (p : StoragePolicy) (q : ℕ) → storage.worker_policy ≡ some p
            → p.quota_bytes ≡ some q
            → used ≤ q))
reserve-within_quota_example =
    reserve-within_quota 5 7 100 ((1 ∷ 9 ∷ []) ∷ []) storage reserved reserve_runs.0

reserve-reserved_le_example : (reserved_bytes reserved.reservations ≤ 300) × (total observed ≤ 300)
reserve-reserved_le_example =
    reserve-reserved_le 5 7 100 300 ((1 ∷ 9 ∷ []) ∷ []) storage reserved quota observed
      reserve_runs.0 refl refl refl refl (omega arith)

assert_admission-IsClear_example :
    (assert_admission 7 true storage ≡ ok tt)
    ↔ IsClear (snapshot storage) (profile_usage 7 storage) true
assert_admission-IsClear_example = assert_admission-IsClear 7 true storage

abbrev worker_row : WorkerQuota
worker_row = record {
  storage_quota_bytes = some 300;
  storage_policy_version = 2;
  storage_snapshot = some (snapshot storage);
}

abbrev profile_row : ProfileQuota
profile_row = record {
  storage_quota_bytes = none;
  storage_policy_version = 1;
  storage_usage = some (profile_usage 7 storage);
}

rows-IsCurrent : IsCurrent 7 storage worker_row profile_row
unfolding machine
rows-IsCurrent = record {
  worker_report = refl;
  worker_quota = refl;
  worker_version = refl;
  profile_report = refl;
  profile_quota = refl;
  profile_version = refl;
}

storage_block_reason-assert_admission_example :
    (storage_block_reason worker_row (some profile_row) ≡ none)
    ↔ (assert_admission 7 false storage ≡ ok tt)
storage_block_reason-assert_admission_example =
    storage_block_reason-assert_admission 7 storage worker_row profile_row rows-IsCurrent

assert_admission-HasRoom_example : HasRoom limits false volume × HasRoom limits false volume
unfolding machine
assert_admission-HasRoom_example =
    assert_admission-HasRoom 7 false storage limits volume volume refl refl

abbrev store : PolicyStore
store = record {
  closed = false;
  memory = record { worker = some quota; profiles = [] };
  file = record { worker = some quota; profiles = [] };
}

abbrev own : StoragePolicy
own = record { version = 3; quota_bytes = none }

abbrev updated : PolicyStore
updated = record {
  closed = false;
  memory = record { worker = some quota; profiles = (7, own) ∷ [] };
  file = record { worker = some quota; profiles = (7, own) ∷ [] };
}

apply_policy_runs : apply_policy true quota (some (7, own)) store ≡ ok updated
unfolding apply_policy choose_all choose commit
apply_policy_runs = refl

apply_policy-IsNewest_example :
    WorkerResult store.memory quota updated.memory
    × ProfileResult store.memory (some (7, own)) updated.memory
    × (store.file ≡ store.memory → updated.file ≡ updated.memory)
apply_policy-IsNewest_example =
    apply_policy-IsNewest true quota (some (7, own)) store updated apply_policy_runs

apply_policy-again_example : apply_policy false quota (some (7, own)) updated ≡ ok updated
apply_policy-again_example =
    apply_policy-again true false quota (some (7, own)) store updated apply_policy_runs
