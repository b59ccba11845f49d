-- ===== src/Storage/Usage.antt =====
-- Accounting: what the usage counts, and what a reservation may add to it.
use browshare.Prelude.{
  ℕ, ◌+◌, ◌≤◌, ◌<◌, min, ◌≡◌, refl, ◌∙◌, Bool, true, Option, none, some, List, [], ◌∷◌, map, arith,
  ltb, ok, throw_if, bind_inversion, ok-injective, ◌==◌, ◌||◌, not, if◌then◌else◌, ◌≢◌,
}
use mathlib.Core.Path.{subst}
use browshare.Quota.{StoragePolicy}
use browshare.Storage.{
  FilePath, Reservation, Protection, get, put, Files, size_of, remove_file, total, claim,
  count_reservations, usage_of, usage, max_safe_integer,
}
use browshare.Storage.Operations.{
  invalid, reserve, canonical_path, paths_of, add_paths, admit_new, check_quota, grows,
  within_roots,
}

total-remove_file : (p : FilePath) (fs : Files) → total fs ≡ size_of p fs + total (remove_file p fs)
total-remove_file p [] = omega arith
total-remove_file p ((q, n) ∷ fs) = ground (arith, total-remove_file p fs)

-- Claiming paths moves bytes from the files to the claim.
total-claim : (ps : List FilePath) (fs : Files) → total fs ≡ (claim ps fs).0 + total (claim ps fs).1
unfolding claim
total-claim [] fs = omega arith
total-claim (p ∷ ps) fs = omega (arith, total-remove_file p fs, total-claim ps (remove_file p fs))

abbrev pub reserved_bytes : List (ℕ × Reservation) → ℕ
reserved_bytes [] = 0
reserved_bytes ((k, r) ∷ rs) = r.bytes + reserved_bytes rs

-- Before the cap the usage is at least every observed byte and at least every reserved byte.
count_reservations_bounds :
    (rs : List (ℕ × Reservation)) (fs : Files)
    → (total fs ≤ count_reservations rs fs) × (reserved_bytes rs ≤ count_reservations rs fs)
unfolding count_reservations
count_reservations_bounds [] fs = omega arith
count_reservations_bounds ((k, r) ∷ rs) fs =
    omega (arith, total-claim r.paths fs, count_reservations_bounds rs (claim r.paths fs).1)

-- What a successful `reserve` has done.
pub record Reserved (key bytes : ℕ) (s t : Protection) : Type 0 where
  pub rest : (other : ℕ) → other ≢ key → get other t.reservations ≡ get other s.reservations
  pub stored : (r : Reservation) × (get key t.reservations ≡ some r) × (r.bytes ≡ bytes)
  pub same_files : t.files ≡ s.files
  pub same_policy : t.worker_policy ≡ s.worker_policy

module _ {V : Type 0} where
  pub get-put :
      (k j : ℕ) (v : V) (m : List (ℕ × V))
      → get j (put k v m) ≡ (if k == j then some v else get j m)
  get-put k j v [] = refl
  get-put k j v ((i, w) ∷ m) = ground (arith, get-put k j v m)

check_quota_sound :
    (policy : Option StoragePolicy) (growing : Bool) (o : Option ℕ)
    → check_quota policy growing o ≡ ok tt
    → (used : ℕ) × (o ≡ some used)
      × (growing ≡ true
          → (p : StoragePolicy) (q : ℕ) → policy ≡ some p
          → p.quota_bytes ≡ some q
          → used ≤ q)
check_quota_sound policy growing none h = cc
check_quota_sound policy growing (some used) h = (used, refl, λ g p q e f. ground arith)

put-Reserved :
    (key bytes : ℕ) (r : Reservation) (s : Protection)
    → r.bytes ≡ bytes
    → Reserved key bytes s (record s { reservations = put key r s.reservations })
put-Reserved key bytes r s e = record {
  rest = λ other ne. get-put key other r s.reservations ∙ ground arith;
  stored = (r, get-put key key r s.reservations ∙ ground arith, e);
  same_files = refl;
  same_policy = refl;
}

-- A reservation that is new or grows is stored only if the usage with it is known and does not
-- exceed the Worker's quota; it changes no other reservation, no observed file and no policy.
pub reserve-within_quota :
    (key id bytes : ℕ) (paths : List FilePath) (s t : Protection)
    → reserve key id bytes paths s ≡ ok t
    → Reserved key bytes s t
      × ((used : ℕ) × (usage t ≡ some used)
          × (grows bytes (get key s.reservations) ≡ true
              → (p : StoragePolicy) (q : ℕ) → s.worker_policy ≡ some p
              → p.quota_bytes ≡ some q
              → used ≤ q))
unfolding reserve usage
reserve-within_quota key id bytes paths s t h =
    let asked = map (canonical_path s.root_aliases) paths in
    let current = get key s.reservations in
    let next : Reservation = record { bytes = bytes; paths = add_paths (paths_of current) asked } in
    let after = put key next s.reservations in
    let (_, _, h1) =
      bind_inversion
        (throw_if (ltb max_safe_integer bytes || not (within_roots s.roots asked)) invalid) _ h in
    let (_, _, h2) = bind_inversion (admit_new current id s) _ h1 in
    let (_, checked, h3) =
      bind_inversion (check_quota s.worker_policy (grows bytes current) (usage_of after s.files)) _
        h2 in
    subst
      (λ u.
        Reserved key bytes s u
        × ((used : ℕ) × (usage u ≡ some used)
            × (grows bytes current ≡ true
                → (p : StoragePolicy) (q : ℕ) → s.worker_policy ≡ some p
                → p.quota_bytes ≡ some q
                → used ≤ q)))
      (ok-injective h3)
      (
        put-Reserved key bytes next s refl,
        check_quota_sound s.worker_policy (grows bytes current) (usage_of after s.files) checked,
      )

-- Concurrent transfers cannot spend the same capacity: once a reservation that is new or grows
-- is stored under a quota below the cap, all reserved bytes together, and all observed bytes, fit it.
pub reserve-reserved_le :
    (key id bytes q : ℕ) (paths : List FilePath) (s t : Protection) (p : StoragePolicy) (fs : Files)
    → reserve key id bytes paths s ≡ ok t
    → grows bytes (get key s.reservations) ≡ true
    → s.files ≡ some fs
    → s.worker_policy ≡ some p
    → p.quota_bytes ≡ some q
    → q < max_safe_integer
    → (reserved_bytes t.reservations ≤ q) × (total fs ≤ q)
unfolding usage usage_of
reserve-reserved_le key id bytes q paths s t p fs h g f w e small =
    let (kept, fits) = reserve-within_quota key id bytes paths s t h in
    let (used, known, bounded) = fits in
    let within = bounded g p q w e in
    let bounds = count_reservations_bounds t.reservations fs in
    let same : t.files ≡ some fs = kept.same_files ∙ f in
    let capped : min max_safe_integer (count_reservations t.reservations fs) ≡ used =
      ground (arith, known, same) in
    omega (arith, bounds, capped, within)
