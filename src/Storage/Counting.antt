-- ===== src/Storage/Counting.antt =====
-- What `#usage` of apps/worker/src/storage-protection.ts counts, against sums over all observed files
-- that take none of them away.
use browshare.Prelude.{
  ℕ, ◌+◌, max, min, some, ◌≡◌, refl, sym, ap, ◌∙◌, Bool, true, false, List, [], ◌∷◌, arith, ◌&&◌,
  ◌||◌, not, if◌then◌else◌, Bool-cases, inl, inr,
}
use mathlib.Core.Path.{subst}
use browshare.Storage.{
  FilePath, same_path, Reservation, Files, size_of, remove_file, total, claim, count_reservations,
  usage_of, max_safe_integer,
}
use browshare.Storage.Operations.{has_path}

abbrev pub has_file : FilePath → Files → Bool
has_file p [] = false
has_file p ((q, n) ∷ fs) = same_path q p || has_file p fs

-- The keys of a map: no path twice.
abbrev pub AreDistinct : Files → Type 0
AreDistinct [] = Unit {0}
AreDistinct ((q, n) ∷ fs) = (has_file q fs ≡ false) × AreDistinct fs

-- The bytes of the files whose path passes a test.
abbrev pub bytes_where : (FilePath → Bool) → Files → ℕ
bytes_where f [] = 0
bytes_where f ((q, n) ∷ fs) = (if f q then n else 0) + bytes_where f fs

abbrev pub is_named : List (ℕ × Reservation) → FilePath → Bool
is_named [] q = false
is_named ((k, r) ∷ rs) q = has_path q r.paths || is_named rs q

-- A reservation counts for its bytes or for those of the files that it names and none before it
-- does, whichever is more; the files that none names count for themselves.
abbrev pub counted_after : List (ℕ × Reservation) → List (ℕ × Reservation) → Files → ℕ
counted_after before [] fs = bytes_where (λ q. not (is_named before q)) fs
counted_after before ((k, r) ∷ rs) fs =
    max r.bytes (bytes_where (λ q. has_path q r.paths && not (is_named before q)) fs)
    + counted_after ((k, r) ∷ before) rs fs

abbrev pub counted : List (ℕ × Reservation) → Files → ℕ
counted rs fs = counted_after [] rs fs

same_path_eq : (p q : FilePath) → same_path p q ≡ true → p ≡ q
same_path_eq [] [] h = refl
same_path_eq [] (b ∷ q) h = cc
same_path_eq (a ∷ p) [] h = cc
same_path_eq (a ∷ p) (b ∷ q) h =
    let head : a ≡ b = ground arith in let tail : p ≡ q = same_path_eq p q (ground arith) in cc

same_path_sym : (p q : FilePath) → same_path p q ≡ same_path q p
same_path_sym [] [] = refl
same_path_sym [] (b ∷ q) = refl
same_path_sym (a ∷ p) [] = refl
same_path_sym (a ∷ p) (b ∷ q) = ground (arith, same_path_sym p q)

bytes_where_ext :
    (f g : FilePath → Bool) (fs : Files)
    → ((q : FilePath) → f q ≡ g q)
    → bytes_where f fs ≡ bytes_where g fs
bytes_where_ext f g [] e = refl
bytes_where_ext f g ((q, n) ∷ fs) e = ground (arith, e q, bytes_where_ext f g fs e)

bytes_where-true : (fs : Files) → total fs ≡ bytes_where (λ q. true) fs
bytes_where-true [] = refl
bytes_where-true ((q, n) ∷ fs) = omega (arith, bytes_where-true fs)

-- Two tests that exclude each other.
bytes_where-or :
    (f g h : FilePath → Bool) (fs : Files)
    → ((q : FilePath) → h q ≡ (f q || g q))
    → bytes_where f fs + bytes_where (λ q. g q && not (f q)) fs ≡ bytes_where h fs
bytes_where-or f g h [] e = refl
bytes_where-or f g h ((q, n) ∷ fs) e = ground (arith, e q, bytes_where-or f g h fs e)

bytes_where-absent :
    (p : FilePath) (fs : Files) → has_file p fs ≡ false → bytes_where (λ q. same_path q p) fs ≡ 0
bytes_where-absent p [] h = refl
bytes_where-absent p ((q, n) ∷ fs) h = ground (arith, bytes_where-absent p fs)

-- A test that no file of the map passes leaves the others as they are.
bytes_where-skip :
    (f : FilePath → Bool) (p : FilePath) (fs : Files)
    → has_file p fs ≡ false
    → bytes_where f fs ≡ bytes_where (λ q. f q && not (same_path q p)) fs
bytes_where-skip f p [] h = refl
bytes_where-skip f p ((q, n) ∷ fs) h = ground (arith, bytes_where-skip f p fs)

absent :
    (q p : FilePath) (fs : Files)
    → same_path q p ≡ true
    → has_file q fs ≡ false
    → has_file p fs ≡ false
absent q p fs h k = subst (λ x. has_file x fs ≡ false) (same_path_eq q p h) k

size_of-bytes_where :
    (p : FilePath) (fs : Files)
    → AreDistinct fs
    → size_of p fs ≡ bytes_where (λ q. same_path q p) fs
size_of-bytes_where p [] d = refl
size_of-bytes_where p ((q, n) ∷ fs) d = elim (Bool-cases (same_path q p)) [
  | inl h ↦ let gone = bytes_where-absent p fs (absent q p fs h d.0) in ground arith
  | inr h ↦ let rest = size_of-bytes_where p fs d.1 in ground arith
]

bytes_where-remove_file :
    (f : FilePath → Bool) (p : FilePath) (fs : Files)
    → AreDistinct fs
    → bytes_where f (remove_file p fs) ≡ bytes_where (λ q. f q && not (same_path q p)) fs
bytes_where-remove_file f p [] d = refl
bytes_where-remove_file f p ((q, n) ∷ fs) d = elim (Bool-cases (same_path q p)) [
  | inl h ↦ let left = bytes_where-skip f p fs (absent q p fs h d.0) in ground arith
  | inr h ↦ let rest = bytes_where-remove_file f p fs d.1 in ground arith
]

has_file-remove_file :
    (q p : FilePath) (fs : Files) → has_file q fs ≡ false → has_file q (remove_file p fs) ≡ false
has_file-remove_file q p [] h = refl
has_file-remove_file q p ((x, n) ∷ fs) h = ground (arith, has_file-remove_file q p fs)

remove_file-AreDistinct :
    (p : FilePath) (fs : Files) → AreDistinct fs → AreDistinct (remove_file p fs)
remove_file-AreDistinct p [] d = tt
remove_file-AreDistinct p ((q, n) ∷ fs) d = elim (Bool-cases (same_path q p)) [
  | inl h ↦ subst (λ b. AreDistinct (if b then fs else (q, n) ∷ remove_file p fs)) (sym h) d.1
  | inr h ↦
      subst (λ b. AreDistinct (if b then fs else (q, n) ∷ remove_file p fs)) (sym h)
        (has_file-remove_file q p fs d.0, remove_file-AreDistinct p fs d.1)
]

claim-AreDistinct : (ps : List FilePath) (fs : Files) → AreDistinct fs → AreDistinct (claim ps fs).1
unfolding claim
claim-AreDistinct [] fs d = d
claim-AreDistinct (p ∷ ps) fs d =
    claim-AreDistinct ps (remove_file p fs) (remove_file-AreDistinct p fs d)

-- What is claimed, and what is left.
claim-bytes_where :
    (ps : List FilePath) (fs : Files)
    → AreDistinct fs
    → (claim ps fs).0 ≡ bytes_where (λ q. has_path q ps) fs
unfolding claim
claim-bytes_where [] fs d = bytes_where_none fs
  where
    bytes_where_none : (gs : Files) → 0 ≡ bytes_where (λ q. false) gs
    bytes_where_none [] = refl
    bytes_where_none (g ∷ gs) = omega (arith, bytes_where_none gs)
claim-bytes_where (p ∷ ps) fs d =
    let rest = claim-bytes_where ps (remove_file p fs) (remove_file-AreDistinct p fs d) in
    let left = bytes_where-remove_file (λ q. has_path q ps) p fs d in
    let both =
      bytes_where-or (λ q. same_path q p) (λ q. has_path q ps) (λ q. has_path q (p ∷ ps)) fs
        (λ q. ap (λ b. b || has_path q ps) (same_path_sym p q)) in
    omega (arith, size_of-bytes_where p fs d, rest, left, both)

not-or : (a b c d : Bool) → c ≡ d → ((a && not b) && not d) ≡ (a && not (c || b))
not-or a b c d e = ground arith

left-claim :
    (f : FilePath → Bool) (ps : List FilePath) (fs : Files)
    → AreDistinct fs
    → bytes_where f (claim ps fs).1 ≡ bytes_where (λ q. f q && not (has_path q ps)) fs
unfolding claim
left-claim f [] fs d = bytes_where_ext f (λ q. f q && true) fs (λ q. ground arith)
left-claim f (p ∷ ps) fs d =
    left-claim f ps (remove_file p fs) (remove_file-AreDistinct p fs d)
    ∙ bytes_where-remove_file (λ q. f q && not (has_path q ps)) p fs d
    ∙ bytes_where_ext _ _ fs
        (λ q. not-or (f q) (has_path q ps) (same_path p q) (same_path q p) (same_path_sym p q))

count_reservations-counted_after :
    (before rs : List (ℕ × Reservation)) (left fs : Files)
    → AreDistinct left
    → ((f : FilePath → Bool)
        → bytes_where f left ≡ bytes_where (λ q. f q && not (is_named before q)) fs)
    → count_reservations rs left ≡ counted_after before rs fs
unfolding count_reservations
count_reservations-counted_after before [] left fs d taken =
    bytes_where-true left ∙ taken (λ q. true)
count_reservations-counted_after before ((k, r) ∷ rs) left fs d taken =
    let actual = claim-bytes_where r.paths left d ∙ taken (λ q. has_path q r.paths) in
    let rest =
      count_reservations-counted_after ((k, r) ∷ before) rs (claim r.paths left).1 fs
        (claim-AreDistinct r.paths left d)
        (λ f.
          left-claim f r.paths left d
          ∙ taken (λ q. f q && not (has_path q r.paths))
          ∙ bytes_where_ext _ _ fs (λ q. and-not (f q) (has_path q r.paths) (is_named before q))) in
    ground (arith, actual, rest)
  where
    and-not : (a b c : Bool) → ((a && not b) && not c) ≡ (a && not (b || c))
    and-not a b c = ground arith

count_reservations-counted :
    (rs : List (ℕ × Reservation)) (fs : Files)
    → AreDistinct fs
    → count_reservations rs fs ≡ counted rs fs
count_reservations-counted rs fs d =
    count_reservations-counted_after [] rs fs fs d
      (λ f. bytes_where_ext f (λ q. f q && true) fs (λ q. ground arith))

-- For observed files with distinct paths the usage is, capped at the largest safe integer, the sum
-- over the reservations, in order, of the bytes of each or those of the files that it names and none
-- before it does, whichever is more, and of the bytes of the files that no reservation names.
pub usage_of-counted :
    (rs : List (ℕ × Reservation)) (fs : Files)
    → AreDistinct fs
    → usage_of rs (some fs) ≡ some (min max_safe_integer (counted rs fs))
unfolding usage_of
usage_of-counted rs fs d =
    ap (λ n. some (min max_safe_integer n)) (count_reservations-counted rs fs d)
