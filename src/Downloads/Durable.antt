-- ===== src/Downloads/Durable.antt =====
-- The memory of WorkerRetainedDownloads beside its directory, and changes of both.
use mathlib.Core.Path.{subst}
use browshare.Prelude.{
  ℕ, suc, ◌+◌, ◌≡◌, refl, sym, ap, ◌∙◌, inl, inr, Bool, true, false, ◌&&◌, ◌||◌, not, Option, none,
  some, List, [], ◌∷◌, ◌++◌, ◌==◌, if◌then◌else◌, includes, arith, Bool-cases, Option-cases,
}
use browshare.Prelude.Maps.{
  get, put, delete, update, add_number, remove_number, Unique, get-put, get-put_other, get-delete,
  get-delete_other, get-update, get-update_other, Unique-put, Unique-delete, Unique-update,
  includes-add, includes-remove,
}
use browshare.Downloads.{FileStatus, is_available, File, Stored}
pub mod Steps
pub mod Runs

-- The bytes of a download are kept exactly as long as it is available.
abbrev pub IsKept : Bool → File → Stored → Bool → Type 0
IsKept true f d kept = (d.bytes ≡ some f.size) × (kept ≡ true)
IsKept false f d kept = (d.bytes ≡ none) × (kept ≡ false)

-- One identity: its file in memory, its directory, and whether it is in `#allocated`.
abbrev pub IsRow : ℕ → Option File → Option Stored → Bool → Type 0
IsRow id none none kept = kept ≡ false
IsRow id (some f) (some d) kept =
    (d.manifest ≡ f) × (f.id ≡ id) × IsKept (is_available f.status) f d kept
IsRow id _ _ kept = ⊥

pub record Durable (files : List (ℕ × File)) (disk : List (ℕ × Stored)) (allocated : List ℕ)
    : Type 0 where
  pub rows : (id : ℕ) → IsRow id (get id files) (get id disk) (includes allocated id)
  pub files_unique : Unique files
  pub disk_unique : Unique disk

-- The directory of a file that is there.
pub row-disk :
    (id : ℕ) (f : File) (o : Option Stored) (kept : Bool)
    → IsRow id (some f) o kept
    → (d : Stored) × (o ≡ some d)
      × (d.manifest ≡ f)
      × (f.id ≡ id)
      × IsKept (is_available f.status) f d kept
row-disk id f none kept h = absurd h
row-disk id f (some d) kept (m, i, k) = (d, refl, m, i, k)

IsKept-size :
    (f g : File) (d : Stored) (kept b : Bool)
    → g.size ≡ f.size
    → IsKept b f d kept
    → IsKept b g (record d { manifest = g }) kept
IsKept-size f g d kept true same (e, k) = (e ∙ sym (ap some same), k)
IsKept-size f g d kept false same h = h

IsKept-same :
    (f g : File) (d : Stored) (kept : Bool)
    → g.size ≡ f.size
    → g.status ≡ f.status
    → IsKept (is_available f.status) f d kept
    → IsKept (is_available g.status) g (record d { manifest = g }) kept
IsKept-same f g d kept same_size same_status h =
    subst (λ b. IsKept b g (record d { manifest = g }) kept) (sym (ap is_available same_status))
      (IsKept-size f g d kept (is_available f.status) same_size h)

IsRow-same :
    (k : ℕ) (o o2 : Option File) (p p2 : Option Stored) (b b2 : Bool)
    → o2 ≡ o
    → p2 ≡ p
    → b2 ≡ b
    → IsRow k o p b
    → IsRow k o2 p2 b2
IsRow-same k o o2 p p2 b b2 eo ep eb h =
    subst (λ x. IsRow k x p2 b2) (sym eo)
      (subst (λ x. IsRow k o x b2) (sym ep) (subst (λ x. IsRow k o p x) (sym eb) h))

other-add :
    (id k : ℕ) (ns : List ℕ) → (k == id) ≡ false → includes (add_number id ns) k ≡ includes ns k
other-add id k ns e =
    let other : (id == k) ≡ false = ground arith in includes-add id k ns ∙ rw other refl

other-remove :
    (id k : ℕ) (ns : List ℕ) → (k == id) ≡ false → includes (remove_number id ns) k ≡ includes ns k
other-remove id k ns e =
    let other : (id == k) ≡ false = ground arith in includes-remove id k ns ∙ rw other refl

self-remove : (id : ℕ) (ns : List ℕ) → includes (remove_number id ns) id ≡ false
self-remove id ns =
    let same : (id == id) ≡ true = ground arith in includes-remove id id ns ∙ rw same refl

self-add : (id : ℕ) (ns : List ℕ) → includes (add_number id ns) id ≡ true
self-add id ns = let same : (id == id) ≡ true = ground arith in includes-add id id ns ∙ rw same refl

module _ {files : List (ℕ × File)} {disk : List (ℕ × Stored)} {allocated : List ℕ}
    (v : Durable files disk allocated) where
  pub row-of :
      (id : ℕ) (f : File)
      → get id files ≡ some f
      → (d : Stored) × (get id disk ≡ some d)
        × (d.manifest ≡ f)
        × (f.id ≡ id)
        × IsKept (is_available f.status) f d (includes allocated id)
  row-of id f e =
      row-disk id f (get id disk) (includes allocated id)
        (subst (λ o. IsRow id o (get id disk) (includes allocated id)) e (v.rows id))

  -- A change at one identity.
  rows-changed :
      (id : ℕ) (fs : List (ℕ × File)) (ds : List (ℕ × Stored)) (ns : List ℕ)
      → IsRow id (get id fs) (get id ds) (includes ns id)
      → ((k : ℕ) → (k == id) ≡ false → get k fs ≡ get k files)
      → ((k : ℕ) → (k == id) ≡ false → get k ds ≡ get k disk)
      → ((k : ℕ) → (k == id) ≡ false → includes ns k ≡ includes allocated k)
      → (k : ℕ) → IsRow k (get k fs) (get k ds) (includes ns k)
  rows-changed id fs ds ns here f_else d_else n_else k = elim (Bool-cases (k == id)) [
    | inl e ↦
        let same : id ≡ k = ground arith in
        subst (λ i. IsRow i (get i fs) (get i ds) (includes ns i)) same here
    | inr e ↦ IsRow-same k _ _ _ _ _ _ (f_else k e) (d_else k e) (n_else k e) (v.rows k)
  ]

  -- New metadata for a file whose bytes stay.
  pub change-Durable :
      (id : ℕ) (f g : File)
      → get id files ≡ some f
      → g.id ≡ f.id
      → g.size ≡ f.size
      → g.status ≡ f.status
      → Durable (put id g files) (update id (λ d. record d { manifest = g }) disk) allocated
  change-Durable id f g e same_id same_size same_status = record {
    rows =
        let (d, there, m, i, kept) = row-of id f e in
        rows-changed id (put id g files) (update id (λ x. record x { manifest = g }) disk) allocated
          (IsRow-same id (some g) _ (some (record d { manifest = g })) _ (includes allocated id) _
            (get-put id g files) (get-update id (λ x. record x { manifest = g }) d disk there) refl
            (
              refl,
              same_id ∙ i,
              IsKept-same f g d (includes allocated id) same_size same_status kept,
            ))
          (λ k ne. get-put_other id k g files ne)
          (λ k ne. get-update_other id k (λ x. record x { manifest = g }) disk ne) (λ k ne. refl);
    files_unique = Unique-put id g files v.files_unique;
    disk_unique = Unique-update id (λ d. record d { manifest = g }) disk v.disk_unique;
  }

  -- A file that is no longer available, and whose bytes are deleted.
  pub retire-Durable :
      (id : ℕ) (f g : File)
      → get id files ≡ some f
      → g.id ≡ f.id
      → is_available g.status ≡ false
      → Durable
          (put id g files)
          (update id
            (λ d. record d { bytes = none })
            (update id (λ d. record d { manifest = g }) disk))
          (remove_number id allocated)
  retire-Durable id f g e same_id ended = record {
    rows =
        let (d, there, m, i, kept) = row-of id f e in
        let named = λ (x : Stored). record x { manifest = g } in
        let emptied = λ (x : Stored). record x { bytes = none } in
        rows-changed id (put id g files) (update id emptied (update id named disk))
          (remove_number id allocated)
          (IsRow-same id (some g) _ (some (record { manifest = g; bytes = none })) _ false _
            (get-put id g files)
            (get-update id emptied (named d) (update id named disk)
              (get-update id named d disk there))
            (self-remove id allocated)
            (
              refl,
              same_id ∙ i,
              subst (λ b. IsKept b g (record { manifest = g; bytes = none }) false) (sym ended)
                  (refl, refl),
            ))
          (λ k ne. get-put_other id k g files ne)
          (λ k ne.
            get-update_other id k emptied (update id named disk) ne
            ∙ get-update_other id k named disk ne)
          (λ k ne. other-remove id k allocated ne);
    files_unique = Unique-put id g files v.files_unique;
    disk_unique =
        Unique-update id (λ d. record d { bytes = none })
          (update id (λ d. record d { manifest = g }) disk)
          (Unique-update id (λ d. record d { manifest = g }) disk v.disk_unique);
  }

  pub add-Durable :
      (f : File)
      → is_available f.status ≡ true
      → Durable
          (put f.id f files)
          (put f.id (record { manifest = f; bytes = some f.size }) disk)
          (add_number f.id allocated)
  add-Durable f kept = record {
    rows =
        let stored : Stored = record { manifest = f; bytes = some f.size } in
        rows-changed f.id (put f.id f files) (put f.id stored disk) (add_number f.id allocated)
          (IsRow-same f.id (some f) _ (some stored) _ true _ (get-put f.id f files)
            (get-put f.id stored disk) (self-add f.id allocated)
            (refl, refl, subst (λ b. IsKept b f stored true) (sym kept) (refl, refl)))
          (λ k ne. get-put_other f.id k f files ne) (λ k ne. get-put_other f.id k stored disk ne)
          (λ k ne. other-add f.id k allocated ne);
    files_unique = Unique-put f.id f files v.files_unique;
    disk_unique = Unique-put f.id (record { manifest = f; bytes = some f.size }) disk v.disk_unique;
  }

  pub remove-Durable :
      (id : ℕ) → Durable (delete id files) (delete id disk) (remove_number id allocated)
  remove-Durable id = record {
    rows =
        rows-changed id (delete id files) (delete id disk) (remove_number id allocated)
          (IsRow-same id none _ none _ false _ (get-delete id files v.files_unique)
            (get-delete id disk v.disk_unique) (self-remove id allocated) refl)
          (λ k ne. get-delete_other id k files ne) (λ k ne. get-delete_other id k disk ne)
          (λ k ne. other-remove id k allocated ne);
    files_unique = Unique-delete id files v.files_unique;
    disk_unique = Unique-delete id disk v.disk_unique;
  }
