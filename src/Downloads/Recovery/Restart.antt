-- ===== src/Downloads/Recovery/Restart.antt =====
-- A process that starts on the directory that another one left.
use mathlib.Core.Path.{subst}
use browshare.Prelude.{
  ℕ, ◌≡◌, refl, sym, ap, ◌∙◌, inl, inr, Bool, true, false, ◌&&◌, ◌||◌, not, Option, none, some,
  List, [], ◌∷◌, ◌==◌, includes, arith, Bool-cases, ok, same_opt, same_opt_iff, All, ◌>>=◌, ◌>>◌,
  throw_if,
}
use browshare.Prelude.Maps.{
  get, put, add_number, Unique, get-put, get-put_other, includes-add, All-found,
}
use browshare.Storage.{FilePath, Protection}
use browshare.Downloads.{
  is_available, DownloadRetentionPolicy, File, Stored, Downloads, Layout, keep_bytes,
}
use browshare.Downloads.Operations.{failed}
use browshare.Downloads.Operations.Disposal.{expire}
use browshare.Downloads.Events.{Event, run}
use browshare.Downloads.Durable.Runs.{run-Durable}
use browshare.Downloads.Durable.{IsRow, IsKept, Durable}
use browshare.Downloads.Recovery.{Entry, stored, new_store, load_file, load, initialize}

-- The entries of the directory.
abbrev pub entries : List (ℕ × Stored) → List Entry
entries [] = []
entries ((name, d) ∷ m) = stored name (some d.manifest) d.bytes ∷ entries m

abbrev HasBytes : Bool → Stored → Type 0
HasBytes true d = d.bytes ≡ some d.manifest.size
HasBytes false d = d.bytes ≡ none

-- An entry that can be loaded.
abbrev IsGood : ℕ × Stored → Type 0
IsGood (name, d) = (d.manifest.id ≡ name) × HasBytes (is_available d.manifest.status) d

-- What the memory has of an identity after the rest of the directory is loaded.
abbrev file_after : Option Stored → Option File → Option File
file_after none before = before
file_after (some d) before = some d.manifest

abbrev kept_after : Option Stored → Bool → Bool
kept_after none before = before
kept_after (some d) before = is_available d.manifest.status || before

record Loaded (m : List (ℕ × Stored)) (s t : Downloads) : Type 0 where
  files : (id : ℕ) → get id t.files ≡ file_after (get id m) (get id s.files)
  kept : (id : ℕ) → includes t.allocated id ≡ kept_after (get id m) (includes s.allocated id)

files_step :
    (name : ℕ) (d : Stored) (m : List (ℕ × Stored)) (fs : List (ℕ × File)) (id : ℕ)
    → get name m ≡ none
    → d.manifest.id ≡ name
    → file_after (get id m) (get id (put d.manifest.id d.manifest fs))
      ≡ file_after (get id ((name, d) ∷ m)) (get id fs)
files_step name d m fs id first named = elim (Bool-cases (name == id)) [
  | inl e ↦
      let same : name ≡ id = ground arith in
      let absent : get id m ≡ none = ap (λ k. get k m) (sym same) ∙ first in
      rw (e, absent)
        (ap (λ k. get k (put d.manifest.id d.manifest fs)) (sym same ∙ sym named)
          ∙ get-put d.manifest.id d.manifest fs)
  | inr e ↦
      let other : (id == d.manifest.id) ≡ false = ground arith in
      rw e (ap (λ o. file_after (get id m) o) (get-put_other d.manifest.id id d.manifest fs other))
]

and_true : (a : Bool) → (a && true) ≡ a
and_true true = refl
and_true false = refl

and_false : (a : Bool) → (a && false) ≡ false
and_false true = refl
and_false false = refl

kept_step :
    (name : ℕ) (d : Stored) (m : List (ℕ × Stored)) (before : Bool) (id : ℕ)
    → get name m ≡ none
    → d.manifest.id ≡ name
    → kept_after (get id m) ((is_available d.manifest.status && (d.manifest.id == id)) || before)
      ≡ kept_after (get id ((name, d) ∷ m)) before
kept_step name d m before id first named = elim (Bool-cases (name == id)) [
  | inl e ↦
      let same : name ≡ id = ground arith in
      let absent : get id m ≡ none = ap (λ k. get k m) (sym same) ∙ first in
      let here : (d.manifest.id == id) ≡ true = ground arith in
      rw (e, absent, here) (ap (λ a. a || before) (and_true (is_available d.manifest.status)))
  | inr e ↦
      let other : (d.manifest.id == id) ≡ false = ground arith in
      rw (e, other)
        (ap (λ a. kept_after (get id m) (a || before)) (and_false (is_available d.manifest.status)))
]

module _ (names : Layout) where
  -- One entry.
  record After (d : Stored) (s t : Downloads) : Type 0 where
    files : t.files ≡ put d.manifest.id d.manifest s.files
    kept :
        (id : ℕ)
        → includes t.allocated id
          ≡ ((is_available d.manifest.status && (d.manifest.id == id)) || includes s.allocated id)

  load_file-After :
      (b : Bool) (d : Stored) (s : Downloads)
      → is_available d.manifest.status ≡ b
      → HasBytes b d
      → (t : Downloads) × (load_file names b d.manifest d.bytes s ≡ ok t) × After d s t
  unfolding load_file
  load_file-After true d s up has =
      let t = record s {
        files = put d.manifest.id d.manifest s.files;
        allocated = add_number d.manifest.id s.allocated;
        disk = put d.manifest.id (record { manifest = d.manifest; bytes = d.bytes }) s.disk;
        protection =
            keep_bytes (names.key d.manifest.id) d.manifest.size
              (names.data_path d.manifest.id ∷ []) s.protection;
      } in
      let there : same_opt d.bytes (some d.manifest.size) ≡ true =
        (same_opt_iff d.bytes (some d.manifest.size)).1 has in
      (
        t,
        ap (λ b. throw_if (not b) failed >> ok t) there,
        record {
          files = refl;
          kept = λ id.
              includes-add d.manifest.id id s.allocated
              ∙ ap (λ b. (b && (d.manifest.id == id)) || includes s.allocated id) (sym up);
        },
      )
  load_file-After false d s up has = (
    record s {
      files = put d.manifest.id d.manifest s.files;
      disk = put d.manifest.id (record { manifest = d.manifest; bytes = none }) s.disk;
    },
    refl,
    record {
      files = refl;
      kept = λ id. ap (λ b. (b && (d.manifest.id == id)) || includes s.allocated id) (sym up);
    },
  )

  -- The entry, then the rest of the directory.
  After-Loaded :
      (name : ℕ) (d : Stored) (m : List (ℕ × Stored)) (s t r : Downloads)
      → get name m ≡ none
      → d.manifest.id ≡ name
      → After d s t
      → Loaded m t r
      → Loaded ((name, d) ∷ m) s r
  After-Loaded name d m s t r first named one rest = record {
    files = λ id.
        rest.files id
        ∙ ap (λ fs. file_after (get id m) (get id fs)) one.files
        ∙ files_step name d m s.files id first named;
    kept = λ id.
        rest.kept id
        ∙ ap (λ b. kept_after (get id m) b) (one.kept id)
        ∙ kept_step name d m (includes s.allocated id) id first named;
  }

  load-Loaded :
      (m : List (ℕ × Stored)) (s : Downloads)
      → Unique m
      → All IsGood m
      → (t : Downloads) × (load names (entries m) s ≡ ok t) × Loaded m s t
  unfolding load
  load-Loaded [] s u g = (s, refl, record { files = λ id. refl; kept = λ id. refl })
  load-Loaded ((name, d) ∷ m) s (first, u) ((named, has), g) =
      let same : (d.manifest.id == name) ≡ true = ground arith in
      let (t, loaded, one) = load_file-After (is_available d.manifest.status) d s refl has in
      let (r, done, rest) = load-Loaded m t u g in
      (
        r,
        ap
              (λ b.
                (throw_if (not b) failed
                  >> load_file names (is_available d.manifest.status) d.manifest d.bytes s)
                >>= (λ x. load names (entries m) x))
              same
            ∙ ap (λ o. o >>= (λ x. load names (entries m) x)) loaded
            ∙ done,
        After-Loaded name d m s t r first named one rest,
      )

kept-HasBytes :
    (b : Bool) (f : File) (d : Stored) (kept : Bool)
    → d.manifest ≡ f
    → IsKept b f d kept
    → HasBytes b d
kept-HasBytes true f d kept same (has, held) = has ∙ sym (ap (λ (g : File). some g.size) same)
kept-HasBytes false f d kept same (has, held) = has

kept-held :
    (b : Bool) (f : File) (d : Stored) (kept : Bool) → IsKept b f d kept → (b || false) ≡ kept
kept-held true f d kept (has, held) = sym held
kept-held false f d kept (has, held) = sym held

row-good :
    (name : ℕ) (o : Option File) (d : Stored) (kept : Bool)
    → IsRow name o (some d) kept
    → (d.manifest.id ≡ name) × HasBytes (is_available d.manifest.status) d
row-good name none d kept h = absurd h
row-good name (some f) d kept (same, named, bytes) = (
  ap (λ (g : File). g.id) same ∙ named,
  subst (λ b. HasBytes b d) (sym (ap (λ (g : File). is_available g.status) same))
      (kept-HasBytes (is_available f.status) f d kept same bytes),
)

row-file :
    (name : ℕ) (o : Option File) (p : Option Stored) (kept : Bool)
    → IsRow name o p kept
    → file_after p none ≡ o
row-file name none none kept h = refl
row-file name none (some d) kept h = absurd h
row-file name (some f) none kept h = absurd h
row-file name (some f) (some d) kept (same, named, bytes) = ap some same

row-kept :
    (name : ℕ) (o : Option File) (p : Option Stored) (kept : Bool)
    → IsRow name o p kept
    → kept_after p false ≡ kept
row-kept name none none kept h = sym h
row-kept name none (some d) kept h = absurd h
row-kept name (some f) none kept h = absurd h
row-kept name (some f) (some d) kept (same, named, bytes) =
    ap (λ (g : File). is_available g.status || false) same
    ∙ kept-held (is_available f.status) f d kept bytes

disk-IsGood :
    (files : List (ℕ × File)) (disk : List (ℕ × Stored)) (allocated : List ℕ)
    → Durable files disk allocated
    → All IsGood disk
disk-IsGood files disk allocated v = All-found IsGood disk v.disk_unique (λ name d found.
    row-good name (get name files) d (includes allocated name)
      (subst (λ o. IsRow name (get name files) o (includes allocated name)) found (v.rows name)))

-- When a process ends after any operations of a store and another one starts on its directory, that
-- one accepts every entry: before its first expiry it has exactly the files that the first one had,
-- with the same metadata, and has allocated the bytes of exactly the same ones.
pub initialize-run :
    (names : Layout) (policy : DownloadRetentionPolicy) (p q : Option Protection) (es : List Event)
    (lstat : FilePath → Option ℕ) (now : ℕ)
    → let s = run names policy es (new_store p) in
      (t : Downloads) × (initialize names lstat now q (entries s.disk)
        ≡ ok (expire names lstat now t))
      × ((id : ℕ) → get id t.files ≡ get id s.files)
      × ((id : ℕ) → includes t.allocated id ≡ includes s.allocated id)
unfolding initialize
initialize-run names policy p q es lstat now =
    let s = run names policy es (new_store p) in
    let v = run-Durable names policy p es in
    let (t, loaded, same) =
      load-Loaded names s.disk (new_store q) v.disk_unique
        (disk-IsGood s.files s.disk s.allocated v) in
    (
      t,
      ap (λ o. o >>= (λ x. ok (expire names lstat now x))) loaded,
      λ id.
          same.files id
          ∙ row-file id (get id s.files) (get id s.disk) (includes s.allocated id) (v.rows id),
      λ id.
          same.kept id
          ∙ row-kept id (get id s.files) (get id s.disk) (includes s.allocated id) (v.rows id),
    )
