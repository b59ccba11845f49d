-- ===== src/Downloads/Durable/Steps.antt =====
-- Memory and directory of WorkerRetainedDownloads: metadata, leases and `endSession`.
pub mod Disposal
use mathlib.Core.Path.{subst}
use browshare.Prelude.{
  ℕ, ◌≡◌, refl, sym, ap, ◌∙◌, Bool, true, false, ◌&&◌, ◌||◌, not, Option, none, some, List, [], ◌∷◌,
  ◌++◌, ◌==◌, leb, includes, if-cases, if-true, Outcome, ok, throw, ◌>>=◌, throw_if, is_some,
}
use browshare.Prelude.Maps.{get, put, update, remove_number, get-put, put-put}
use browshare.Storage.{FilePath}
use browshare.Downloads.{
  claimed, expired, is_available, File, DownloadRetentionPolicy, ActiveDownload, Stored, Downloads,
  Layout, schedule_at, schedule, persist, delete_bytes,
}
use browshare.Downloads.Operations.{
  DownloadError, not_found, download_busy, abort_lease, file, ended_file, end_file, end_files,
  acquire, deactivate, release_active, release_lease, finish_active,
}
use browshare.Downloads.Operations.Disposal.{
  claim_file, claim_lease, run_first, lease_of, is_finished, abort_active, expire_if, is_ended,
  delete_ended, expire_file,
}
use browshare.Downloads.Events.{or_same}
use browshare.Downloads.Durable.{IsRow, IsKept, Durable, row-of, change-Durable, retire-Durable}

abbrev pub D : Downloads → Type 0
D s = Durable s.files s.disk s.allocated

schedule_at-D :
    (o : Option ℕ) (f : File) (now : ℕ) (s : Downloads) → D s → D (schedule_at o f now s)
schedule_at-D none f now s v = v
schedule_at-D (some n) f now s v = v

-- `#persist` for a file whose bytes stay.
persist-D :
    (f g : File) (now : ℕ) (s : Downloads)
    → D s
    → get f.id s.files ≡ some f
    → g.id ≡ f.id
    → g.size ≡ f.size
    → g.status ≡ f.status
    → D (persist g now s)
unfolding persist
persist-D f g now s v e same_id same_size same_status = schedule_at-D (get g.id s.active) g now _ (
    subst
      (λ i.
        Durable (put i g s.files) (update i (λ d. record d { manifest = g }) s.disk) s.allocated)
      (sym same_id) (change-Durable v f.id f g e same_id same_size same_status))

deactivate-D : (id lease : ℕ) (s : Downloads) → D s → D (deactivate id lease s)
deactivate-D id lease s v = v

-- A file in memory stands under its own identity.
pub found-D :
    (id : ℕ) (f : File) (s : Downloads) → get id s.files ≡ some f → D s → get f.id s.files ≡ some f
found-D id f s e v = let (d, there, m, i, kept) = row-of v id f e in ap (λ k. get k s.files) i ∙ e

-- `endSession` writes the file to the memory before it persists it.
persist_again-D :
    (o : Option ℕ) (f g : File) (now : ℕ) (s : Downloads)
    → D s
    → get f.id s.files ≡ some f
    → g.id ≡ f.id
    → g.size ≡ f.size
    → g.status ≡ f.status
    → D (persist g now (schedule_at o g now (record s { files = put f.id g s.files })))
unfolding persist
persist_again-D none f g now s v e same_id same_size same_status =
    schedule_at-D (get g.id s.active) g now _ (
      subst
        (λ i.
          Durable (put i g (put f.id g s.files)) (update i (λ d. record d { manifest = g }) s.disk)
            s.allocated)
        (sym same_id)
        (subst (λ fs. Durable fs (update f.id (λ d. record d { manifest = g }) s.disk) s.allocated)
          (sym (put-put f.id g s.files))
          (change-Durable v f.id f g e same_id same_size same_status)))
persist_again-D (some n) f g now s v e same_id same_size same_status =
    schedule_at-D (get g.id s.active) g now _ (
      subst
        (λ i.
          Durable (put i g (put f.id g s.files)) (update i (λ d. record d { manifest = g }) s.disk)
            s.allocated)
        (sym same_id)
        (subst (λ fs. Durable fs (update f.id (λ d. record d { manifest = g }) s.disk) s.allocated)
          (sym (put-put f.id g s.files))
          (change-Durable v f.id f g e same_id same_size same_status)))

pub end_file-D :
    (policy : DownloadRetentionPolicy) (session at now id : ℕ) (o : Option File) (s : Downloads)
    → get id s.files ≡ o
    → D s
    → D (end_file policy session at now o s)
unfolding end_file
end_file-D policy session at now id none s e v = v
end_file-D policy session at now id (some f) s e v =
    let updated = ended_file policy at f in
    if-cases D (not (f.session_id == session) || is_some f.session_ended_at) s
      (persist updated now (schedule updated now (record s { files = put f.id updated s.files })))
      (λ h. v)
      (λ h.
        persist_again-D (get f.id s.active) f updated now s v (found-D id f s e v) refl refl refl)

pub end_files-D :
    (policy : DownloadRetentionPolicy) (session at now : ℕ) (ids : List ℕ) (s : Downloads)
    → D s
    → D (end_files policy session at now ids s)
unfolding end_files
end_files-D policy session at now [] s v = v
end_files-D policy session at now (id ∷ ids) s v =
    end_files-D policy session at now ids _
      (end_file-D policy session at now id (get id s.files) s refl v)

release_active-D :
    (lease : ℕ) (o : Option ActiveDownload) (s : Downloads) → D s → D (release_active lease o s)
release_active-D lease none s v = v
release_active-D lease (some a) s v =
    let t = record s { leases = update lease abort_lease s.leases } in
    if-cases D (is_some a.finished_at) s (deactivate a.file lease t) (λ h. v)
      (λ h. deactivate-D a.file lease t v)

pub release_lease-D : (lease : ℕ) (s : Downloads) → D s → D (release_lease lease s)
unfolding release_lease
release_lease-D lease s v = release_active-D lease (get lease s.leases) s v

pub finish_active-D :
    (lease now : ℕ) (o : Option ActiveDownload) (s : Downloads)
    → D s
    → D (finish_active lease now o s).0
unfolding finish_active
finish_active-D lease now none s v = v
finish_active-D lease now (some a) s v =
    if-cases (λ (r : Downloads × Option DownloadError). D r.0) _
      (release_lease lease s, some not_found)
      (
        record s {
          leases =
              update lease (λ b. record b { finished_at = some now; deadline = none }) s.leases;
          claims = s.claims ++ lease ∷ [];
        },
        none,
      )
      (λ h. release_lease-D lease s v) (λ h. v)

pub schedule_at-files :
    (o : Option ℕ) (f : File) (now : ℕ) (s : Downloads) → (schedule_at o f now s).files ≡ s.files
schedule_at-files none f now s = refl
schedule_at-files (some n) f now s = refl

schedule_at-allocated :
    (o : Option ℕ) (f : File) (now : ℕ) (s : Downloads)
    → (schedule_at o f now s).allocated ≡ s.allocated
schedule_at-allocated none f now s = refl
schedule_at-allocated (some n) f now s = refl

pub persist-files :
    (f : File) (now : ℕ) (s : Downloads) → (persist f now s).files ≡ put f.id f s.files
unfolding persist
persist-files f now s = schedule_at-files (get f.id s.active) f now _

persist-allocated : (f : File) (now : ℕ) (s : Downloads) → (persist f now s).allocated ≡ s.allocated
unfolding persist
persist-allocated f now s = schedule_at-allocated (get f.id s.active) f now _

kept-idle :
    (b : Bool) (f : File) (d : Stored) (kept : Bool) → IsKept b f d kept → (not b && kept) ≡ false
kept-idle true f d kept h = refl
kept-idle false f d kept h = h.1

kept-held :
    (b : Bool) (f : File) (d : Stored) (kept : Bool) → b ≡ true → IsKept b f d kept → kept ≡ true
kept-held true f d kept e h = h.1
kept-held false f d kept e h = cc

pub and-first : (a b : Bool) → (a && b) ≡ true → a ≡ true
and-first true b h = refl
and-first false b h = cc

abbrev pub Good : {A : Type 0} → (A → Downloads) → Outcome DownloadError A → Type 0
Good f (ok a) = D (f a)
Good f (throw e) = Unit

pub or_same-D :
    {A : Type 0} (f : A → Downloads) (o : Outcome DownloadError A) (s : Downloads)
    → Good f o
    → D s
    → D (or_same f o s)
or_same-D f (ok a) s good v = good
or_same-D f (throw e) s good v = v

pub bind-Good :
    {A B : Type 0} (f : B → Downloads) (first : Outcome DownloadError A)
    (rest : A → Outcome DownloadError B)
    → ((a : A) → Good f (rest a))
    → Good f (first >>= rest)
bind-Good f (ok a) rest good = good a
bind-Good f (throw e) rest good = tt

pub acquire-D :
    (id session now : ℕ) (s : Downloads) → D s → D (or_same (λ r. r.0) (acquire id session now s) s)
unfolding acquire
acquire-D id session now s v =
    or_same-D (λ (r : Downloads × ℕ). r.0) (acquire id session now s) s
      (bind-Good (λ (r : Downloads × ℕ). r.0) (file id now s) _
        (λ f.
          bind-Good (λ (r : Downloads × ℕ). r.0)
            (throw_if (not (f.session_id == session)) not_found) _
            (λ u.
              bind-Good (λ (r : Downloads × ℕ). r.0)
                (throw_if (is_some (get id s.active)) download_busy) _ (λ w. v))))
      v
