-- ===== src/Downloads/Durable/Steps/Disposal.antt =====
-- Memory and directory of WorkerRetainedDownloads: claims and `expire`.
use mathlib.Core.Path.{subst}
use browshare.Prelude.{
  ℕ, ◌≡◌, refl, sym, ap, ◌∙◌, Bool, true, false, ◌&&◌, not, Option, none, some, List, [], ◌∷◌, leb,
  includes, if-cases, if-true,
}
use browshare.Prelude.Maps.{get, put, update, remove_number, get-put}
use browshare.Storage.{FilePath}
use browshare.Downloads.{
  claimed, expired, is_available, File, ActiveDownload, Stored, Downloads, Layout, schedule_at,
  persist, delete_bytes,
}
use browshare.Downloads.Operations.Disposal.{
  claim_file, claim_lease, run_first, lease_of, is_finished, abort_active, expire_if, is_ended,
  delete_ended, expire_file,
}
use browshare.Downloads.Durable.{IsRow, Durable, row-of, retire-Durable}
use browshare.Downloads.Durable.Steps.{
  D, deactivate-D, found-D, persist-files, persist-allocated, kept-idle, kept-held, and-first,
}

module _ (names : Layout) (lstat : FilePath → Option ℕ) where
  retired :
      (f g : File) (s : Downloads)
      → D s
      → get f.id s.files ≡ some f
      → g.id ≡ f.id
      → is_available g.status ≡ false
      → Durable
          (put g.id g s.files)
          (update f.id
            (λ d. record d { bytes = none })
            (update g.id (λ d. record d { manifest = g }) s.disk))
          (remove_number f.id s.allocated)
  retired f g s v e same_id gone =
      subst
        (λ i.
          Durable (put i g s.files)
            (update f.id (λ d. record d { bytes = none })
              (update i (λ d. record d { manifest = g }) s.disk))
            (remove_number f.id s.allocated))
        (sym same_id) (retire-Durable v f.id f g e same_id gone)

  -- A file that is no longer available is persisted, and its bytes are deleted.
  retire-D :
      (o : Option ℕ) (f g : File) (now : ℕ) (s : Downloads)
      → D s
      → get f.id s.files ≡ some f
      → g.id ≡ f.id
      → is_available g.status ≡ false
      → D (
          delete_bytes names lstat f.id (
            schedule_at o g now (record s {
              files = put g.id g s.files;
              disk = update g.id (λ d. record d { manifest = g }) s.disk;
            })))
  unfolding delete_bytes
  retire-D none f g now s v e same_id gone = retired f g s v e same_id gone
  retire-D (some n) f g now s v e same_id gone = retired f g s v e same_id gone

  delete_bytes-gone :
      (f g : File) (now : ℕ) (s : Downloads)
      → D s
      → get f.id s.files ≡ some f
      → g.id ≡ f.id
      → is_available g.status ≡ false
      → D (delete_bytes names lstat f.id (persist g now s))
  unfolding persist
  delete_bytes-gone f g now s v e same_id gone =
      retire-D (get g.id s.active) f g now s v e same_id gone

  claim_file-D :
      (lease : ℕ) (a : ActiveDownload) (now : ℕ) (o : Option File) (s : Downloads)
      → get a.file s.files ≡ o
      → D s
      → D (claim_file names lstat lease a now o s)
  unfolding claim_file
  claim_file-D lease a now none s e v = v
  claim_file-D lease a now (some f) s e v =
      let g = record f { status = claimed; claimed_at = a.finished_at } in
      let (d, there, m, i, kept) = row-of v a.file f e in
      deactivate-D a.file lease (delete_bytes names lstat a.file (persist g now s)) (
        subst (λ k. D (delete_bytes names lstat k (persist g now s))) i
          (delete_bytes-gone f g now s v (found-D a.file f s e v) refl refl))

  claim_lease-D :
      (lease now : ℕ) (o : Option ActiveDownload) (s : Downloads)
      → D s
      → D (claim_lease names lstat lease now o s)
  unfolding claim_lease
  claim_lease-D lease now none s v = v
  claim_lease-D lease now (some a) s v = claim_file-D lease a now (get a.file s.files) s refl v

  pub run_first-D :
      (now : ℕ) (ls : List ℕ) (s : Downloads) → D s → D (run_first names lstat now ls s)
  unfolding run_first
  run_first-D now [] s v = v
  run_first-D now (lease ∷ claims) s v =
      claim_lease-D lease now (get lease s.leases) (record s { claims = claims }) v

  abort_active-D : (o : Option ℕ) (s : Downloads) → D s → D (abort_active names lstat o s)
  abort_active-D none s v = v
  abort_active-D (some lease) s v = v

  row-idle :
      (id : ℕ) (o : Option File) (p : Option Stored) (b : Bool)
      → IsRow id o p b
      → (is_ended names lstat o && b) ≡ false
  row-idle id none p b h = refl
  row-idle id (some f) none b h = absurd h
  row-idle id (some f) (some d) b (m, i, kept) = kept-idle (is_available f.status) f d b kept

  delete_ended-D : (id : ℕ) (s : Downloads) → D s → D (delete_ended names lstat id s)
  unfolding delete_ended
  delete_ended-D id s v =
      let idle =
        row-idle id (get id s.files) (get id s.disk) (includes s.allocated id) (v.rows id) in
      if-cases D (is_ended names lstat (get id s.files) && includes s.allocated id)
        (delete_bytes names lstat id s) s (λ h. cc) (λ h. v)

  delete_persisted :
      (f g : File) (now : ℕ) (s : Downloads)
      → D s
      → get f.id s.files ≡ some f
      → is_available f.status ≡ true
      → g.id ≡ f.id
      → is_available g.status ≡ false
      → D (delete_ended names lstat f.id (persist g now s))
  unfolding delete_ended
  delete_persisted f g now s v e up same_id gone =
      let t = persist g now s in
      let (d, there, m, i, kept) = row-of v f.id f e in
      let held : includes t.allocated f.id ≡ true =
        ap (λ ns. includes ns f.id) (persist-allocated g now s)
        ∙ kept-held (is_available f.status) f d (includes s.allocated f.id) up kept in
      let over : is_ended names lstat (get f.id t.files) ≡ true =
        ap (λ fs. is_ended names lstat (get f.id fs)) (persist-files g now s)
        ∙ ap (λ k. is_ended names lstat (get f.id (put k g s.files))) same_id
        ∙ ap (λ o. is_ended names lstat o) (get-put f.id g s.files)
        ∙ ap not gone in
      let both : (is_ended names lstat (get f.id t.files) && includes t.allocated f.id) ≡ true =
        simp (over, held) in
      subst D (sym (if-true _ (delete_bytes names lstat f.id t) t both))
        (delete_bytes-gone f g now s v e same_id gone)

  delete_ended-gone :
      (o : Option ℕ) (f g : File) (now : ℕ) (s : Downloads)
      → D s
      → get f.id s.files ≡ some f
      → is_available f.status ≡ true
      → g.id ≡ f.id
      → is_available g.status ≡ false
      → D (delete_ended names lstat f.id (persist g now (abort_active names lstat o s)))
  unfolding delete_ended
  delete_ended-gone none f g now s v e up same_id gone =
      delete_persisted f g now s v e up same_id gone
  delete_ended-gone (some n) f g now s v e up same_id gone =
      delete_persisted f g now
        (record s { leases = update n (λ a. record a { aborted = true }) s.leases }) v e up same_id
        gone

  expired-D :
      (f : File) (now : ℕ) (s : Downloads) (due : Bool)
      → (is_available f.status && leb f.expires_at now) ≡ due
      → get f.id s.files ≡ some f
      → D s
      → D (delete_ended names lstat f.id (expire_if names lstat due f now s))
  unfolding expire_if
  expired-D f now s false h e v = delete_ended-D f.id s v
  expired-D f now s true h e v =
      delete_ended-gone (get f.id s.active) f (record f { status = expired }) now s v e
        (and-first _ _ h) refl refl

  pub expire_file-D :
      (id now : ℕ) (o : Option File) (s : Downloads)
      → get id s.files ≡ o
      → D s
      → D (expire_file names lstat now o s)
  unfolding expire_file
  expire_file-D id now none s e v = v
  expire_file-D id now (some f) s e v =
      let here = found-D id f s e v in
      let due = is_available f.status && leb f.expires_at now in
      if-cases D (is_finished names lstat (lease_of names lstat f.id s)) s
        (delete_ended names lstat f.id (expire_if names lstat due f now s)) (λ h. v)
        (λ h. expired-D f now s due refl here v)
