-- ===== src/Downloads/Recovery.antt =====
-- `initialize`: what a new process reads from the directory of the store.
pub mod Restart
use browshare.Prelude.{
  ℕ, Bool, true, false, Option, none, some, List, [], ◌∷◌, ◌==◌, not, same_opt, Outcome, ok, throw,
  ◌>>=◌, ◌>>◌, throw_if,
}
use browshare.Prelude.Maps.{put, add_number}
use browshare.Storage.{FilePath, Protection}
use browshare.Downloads.{is_available, File, Stored, Downloads, Layout, keep_bytes}
use browshare.Downloads.Operations.{DownloadError, failed}
use browshare.Downloads.Operations.Disposal.{expire}

-- An entry of the directory; `none` is a manifest that is not one.
pub data Entry : Type 0 where
  staging unknown : Entry
  stored : (name : ℕ) (manifest : Option File) (bytes : Option ℕ) → Entry

abbrev pub new_store : Option Protection → Downloads
new_store p = record {
  files = [];
  allocated = [];
  active = [];
  leases = [];
  reservations = [];
  claims = [];
  disk = [];
  protection = p;
}

module _ (names : Layout) where
  -- A manifest with the size of its data; the bytes of one that is not available are removed.
  unfoldable pub load_file : Bool → File → Option ℕ → Downloads → Outcome DownloadError Downloads
  unfolding keep_bytes
  load_file true f bytes s = do
    throw_if (not (same_opt bytes (some f.size))) failed
    ok (record s {
      files = put f.id f s.files;
      allocated = add_number f.id s.allocated;
      disk = put f.id (record { manifest = f; bytes = bytes }) s.disk;
      protection = keep_bytes (names.key f.id) f.size (names.data_path f.id ∷ []) s.protection;
    })
  load_file false f bytes s = ok (record s {
    files = put f.id f s.files;
    disk = put f.id (record { manifest = f; bytes = none }) s.disk;
  })

  unfoldable pub load_entry : Entry → Downloads → Outcome DownloadError Downloads
  unfolding load_file
  load_entry staging s = ok s
  load_entry unknown s = throw failed
  load_entry (stored name none bytes) s = throw failed
  load_entry (stored name (some f) bytes) s =
      throw_if (not (f.id == name)) failed >> load_file (is_available f.status) f bytes s

  unfoldable pub load : List Entry → Downloads → Outcome DownloadError Downloads
  unfolding load_entry
  load [] s = ok s
  load (e ∷ es) s = load_entry e s >>= load es

  unfoldable pub initialize :
      (FilePath → Option ℕ) → ℕ → Option Protection → List Entry → Outcome DownloadError Downloads
  unfolding load expire
  initialize lstat now p entries = load entries (new_store p) >>= λ s. ok (expire names lstat now s)
