-- ===== src/Downloads/Budget.antt =====
-- The quota of a Session, which its downloads share with its uploads: `reserve` of the sink.
use mathlib.Core.Path.{subst}
use browshare.Prelude.{
  ℕ, ◌+◌, ◌-◌, ◌≤◌, ◌≡◌, inl, inr, Bool, true, false, ◌||◌, not, List, [], ◌∷◌, ◌==◌, ltb, arith,
  Bool-cases, ok, throw_if, throw_if-ok, bind_inversion, ok-injective,
}
use browshare.Storage.{max_safe_integer}
use browshare.Downloads.{DownloadReservation, Downloads, Layout}
use browshare.Downloads.Operations.{
  bad_request, file_limit_exceeded, is_for, find_reservation, put_reservation, reservation_bytes,
  reserved_bytes, size_of, id_of, reserve_bytes, reserve_download,
}

put-bytes :
    (n : DownloadReservation) (rs : List DownloadReservation)
    → reservation_bytes n.session_id (put_reservation n rs)
        + size_of (find_reservation n.session_id n.download_id rs)
      ≡ reservation_bytes n.session_id rs + n.size
put-bytes n [] =
    let own : (n.session_id == n.session_id) ≡ true = ground arith in rw own (omega arith)
put-bytes n (r ∷ rs) = elim (Bool-cases (is_for n.session_id n.download_id r)) [
  | inl e ↦
      let own : (n.session_id == n.session_id) ≡ true = ground arith in
      let its : (r.session_id == n.session_id) ≡ true = ground arith in
      rw (e, own, its) (omega arith)
  | inr e ↦ rw e (omega (arith, put-bytes n rs))
]

or-second : (a b : Bool) → (a || b) ≡ false → b ≡ false
or-second true b h = cc
or-second false b h = h

within : (a b : ℕ) → ltb a b ≡ false → b ≤ a
within a b h = ground arith

module _ (names : Layout) where
  -- When a Session's download is reserved, what its kept and its reserved downloads hold stays, together
  -- with its uploads, within the Session's quota.
  pub reserve_download-within_quota :
      (session max_bytes uploads profile fresh asked download size : ℕ) (s t : Downloads)
      → reserve_download names session max_bytes uploads profile fresh asked download size s ≡ ok t
      → reserved_bytes session t + uploads ≤ max_bytes
  unfolding reserve_download reserved_bytes
  reserve_download-within_quota session max_bytes uploads profile fresh asked download size s t e =
      let previous = find_reservation session download s.reservations in
      let used = reserved_bytes session s - size_of previous + size + uploads in
      let over = ltb max_safe_integer size || ltb max_bytes used in
      let (u, mine, e1) = bind_inversion (throw_if (not (asked == session)) bad_request) _ e in
      let (w, fits, e2) = bind_inversion (throw_if over file_limit_exceeded) _ e1 in
      let (p, admitted, e3) =
        bind_inversion
          (reserve_bytes names (id_of fresh previous) profile download size s.protection) _ e2 in
      let entry : DownloadReservation = record {
        id = id_of fresh previous;
        session_id = session;
        download_id = download;
        size = size;
      } in
      let below : over ≡ false = throw_if-ok file_limit_exceeded over fits in
      let room : used ≤ max_bytes =
        within max_bytes used (or-second (ltb max_safe_integer size) (ltb max_bytes used) below) in
      subst (λ (q : Downloads). reserved_bytes session q + uploads ≤ max_bytes) (ok-injective e3)
        (omega (arith, room, put-bytes entry s.reservations))
