-- ===== src/Cdp/Frames/Chunks.antt =====
-- The buffer of `#read` between two chunks of bytes.
use browshare.Prelude.{
  ℕ, suc, ◌≤◌, ◌≡◌, refl, sym, ap, ◌∙◌, true, false, List, [], ◌∷◌, ◌++◌, leb, ◌==◌, length,
  length-append, arith, Bool-cases, inl, inr,
}
use browshare.Cdp.{Codec, Core, max_message_bytes, fail, pipe_invalid_message}
use browshare.Cdp.Frames.{Bridge, with_buffer, route_frame, read_loop, read, read_all}
use browshare.Cdp.Frames.Stream.{
  ZeroFree, ZeroFree-append, feed_byte, feed, feed_closed, feed_byte-end, feed_byte-full,
  feed_byte-more, route_frame_rest, read_loop-feed,
}

-- The buffer between two reads: the start of one frame.
abbrev pub IsPartial : Bridge → Type 0
IsPartial s = ZeroFree s.buffer × length s.buffer ≤ max_message_bytes

pub with_buffer-IsPartial : (t : Core) → IsPartial (with_buffer [] t)
with_buffer-IsPartial t = elim (Bool-cases t.closed) [
  | inl h ↦ rw h ((tt, omega arith))
  | inr h ↦ rw h ((tt, omega arith))
]

unfoldable pub concat : List (List ℕ) → List ℕ
concat [] = []
concat (chunk ∷ chunks) = chunk ++ concat chunks

module _ (j : Codec) (buffered : ℕ → ℕ) where
  feed_byte-IsPartial : (b : ℕ) (s : Bridge) → IsPartial s → IsPartial (feed_byte j buffered b s)
  unfolding feed_byte
  feed_byte-IsPartial b s (free, short) = elim (Bool-cases s.core.closed) [
    | inl h ↦ rw h ((free, short))
    | inr h ↦ elim (Bool-cases (b == 0)) [
      | inl e ↦
          rw (feed_byte-end j buffered b s h e, route_frame_rest j buffered s.buffer s.core [])
            (with_buffer-IsPartial (route_frame j buffered s.buffer s.core []).core)
      | inr e ↦ elim (Bool-cases (leb max_message_bytes (length s.buffer))) [
        | inl full ↦
            rw (feed_byte-full j buffered b s h e full)
              (with_buffer-IsPartial (fail pipe_invalid_message s.core))
        | inr fits ↦ rw (feed_byte-more j buffered b s h e fits) (
            (
              ZeroFree-append j buffered s.buffer b free (ground arith),
              ground (arith, length-append s.buffer (b ∷ [])),
            ))
      ]
    ]
  ]

  feed-IsPartial : (bs : List ℕ) (s : Bridge) → IsPartial s → IsPartial (feed j buffered bs s)
  unfolding feed
  feed-IsPartial [] s h = h
  feed-IsPartial (b ∷ bs) s h =
      feed-IsPartial bs (feed_byte j buffered b s) (feed_byte-IsPartial b s h)

  pub feed-append :
      (xs bs : List ℕ) (s : Bridge)
      → feed j buffered (xs ++ bs) s ≡ feed j buffered bs (feed j buffered xs s)
  unfolding feed
  feed-append [] bs s = refl
  feed-append (a ∷ xs) bs s = feed-append xs bs (feed_byte j buffered a s)

  pub read-closed :
      (chunk : List ℕ) (s : Bridge) → s.core.closed ≡ true → read j buffered chunk s ≡ s
  unfolding read
  read-closed chunk s h = simp (h)

  pub read-open :
      (chunk : List ℕ) (s : Bridge)
      → s.core.closed ≡ false
      → read j buffered chunk s
        ≡ read_loop j buffered
            (suc (length (s.buffer ++ chunk)))
            (record s { buffer = s.buffer ++ chunk })
  unfolding read
  read-open chunk s h = simp (h)

  read-feed :
      (chunk : List ℕ) (s : Bridge)
      → IsPartial s
      → read j buffered chunk s ≡ feed j buffered chunk s
  read-feed chunk s (free, short) = elim (Bool-cases s.core.closed) [
    | inl h ↦ read-closed chunk s h ∙ sym (feed_closed j buffered chunk s h)
    | inr h ↦
        read-open chunk s h
        ∙ (read_loop-feed j buffered (suc (length (s.buffer ++ chunk))) s.core s.buffer chunk
            (omega (arith, length-append s.buffer chunk)) h free short)
  ]

  -- However the bytes of the pipe are cut into chunks, reading the chunks does what reading the bytes
  -- one at a time does, from any bridge whose buffer holds the start of one frame.
  pub read_all-feed :
      (chunks : List (List ℕ)) (s : Bridge)
      → IsPartial s
      → read_all j buffered chunks s ≡ feed j buffered (concat chunks) s
  unfolding read_all concat feed
  read_all-feed [] s h = refl
  read_all-feed (chunk ∷ chunks) s h =
      ap (λ x. read_all j buffered chunks x) (read-feed chunk s h)
      ∙ read_all-feed chunks (feed j buffered chunk s) (feed-IsPartial chunk s h)
      ∙ sym (feed-append chunk (concat chunks) s)

  -- After any reads the buffer holds no zero byte and at most `MAX_MESSAGE_BYTES` bytes, if it held no
  -- more before them.
  pub read_all-IsPartial :
      (chunks : List (List ℕ)) (s : Bridge) → IsPartial s → IsPartial (read_all j buffered chunks s)
  read_all-IsPartial chunks s h = rw (read_all-feed chunks s h) (feed-IsPartial (concat chunks) s h)
