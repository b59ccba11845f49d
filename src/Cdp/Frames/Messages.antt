-- ===== src/Cdp/Frames/Messages.antt =====
-- Messages that the pipe from Chrome carries, as whole frames.
use mathlib.Core.List.{append-nil, append_assoc}
use browshare.Prelude.{
  ℕ, ◌≤◌, ◌<◌, ◌≡◌, refl, sym, ap, ◌∙◌, true, false, some, List, [], ◌∷◌, ◌++◌, if◌then◌else◌,
  length, length-append, arith, All, Bool-cases, inl, inr,
}
use browshare.Cdp.{Message, Codec, Core, max_message_bytes}
use browshare.Cdp.Operations.{frame, route}
use browshare.Cdp.Frames.{with_buffer, routed, route_parsed, route_frame, read_all}
use browshare.Cdp.Frames.Stream.{
  ZeroFree, with_buffer-open, feed_byte, feed, feed_closed, feed_byte-end, feed_byte-more,
  routed_rest,
}
use browshare.Cdp.Frames.Chunks.{concat, with_buffer-IsPartial, feed-append, read_all-feed}

-- What JSON text of a message is like: it is not empty, has no zero byte and can be read back. It is
-- within the bound on a frame.
abbrev pub IsReadable : Codec → Message → Type 0
IsReadable j m =
    ZeroFree (j.encode m)
    × 0 < length (j.encode m)
    × length (j.encode m) ≤ max_message_bytes
    × j.parse (j.encode m) ≡ some m

module _ (j : Codec) (buffered : ℕ → ℕ) where
  unfoldable pub frames : List Message → List ℕ
  frames [] = []
  frames (m ∷ ms) = frame j buffered m ++ frames ms

  -- The messages one after another, until the bridge closes.
  unfoldable pub route_all : List Message → Core → Core
  route_all [] s = s
  route_all (m ∷ ms) s =
      if s.closed then s else route_all ms (routed j buffered s (route j buffered m s) []).core

  feed-text :
      (bs before : List ℕ) (s : Core)
      → s.closed ≡ false
      → ZeroFree bs
      → length (before ++ bs) ≤ max_message_bytes
      → feed j buffered bs (record { buffer = before; core = s })
        ≡ record { buffer = before ++ bs; core = s }
  unfolding feed
  feed-text [] before s alive free short =
      ap (λ x. record { buffer = x; core = s }) (sym (append-nil before))
  feed-text (b ∷ bs) before s alive (ne, free) short =
      let counted = length-append before (b ∷ bs) in
      ap (λ x. feed j buffered bs x)
        (feed_byte-more j buffered b (record { buffer = before; core = s }) alive (ground arith)
          (ground (arith, counted)))
      ∙ feed-text bs (before ++ b ∷ []) s alive free (rw (append_assoc before (b ∷ []) bs) short)
      ∙ ap (λ x. record { buffer = x; core = s }) (append_assoc before (b ∷ []) bs)

  route_frame-text :
      (bs : List ℕ) (m : Message) (s : Core)
      → 0 < length bs
      → j.parse bs ≡ some m
      → route_frame j buffered bs s [] ≡ routed j buffered s (route j buffered m s) []
  unfolding route_frame route_parsed
  route_frame-text [] m s some_byte e = absurd (omega arith)
  route_frame-text (b ∷ bs) m s some_byte e = rw e refl

  feed-frame :
      (m : Message) (s : Core)
      → s.closed ≡ false
      → IsReadable j m
      → feed j buffered (frame j buffered m) (record { buffer = []; core = s })
        ≡ routed j buffered s (route j buffered m s) []
  unfolding feed
  feed-frame m s alive (free, some_byte, short, e) =
      feed-append j buffered (j.encode m) (0 ∷ []) (record { buffer = []; core = s })
      ∙ ap (λ x. feed_byte j buffered 0 x) (feed-text (j.encode m) [] s alive free short)
      ∙ feed_byte-end j buffered 0 (record { buffer = j.encode m; core = s }) alive refl
      ∙ route_frame-text (j.encode m) m s some_byte e

  route_all-closed :
      (m : Message) (ms : List Message) (s : Core) → s.closed ≡ true → route_all (m ∷ ms) s ≡ s
  unfolding route_all
  route_all-closed m ms s h = simp (h)

  route_all-open :
      (m : Message) (ms : List Message) (s : Core)
      → s.closed ≡ false
      → route_all (m ∷ ms) s ≡ route_all ms (routed j buffered s (route j buffered m s) []).core
  unfolding route_all
  route_all-open m ms s h = rw h refl

  feed-frames :
      (ms : List Message) (s : Core)
      → All (IsReadable j) ms
      → feed j buffered (frames ms) (with_buffer [] s) ≡ with_buffer [] (route_all ms s)
  unfolding feed frames route_all
  feed-frames [] s h = refl
  feed-frames (m ∷ ms) s (first, rest) = elim (Bool-cases s.closed) [
    | inl h ↦
        feed_closed j buffered (frames (m ∷ ms)) (with_buffer [] s) h
        ∙ sym (ap (λ x. with_buffer [] x) (route_all-closed m ms s h))
    | inr h ↦
        let t = (routed j buffered s (route j buffered m s) []).core in
        ap (λ x. feed j buffered (frames (m ∷ ms)) x) (with_buffer-open s [] h)
        ∙ feed-append j buffered (frame j buffered m) (frames ms) (record { buffer = []; core = s })
        ∙ ap (λ x. feed j buffered (frames ms) x)
            (feed-frame m s h first ∙ routed_rest j buffered s (route j buffered m s) [])
        ∙ feed-frames ms t rest
        ∙ sym (ap (λ x. with_buffer [] x) (route_all-open m ms s h))
  ]

  -- When the bytes that arrive, in whatever chunks, are the frames of messages whose text is not empty,
  -- has no zero byte, is within the bound and is parsed as the message it encodes, the bridge routes
  -- exactly these messages, in their order, until it closes, and its buffer is empty again.
  pub read_all-frames :
      (ms : List Message) (chunks : List (List ℕ)) (s : Core)
      → All (IsReadable j) ms
      → concat chunks ≡ frames ms
      → read_all j buffered chunks (with_buffer [] s) ≡ with_buffer [] (route_all ms s)
  read_all-frames ms chunks s h e =
      read_all-feed j buffered chunks (with_buffer [] s) (with_buffer-IsPartial s)
      ∙ ap (λ x. feed j buffered x (with_buffer [] s)) e
      ∙ feed-frames ms s h
