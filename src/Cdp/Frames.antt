-- ===== src/Cdp/Frames.antt =====
-- The frames of the pipe from Chrome: `#read`. A frame ends with a zero byte; `indexOf(0)` looks
-- through the buffer from its start.
pub mod Stream
pub mod Chunks
pub mod Messages
pub mod Loop
use browshare.Prelude.{
  ℕ, zero, suc, ◌+◌, Bool, true, false, Option, none, some, List, [], ◌∷◌, ◌++◌, leb, ltb, ◌==◌,
  if◌then◌else◌, length,
}
use browshare.Cdp.{Message, Codec, Code, pipe_invalid_message, Core, max_message_bytes, fail}
use browshare.Cdp.Operations.{route}

-- The bridge with its read buffer, which `close` empties.
pub record Bridge : Type 0 where
  pub buffer : List ℕ
  pub core : Core

abbrev pub with_buffer : List ℕ → Core → Bridge
with_buffer bytes s = record { buffer = if s.closed then [] else bytes; core = s }

-- The bytes before the first zero and those after it; `before` was looked through already.
pub cut : List ℕ → List ℕ → Option (List ℕ × List ℕ)
cut before [] = none
cut before (b ∷ bs) = if b == 0 then some (before, bs) else cut (before ++ b ∷ []) bs

-- The `catch` of `#read`.
abbrev pub fail_read : Core → Bridge
fail_read s = with_buffer [] (fail pipe_invalid_message s)

module _ (j : Codec) (buffered : ℕ → ℕ) where
  abbrev pub routed : Core → Option Core → List ℕ → Bridge
  routed s none rest = fail_read s
  routed s (some t) rest = with_buffer rest t

  unfoldable pub route_parsed : Option Message → Core → List ℕ → Bridge
  unfolding route
  route_parsed none s rest = fail_read s
  route_parsed (some m) s rest = routed s (route j buffered m s) rest

  -- One frame, with the bytes that follow it. An empty frame is passed over.
  unfoldable pub route_frame : List ℕ → Core → List ℕ → Bridge
  route_frame [] s rest = with_buffer rest s
  route_frame (b ∷ bs) s rest = route_parsed (j.parse (b ∷ bs)) s rest

  -- `while (true)`; every round that does not return takes a byte from the buffer.
  unfoldable pub read_loop : ℕ → Bridge → Bridge
  unfolding cut route_frame
  read_loop zero s = s
  read_loop (suc fuel) s = elim (cut [] s.buffer) [
    | none ↦ if ltb max_message_bytes (length s.buffer) then fail_read s.core else s
    | some (frame, rest) ↦ elim (ltb max_message_bytes (length frame)) [
      | true ↦ fail_read s.core
      | false ↦ read_loop fuel (route_frame frame s.core rest)
    ]
  ]

  -- `#read`, with fuel for a round at each byte and one more.
  unfoldable pub read : List ℕ → Bridge → Bridge
  unfolding read_loop
  read chunk s =
      if s.core.closed
      then s
      else let bytes = s.buffer ++ chunk in
        read_loop (suc (length bytes)) (record s { buffer = bytes })

  unfoldable pub read_all : List (List ℕ) → Bridge → Bridge
  unfolding read
  read_all [] s = s
  read_all (chunk ∷ chunks) s = read_all chunks (read chunk s)
