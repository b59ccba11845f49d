-- ===== src/Cdp/Frames/Loop.antt =====
-- The rounds of the loop of `#read`, without fuel.
use browshare.Prelude.{
  ℕ, zero, suc, ◌≤◌, ◌<◌, ◌≡◌, ap, inl, inr, false, Option, none, some, List, [], ◌∷◌, ◌++◌, ltb,
  ◌==◌, length, arith, Bool-cases, Option-cases,
}
use browshare.Cdp.{Codec, Core, max_message_bytes}
use browshare.Cdp.Frames.{Bridge, with_buffer, cut, fail_read, route_frame, read_loop, read}
use browshare.Cdp.Frames.Stream.{route_frame_rest}
use browshare.Cdp.Frames.Chunks.{read-open}

module _ (j : Codec) (buffered : ℕ → ℕ) where
  -- The rounds of `while (true)`: from the bridge at the start of a round to the bridge when the loop
  -- returns or throws.
  pub data Ends : Bridge → Bridge → Type 0 where
    returns : (s : Bridge) → cut [] s.buffer ≡ none → length s.buffer ≤ max_message_bytes → Ends s s
    throws :
        (s : Bridge)
        → cut [] s.buffer ≡ none
        → max_message_bytes < length s.buffer
        → Ends s (fail_read s.core)
    throws_at :
        (s : Bridge) (frame rest : List ℕ)
        → cut [] s.buffer ≡ some (frame, rest)
        → max_message_bytes < length frame
        → Ends s (fail_read s.core)
    goes_on :
        (s t : Bridge) (frame rest : List ℕ)
        → cut [] s.buffer ≡ some (frame, rest)
        → length frame ≤ max_message_bytes
        → Ends (route_frame j buffered frame s.core rest) t
        → Ends s t

  cut-shorter :
      (before bs frame rest : List ℕ) → cut before bs ≡ some (frame, rest) → length rest < length bs
  unfolding cut
  cut-shorter before [] frame rest h = cc
  cut-shorter before (b ∷ bs) frame rest h = elim (Bool-cases (b == 0)) [
    | inl e ↦
        let same : ◌≡◌ {A = Option (List ℕ × List ℕ)} (some (before, bs)) (some (frame, rest)) =
          rw (e, cut) at h in
        let last : bs ≡ rest = cc in omega (arith, ap length last)
    | inr e ↦
        let further : cut (before ++ b ∷ []) bs ≡ some (frame, rest) = rw e at h in
        omega (arith, cut-shorter (before ++ b ∷ []) bs frame rest further)
  ]

  with_buffer-shorter :
      (t : Core) (rest : List ℕ) → length (with_buffer rest t).buffer ≤ length rest
  with_buffer-shorter t rest = elim (Bool-cases t.closed) [
    | inl h ↦ rw h (omega arith)
    | inr h ↦ rw h (omega arith)
  ]

  route_frame-shorter :
      (f : List ℕ) (s : Core) (rest : List ℕ)
      → length (route_frame j buffered f s rest).buffer ≤ length rest
  route_frame-shorter f s rest =
      rw (route_frame_rest j buffered f s rest)
        (with_buffer-shorter (route_frame j buffered f s []).core rest)

  read_loop-Ends :
      (fuel : ℕ) (s : Bridge) → length s.buffer < fuel → Ends s (read_loop j buffered fuel s)
  unfolding read_loop
  read_loop-Ends zero s enough = absurd (omega arith)
  read_loop-Ends (suc fuel) s enough = elim (Option-cases (cut [] s.buffer)) [
    | inl e ↦ elim (Bool-cases (ltb max_message_bytes (length s.buffer))) [
      | inl long ↦ rw (e, long, read_loop) (throws s e (ground arith))
      | inr short ↦ rw (e, short, read_loop) (returns s e (ground arith))
    ]
    | inr ((f, rest), e) ↦ elim (Bool-cases (ltb max_message_bytes (length f))) [
      | inl long ↦ rw (e, long, read_loop) (throws_at s f rest e (ground arith))
      | inr short ↦
          rw (e, short, read_loop)
            (goes_on s _ f rest e (ground arith) (
              read_loop-Ends fuel (route_frame j buffered f s.core rest) (
                omega (
                  arith,
                  enough,
                  cut-shorter [] s.buffer f rest e,
                  route_frame-shorter f s.core rest,
                ))))
    ]
  ]

  -- A read of an open bridge comes to the end of its loop: what `read` returns is the bridge at the
  -- loop's own `return` or after the handler of its exception, never one where the fuel ran out.
  pub read-Ends :
      (chunk : List ℕ) (s : Bridge)
      → s.core.closed ≡ false
      → Ends (record s { buffer = s.buffer ++ chunk }) (read j buffered chunk s)
  read-Ends chunk s h = rw (read-open j buffered chunk s h) (
      read_loop-Ends (suc (length (s.buffer ++ chunk))) (record s { buffer = s.buffer ++ chunk })
        (omega arith))
