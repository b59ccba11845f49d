-- ===== src/Cdp/Frames/Stream.antt =====
-- Reading the pipe of CdpPipeBridge byte by byte, and the loop of `#read`.
use mathlib.Core.List.{append-nil, append_assoc}
use browshare.Prelude.{
  ℕ, zero, suc, ◌≤◌, ◌<◌, ◌≡◌, ◌≢◌, refl, sym, ap, ◌∙◌, inl, inr, true, false, Option, none, some,
  List, [], ◌∷◌, ◌++◌, leb, ltb, ◌==◌, if◌then◌else◌, length, length-append, arith, lt→ltb, All,
  Bool-cases, Option-cases,
}
use browshare.Cdp.{Message, Codec, Core, max_message_bytes, fail, pipe_invalid_message}
use browshare.Cdp.Operations.{frame, route}
use browshare.Cdp.Frames.{
  Bridge, with_buffer, cut, fail_read, routed, route_parsed, route_frame, read_loop,
}

abbrev pub ZeroFree : List ℕ → Type 0
ZeroFree = All (λ b. b ≢ 0)

cut-append : (before bs cs : List ℕ) → ZeroFree bs → cut before (bs ++ cs) ≡ cut (before ++ bs) cs
unfolding cut
cut-append before [] cs free = ap (λ x. cut x cs) (sym (append-nil before))
cut-append before (b ∷ bs) cs (ne, free) =
    let other : (b == 0) ≡ false = ground arith in
    rw other (
      cut-append (before ++ b ∷ []) bs cs free
      ∙ ap (λ x. cut x cs) (append_assoc before (b ∷ []) bs))

cut-length :
    (before bs frame rest : List ℕ)
    → cut before bs ≡ some (frame, rest)
    → length before ≤ length frame
unfolding cut
cut-length before [] frame rest h = cc
cut-length before (b ∷ bs) frame rest h = elim (Bool-cases (b == 0)) [
  | inl e ↦
      let same : ◌≡◌ {A = Option (List ℕ × List ℕ)} (some (before, bs)) (some (frame, rest)) =
        rw (e, cut) at h in
      let first : before ≡ frame = cc in omega (arith, ap length first)
  | inr e ↦
      let further : cut (before ++ b ∷ []) bs ≡ some (frame, rest) = rw e at h in
      omega
        (arith, length-append before (b ∷ []), cut-length (before ++ b ∷ []) bs frame rest further)
]

fail-closed : (s : Core) → (fail pipe_invalid_message s).closed ≡ true
unfolding fail
fail-closed s = ground arith

fail_read_rest : (s : Core) (rest : List ℕ) → fail_read s ≡ with_buffer rest (fail_read s).core
fail_read_rest s rest = simp (fail-closed s)

pub with_buffer-open :
    (t : Core) (cs : List ℕ)
    → t.closed ≡ false
    → with_buffer cs t ≡ record { buffer = cs; core = t }
with_buffer-open t cs h = simp (h)

with_buffer-closed :
    (t : Core) (bs cs : List ℕ) → t.closed ≡ true → with_buffer bs t ≡ with_buffer cs t
with_buffer-closed t bs cs h = simp (h)

module _ (j : Codec) (buffered : ℕ → ℕ) where
  -- One byte.
  unfoldable pub feed_byte : ℕ → Bridge → Bridge
  unfolding route_frame
  feed_byte b s =
      if s.core.closed
      then s
      else if b == 0
      then route_frame j buffered s.buffer s.core []
      else if leb max_message_bytes (length s.buffer)
      then fail_read s.core
      else record s { buffer = s.buffer ++ b ∷ [] }

  unfoldable pub feed : List ℕ → Bridge → Bridge
  unfolding feed_byte
  feed [] s = s
  feed (b ∷ bs) s = feed bs (feed_byte b s)

  pub feed_closed : (bs : List ℕ) (s : Bridge) → s.core.closed ≡ true → feed bs s ≡ s
  unfolding feed feed_byte
  feed_closed [] s h = refl
  feed_closed (b ∷ bs) s h =
      let same : feed_byte b s ≡ s = rw (h, feed_byte) in rw same (feed_closed bs s h)

  pub routed_rest :
      (s : Core) (o : Option Core) (rest : List ℕ)
      → routed j buffered s o rest ≡ with_buffer rest (routed j buffered s o []).core
  routed_rest s none rest = fail_read_rest s rest
  routed_rest s (some t) rest = refl

  parsed_rest :
      (o : Option Message) (s : Core) (rest : List ℕ)
      → route_parsed j buffered o s rest ≡ with_buffer rest (route_parsed j buffered o s []).core
  unfolding route_parsed
  parsed_rest none s rest = fail_read_rest s rest
  parsed_rest (some m) s rest = routed_rest s (route j buffered m s) rest

  pub route_frame_rest :
      (f : List ℕ) (s : Core) (rest : List ℕ)
      → route_frame j buffered f s rest ≡ with_buffer rest (route_frame j buffered f s []).core
  unfolding route_frame
  route_frame_rest [] s rest = refl
  route_frame_rest (b ∷ bs) s rest = parsed_rest (j.parse (b ∷ bs)) s rest

  read_loop_stops :
      (fuel : ℕ) (s : Core) (bytes : List ℕ)
      → s.closed ≡ true
      → read_loop j buffered fuel (with_buffer bytes s) ≡ with_buffer bytes s
  unfolding read_loop cut
  read_loop_stops zero s bytes h = refl
  read_loop_stops (suc fuel) s bytes h = simp (h)

  -- A frame that grew too long is refused, whether its end has arrived or not.
  read_loop_overflow :
      (fuel : ℕ) (s : Core) (bs cs : List ℕ)
      → ZeroFree bs
      → max_message_bytes < length bs
      → read_loop j buffered (suc fuel) (record { buffer = bs ++ cs; core = s }) ≡ fail_read s
  unfolding read_loop
  read_loop_overflow fuel s bs cs free long = elim (Option-cases (cut bs cs)) [
    | inl e ↦
        let found = cut-append [] bs cs free ∙ e in
        let full : ltb max_message_bytes (length (bs ++ cs)) ≡ true =
          lt→ltb _ _ (omega (arith, length-append bs cs, long)) in
        rw (found, full, read_loop) refl
    | inr ((f, rest), e) ↦
        let found = cut-append [] bs cs free ∙ e in
        let full : ltb max_message_bytes (length f) ≡ true =
          lt→ltb _ _ (omega (arith, cut-length bs cs f rest e, long)) in
        rw (found, full, read_loop) refl
  ]

  read_loop-frame :
      (fuel : ℕ) (s : Core) (bs cs : List ℕ) (c : ℕ)
      → ZeroFree bs
      → length bs ≤ max_message_bytes
      → (c == 0) ≡ true
      → read_loop j buffered (suc fuel) (record { buffer = bs ++ c ∷ cs; core = s })
        ≡ read_loop j buffered fuel (route_frame j buffered bs s cs)
  unfolding read_loop cut
  read_loop-frame fuel s bs cs c free short e =
      let found : cut [] (bs ++ c ∷ cs) ≡ some (bs, cs) =
        cut-append [] bs (c ∷ cs) free ∙ rw (e, cut) refl in
      let fits : ltb max_message_bytes (length bs) ≡ false = ground arith in
      rw (found, fits, read_loop) refl

  read_loop-partial :
      (fuel : ℕ) (s : Core) (bs : List ℕ)
      → ZeroFree bs
      → length bs ≤ max_message_bytes
      → read_loop j buffered (suc fuel) (record { buffer = bs; core = s })
        ≡ record { buffer = bs; core = s }
  unfolding read_loop cut
  read_loop-partial fuel s bs free short =
      let found : cut [] bs ≡ none =
        ap (λ x. cut [] x) (sym (append-nil bs)) ∙ cut-append [] bs [] free in
      let fits : ltb max_message_bytes (length bs) ≡ false = ground arith in
      rw (found, fits, read_loop) refl

  pub feed_byte-end :
      (b : ℕ) (s : Bridge)
      → s.core.closed ≡ false
      → (b == 0) ≡ true
      → feed_byte b s ≡ route_frame j buffered s.buffer s.core []
  unfolding feed_byte
  feed_byte-end b s alive e = simp (alive, e)

  pub feed_byte-full :
      (b : ℕ) (s : Bridge)
      → s.core.closed ≡ false
      → (b == 0) ≡ false
      → leb max_message_bytes (length s.buffer) ≡ true
      → feed_byte b s ≡ fail_read s.core
  unfolding feed_byte
  feed_byte-full b s alive e full = simp (alive, e, full)

  pub feed_byte-more :
      (b : ℕ) (s : Bridge)
      → s.core.closed ≡ false
      → (b == 0) ≡ false
      → leb max_message_bytes (length s.buffer) ≡ false
      → feed_byte b s ≡ record { buffer = s.buffer ++ b ∷ []; core = s.core }
  unfolding feed_byte
  feed_byte-more b s alive e fits = simp (alive, e, fits)

  pub ZeroFree-append : (bs : List ℕ) (b : ℕ) → ZeroFree bs → b ≢ 0 → ZeroFree (bs ++ b ∷ [])
  ZeroFree-append [] b free ne = (ne, tt)
  ZeroFree-append (x ∷ bs) b (first, free) ne = (first, ZeroFree-append bs b free ne)

  -- The rest of the buffer after a frame; a bridge that has closed ignores it.
  after_frame :
      (fuel : ℕ) (t : Core) (cs : List ℕ)
      → (t.closed ≡ false
          → read_loop j buffered fuel (record { buffer = cs; core = t })
            ≡ feed cs (record { buffer = []; core = t }))
      → read_loop j buffered fuel (with_buffer cs t) ≡ feed cs (with_buffer [] t)
  after_frame fuel t cs live = elim (Bool-cases t.closed) [
    | inl h ↦
        read_loop_stops fuel t cs h
        ∙ sym (feed_closed cs (with_buffer [] t) h ∙ with_buffer-closed t [] cs h)
    | inr h ↦
        ap (λ x. read_loop j buffered fuel x) (with_buffer-open t cs h)
        ∙ live h
        ∙ sym (ap (λ x. feed cs x) (with_buffer-open t [] h))
  ]

  -- The loop does to the rest of the buffer what `feed` does to its bytes.
  pub read_loop-feed :
      (fuel : ℕ) (s : Core) (bs cs : List ℕ)
      → length cs < fuel
      → s.closed ≡ false
      → ZeroFree bs
      → length bs ≤ max_message_bytes
      → read_loop j buffered fuel (record { buffer = bs ++ cs; core = s })
        ≡ feed cs (record { buffer = bs; core = s })
  unfolding feed
  read_loop-feed zero s bs cs enough alive free short = absurd (omega arith)
  read_loop-feed (suc fuel) s bs [] enough alive free short =
      ap (λ x. read_loop j buffered (suc fuel) (record { buffer = x; core = s })) (append-nil bs)
      ∙ read_loop-partial fuel s bs free short
  read_loop-feed (suc fuel) s bs (c ∷ cs) enough alive free short = elim (Bool-cases (c == 0)) [
    | inl e ↦
        read_loop-frame fuel s bs cs c free short e
        ∙ ap (λ x. read_loop j buffered fuel x) (route_frame_rest bs s cs)
        ∙ after_frame fuel (route_frame j buffered bs s []).core cs (λ h.
          read_loop-feed fuel (route_frame j buffered bs s []).core [] cs (omega (arith, enough)) h
            tt (omega arith))
        ∙ sym (
            ap (λ x. feed cs x)
              (feed_byte-end c (record { buffer = bs; core = s }) alive e
                ∙ route_frame_rest bs s []))
    | inr e ↦ elim (Bool-cases (leb max_message_bytes (length bs))) [
      | inl full ↦
          ap (λ x. read_loop j buffered (suc fuel) (record { buffer = x; core = s }))
            (sym (append_assoc bs (c ∷ []) cs))
          ∙ read_loop_overflow fuel s (bs ++ c ∷ []) cs (ZeroFree-append bs c free (ground arith))
              (ground (arith, length-append bs (c ∷ [])))
          ∙ sym (
              ap (λ x. feed cs x) (feed_byte-full c (record { buffer = bs; core = s }) alive e full)
              ∙ feed_closed cs (fail_read s) (fail-closed s))
      | inr fits ↦
          ap (λ x. read_loop j buffered (suc fuel) (record { buffer = x; core = s }))
            (sym (append_assoc bs (c ∷ []) cs))
          ∙ read_loop-feed (suc fuel) s (bs ++ c ∷ []) cs (omega (arith, enough)) alive
              (ZeroFree-append bs c free (ground arith)) (ground (arith, length-append bs (c ∷ [])))
          ∙ sym (
              ap (λ x. feed cs x)
                (feed_byte-more c (record { buffer = bs; core = s }) alive e fits))
    ]
  ]
