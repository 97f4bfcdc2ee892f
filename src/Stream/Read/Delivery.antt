-- ===== src/Stream/Read/Delivery.antt =====
-- What a user of Stream's read side (src/stream_impl.hpp) can rely on, from any history of a new
-- stream.
use nghttp2_corosio.Base.{
  ℕ, zero, suc, ◌<◌, ◌≡◌, refl, sym, ap, ◌∙◌, ◌⊎◌, inl, inr, true, ◌||◌, Option, none, some, [],
  ◌∷◌, ◌++◌, append-nil, arith, Bytes, length, take, drop_all, if◌then◌else◌,
}
use nghttp2_corosio.Capy.{AsyncEvent, BufferCopy, ErrorCode, eof, stream_truncated}
use nghttp2_corosio.Stream.{Stream, Sink, eof_error, new_stream}
use nghttp2_corosio.Stream.Read.{
  failed, Draining, enough, drain, after_drain, read_some, resume_parked,
}
use nghttp2_corosio.Stream.Read.Cases.{after_drain_cases, resume_parked_cases}
use nghttp2_corosio.Stream.Read.Drain.{buffered, drain_takes}
use nghttp2_corosio.Stream.Read.Content.{handed, content, in_sink, IsSound, IsWaiting}
use nghttp2_corosio.Stream.Read.Order.{Side, Reach, here, next, Inv, Step-Inv, IsAwake}

nil_of_take : (room : ℕ) (bytes : Bytes) → 0 < room → take room bytes ≡ [] → bytes ≡ []
nil_of_take zero bytes h e = absurd (omega arith)
nil_of_take (suc n) [] h e = refl
nil_of_take (suc n) (b ∷ bs) h e = absurd (cc)

module _ {Event : Type 0} ⦃events : AsyncEvent Event⦄ ⦃buffers : BufferCopy⦄ where
  unfoldable pub start : ℕ → Bytes → Side Event
  unfolding new_stream
  start id tag = record { stream = new_stream id tag; arrived = []; taken = []; credited = 0 }

  pub start-Inv : (id : ℕ) (tag : Bytes) → Inv (start id tag)
  unfolding start
  start-Inv id tag = record {
    sound = record { front = refl; no_overtaking = tt };
    order = refl;
    credit = refl;
    awake = tt;
  }

  pub Reach-Inv : {x y : Side Event} → Inv x → Reach x y → Inv y
  Reach-Inv v here = v
  Reach-Inv v (next r s) = Step-Inv s (Reach-Inv v r)

  -- Whatever nghttp2 delivers to a new stream, and however reads start, wait, wake up or are
  -- cancelled in between: the bytes handed to readers so far, then those that wait, are the bytes
  -- that arrived, in order; and nghttp2 was told to credit the window with exactly the bytes handed
  -- over.
  Reach-order :
      (id : ℕ) (tag : Bytes) {x : Side Event}
      → Reach (start id tag) x
      → (x.taken ++ content x.stream ≡ x.arrived) × (x.credited ≡ length x.taken)
  Reach-order id tag r = let v = Reach-Inv (start-Inv id tag) r in (v.order, v.credit)

  pub Inv-awake :
      (k : Sink) {x : Side Event}
      → Inv x
      → x.stream.read_sink ≡ some k
      → (0 < length k.copied) ⊎ ((x.stream.read_eof || x.stream.closed) ≡ true)
      → events.is_set x.stream.read_ready ≡ true
  Inv-awake k {x} v e = awake_at x.stream.read_sink x.stream e v.awake
    where
      awake_at :
          (sink : Option Sink) (s : Stream Event)
          → sink ≡ some k
          → IsAwake sink s
          → (0 < length k.copied) ⊎ ((s.read_eof || s.closed) ≡ true)
          → events.is_set s.read_ready ≡ true
      awake_at none s e w = absurd (cc)
      awake_at (some j) s e w = λ h. w (ground arith)

  -- In any history of a new stream, a waiting read for which there is something (bytes in its
  -- buffers, the end of the body, or the close) has its event set: no wake-up is lost.
  Reach-awake :
      (id : ℕ) (tag : Bytes) (k : Sink) {x : Side Event}
      → Reach (start id tag) x
      → x.stream.read_sink ≡ some k
      → (0 < length k.copied) ⊎ ((x.stream.read_eof || x.stream.closed) ≡ true)
      → events.is_set x.stream.read_ready ≡ true
  Reach-awake id tag k r e = Inv-awake k (Reach-Inv (start-Inv id tag) r) e

  -- A read that finds none waiting takes what is there, as far as its buffers go, at once.
  read_some_takes :
      (room : ℕ) (s : Stream Event)
      → IsSound s
      → s.read_sink ≡ none
      → handed (read_some room s).1 ≡ take room (content s)
  unfolding read_some
  read_some_takes room s h e =
      after_drain_cases (λ r. handed r.1 ≡ (drain (enough s.chunks) d).out) _ s (λ _. refl)
        (λ empty _. sym empty) (λ empty _. sym empty)
      ∙ drain_takes s.chunks s.front_offset room h.front
      ∙ ap (λ sink. take room (in_sink sink ++ buffered s.chunks s.front_offset)) (sym e)
    where
      d : Draining
      d = record { chunks = s.chunks; front_offset = s.front_offset; room = room; out = [] }

  -- What an error of read_some() says of the stream.
  abbrev pub IsOver : Stream Event → ErrorCode → Type 0
  IsOver s e =
      ((s.read_eof || s.closed) ≡ true) × (e ≡ (if s.read_eof then eof else stream_truncated))

  after_drain_failed :
      (d : Draining) (s : Stream Event) (e : ErrorCode)
      → (after_drain d s).1 ≡ failed e
      → (d.out ≡ []) × IsOver s e
  unfolding eof_error
  after_drain_failed d s e =
      after_drain_cases (λ r. r.1 ≡ failed e → (d.out ≡ []) × IsOver s e) d s (λ _ h. absurd (cc))
        (λ empty over h. (empty, (over, ground arith))) (λ _ _ h. absurd (cc))

  -- A read into buffers with room fails only on a stream that holds nothing and is over.
  pub read_some_failed :
      (room : ℕ) (s : Stream Event) (e : ErrorCode)
      → IsSound s
      → s.read_sink ≡ none
      → 0 < room
      → (read_some room s).1 ≡ failed e
      → (content s ≡ []) × IsOver s e
  unfolding read_some
  read_some_failed room s e sound idle h f =
      let (empty, why) = after_drain_failed _ s e f in
      let none_there : take room (content s) ≡ [] =
        ap (λ sink. take room (in_sink sink ++ buffered s.chunks s.front_offset)) idle
        ∙ sym (drain_takes s.chunks s.front_offset room sound.front)
        ∙ empty in
      (nil_of_take room (content s) h none_there, why)

  pub Inv-read_some_failed :
      (room : ℕ) (e : ErrorCode) {x : Side Event}
      → Inv x
      → x.stream.read_sink ≡ none
      → 0 < room
      → (read_some room x.stream).1 ≡ failed e
      → (x.taken ≡ x.arrived)
        × ((x.stream.read_eof || x.stream.closed) ≡ true)
        × (e ≡ (if x.stream.read_eof then eof else stream_truncated))
  Inv-read_some_failed room e {x} v idle h f =
      let (nothing_left, why) = read_some_failed room x.stream e v.sound idle h f in
      (
        sym (append-nil x.taken) ∙ ap (λ bytes. x.taken ++ bytes) (sym nothing_left) ∙ v.order,
        why.0,
        why.1,
      )

  -- In any history of a new stream, a read into buffers with room, started when no other waits,
  -- fails only when every byte that arrived has been handed over, and only after the end of the body
  -- or the close; the error is `eof` if the peer ended the body, and `stream_truncated` if not.
  pub Reach-read_some_failed :
      (id : ℕ) (tag : Bytes) (room : ℕ) (e : ErrorCode) {x : Side Event}
      → Reach (start id tag) x
      → x.stream.read_sink ≡ none
      → 0 < room
      → (read_some room x.stream).1 ≡ failed e
      → (x.taken ≡ x.arrived)
        × ((x.stream.read_eof || x.stream.closed) ≡ true)
        × (e ≡ (if x.stream.read_eof then eof else stream_truncated))
  Reach-read_some_failed id tag room e r =
      Inv-read_some_failed room e (Reach-Inv (start-Inv id tag) r)

  resume_parked_failed :
      (k : Sink) (s : Stream Event) (e : ErrorCode)
      → (resume_parked k none s).1 ≡ failed e
      → (k.copied ≡ []) × IsOver s e
  unfolding eof_error
  resume_parked_failed k s e =
      resume_parked_cases (λ r. r.1 ≡ failed e → (k.copied ≡ []) × IsOver s e) k none s
        (λ _ h. absurd (cc)) (λ _ _ given h. absurd (cc))
        (λ empty _ over h. (empty, (over, ground arith))) (λ _ _ _ h. absurd (cc))

  pub Inv-resume_failed :
      (k : Sink) (e : ErrorCode) {x : Side Event}
      → Inv x
      → x.stream.read_sink ≡ some k
      → 0 < k.room
      → (resume_parked k none x.stream).1 ≡ failed e
      → (x.taken ≡ x.arrived)
        × ((x.stream.read_eof || x.stream.closed) ≡ true)
        × (e ≡ (if x.stream.read_eof then eof else stream_truncated))
  Inv-resume_failed k e {x} v waiting h f =
      let (empty, why) = resume_parked_failed k x.stream e f in
      (
        sym (append-nil x.taken)
            ∙ ap (λ bytes. x.taken ++ bytes)
                (sym (
                  content_of_waiting x.stream x.stream.read_sink waiting empty h
                    v.sound.no_overtaking))
            ∙ v.order,
        why.0,
        why.1,
      )
    where
      content_of_waiting :
          (s : Stream Event) (sink : Option Sink)
          → sink ≡ some k
          → k.copied ≡ []
          → 0 < k.room
          → IsWaiting sink s.chunks
          → in_sink sink ++ buffered s.chunks s.front_offset ≡ []
      content_of_waiting s none e c p w = absurd (cc)
      content_of_waiting s (some j) e c p (inl full) = absurd (ground arith)
      content_of_waiting s (some j) e c p (inr idle) =
          let same : j.copied ≡ [] = ground arith in
          rw (same, idle) (drop_all s.front_offset [] (omega arith))

  -- In any history of a new stream, a read that waits with room left and is woken, not cancelled, fails
  -- only when every byte that arrived has been handed over, and only after the end of the body or the
  -- close; the error is `eof` if the peer ended the body, and `stream_truncated` if not.
  Reach-resume_failed :
      (id : ℕ) (tag : Bytes) (k : Sink) (e : ErrorCode) {x : Side Event}
      → Reach (start id tag) x
      → x.stream.read_sink ≡ some k
      → 0 < k.room
      → (resume_parked k none x.stream).1 ≡ failed e
      → (x.taken ≡ x.arrived)
        × ((x.stream.read_eof || x.stream.closed) ≡ true)
        × (e ≡ (if x.stream.read_eof then eof else stream_truncated))
  Reach-resume_failed id tag k e r = Inv-resume_failed k e (Reach-Inv (start-Inv id tag) r)
