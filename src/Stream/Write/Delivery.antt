-- ===== src/Stream/Write/Delivery.antt =====
-- What a user of Stream's write side (src/stream_impl.hpp, src/stream.cpp) can rely on, from any
-- history of a new stream.
use nghttp2_corosio.Base.{
  ℕ, ◌≡◌, true, false, none, some, [], ◌++◌, ◌⊎◌, inl, inr, arith, Bytes, Bool-cases, ap, ◌∙◌,
  length, take, take_all, if◌then◌else◌,
}
use nghttp2_corosio.Capy.{AsyncEvent, BufferCopy, eof}
use nghttp2_corosio.Stream.{Stream, on_close, new_stream}
use nghttp2_corosio.Stream.Write.{written, write_impl, resume_write_impl}
use nghttp2_corosio.Stream.Write.Progress.{Sending, Reach, Inv, Reach-Inv}

module _ {Event : Type 0} ⦃events : AsyncEvent Event⦄ ⦃buffers : BufferCopy⦄ where
  unfoldable pub start : ℕ → Bytes → Sending Event
  unfolding new_stream
  start id tag = record {
    stream = new_stream id tag;
    suspended = false;
    provider_deferred = false;
    given = [];
    body = [];
    reported = [];
    pulls = 0;
    end_sent = false;
  }

  pub start-Inv : (id : ℕ) (tag : Bytes) → Inv (start id tag)
  unfolding start
  start-Inv id tag = ground arith

  -- In any history of a new stream with one write at a time, the bytes that nghttp2 pulled are those
  -- that the finished writes reported, in order, followed by what the current write has sent of
  -- the bytes that it was called with: no byte is sent twice, skipped, or reported without being sent.
  Reach-accounted :
      (id : ℕ) (tag : Bytes) {x : Sending Event}
      → Reach (start id tag) x
      → x.body ≡ x.reported ++ (if x.suspended then take x.stream.write_offset x.given else [])
  Reach-accounted id tag r = (Reach-Inv (start-Inv id tag) r).accounted

  -- In any history of a new stream with one write at a time, while a write waits and has something for
  -- nghttp2, nghttp2's data provider is not deferred, so that nghttp2 may pull.
  Reach-can_pull :
      (id : ℕ) (tag : Bytes) {x : Sending Event}
      → Reach (start id tag) x
      → x.suspended ≡ true
      → x.stream.write_pending ≡ true
      → x.provider_deferred ≡ false
  Reach-can_pull id tag r waits pending = let v = Reach-Inv (start-Inv id tag) r in ground arith

  -- In any history of a new stream with one write at a time, a waiting write whose work is done, or
  -- whose stream is closed, has its event set: no wake-up of a writer is lost.
  Reach-writer_awake :
      (id : ℕ) (tag : Bytes) {x : Sending Event}
      → Reach (start id tag) x
      → x.suspended ≡ true
      → (x.stream.write_pending ≡ false) ⊎ (x.stream.closed ≡ true)
      → events.is_set x.stream.write_progress ≡ true
  Reach-writer_awake id tag r waits over =
      let v = Reach-Inv (start-Inv id tag) r in
      elim over [ inl e ↦ ground arith | inr e ↦ ground arith ]

  -- A write_eof() that is woken on a stream not closed, and not cancelled, has sent all it had.
  abbrev pub IsSent : Sending Event → Type 0
  IsSent x =
      ((resume_write_impl none x.stream).1 ≡ written none (length x.given))
      × (x.end_sent ≡ true)
      × (x.body ≡ x.reported ++ x.given)

  pub Inv-IsSent :
      (x : Sending Event)
      → Inv x
      → x.suspended ≡ true
      → x.stream.write_eof_requested ≡ true
      → x.stream.closed ≡ false
      → events.is_set x.stream.write_progress ≡ true
      → IsSent x
  unfolding resume_write_impl
  Inv-IsSent x v waits end live set = (
    ground (arith, ap length (v.published waits)),
    ground arith,
    ground (arith, v.published, take_all x.stream.write_offset x.given),
  )

  -- A waiting write can go on, or nghttp2 can.
  abbrev pub IsMoving : Sending Event → Type 0
  IsMoving x =
      (((x.stream.write_pending ≡ false) ⊎ (x.stream.closed ≡ true))
        × (events.is_set x.stream.write_progress ≡ true))
      ⊎ ((x.stream.write_pending ≡ true)
          × (x.stream.closed ≡ false)
          × (x.provider_deferred ≡ false))

  pub Inv-IsMoving : (x : Sending Event) → Inv x → x.suspended ≡ true → IsMoving x
  Inv-IsMoving x v waits = elim (Bool-cases x.stream.write_pending) [
    | inr done ↦ inl (inl done, v.awake waits (inl done))
    | inl pending ↦ elim (Bool-cases x.stream.closed) [
      | inl over ↦ inl (inr over, v.awake waits (inr over))
      | inr live ↦ inr (pending, live, v.deferral ∙ (v.pending_waits pending).1)
    ]
  ]

  -- In any history of a new stream with one write at a time, a write_eof() that is woken on a stream
  -- not closed, and not cancelled, reports success and the number of all the bytes that it was called with,
  -- END_STREAM is on a frame, and these bytes are the last ones that nghttp2 pulled.
  pub Reach-write_eof_done :
      (id : ℕ) (tag : Bytes) {x : Sending Event}
      → Reach (start id tag) x
      → x.suspended ≡ true
      → x.stream.write_eof_requested ≡ true
      → x.stream.closed ≡ false
      → events.is_set x.stream.write_progress ≡ true
      → ((resume_write_impl none x.stream).1 ≡ written none (length x.given))
        × (x.end_sent ≡ true)
        × (x.body ≡ x.reported ++ x.given)
  Reach-write_eof_done id tag {x} r waits end live set =
      Inv-IsSent x (Reach-Inv (start-Inv id tag) r) waits end live set

  -- A write_eof() of bytes on an open stream that is closed before nghttp2 pulls any of them is woken
  -- and reports success, with 0 bytes; a write started after the close fails with `eof`.
  pub write_eof-on_close :
      (bytes : Bytes) (s : Stream Event)
      → s.closed ≡ false
      → let s' = on_close (write_impl bytes true s).0 in
        (events.is_set s'.write_progress ≡ true)
        × ((resume_write_impl none s').1 ≡ written none 0)
        × ((write_impl bytes true s').1 ≡ written (some eof) 0)
  unfolding write_impl resume_write_impl on_close
  write_eof-on_close bytes s live = (events.is_set-set _, ground arith, ground arith)
