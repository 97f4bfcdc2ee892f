-- ===== src/Stream/Read.antt =====
-- The read side of Stream (src/stream_impl.hpp, src/stream.cpp): on_data() delivers what nghttp2
-- received, read_some() takes it. The coroutine is cut where it waits: `read_some` runs to the first
-- wait or to the end, `resume_read` from one wait to the next or to the end.
pub mod Cases
pub mod Drain
pub mod Content
pub mod Order
pub mod Delivery
use nghttp2_corosio.Base.{
  ℕ, zero, suc, ◌+◌, ◌-◌, Bool, true, false, not, ◌||◌, Option, none, some, List, [], ◌∷◌, ◌++◌,
  Bytes, length, take, drop, ltb, ◌==◌, is_empty, if◌then◌else◌,
}
use nghttp2_corosio.Capy.{AsyncEvent, BufferCopy, ErrorCode}
use nghttp2_corosio.Stream.{Stream, Sink, Effect, consume, eof_error}

-- What a call of read_some() has come to.
pub data ReadOutcome : Type 0 where
  delivered : Bytes → ReadOutcome
  failed : ErrorCode → ReadOutcome
  parked : ReadOutcome

-- The variables of the loop that drains the queue: `room` is what the caller's buffers still hold,
-- `out` what was copied into them.
pub record Draining : Type 0 where
  pub chunks : List Bytes
  pub front_offset : ℕ
  pub room : ℕ
  pub out : Bytes

module _ ⦃buffers : BufferCopy⦄ where
  unfoldable pub drain_front : Bytes → List Bytes → Draining → Draining
  drain_front chunk rest d =
      let src = drop d.front_offset chunk in
      let n = buffers.copied d.room (length src) in
      let offset = d.front_offset + n in
      let done = offset == length chunk in
      record {
        chunks = if done then rest else chunk ∷ rest;
        front_offset = if done then 0 else offset;
        room = d.room - n;
        out = d.out ++ take n src;
      }

  -- The loop, with fuel.
  unfoldable pub drain : ℕ → Draining → Draining
  unfolding drain_front
  drain zero d = d
  drain (suc fuel) d = elim d.chunks [
    | [] ↦ d
    | chunk ∷ rest ↦ let d' = drain fuel (drain_front chunk rest d) in if d.room == 0 then d else d'
  ]

  -- `Sink::put`: how many bytes went in, and the sink after it.
  unfoldable pub put : Bytes → Sink → ℕ × Sink
  put bytes k =
      let n = buffers.copied k.room (length bytes) in
      (n, record { room = k.room - n; copied = k.copied ++ take n bytes })

abbrev pub enough : List Bytes → ℕ
enough chunks = suc (suc (length chunks))

module _ {Event : Type 0} ⦃events : AsyncEvent Event⦄ where
  unfoldable pub park : Sink → Stream Event → Stream Event
  park k s = record s { read_sink = some k; read_ready = events.clear s.read_ready }

module _ {Event : Type 0} ⦃events : AsyncEvent Event⦄ ⦃buffers : BufferCopy⦄ where
  unfoldable pub keep_chunk : Bytes → Stream Event → Stream Event
  keep_chunk bytes s = record s {
    chunks = if is_empty bytes then s.chunks else s.chunks ++ bytes ∷ [];
    read_ready = events.set s.read_ready;
  }

  unfoldable pub on_data_to : Option Sink → Bytes → Stream Event → Stream Event
  unfolding put keep_chunk
  on_data_to none bytes s = keep_chunk bytes s
  on_data_to (some k) bytes s =
      let (n, k') = put bytes k in keep_chunk (drop n bytes) (record s { read_sink = some k' })

  unfoldable pub on_data : Bytes → Stream Event → Stream Event
  unfolding on_data_to
  on_data bytes s = on_data_to s.read_sink bytes s

  -- What read_some() does once the queue is drained.
  unfoldable pub after_drain : Draining → Stream Event → Stream Event × ReadOutcome × List Effect
  unfolding park eof_error consume
  after_drain d s =
      let s' = record s { chunks = d.chunks; front_offset = d.front_offset } in
      if ltb 0 (length d.out)
      then (s', delivered d.out, consume s.id (length d.out))
      else if s.read_eof || s.closed
      then (s', failed (eof_error s'), [])
      else (park (record { room = d.room; copied = [] }) s', parked, [])

  -- `room` is the size of the caller's buffers.
  unfoldable pub read_some : ℕ → Stream Event → Stream Event × ReadOutcome × List Effect
  read_some room s =
      after_drain
        (drain (enough s.chunks)
          (record { chunks = s.chunks; front_offset = s.front_offset; room = room; out = [] }))
        s

  -- The wait has ended, with an error if the read was cancelled.
  unfoldable pub resume_parked :
      Sink → Option ErrorCode → Stream Event → Stream Event × ReadOutcome × List Effect
  unfolding park eof_error consume
  resume_parked k ec s =
      let s' = record s { read_sink = none } in
      if ltb 0 (length k.copied)
      then (s', delivered k.copied, consume s.id (length k.copied))
      else elim ec [
        | some e ↦ (s', failed e, [])
        | none ↦
            if s.read_eof || s.closed
            then (s', failed (eof_error s'), [])
            else (park k s', parked, [])
      ]

  unfoldable pub resume_read :
      Option ErrorCode → Stream Event → Option (Stream Event × ReadOutcome × List Effect)
  unfolding resume_parked
  resume_read ec s = elim s.read_sink [ none ↦ none | some k ↦ some (resume_parked k ec s) ]
