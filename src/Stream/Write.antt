-- ===== src/Stream/Write.antt =====
-- The write side of Stream (src/stream_impl.hpp, src/stream.cpp): write_impl() publishes a buffer
-- sequence, and nghttp2 pulls it through producer_callback(). The coroutine is cut at its wait:
-- `write_impl` runs to it, `resume_write_impl` from it to the end.
pub mod Progress
pub mod Delivery
pub mod Whole
use nghttp2_corosio.Base.{
  ℕ, ◌+◌, Bool, true, false, not, ◌||◌, Option, none, some, List, [], ◌∷◌, ◌++◌, Bytes, length,
  take, drop, ◌==◌, if◌then◌else◌,
}
use nghttp2_corosio.Capy.{AsyncEvent, BufferCopy, ErrorCode, eof}
use nghttp2_corosio.Stream.{Stream, Effect, resume_data, start_write}

pub data WriteOutcome : Type 0 where
  written : Option ErrorCode → ℕ → WriteOutcome
  waiting : WriteOutcome

-- What producer_callback() gives to nghttp2: NGHTTP2_ERR_DEFERRED, or the bytes of a DATA frame with
-- whether NGHTTP2_DATA_FLAG_EOF is set on it.
pub data Produced : Type 0 where
  deferred : Produced
  produced : Bytes → Bool → Produced

module _ {Event : Type 0} ⦃events : AsyncEvent Event⦄ where
  unfoldable pub write_impl :
      Bytes → Bool → Stream Event → Stream Event × WriteOutcome × List Effect
  write_impl bytes end s = if s.closed then (s, written (some eof) 0, []) else (
    record s {
      pending = bytes;
      cursor = bytes;
      write_offset = 0;
      write_eof_requested = end;
      write_pending = true;
      write_deferred = false;
      write_progress = events.clear s.write_progress;
    },
    waiting,
    if s.write_deferred then resume_data s.id ∷ start_write ∷ [] else start_write ∷ [],
  )

  -- `write_some(buffers)`, which StreamWriter forwards to, and the two `write_eof`.
  unfoldable pub write_some : Bytes → Stream Event → Stream Event × WriteOutcome × List Effect
  unfolding write_impl
  write_some bytes s = write_impl bytes false s

  unfoldable pub write_eof : Bytes → Stream Event → Stream Event × WriteOutcome × List Effect
  unfolding write_impl
  write_eof bytes s = write_impl bytes true s

  unfoldable pub resume_write_impl : Option ErrorCode → Stream Event → Stream Event × WriteOutcome
  resume_write_impl ec s = (record s { write_pending = false }, written ec s.write_offset)

module _ {Event : Type 0} ⦃events : AsyncEvent Event⦄ ⦃buffers : BufferCopy⦄ where
  -- `size` is the room in nghttp2's buffer.
  unfoldable pub producer_callback : ℕ → Stream Event → Stream Event × Produced
  producer_callback size s =
      let n = buffers.copied size (length s.cursor) in
      let s' = record s { cursor = drop n s.cursor; write_offset = s.write_offset + n } in
      let fully_drained = s'.write_offset == length s.pending in
      let done = record s' {
        write_pending = false;
        write_progress = events.set s.write_progress;
      } in
      if not s.write_pending
      then (record s { write_deferred = true }, deferred)
      else if fully_drained || not s.write_eof_requested
      then (done, produced (take n s.cursor) s.write_eof_requested)
      else (s', produced (take n s.cursor) false)
