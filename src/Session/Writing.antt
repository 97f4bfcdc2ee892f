-- ===== src/Session/Writing.antt =====
-- The write side of one Stream object over the inputs of a session (src/session.cpp,
-- src/stream_impl.hpp): the writes and the pulls that name the object, with their history.
pub mod Methods
pub mod Steps
pub mod Runs
use nghttp2_corosio.Base.{
  ℕ, ◌≡◌, ◌⊎◌, ◌≢◌, Bool, true, false, Option, none, List, [], ◌∷◌, Bytes, ◌==◌, if◌then◌else◌,
}
use nghttp2_corosio.Capy.{AsyncEvent, BufferCopy}
use nghttp2_corosio.Stream.Write.{write_impl, resume_write_impl, producer_callback}
use nghttp2_corosio.Stream.Write.Progress.{Sending, started, pulled, finished}
use nghttp2_corosio.Session.Inputs.{
  Input, begin_headers, header, frame_recv, data_chunk, stream_close, pull, response, request, read,
  wake_read, write, wake_write, ask_status,
}
use nghttp2_corosio.Session.Isolation.{evolve}

module _ {Event : Type 0} ⦃events : AsyncEvent Event⦄ ⦃buffers : BufferCopy⦄ where
  -- An input that is not of the write side.
  abbrev pub beside : ℕ → Input → Sending Event → Sending Event
  beside ref i x = record x { stream = evolve ref i x.stream }

  -- The object at `ref`, with the history of its writes, after one input.
  abbrev pub sends : ℕ → Input → Sending Event → Sending Event
  sends ref (write r bytes end) x =
      if r == ref then started x bytes (write_impl bytes end x.stream) else x
  sends ref (pull r size) x = if r == ref then pulled x (producer_callback size x.stream) else x
  sends ref (wake_write r ec) x = if r == ref then finished x (resume_write_impl ec x.stream) else x
  sends ref (begin_headers f) x = beside ref (begin_headers f) x
  sends ref (header id name value) x = beside ref (header id name value) x
  sends ref (frame_recv f) x = beside ref (frame_recv f) x
  sends ref (data_chunk id bytes) x = beside ref (data_chunk id bytes) x
  sends ref (stream_close id) x = beside ref (stream_close id) x
  sends ref (response done r status headers) x = beside ref (response done r status headers) x
  sends ref (request answer path n headers) x = beside ref (request answer path n headers) x
  sends ref (read r room) x = beside ref (read r room) x
  sends ref (wake_read r ec) x = beside ref (wake_read r ec) x
  sends ref (ask_status r) x = beside ref (ask_status r) x

  abbrev pub all_sends : ℕ → List Input → Sending Event → Sending Event
  all_sends ref [] x = x
  all_sends ref (i ∷ is) x = all_sends ref is (sends ref i x)

  -- One write at a time on the object, a wake-up only of a write that waits and whose event is set or
  -- that is cancelled, and no pull from a provider that nghttp2 was told to defer.
  abbrev pub IsInTurn : ℕ → Sending Event → Input → Type 0
  IsInTurn ref x (write r bytes end) = r ≡ ref → x.suspended ≡ false
  IsInTurn ref x (pull r size) = r ≡ ref → x.provider_deferred ≡ false
  IsInTurn ref x (wake_write r ec) =
      r ≡ ref
      → (x.suspended ≡ true) × ((ec ≢ none) ⊎ (events.is_set x.stream.write_progress ≡ true))
  IsInTurn ref x (begin_headers f) = Unit
  IsInTurn ref x (header id name value) = Unit
  IsInTurn ref x (frame_recv f) = Unit
  IsInTurn ref x (data_chunk id bytes) = Unit
  IsInTurn ref x (stream_close id) = Unit
  IsInTurn ref x (response done r status headers) = Unit
  IsInTurn ref x (request answer path n headers) = Unit
  IsInTurn ref x (read r room) = Unit
  IsInTurn ref x (wake_read r ec) = Unit
  IsInTurn ref x (ask_status r) = Unit

  abbrev pub AreInTurn : ℕ → Sending Event → List Input → Type 0
  AreInTurn ref x [] = Unit
  AreInTurn ref x (i ∷ is) = IsInTurn ref x i × AreInTurn ref (sends ref i x) is
