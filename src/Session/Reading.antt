-- ===== src/Session/Reading.antt =====
-- The read side of one Stream object over the inputs of a session (src/session.cpp,
-- src/stream_impl.hpp): what arrives for the object and what its readers are handed.
pub mod Methods
pub mod Steps
pub mod Runs
use nghttp2_corosio.Base.{
  ℕ, ◌≡◌, ◌⊎◌, ◌≢◌, Bool, true, not, ◌&&◌, Option, none, some, List, [], ◌∷◌, ◌++◌, Bytes, ◌==◌,
  if◌then◌else◌,
}
use nghttp2_corosio.Capy.{AsyncEvent, BufferCopy, ErrorCode}
use nghttp2_corosio.Stream.Read.{on_data, read_some, resume_read}
use nghttp2_corosio.Stream.Read.Order.{Side, after}
use nghttp2_corosio.Session.Inputs.{
  Input, begin_headers, header, frame_recv, data_chunk, stream_close, pull, response, request, read,
  wake_read, write, wake_write, ask_status,
}
use nghttp2_corosio.Session.Answer.{reaches}
use nghttp2_corosio.Session.Isolation.{evolve}

module _ {Event : Type 0} ⦃events : AsyncEvent Event⦄ ⦃buffers : BufferCopy⦄ where
  -- An input that neither brings bytes nor hands any out.
  abbrev pub beside : ℕ → Input → Side Event → Side Event
  beside ref i x = record x { stream = evolve ref i x.stream }

  abbrev pub receives : Bytes → Side Event → Side Event
  receives bytes x = record x { stream = on_data bytes x.stream; arrived = x.arrived ++ bytes }

  abbrev pub wakes : Option ErrorCode → Side Event → Side Event
  wakes ec x = elim (resume_read ec x.stream) [ none ↦ x | some r ↦ after x r ]

  -- The object at `ref`, with the history of its reads, after one input.
  abbrev pub takes : ℕ → Input → Side Event → Side Event
  takes ref (data_chunk id bytes) x = if reaches id x.stream then receives bytes x else x
  takes ref (read r room) x = if r == ref then after x (read_some room x.stream) else x
  takes ref (wake_read r ec) x = if r == ref then wakes ec x else x
  takes ref (begin_headers f) x = beside ref (begin_headers f) x
  takes ref (header id name value) x = beside ref (header id name value) x
  takes ref (frame_recv f) x = beside ref (frame_recv f) x
  takes ref (stream_close id) x = beside ref (stream_close id) x
  takes ref (pull r size) x = beside ref (pull r size) x
  takes ref (response done r status headers) x = beside ref (response done r status headers) x
  takes ref (request answer path n headers) x = beside ref (request answer path n headers) x
  takes ref (write r bytes end) x = beside ref (write r bytes end) x
  takes ref (wake_write r ec) x = beside ref (wake_write r ec) x
  takes ref (ask_status r) x = beside ref (ask_status r) x

  abbrev pub all_takes : ℕ → List Input → Side Event → Side Event
  all_takes ref [] x = x
  all_takes ref (i ∷ is) x = all_takes ref is (takes ref i x)

  -- A read starts when none waits on the object; a waiting one goes on when its event is set or it is
  -- cancelled.
  abbrev pub IsInTurn : ℕ → Side Event → Input → Type 0
  IsInTurn ref x (read r room) = r ≡ ref → x.stream.read_sink ≡ none
  IsInTurn ref x (wake_read r ec) =
      r ≡ ref → (ec ≢ none) ⊎ (events.is_set x.stream.read_ready ≡ true)
  IsInTurn ref x (begin_headers f) = Unit
  IsInTurn ref x (header id name value) = Unit
  IsInTurn ref x (frame_recv f) = Unit
  IsInTurn ref x (data_chunk id bytes) = Unit
  IsInTurn ref x (stream_close id) = Unit
  IsInTurn ref x (pull r size) = Unit
  IsInTurn ref x (response done r status headers) = Unit
  IsInTurn ref x (request answer path n headers) = Unit
  IsInTurn ref x (write r bytes end) = Unit
  IsInTurn ref x (wake_write r ec) = Unit
  IsInTurn ref x (ask_status r) = Unit

  abbrev pub AreInTurn : ℕ → Side Event → List Input → Type 0
  AreInTurn ref x [] = Unit
  AreInTurn ref x (i ∷ is) = IsInTurn ref x i × AreInTurn ref (takes ref i x) is
