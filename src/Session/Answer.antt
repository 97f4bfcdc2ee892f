-- ===== src/Session/Answer.antt =====
-- The status of one Stream object over the inputs of a session (src/session.cpp,
-- src/stream_impl.hpp): what the peer sent for it, and the calls of status() on it.
pub mod Methods
pub mod Steps
pub mod Runs
use nghttp2_corosio.Base.{
  ℕ, ◌^◌, ◌<◌, ◌≡◌, Bool, true, false, not, ◌&&◌, ◌||◌, Option, some, List, [], ◌∷◌, Bytes, same,
  ◌==◌, if◌then◌else◌,
}
use nghttp2_corosio.Capy.{AsyncEvent, BufferCopy}
use nghttp2_corosio.Stream.{Stream}
use nghttp2_corosio.Stream.Status.Waits.{Seen, IsLate}
use nghttp2_corosio.Session.Callbacks.{Frame, is_headers, is_data, status_name, status_of}
use nghttp2_corosio.Session.Inputs.{
  Input, begin_headers, header, frame_recv, data_chunk, stream_close, pull, response, request, read,
  wake_read, write, wake_write, ask_status,
}
use nghttp2_corosio.Session.Isolation.{evolve}

module _ {Event : Type 0} where
  abbrev pub reaches : ℕ → Stream Event → Bool
  reaches id s = (s.id == id) && not s.closed

  -- What an input adds to what has happened to the object.
  abbrev pub hears : Input → Stream Event → Seen → Seen
  hears (header id name value) s seen =
      if reaches id s && same name status_name
      then record seen { status = some (status_of value) }
      else seen
  hears (frame_recv f) s seen =
      if reaches f.stream_id s && ((is_headers f.type || is_data f.type) && f.end_stream)
      then record seen { ended = true }
      else seen
  hears (stream_close id) s seen = if reaches id s then record seen { closed = true } else seen
  hears (begin_headers f) s seen = seen
  hears (data_chunk id bytes) s seen = seen
  hears (pull r size) s seen = seen
  hears (response done r status headers) s seen = seen
  hears (request answer path n headers) s seen = seen
  hears (read r room) s seen = seen
  hears (wake_read r ec) s seen = seen
  hears (write r bytes end) s seen = seen
  hears (wake_write r ec) s seen = seen
  hears (ask_status r) s seen = seen

module _ {Event : Type 0} ⦃events : AsyncEvent Event⦄ ⦃buffers : BufferCopy⦄ where
  -- The object at `ref`, with what has happened to it, after one input.
  abbrev pub attends : ℕ → Input → Seen × Stream Event → Seen × Stream Event
  attends ref i x = (hears i x.1 x.0, evolve ref i x.1)

  abbrev pub all_attends : ℕ → List Input → Seen × Stream Event → Seen × Stream Event
  all_attends ref [] x = x
  all_attends ref (i ∷ is) x = all_attends ref is (attends ref i x)

  -- A status is below 2^31, and no status() is called on a stream that was closed without one.
  abbrev pub IsTimely : ℕ → Seen × Stream Event → Input → Type 0
  IsTimely ref x (header id name value) = same name status_name ≡ true → status_of value < 2 ^ 31
  IsTimely ref x (ask_status r) = r ≡ ref → ¬ IsLate x.0
  IsTimely ref x (begin_headers f) = Unit
  IsTimely ref x (frame_recv f) = Unit
  IsTimely ref x (data_chunk id bytes) = Unit
  IsTimely ref x (stream_close id) = Unit
  IsTimely ref x (pull r size) = Unit
  IsTimely ref x (response done r status headers) = Unit
  IsTimely ref x (request answer path n headers) = Unit
  IsTimely ref x (read r room) = Unit
  IsTimely ref x (wake_read r ec) = Unit
  IsTimely ref x (write r bytes end) = Unit
  IsTimely ref x (wake_write r ec) = Unit

  abbrev pub AreTimely : ℕ → Seen × Stream Event → List Input → Type 0
  AreTimely ref x [] = Unit
  AreTimely ref x (i ∷ is) = IsTimely ref x i × AreTimely ref (attends ref i x) is
