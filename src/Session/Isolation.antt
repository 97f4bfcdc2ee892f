-- ===== src/Session/Isolation.antt =====
-- One Stream object on its own: what each input of a session (src/session.cpp) does to it, by the
-- object's own identifier and reference, with no table and no other streams.
pub mod Cases
pub mod Routing
pub mod Callbacks
pub mod Steps
pub mod Runs
pub mod Opening
use nghttp2_corosio.Base.{
  ℕ, Bool, not, ◌&&◌, ◌||◌, Option, none, some, List, [], ◌∷◌, Bytes, same, ◌==◌, if◌then◌else◌,
}
use nghttp2_corosio.Capy.{AsyncEvent, BufferCopy}
use nghttp2_corosio.Stream.{
  Stream, set_path, set_status, set_content_length, add_header, on_read_eof, on_close,
}
use nghttp2_corosio.Stream.Read.{on_data}
use nghttp2_corosio.Stream.Write.{write_impl, resume_write_impl, producer_callback}
use nghttp2_corosio.Stream.Status.{get_status}
use nghttp2_corosio.Session.Callbacks.{
  Frame, is_headers, is_data, starts_with, path_name, status_name, content_length_name, status_of,
  content_length_of,
}
use nghttp2_corosio.Session.Inputs.{
  Input, begin_headers, header, frame_recv, data_chunk, stream_close, pull, response, request, read,
  wake_read, write, wake_write, ask_status, reading, waking,
}

module _ {Event : Type 0} where
  -- What is addressed to an identifier reaches the stream that has it, as long as it is open.
  abbrev pub addressed : ℕ → (Stream Event → Stream Event) → Stream Event → Stream Event
  addressed id f s = if (s.id == id) && not s.closed then f s else s

  -- What is called on a reference reaches the object there.
  abbrev pub called : ℕ → ℕ → (Stream Event → Stream Event) → Stream Event → Stream Event
  called ref r f s = if r == ref then f s else s

  abbrev pub take_length : Option ℕ → Stream Event → Stream Event
  take_length none s = s
  take_length (some n) s = set_content_length n s

module _ {Event : Type 0} ⦃events : AsyncEvent Event⦄ where
  abbrev pub take_header : Bytes → Bytes → Stream Event → Stream Event
  take_header name value s =
      if same name path_name
      then set_path value s
      else if same name status_name
      then set_status (status_of value) s
      else if starts_with b':' name
      then s
      else add_header name value
          (if same name content_length_name then take_length (content_length_of value) s else s)

  abbrev pub take_frame : Frame → Stream Event → Stream Event
  take_frame f s =
      if (is_headers f.type || is_data f.type) && f.end_stream then on_read_eof s else s

module _ {Event : Type 0} ⦃events : AsyncEvent Event⦄ ⦃buffers : BufferCopy⦄ where
  -- The object at `ref` after one input.
  abbrev pub evolve : ℕ → Input → Stream Event → Stream Event
  evolve ref (begin_headers f) s = s
  evolve ref (header id name value) s = addressed id (take_header name value) s
  evolve ref (frame_recv f) s = addressed f.stream_id (take_frame f) s
  evolve ref (data_chunk id bytes) s = addressed id (on_data bytes) s
  evolve ref (stream_close id) s = addressed id on_close s
  evolve ref (pull r size) s = called ref r (λ t. (producer_callback size t).0) s
  evolve ref (response done r status headers) s = s
  evolve ref (request answer path n headers) s = s
  evolve ref (read r room) s = called ref r (λ t. (reading room t).0) s
  evolve ref (wake_read r ec) s = called ref r (λ t. (waking ec t).0) s
  evolve ref (write r bytes end) s = called ref r (λ t. (write_impl bytes end t).0) s
  evolve ref (wake_write r ec) s = called ref r (λ t. (resume_write_impl ec t).0) s
  evolve ref (ask_status r) s = called ref r (λ t. (get_status t).0) s

  -- The object at `ref` after a sequence of inputs.
  abbrev pub replay : ℕ → List Input → Stream Event → Stream Event
  replay ref [] s = s
  replay ref (i ∷ is) s = replay ref is (evolve ref i s)
