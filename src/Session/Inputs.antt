-- ===== src/Session/Inputs.antt =====
-- All that can happen to a session while it runs: nghttp2's callbacks (src/session.cpp) and the
-- calls and wake-ups of the coroutines that use its streams (src/stream_impl.hpp).
use nghttp2_corosio.Base.{ℕ, Bool, Option, none, some, List, [], ◌∷◌, Bytes, get_elem?}
use nghttp2_corosio.Capy.{AsyncEvent, BufferCopy, ErrorCode}
use nghttp2_corosio.Stream.{Stream, Headers, Effect}
use nghttp2_corosio.Stream.Read.{read_some, resume_read}
use nghttp2_corosio.Stream.Write.{write_impl, resume_write_impl, producer_callback}
use nghttp2_corosio.Stream.Status.{get_status}
use nghttp2_corosio.Session.{Session, at, perform}
use nghttp2_corosio.Session.Callbacks.{
  Frame, on_begin_headers, on_header, on_frame_recv, on_data_chunk_recv, on_stream_close,
}
use nghttp2_corosio.Session.Submit.{Submitted, submit_response_to, submit_request_for}

-- Streams are named by identifier where nghttp2 does so, and by reference where the caller holds one.
pub data Input : Type 0 where
  begin_headers : Frame → Input
  header : ℕ → Bytes → Bytes → Input
  frame_recv : Frame → Input
  data_chunk : ℕ → Bytes → Input
  stream_close : ℕ → Input
  pull : ℕ → ℕ → Input
  response : Bool → ℕ → ℕ → Headers → Input
  request : Submitted → Bytes → Option ℕ → Headers → Input
  read : ℕ → ℕ → Input
  wake_read : ℕ → Option ErrorCode → Input
  write : ℕ → Bytes → Bool → Input
  wake_write : ℕ → Option ErrorCode → Input
  ask_status : ℕ → Input

module _ {Event : Type 0} ⦃events : AsyncEvent Event⦄ ⦃buffers : BufferCopy⦄ where
  -- A method of the stream at a reference, with what it asks of the session.
  unfoldable pub invoke :
      ℕ → (Stream Event → Stream Event × List Effect) → Session Event → Session Event
  unfolding at perform
  invoke ref f x = elim (get_elem? x.heap ref) [
    | none ↦ x
    | some s ↦ perform (f s).1 (at ref (λ t. (f t).0) x)
  ]

  abbrev pub reading : ℕ → Stream Event → Stream Event × List Effect
  reading room s = let r = read_some room s in (r.0, r.2)

  abbrev pub waking : Option ErrorCode → Stream Event → Stream Event × List Effect
  waking ec s = elim (resume_read ec s) [ none ↦ (s, []) | some r ↦ (r.0, r.2) ]

  abbrev pub respond :
      Bool → ℕ → ℕ → Headers → Option (Stream Event) → Session Event → Session Event
  respond done ref status headers none x = x
  respond done ref status headers (some s) x = (submit_response_to done ref s.id status headers x).0

  unfoldable pub step : Session Event → Input → Session Event
  unfolding invoke
  step x (begin_headers f) = on_begin_headers f x
  step x (header id name value) = on_header id name value x
  step x (frame_recv f) = on_frame_recv f x
  step x (data_chunk id bytes) = on_data_chunk_recv id bytes x
  step x (stream_close id) = on_stream_close id x
  step x (pull ref size) = invoke ref (λ s. ((producer_callback size s).0, [])) x
  step x (response done ref status headers) =
      respond done ref status headers (get_elem? x.heap ref) x
  step x (request answer path content_length headers) =
      (submit_request_for answer path content_length headers x).0
  step x (read ref room) = invoke ref (reading room) x
  step x (wake_read ref ec) = invoke ref (waking ec) x
  step x (write ref bytes end) = invoke ref (λ s. let r = write_impl bytes end s in (r.0, r.2)) x
  step x (wake_write ref ec) = invoke ref (λ s. ((resume_write_impl ec s).0, [])) x
  step x (ask_status ref) = invoke ref (λ s. ((get_status s).0, [])) x

  unfoldable pub run : Session Event → List Input → Session Event
  unfolding step
  run x [] = x
  run x (i ∷ is) = run (step x i) is
