-- ===== src/Session/Preservation.antt =====
-- The invariant of a session under the callbacks of src/session.cpp and the calls of its streams.
pub mod Methods
use nghttp2_corosio.Base.{
  ℕ, ◌≡◌, refl, inl, inr, Bool, true, false, ◌&&◌, ◌||◌, Option, none, some, List, [], ◌∷◌, arith,
  Bytes, get_elem?, if◌then◌else◌, Bool-cases, Option-cases, same,
}
use nghttp2_corosio.Capy.{AsyncEvent, BufferCopy, ErrorCode}
use nghttp2_corosio.Stream.{
  Stream, Sink, Effect, consume_stream, resume_data, start_write, new_stream, set_id, set_path,
  set_status, set_content_length, add_header, on_read_eof,
}
use nghttp2_corosio.Stream.Read.{
  park, keep_chunk, on_data_to, on_data, read_some, resume_parked, resume_read,
}
use nghttp2_corosio.Stream.Read.Cases.{after_drain_cases, resume_parked_cases}
use nghttp2_corosio.Stream.Write.{write_impl, resume_write_impl, producer_callback}
use nghttp2_corosio.Stream.Status.{get_status}
use nghttp2_corosio.Session.{
  Session, Role, server, client, lookup, find_stream, at, with_stream, call, perform, create_stream,
  close_stream, prefix_of,
}
use nghttp2_corosio.Session.Callbacks.{
  Frame, is_headers, is_data, is_request, starts_with, path_name, status_name, content_length_name,
  on_begin_headers, on_header, on_content_length, content_length_of, status_of, dispatch_found,
  on_frame_recv, on_data_chunk_recv, on_stream_close,
}
use nghttp2_corosio.Session.Submit.{
  Submitted, assigned, refused, submit_response_to, submit_request_for,
}
use nghttp2_corosio.Session.Inputs.{
  Input, begin_headers, header, frame_recv, data_chunk, stream_close, pull, response, request, read,
  wake_read, write, wake_write, ask_status, invoke, reading, waking, respond, step, run,
}
use nghttp2_corosio.Session.Table.{update-append_last}
use nghttp2_corosio.Session.WellFormed.{Inv, enter-Inv, discard-Inv, update-Inv, close-Inv}
pub use nghttp2_corosio.Session.Preservation.Methods.{Keeps, Good}
use nghttp2_corosio.Session.Preservation.Methods.{
  with_stream-Good, create_stream-Good, close_stream-Good, on_data-Keeps, read_some-Keeps,
  resume_read-Keeps, invoke-Good,
}

module _ {Event : Type 0} ⦃events : AsyncEvent Event⦄ ⦃buffers : BufferCopy⦄ where
  -- nghttp2 opens a stream under an identifier that no stream of the table has.
  abbrev pub IsFresh : Session Event → Input → Type 0
  IsFresh x (begin_headers f) =
      (is_headers f.type && is_request f.category) ≡ true → lookup f.stream_id x.streams ≡ none
  IsFresh x (request (assigned id) path content_length headers) = lookup id x.streams ≡ none
  IsFresh x (request refused path content_length headers) = Unit
  IsFresh x (header id name value) = Unit
  IsFresh x (frame_recv f) = Unit
  IsFresh x (data_chunk id bytes) = Unit
  IsFresh x (stream_close id) = Unit
  IsFresh x (pull ref size) = Unit
  IsFresh x (response done ref status headers) = Unit
  IsFresh x (read ref room) = Unit
  IsFresh x (wake_read ref ec) = Unit
  IsFresh x (write ref bytes end) = Unit
  IsFresh x (wake_write ref ec) = Unit
  IsFresh x (ask_status ref) = Unit

  on_begin_headers-Good :
      (f : Frame) (x : Session Event)
      → IsFresh x (begin_headers f)
      → Good x
      → Good (on_begin_headers f x)
  unfolding on_begin_headers
  on_begin_headers-Good f x fresh v =
      elim (Bool-cases (is_headers f.type && is_request f.category)) [
        | inl e ↦ rw e (create_stream-Good f.stream_id x (fresh e) v)
        | inr e ↦ rw e v
      ]

  on_content_length-Good :
      (id : ℕ) (n : Option ℕ) (x : Session Event) → Good x → Good (on_content_length id n x)
  unfolding on_content_length set_content_length
  on_content_length-Good id none x v = v
  on_content_length-Good id (some n) x v =
      with_stream-Good id (set_content_length n) x (λ s. (refl, refl)) v

  on_header-Good :
      (id : ℕ) (name value : Bytes) (x : Session Event) → Good x → Good (on_header id name value x)
  unfolding on_header
  on_header-Good id name value x v = elim (Bool-cases (same name path_name)) [
    | inl e ↦ rw e (with_stream-Good id (set_path value) x (unfold set_path in λ s. (refl, refl)) v)
    | inr e ↦ rw e (elim (Bool-cases (same name status_name)) [
      | inl e ↦ rw e (
          with_stream-Good id (set_status (status_of value)) x
            (unfold set_status in λ s. (refl, refl)) v)
      | inr e ↦ rw e (elim (Bool-cases (starts_with b':' name)) [
        | inl e ↦ rw e v
        | inr e ↦ rw e (elim (Bool-cases (same name content_length_name)) [
          | inl e ↦ rw e (added _ (on_content_length-Good id (content_length_of value) x v))
          | inr e ↦ rw e (added x v)
        ])
      ])
    ])
  ]
    where
      added : (y : Session Event) → Good y → Good (with_stream id (add_header name value) y)
      added y w =
          with_stream-Good id (add_header name value) y (unfold add_header in λ s. (refl, refl)) w

  dispatch_found-Good : (o : Option ℕ) (x : Session Event) → Good x → Good (dispatch_found o x)
  unfolding dispatch_found
  dispatch_found-Good none x v = v
  dispatch_found-Good (some ref) x v = v

  on_frame_recv-Good : (f : Frame) (x : Session Event) → Good x → Good (on_frame_recv f x)
  unfolding on_frame_recv
  on_frame_recv-Good f x v = elim (Bool-cases (is_headers f.type && is_request f.category)) [
    | inl e ↦ rw e (ended _ (dispatch_found-Good (find_stream x f.stream_id) x v))
    | inr e ↦ rw e (ended x v)
  ]
    where
      ended :
          (y : Session Event)
          → Good y
          → Good (
              if (is_headers f.type || is_data f.type) && f.end_stream
              then with_stream f.stream_id on_read_eof y
              else y)
      ended y w = elim (Bool-cases ((is_headers f.type || is_data f.type) && f.end_stream)) [
        | inl e ↦
            rw e (
              with_stream-Good f.stream_id on_read_eof y (unfold on_read_eof in λ s. (refl, refl))
                w)
        | inr e ↦ rw e w
      ]

  on_data_chunk_recv-Good :
      (id : ℕ) (bytes : Bytes) (x : Session Event) → Good x → Good (on_data_chunk_recv id bytes x)
  unfolding on_data_chunk_recv call
  on_data_chunk_recv-Good id bytes x v =
      with_stream-Good id (on_data bytes) _ (on_data-Keeps bytes) v

  respond-Good :
      (done : Bool) (ref status : ℕ) (headers : List (Bytes × Bytes)) (o : Option (Stream Event))
      (x : Session Event)
      → Good x
      → Good (respond done ref status headers o x)
  unfolding submit_response_to
  respond-Good done ref status headers none x v = v
  respond-Good true ref status headers (some s) x v = v
  respond-Good false ref status headers (some s) x v = v

  submit_request_for-Good :
      (answer : Submitted) (path : Bytes) (n : Option ℕ) (headers : List (Bytes × Bytes))
      (x : Session Event) (role : Role)
      → x.role ≡ role
      → IsFresh x (request answer path n headers)
      → Good x
      → Good (submit_request_for answer path n headers x).0
  unfolding submit_request_for
  submit_request_for-Good answer path n headers x server e fresh v = rw (e, submit_request_for) v
  submit_request_for-Good refused path n headers x client e fresh v =
      rw (e, submit_request_for) (discard-Inv x.heap x.streams _ refl v)
  submit_request_for-Good (assigned id) path n headers x client e fresh v =
      rw (e, submit_request_for, update-append_last)
        (enter-Inv x.heap x.streams (set_id id (prefix_of x id) (new_stream 0 x.log_prefix)) fresh
          refl v)

  pub step-Good : (x : Session Event) (i : Input) → IsFresh x i → Good x → Good (step x i)
  unfolding step on_stream_close write_impl resume_write_impl producer_callback get_status
  step-Good x (begin_headers f) fresh v = on_begin_headers-Good f x fresh v
  step-Good x (header id name value) fresh v = on_header-Good id name value x v
  step-Good x (frame_recv f) fresh v = on_frame_recv-Good f x v
  step-Good x (data_chunk id bytes) fresh v = on_data_chunk_recv-Good id bytes x v
  step-Good x (stream_close id) fresh v = close_stream-Good id x v
  step-Good x (pull ref size) fresh v =
      invoke-Good ref (λ s. ((producer_callback size s).0, [])) x (λ s. ground arith) v
  step-Good x (response done ref status headers) fresh v =
      respond-Good done ref status headers (get_elem? x.heap ref) x v
  step-Good x (request answer path n headers) fresh v =
      submit_request_for-Good answer path n headers x x.role refl fresh v
  step-Good x (read ref room) fresh v = invoke-Good ref (reading room) x (read_some-Keeps room) v
  step-Good x (wake_read ref ec) fresh v = invoke-Good ref (waking ec) x (resume_read-Keeps ec) v
  step-Good x (write ref bytes end) fresh v =
      invoke-Good ref (λ s. let r = write_impl bytes end s in (r.0, r.2)) x (λ s. ground arith) v
  step-Good x (wake_write ref ec) fresh v =
      invoke-Good ref (λ s. ((resume_write_impl ec s).0, [])) x (λ s. ground arith) v
  step-Good x (ask_status ref) fresh v =
      invoke-Good ref (λ s. ((get_status s).0, [])) x (λ s. ground arith) v

  abbrev pub AreFresh : Session Event → List Input → Type 0
  AreFresh x [] = Unit
  AreFresh x (i ∷ is) = IsFresh x i × AreFresh (step x i) is

  pub run-Good : (x : Session Event) (is : List Input) → AreFresh x is → Good x → Good (run x is)
  unfolding run
  run-Good x [] fresh v = v
  run-Good x (i ∷ is) fresh v = run-Good (step x i) is fresh.1 (step-Good x i fresh.0 v)
