-- ===== src/Session/Delivery/Table.antt =====
-- An identifier of a session's table leads to the same Stream object until nghttp2 closes the stream
-- (src/session.cpp).
use nghttp2_corosio.Base.{
  ℕ, ◌≡◌, ◌≢◌, refl, ap, ◌∙◌, inl, inr, Bool, true, false, ◌&&◌, Option, none, some, List, [], ◌∷◌,
  arith, Bytes, get_elem?, length, ◌==◌, Bool-cases, ==_iff, Option-cases,
}
use nghttp2_corosio.Capy.{AsyncEvent, BufferCopy}
use nghttp2_corosio.Stream.{Stream, Effect, Headers}
use nghttp2_corosio.Stream.Read.{on_data}
use nghttp2_corosio.Stream.Write.{write_impl, resume_write_impl, producer_callback}
use nghttp2_corosio.Stream.Status.{get_status}
use nghttp2_corosio.Session.{
  Session, Role, server, client, lookup, emplace, find_stream, with_stream, at, perform, call,
  start_write, consume_connection, create_stream, close_stream, dispatch_request,
}
use nghttp2_corosio.Session.Callbacks.{
  Frame, is_headers, is_request, on_begin_headers, on_data_chunk_recv, on_stream_close,
}
use nghttp2_corosio.Session.Submit.{
  Submitted, assigned, refused, submit_response_to, submit_request_for, request_submitted,
  make_placeholder,
}
use nghttp2_corosio.Session.Inputs.{
  Input, begin_headers, header, frame_recv, data_chunk, stream_close, pull, response, request, read,
  wake_read, write, wake_write, ask_status, invoke, reading, waking, respond, step,
}
use nghttp2_corosio.Session.Table.{lookup-emplace, lookup-erase}
use nghttp2_corosio.Session.Preservation.{Good, IsFresh}
use nghttp2_corosio.Session.Window.Callbacks.{
  IsCallbackRelation, on_header-related, on_frame_recv-related,
}

-- nghttp2 does not close the stream `id`.
abbrev pub Spares : ℕ → Input → Type 0
Spares id (stream_close k) = k ≢ id
Spares id (begin_headers f) = Unit
Spares id (header k name value) = Unit
Spares id (frame_recv f) = Unit
Spares id (data_chunk k bytes) = Unit
Spares id (pull ref size) = Unit
Spares id (response done ref status headers) = Unit
Spares id (request answer path n headers) = Unit
Spares id (read ref room) = Unit
Spares id (wake_read ref ec) = Unit
Spares id (write ref bytes end) = Unit
Spares id (wake_write ref ec) = Unit
Spares id (ask_status ref) = Unit

pub entered :
    (id ref k r : ℕ) (m : List (ℕ × ℕ))
    → lookup k m ≡ none
    → lookup id m ≡ some ref
    → lookup id (emplace k r m) ≡ some ref
entered id ref k r m fresh found = elim (Bool-cases (k == id)) [
  | inl same ↦ absurd (ground (arith, ap (λ j. lookup j m) ((==_iff k id).0 same)))
  | inr differ ↦ ground (arith, lookup-emplace k r id m fresh)
]

module _ {Event : Type 0} ⦃events : AsyncEvent Event⦄ ⦃buffers : BufferCopy⦄ where
  -- The table is as it was.
  abbrev SameTable : Session Event → Session Event → Type 0
  SameTable x y = y.streams ≡ x.streams

  with_stream-SameTable :
      (k : ℕ) (f : Stream Event → Stream Event) (x : Session Event)
      → SameTable x (with_stream k f x)
  unfolding with_stream find_stream at
  with_stream-SameTable k f x = elim (Option-cases (lookup k x.streams)) [
    | inl e ↦ rw (e, with_stream) refl
    | inr (ref, e) ↦ rw (e, with_stream) refl
  ]

  table_callbacks : IsCallbackRelation {Event = Event} SameTable
  table_callbacks = record {
    same = λ x. refl;
    trans = λ v w. w ∙ v;
    on_stream = λ k f x _. with_stream-SameTable k f x;
    on_dispatch = unfold dispatch_request in λ ref x. refl;
  }

  perform-SameTable : (fx : List Effect) (x : Session Event) → SameTable x (perform fx x)
  unfolding perform call start_write
  perform-SameTable [] x = refl
  perform-SameTable (Effect.consume_stream k n ∷ fx) x = perform-SameTable fx _
  perform-SameTable (Effect.resume_data k ∷ fx) x = perform-SameTable fx _
  perform-SameTable (Effect.start_write ∷ fx) x = perform-SameTable fx _

  invoke-SameTable :
      (ref : ℕ) (f : Stream Event → Stream Event × List Effect) (x : Session Event)
      → SameTable x (invoke ref f x)
  unfolding invoke at
  invoke-SameTable ref f x = elim (Option-cases (get_elem? x.heap ref)) [
    | inl e ↦ rw (e, invoke) refl
    | inr (s, e) ↦ rw (e, invoke) (perform-SameTable (f s).1 (at ref (λ t. (f t).0) x))
  ]

  respond-SameTable :
      (done : Bool) (ref status : ℕ) (headers : Headers) (o : Option (Stream Event))
      (x : Session Event)
      → SameTable x (respond done ref status headers o x)
  unfolding submit_response_to call start_write
  respond-SameTable done ref status headers none x = refl
  respond-SameTable true ref status headers (some s) x = refl
  respond-SameTable false ref status headers (some s) x = refl

  -- An identifier of the table still leads to the same object.
  abbrev Leads : ℕ → ℕ → Session Event → Type 0
  Leads id ref x = lookup id x.streams ≡ some ref

  on_begin_headers-Leads :
      (id ref : ℕ) (f : Frame) (x : Session Event)
      → IsFresh x (begin_headers f)
      → Leads id ref x
      → Leads id ref (on_begin_headers f x)
  unfolding on_begin_headers create_stream
  on_begin_headers-Leads id ref f x fresh found =
      elim (Bool-cases (is_headers f.type && is_request f.category)) [
        | inl e ↦ rw e (entered id ref f.stream_id (length x.heap) x.streams (fresh e) found)
        | inr e ↦ rw e found
      ]

  close_stream-Leads :
      (id ref k : ℕ) (x : Session Event)
      → k ≢ id
      → Good x
      → Leads id ref x
      → Leads id ref (close_stream k x)
  unfolding close_stream find_stream at
  close_stream-Leads id ref k x differ good found = elim (Option-cases (lookup k x.streams)) [
    | inl e ↦ rw (e, close_stream) found
    | inr (r, e) ↦
        rw (e, close_stream) (ground (arith, lookup-erase k id x.streams good.distinct, differ))
  ]

  submit_request_for-Leads :
      (id ref : ℕ) (answer : Submitted) (path : Bytes) (n : Option ℕ) (headers : Headers)
      (x : Session Event) (role : Role)
      → x.role ≡ role
      → IsFresh x (request answer path n headers)
      → Leads id ref x
      → Leads id ref (submit_request_for answer path n headers x).0
  unfolding submit_request_for request_submitted make_placeholder call start_write at
  submit_request_for-Leads id ref answer path n headers x server e fresh found =
      rw (e, submit_request_for) found
  submit_request_for-Leads id ref refused path n headers x client e fresh found =
      rw (e, submit_request_for) found
  submit_request_for-Leads id ref (assigned k) path n headers x client e fresh found =
      rw (e, submit_request_for) (entered id ref k (length x.heap) x.streams fresh found)

  pub step-Leads :
      (id ref : ℕ) (x : Session Event) (i : Input)
      → IsFresh x i
      → Spares id i
      → Good x
      → find_stream x id ≡ some ref
      → find_stream (step x i) id ≡ some ref
  unfolding step find_stream on_stream_close on_data_chunk_recv call
  step-Leads id ref x (begin_headers f) fresh spared good found =
      on_begin_headers-Leads id ref f x fresh found
  step-Leads id ref x (header k name value) fresh spared good found =
      ap (lookup id) (on_header-related table_callbacks k name value x) ∙ found
  step-Leads id ref x (frame_recv f) fresh spared good found =
      ap (lookup id) (on_frame_recv-related table_callbacks f x) ∙ found
  step-Leads id ref x (data_chunk k bytes) fresh spared good found =
      ap (lookup id)
        (with_stream-SameTable k (on_data bytes) (call (consume_connection (length bytes)) x))
      ∙ found
  step-Leads id ref x (stream_close k) fresh spared good found =
      close_stream-Leads id ref k x spared good found
  step-Leads id ref x (pull r size) fresh spared good found =
      ap (lookup id) (invoke-SameTable r (λ s. ((producer_callback size s).0, [])) x) ∙ found
  step-Leads id ref x (response done r status headers) fresh spared good found =
      ap (lookup id) (respond-SameTable done r status headers (get_elem? x.heap r) x) ∙ found
  step-Leads id ref x (request answer path n headers) fresh spared good found =
      submit_request_for-Leads id ref answer path n headers x x.role refl fresh found
  step-Leads id ref x (read r room) fresh spared good found =
      ap (lookup id) (invoke-SameTable r (reading room) x) ∙ found
  step-Leads id ref x (wake_read r ec) fresh spared good found =
      ap (lookup id) (invoke-SameTable r (waking ec) x) ∙ found
  step-Leads id ref x (write r bytes end) fresh spared good found =
      ap (lookup id) (invoke-SameTable r (λ s. let w = write_impl bytes end s in (w.0, w.2)) x)
      ∙ found
  step-Leads id ref x (wake_write r ec) fresh spared good found =
      ap (lookup id) (invoke-SameTable r (λ s. ((resume_write_impl ec s).0, [])) x) ∙ found
  step-Leads id ref x (ask_status r) fresh spared good found =
      ap (lookup id) (invoke-SameTable r (λ s. ((get_status s).0, [])) x) ∙ found
