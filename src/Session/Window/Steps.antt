-- ===== src/Session/Window/Steps.antt =====
-- The window of a stream under each input of a session (src/session.cpp).
use nghttp2_corosio.Base.{
  ℕ, ◌+◌, ◌≡◌, refl, ap, subst, ◌∙◌, inl, inr, Bool, true, false, ◌&&◌, Option, none, some, [], ◌∷◌,
  ◌++◌, arith, Bytes, All, length, get_elem?, Option-cases, Bool-cases,
}
use nghttp2_corosio.Capy.{AsyncEvent, BufferCopy}
use nghttp2_corosio.Stream.{Stream, Headers, new_stream, set_id, on_close}
use nghttp2_corosio.Stream.Read.{on_data}
use nghttp2_corosio.Stream.Read.Content.{IsSound, on_data-IsSound}
use nghttp2_corosio.Stream.Write.{write_impl, resume_write_impl, producer_callback}
use nghttp2_corosio.Stream.Status.{get_status}
use nghttp2_corosio.Session.{
  Session, Role, server, client, consume_connection, call, start_write, at, lookup, find_stream,
  with_stream, create_stream, close_stream, prefix_of, dispatch_request,
}
use nghttp2_corosio.Session.Callbacks.{
  Frame, is_headers, is_request, on_begin_headers, on_stream_close, on_data_chunk_recv,
}
use nghttp2_corosio.Session.Submit.{
  Submitted, assigned, refused, submit_response_to, submit_request_for, request_submitted,
  make_placeholder,
}
use nghttp2_corosio.Session.Inputs.{
  Input, begin_headers, header, frame_recv, data_chunk, stream_close, pull, response, request, read,
  wake_read, write, wake_write, ask_status, reading, waking, respond, step,
}
use nghttp2_corosio.Session.Table.{update-append_last}
use nghttp2_corosio.Session.WellFormed.{IsOpen-some}
use nghttp2_corosio.Session.Preservation.{Good}
use nghttp2_corosio.Session.Window.{
  if_stream, stream_credits, stream_credits-append, weight, held-update, update-All, Balance,
  Balance-trans, Balance-same, Balance-at, Balance-with_stream, Balance-append,
}
use nghttp2_corosio.Session.Window.Callbacks.{
  IsCallbackRelation, on_close-Neutral, on_header-related, on_frame_recv-related,
}
use nghttp2_corosio.Session.Window.Reads.{read_some-Pays, resume_read-Pays, weight-on_data}
use nghttp2_corosio.Session.Window.Methods.{
  Balance-invoke, IsSound-at, producer_callback-Pays, write_impl-Pays, resume_write_impl-Pays,
  get_status-Pays,
}

-- The body bytes that nghttp2 delivers for the stream `id` with an input.
abbrev pub delivered_to : ℕ → Input → ℕ
delivered_to id (data_chunk k bytes) = if_stream id k (length bytes)
delivered_to id (begin_headers f) = 0
delivered_to id (header k name value) = 0
delivered_to id (frame_recv f) = 0
delivered_to id (stream_close k) = 0
delivered_to id (pull ref size) = 0
delivered_to id (response done ref status headers) = 0
delivered_to id (request answer path n headers) = 0
delivered_to id (read ref room) = 0
delivered_to id (wake_read ref ec) = 0
delivered_to id (write ref bytes end) = 0
delivered_to id (wake_write ref ec) = 0
delivered_to id (ask_status ref) = 0

module _ {Event : Type 0} where
  -- A read_some() call starts only where none waits.
  abbrev pub IsSoleReader : Session Event → Input → Type 0
  IsSoleReader x (read ref room) =
      (s : Stream Event) → get_elem? x.heap ref ≡ some s → s.read_sink ≡ none
  IsSoleReader x (begin_headers f) = Unit
  IsSoleReader x (header k name value) = Unit
  IsSoleReader x (frame_recv f) = Unit
  IsSoleReader x (data_chunk k bytes) = Unit
  IsSoleReader x (stream_close k) = Unit
  IsSoleReader x (pull ref size) = Unit
  IsSoleReader x (response done ref status headers) = Unit
  IsSoleReader x (request answer path n headers) = Unit
  IsSoleReader x (wake_read ref ec) = Unit
  IsSoleReader x (write ref bytes end) = Unit
  IsSoleReader x (wake_write ref ec) = Unit
  IsSoleReader x (ask_status ref) = Unit

  abbrev pub AllSound : Session Event → Type 0
  AllSound x = All IsSound x.heap

module _ {Event : Type 0} ⦃events : AsyncEvent Event⦄ ⦃buffers : BufferCopy⦄ where
  pub new_stream-IsSound : (id : ℕ) (tag : Bytes) → IsSound {Event = Event} (new_stream id tag)
  unfolding new_stream
  new_stream-IsSound id tag = record { front = refl; no_overtaking = tt }

  on_begin_headers-Balance :
      (id : ℕ) (f : Frame) (x : Session Event) → AllSound x → Balance id 0 x (on_begin_headers f x)
  unfolding on_begin_headers create_stream new_stream
  on_begin_headers-Balance id f x v =
      elim (Bool-cases (is_headers f.type && is_request f.category)) [
        | inl e ↦ rw e (
            Balance-append id (new_stream f.stream_id (prefix_of x f.stream_id)) x _
              (new_stream-IsSound f.stream_id _) refl refl refl v)
        | inr e ↦ rw e (Balance-same id 0 x x v refl refl)
      ]

  -- A callback that only changes the streams' other fields.
  header_callbacks :
      (id : ℕ) → IsCallbackRelation {Event = Event} (λ x y. AllSound x → Balance id 0 x y)
  header_callbacks id = record {
    same = λ x v. Balance-same id 0 x x v refl refl;
    trans = λ v w sound. Balance-trans id 0 0 (v sound) (w (v sound).sound);
    on_stream = λ k f x neutral v. Balance-with_stream id k f x neutral v;
    on_dispatch = unfold dispatch_request in λ ref x v. Balance-same id 0 x _ v refl refl;
  }

  close_stream-Balance :
      (id k : ℕ) (x : Session Event) → AllSound x → Balance id 0 x (close_stream k x)
  unfolding close_stream find_stream
  close_stream-Balance id k x v = elim (Option-cases (lookup k x.streams)) [
    | inl e ↦ rw (e, close_stream) (Balance-same id 0 x x v refl refl)
    | inr (ref, e) ↦
        let w = Balance-at id ref on_close x on_close-Neutral v in
        rw (e, close_stream) (record { sound = w.sound; owed = w.owed })
  ]

  -- What arrives is held by the stream of its identifier, or by none.
  on_data-Balance :
      (id k : ℕ) (bytes : Bytes) (x : Session Event)
      → Good x
      → AllSound x
      → Balance id (if_stream id k (length bytes)) x (with_stream k (on_data bytes) x)
  unfolding with_stream find_stream at
  on_data-Balance id k bytes x good v = elim (Option-cases (lookup k x.streams)) [
    | inl e ↦ rw (e, with_stream) (Balance-same id _ x x v refl refl)
    | inr (ref, e) ↦
        let (s, there, i, _) = IsOpen-some k _ (good.open_streams k ref e) in
        let grown = held-update id ref (on_data bytes) x.heap there in
        let more : weight id (on_data bytes s) ≡ weight id s + if_stream id k (length bytes) =
          weight-on_data id bytes s (IsSound-at ref x.heap v there)
          ∙ ap (λ j. weight id s + if_stream id j (length bytes)) i in
        rw (e, with_stream)
          (record {
            sound = update-All ref (on_data bytes) x.heap (λ t _ w. on_data-IsSound bytes t w) v;
            owed = omega (arith, grown, more);
          })
  ]

  on_data_chunk_recv-Balance :
      (id k : ℕ) (bytes : Bytes) (x : Session Event)
      → Good x
      → AllSound x
      → Balance id (if_stream id k (length bytes)) x (on_data_chunk_recv k bytes x)
  unfolding on_data_chunk_recv call
  on_data_chunk_recv-Balance id k bytes x good v =
      subst (λ n. Balance id n x (on_data_chunk_recv k bytes x)) (omega arith)
        (Balance-trans id 0 (if_stream id k (length bytes))
          (Balance-same id 0 x (call (consume_connection (length bytes)) x) v refl
            (stream_credits-append id x.native _ ∙ (omega arith)))
          (on_data-Balance id k bytes (call (consume_connection (length bytes)) x) good v))

  respond-Balance :
      (id : ℕ) (done : Bool) (ref status : ℕ) (headers : Headers) (o : Option (Stream Event))
      (x : Session Event)
      → AllSound x
      → Balance id 0 x (respond done ref status headers o x)
  unfolding submit_response_to call start_write
  respond-Balance id done ref status headers none x v = Balance-same id 0 x x v refl refl
  respond-Balance id true ref status headers (some s) x v =
      Balance-same id 0 x _ v refl (stream_credits-append id x.native _ ∙ (omega arith))
  respond-Balance id false ref status headers (some s) x v =
      Balance-same id 0 x _ v refl (stream_credits-append id x.native _ ∙ (omega arith))

  submit_request_for-Balance :
      (id : ℕ) (answer : Submitted) (path : Bytes) (n : Option ℕ) (headers : Headers)
      (x : Session Event) (role : Role)
      → x.role ≡ role
      → AllSound x
      → Balance id 0 x (submit_request_for answer path n headers x).0
  unfolding submit_request_for request_submitted make_placeholder call start_write at new_stream
      set_id
  submit_request_for-Balance id answer path n headers x server e v =
      let y = (submit_request_for answer path n headers x).0 in
      let same : (y.heap ≡ x.heap) × (y.native ≡ x.native) =
        rw (e, submit_request_for) (refl, refl) in
      Balance-same id 0 x y v same.0 (ap (stream_credits id) same.1)
  submit_request_for-Balance id refused path n headers x client e v =
      let y = (submit_request_for refused path n headers x).0 in
      let s0 = new_stream 0 x.log_prefix in
      let made : y.heap ≡ x.heap ++ s0 ∷ [] = rw (e, submit_request_for) refl in
      Balance-append id s0 x y (new_stream-IsSound 0 x.log_prefix) refl made
        (rw (e, submit_request_for) (stream_credits-append id x.native _ ∙ (omega arith))) v
  submit_request_for-Balance id (assigned k) path n headers x client e v =
      let y = (submit_request_for (assigned k) path n headers x).0 in
      let s0 = set_id k (prefix_of x k) (new_stream 0 x.log_prefix) in
      let made : y.heap ≡ x.heap ++ s0 ∷ [] = rw (e, submit_request_for, update-append_last) refl in
      Balance-append id s0 x y (record { front = refl; no_overtaking = tt }) refl made
        (rw (e, submit_request_for) (stream_credits-append id x.native _ ∙ (omega arith))) v

  pub step-Balance :
      (id : ℕ) (x : Session Event) (i : Input)
      → IsSoleReader x i
      → Good x
      → AllSound x
      → Balance id (delivered_to id i) x (step x i)
  unfolding step on_stream_close
  step-Balance id x (begin_headers f) alone good v = on_begin_headers-Balance id f x v
  step-Balance id x (header k name value) alone good v =
      on_header-related (header_callbacks id) k name value x v
  step-Balance id x (frame_recv f) alone good v = on_frame_recv-related (header_callbacks id) f x v
  step-Balance id x (data_chunk k bytes) alone good v =
      on_data_chunk_recv-Balance id k bytes x good v
  step-Balance id x (stream_close k) alone good v = close_stream-Balance id k x v
  step-Balance id x (pull ref size) alone good v =
      Balance-invoke id ref (λ s. ((producer_callback size s).0, [])) x
        (λ s _ w. producer_callback-Pays id size s w) v
  step-Balance id x (response done ref status headers) alone good v =
      respond-Balance id done ref status headers (get_elem? x.heap ref) x v
  step-Balance id x (request answer path n headers) alone good v =
      submit_request_for-Balance id answer path n headers x x.role refl v
  step-Balance id x (read ref room) alone good v =
      Balance-invoke id ref (reading room) x (λ s e w. read_some-Pays id room s (alone s e) w) v
  step-Balance id x (wake_read ref ec) alone good v =
      Balance-invoke id ref (waking ec) x (λ s _ w. resume_read-Pays id ec s w) v
  step-Balance id x (write ref bytes end) alone good v =
      Balance-invoke id ref (λ s. let r = write_impl bytes end s in (r.0, r.2)) x
        (λ s _ w. write_impl-Pays id bytes end s w) v
  step-Balance id x (wake_write ref ec) alone good v =
      Balance-invoke id ref (λ s. ((resume_write_impl ec s).0, [])) x
        (λ s _ w. resume_write_impl-Pays id ec s w) v
  step-Balance id x (ask_status ref) alone good v =
      Balance-invoke id ref (λ s. ((get_status s).0, [])) x (λ s _ w. get_status-Pays id s w) v
