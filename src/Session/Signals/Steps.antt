-- ===== src/Session/Signals/Steps.antt =====
-- The wake-ups and the credits of each input of a session (src/session.cpp).
use nghttp2_corosio.Base.{
  ℕ, ◌≡◌, refl, ap, ◌∙◌, inl, inr, Bool, true, false, Option, none, some, [], arith, Bytes, length,
  get_elem?, Option-cases, Bool-cases,
}
use nghttp2_corosio.Capy.{AsyncEvent, BufferCopy, ErrorCode}
use nghttp2_corosio.Stream.{Stream, Headers, consume}
use nghttp2_corosio.Stream.Read.{on_data, read_some, resume_read}
use nghttp2_corosio.Stream.Read.Cases.{after_drain_cases, resume_parked_cases}
use nghttp2_corosio.Stream.Write.{write_impl, resume_write_impl, producer_callback}
use nghttp2_corosio.Stream.Status.{get_status}
use nghttp2_corosio.Session.{
  Session, Role, server, client, consume_connection, call, start_write, at,
}
use nghttp2_corosio.Session.Callbacks.{on_stream_close, on_data_chunk_recv}
use nghttp2_corosio.Session.Submit.{
  Submitted, assigned, refused, submit_response_to, submit_request_for, request_submitted,
  make_placeholder,
}
use nghttp2_corosio.Session.Inputs.{
  Input, begin_headers, header, frame_recv, data_chunk, stream_close, pull, response, request, read,
  wake_read, write, wake_write, ask_status, reading, waking, respond, step,
}
use nghttp2_corosio.Session.Signals.{
  credits, work, credits-append, work-connection, signals, Effects, Effects-leaves,
  with_stream-Effects, invoke-Effects,
}
use nghttp2_corosio.Session.Signals.Callbacks.{
  on_begin_headers-Leaves, on_header-Leaves, on_frame_recv-Leaves, close_stream-Leaves,
}

-- The body bytes that nghttp2 delivers with an input.
abbrev pub delivered : Input → ℕ
delivered (data_chunk id bytes) = length bytes
delivered (begin_headers f) = 0
delivered (header id name value) = 0
delivered (frame_recv f) = 0
delivered (stream_close id) = 0
delivered (pull ref size) = 0
delivered (response done ref status headers) = 0
delivered (request answer path n headers) = 0
delivered (read ref room) = 0
delivered (wake_read ref ec) = 0
delivered (write ref bytes end) = 0
delivered (wake_write ref ec) = 0
delivered (ask_status ref) = 0

abbrev pub is_assigned : Submitted → Bool
is_assigned (assigned id) = true
is_assigned refused = false

-- Whether nghttp2 takes the headers that it is given with an input.
abbrev pub is_taken : Input → Bool
is_taken (response done ref status headers) = done
is_taken (request answer path n headers) = is_assigned answer
is_taken (data_chunk id bytes) = true
is_taken (begin_headers f) = true
is_taken (header id name value) = true
is_taken (frame_recv f) = true
is_taken (stream_close id) = true
is_taken (pull ref size) = true
is_taken (read ref room) = true
is_taken (wake_read ref ec) = true
is_taken (write ref bytes end) = true
is_taken (wake_write ref ec) = true
is_taken (ask_status ref) = true

module _ {Event : Type 0} ⦃events : AsyncEvent Event⦄ ⦃buffers : BufferCopy⦄ where
  respond-Effects :
      (done : Bool) (ref status : ℕ) (headers : Headers) (o : Option (Stream Event))
      (x : Session Event)
      → Effects 0 done x (respond done ref status headers o x)
  unfolding submit_response_to call start_write
  respond-Effects done ref status headers none x = Effects-leaves done x x refl refl
  respond-Effects true ref status headers (some s) x = record {
    credit = credits-append x.native _ ∙ (omega arith);
    signal = inr (inl (events.is_set-set x.write_ready));
  }
  respond-Effects false ref status headers (some s) x = record {
    credit = credits-append x.native _ ∙ (omega arith);
    signal = inr (inr refl);
  }

  submit_request_for-Effects :
      (answer : Submitted) (path : Bytes) (n : Option ℕ) (headers : Headers) (x : Session Event)
      (role : Role)
      → x.role ≡ role
      → Effects 0 (is_assigned answer) x (submit_request_for answer path n headers x).0
  unfolding submit_request_for request_submitted make_placeholder call start_write at
  submit_request_for-Effects answer path n headers x server e =
      let same : ((submit_request_for answer path n headers x).0.native ≡ x.native)
          × ((submit_request_for answer path n headers x).0.write_ready ≡ x.write_ready) =
        rw (e, submit_request_for) (refl, refl) in
      Effects-leaves (is_assigned answer) x _ same.0 same.1
  submit_request_for-Effects refused path n headers x client e = record {
    credit = rw (e, submit_request_for) (credits-append x.native _ ∙ (omega arith));
    signal = inr (inr refl);
  }
  submit_request_for-Effects (assigned id) path n headers x client e = record {
    credit = rw (e, submit_request_for) (credits-append x.native _ ∙ (omega arith));
    signal = inr (inl (rw (e, submit_request_for) (events.is_set-set x.write_ready)));
  }

  read_some-signals : (room : ℕ) (s : Stream Event) → signals true (reading room s).1 ≡ true
  unfolding read_some
  read_some-signals room s =
      after_drain_cases (λ r. signals true r.2 ≡ true) _ s (λ _. unfold consume in refl)
        (λ _ _. refl) (λ _ _. refl)

  resume_read-signals :
      (ec : Option ErrorCode) (s : Stream Event) → signals true (waking ec s).1 ≡ true
  unfolding resume_read
  resume_read-signals ec s = elim (Option-cases s.read_sink) [
    | inl e ↦ rw (e, resume_read) refl
    | inr (k, e) ↦
        rw (e, resume_read)
          (resume_parked_cases (λ r. signals true r.2 ≡ true) k ec s (λ _. unfold consume in refl)
            (λ _ _ _. refl) (λ _ _ _. refl) (λ _ _ _. refl))
  ]

  write_impl-signals :
      (bytes : Bytes) (end : Bool) (s : Stream Event)
      → signals true (write_impl bytes end s).2 ≡ true
  unfolding write_impl
  write_impl-signals bytes end s = elim (Bool-cases s.closed) [
    | inl e ↦ rw e refl
    | inr e ↦ rw e (elim (Bool-cases s.write_deferred) [ inl e ↦ rw e refl | inr e ↦ rw e refl ])
  ]

  on_data_chunk_recv-Effects :
      (id : ℕ) (bytes : Bytes) (x : Session Event)
      → Effects (length bytes) true x (on_data_chunk_recv id bytes x)
  unfolding on_data_chunk_recv call
  on_data_chunk_recv-Effects id bytes x =
      let y = call (consume_connection (length bytes)) x in
      let v = with_stream-Effects id (on_data bytes) y in
      record {
        credit = ap credits v.0 ∙ credits-append x.native _ ∙ (omega arith);
        signal = inl (ap work v.0 ∙ work-connection (length bytes) x.native, v.1);
      }

  pub step-Effects :
      (x : Session Event) (i : Input) → Effects (delivered i) (is_taken i) x (step x i)
  unfolding step on_stream_close
  step-Effects x (begin_headers f) =
      let v = on_begin_headers-Leaves f x in Effects-leaves true x _ v.0 v.1
  step-Effects x (header id name value) =
      let v = on_header-Leaves id name value x in Effects-leaves true x _ v.0 v.1
  step-Effects x (frame_recv f) =
      let v = on_frame_recv-Leaves f x in Effects-leaves true x _ v.0 v.1
  step-Effects x (data_chunk id bytes) = on_data_chunk_recv-Effects id bytes x
  step-Effects x (stream_close id) =
      let v = close_stream-Leaves id x in Effects-leaves true x _ v.0 v.1
  step-Effects x (pull ref size) =
      invoke-Effects true ref (λ s. ((producer_callback size s).0, [])) x (λ s. refl)
  step-Effects x (response done ref status headers) =
      respond-Effects done ref status headers (get_elem? x.heap ref) x
  step-Effects x (request answer path n headers) =
      submit_request_for-Effects answer path n headers x x.role refl
  step-Effects x (read ref room) = invoke-Effects true ref (reading room) x (read_some-signals room)
  step-Effects x (wake_read ref ec) = invoke-Effects true ref (waking ec) x (resume_read-signals ec)
  step-Effects x (write ref bytes end) =
      invoke-Effects true ref (λ s. let r = write_impl bytes end s in (r.0, r.2)) x
        (write_impl-signals bytes end)
  step-Effects x (wake_write ref ec) =
      invoke-Effects true ref (λ s. ((resume_write_impl ec s).0, [])) x (λ s. refl)
  step-Effects x (ask_status ref) =
      invoke-Effects true ref (λ s. ((get_status s).0, [])) x (λ s. refl)
