-- ===== src/Session/Isolation/Steps.antt =====
-- The object at a reference after each input of a session (src/session.cpp) is what the input makes of
-- the object on its own.
use nghttp2_corosio.Base.{
  ℕ, ◌≡◌, refl, ap, ◌∙◌, inl, inr, Bool, true, false, ◌&&◌, Option, none, some, List, [], ◌∷◌, ◌++◌,
  arith, Bytes, length, get_elem?, get_elem?_lt, get_elem?-append_left, Bool-cases, Option-cases,
  ℕ_discrete,
}
use nghttp2_corosio.Capy.{AsyncEvent, BufferCopy}
use nghttp2_corosio.Stream.{Stream, Effect, Headers, new_stream, set_id}
use nghttp2_corosio.Stream.Read.{on_data}
use nghttp2_corosio.Stream.Write.{write_impl, resume_write_impl, producer_callback}
use nghttp2_corosio.Stream.Status.{get_status}
use nghttp2_corosio.Session.{
  Session, Role, server, client, lookup, update, at, call, perform, start_write, create_stream,
  prefix_of,
}
use nghttp2_corosio.Session.Callbacks.{
  Frame, is_headers, is_request, on_begin_headers, on_data_chunk_recv, on_stream_close,
}
use nghttp2_corosio.Session.Submit.{
  Submitted, assigned, refused, submit_response_to, submit_request_for, request_submitted,
  make_placeholder,
}
use nghttp2_corosio.Session.Inputs.{
  Input, begin_headers, header, frame_recv, data_chunk, stream_close, pull, response, request, read,
  wake_read, write, wake_write, ask_status, invoke, reading, waking, respond, step,
}
use nghttp2_corosio.Session.Table.{get_elem?-update_ne, get_elem?-update_self, update-append_last}
use nghttp2_corosio.Session.Delivery.Table.{entered}
use nghttp2_corosio.Session.WellFormed.{update-Inv}
use nghttp2_corosio.Session.Preservation.{Good, Keeps, IsFresh, step-Good}
use nghttp2_corosio.Session.Preservation.Methods.{
  create_stream-Good, on_data-Keeps, read_some-Keeps, resume_read-Keeps,
}
use nghttp2_corosio.Session.Isolation.{called, evolve}
use nghttp2_corosio.Session.Isolation.Routing.{
  Follows, Follows-along, Follows-kept, with_stream-Follows, close_stream-Follows,
}
use nghttp2_corosio.Session.Isolation.Callbacks.{on_header-Follows, on_frame_recv-Follows}

module _ {Event : Type 0} ⦃events : AsyncEvent Event⦄ ⦃buffers : BufferCopy⦄ where
  -- A new object enters the store; the table keeps its entries.
  grown-Follows :
      (ref : ℕ) (x y : Session Event) (t s : Stream Event)
      → y.heap ≡ x.heap ++ t ∷ []
      → ((id : ℕ) → lookup id x.streams ≡ some ref → lookup id y.streams ≡ some ref)
      → Good y
      → Follows ref x s
      → Follows ref y s
  grown-Follows ref x y t s h m good v = record {
    good = good;
    there =
        ap (λ l. get_elem? l ref) h
        ∙ get_elem?-append_left x.heap (t ∷ []) ref (get_elem?_lt x.heap ref v.there)
        ∙ v.there;
    listed = elim v.listed [ inl c ↦ inl c | inr l ↦ inr (m s.id l) ];
  }

  on_begin_headers-Follows :
      (ref : ℕ) (f : Frame) (x : Session Event) (s : Stream Event)
      → ((is_headers f.type && is_request f.category) ≡ true → lookup f.stream_id x.streams ≡ none)
      → Good (on_begin_headers f x)
      → Follows ref x s
      → Follows ref (on_begin_headers f x) s
  unfolding on_begin_headers create_stream
  on_begin_headers-Follows ref f x s fresh good v =
      elim (Bool-cases (is_headers f.type && is_request f.category)) [
        | inl e ↦ rw e (
            grown-Follows ref x _ _ s refl
              (λ id l. entered id ref f.stream_id (length x.heap) x.streams (fresh e) l)
              (create_stream-Good f.stream_id x (fresh e) v.good) v)
        | inr e ↦ rw e v
      ]

  submit_request_for-Follows :
      (ref : ℕ) (answer : Submitted) (path : Bytes) (n : Option ℕ) (headers : Headers)
      (x : Session Event) (s : Stream Event) (role : Role)
      → x.role ≡ role
      → IsFresh x (request answer path n headers)
      → Good (submit_request_for answer path n headers x).0
      → Follows ref x s
      → Follows ref (submit_request_for answer path n headers x).0 s
  unfolding submit_request_for request_submitted make_placeholder call start_write at
  submit_request_for-Follows ref answer path n headers x s server e fresh good v =
      rw (e, submit_request_for) v
  submit_request_for-Follows ref refused path n headers x s client e fresh good v =
      grown-Follows ref x _ (new_stream 0 x.log_prefix) s (rw (e, submit_request_for) refl)
        (λ id l. rw (e, submit_request_for) l) good v
  submit_request_for-Follows ref (assigned k) path n headers x s client e fresh good v =
      grown-Follows ref x _ (set_id k (prefix_of x k) (new_stream 0 x.log_prefix)) s
        (rw (e, submit_request_for) (update-append_last x.heap _ _))
        (λ id l. rw (e, submit_request_for) (entered id ref k (length x.heap) x.streams fresh l))
        good v

  respond-Follows :
      (ref : ℕ) (done : Bool) (r status : ℕ) (headers : Headers) (o : Option (Stream Event))
      (x : Session Event) (s : Stream Event)
      → Follows ref x s
      → Follows ref (respond done r status headers o x) s
  unfolding submit_response_to call start_write
  respond-Follows ref done r status headers none x s v = v
  respond-Follows ref true r status headers (some t) x s v =
      Follows-kept ref x _ s refl refl v.good v
  respond-Follows ref false r status headers (some t) x s v =
      Follows-kept ref x _ s refl refl v.good v

  perform-Follows :
      (ref : ℕ) (fx : List Effect) (x : Session Event) (s : Stream Event)
      → Follows ref x s
      → Follows ref (perform fx x) s
  unfolding perform call start_write
  perform-Follows ref [] x s v = v
  perform-Follows ref (Effect.consume_stream k n ∷ fx) x s v =
      perform-Follows ref fx _ s (Follows-kept ref x _ s refl refl v.good v)
  perform-Follows ref (Effect.resume_data k ∷ fx) x s v =
      perform-Follows ref fx _ s (Follows-kept ref x _ s refl refl v.good v)
  perform-Follows ref (Effect.start_write ∷ fx) x s v =
      perform-Follows ref fx _ s (Follows-kept ref x _ s refl refl v.good v)

  -- A method called on a reference changes the object there and no other.
  invoke-Follows :
      (ref r : ℕ) (f : Stream Event → Stream Event × List Effect) (x : Session Event)
      (s : Stream Event)
      → Keeps (λ t. (f t).0)
      → Follows ref x s
      → Follows ref (invoke r f x) (called ref r (λ t. (f t).0) s)
  unfolding invoke at
  invoke-Follows ref r f x s keeps v = elim (ℕ_discrete r ref) [
    | yes here ↦
        let e : get_elem? x.heap r ≡ some s = ap (get_elem? x.heap) here ∙ v.there in
        let hit : called ref r (λ t. (f t).0) s ≡ (f s).0 = ground (arith, here) in
        rw (e, invoke)
          (perform-Follows ref (f s).1 _ _ (
            Follows-along ref _ hit (record {
              good = update-Inv (λ t. (f t).0) keeps r x.heap x.streams v.good;
              there =
                  ap (λ j. get_elem? (update j (λ t. (f t).0) x.heap) ref) here
                  ∙ get_elem?-update_self ref (λ t. (f t).0) x.heap v.there;
              listed = elim v.listed [
                | inl c ↦ inl ((keeps s).1 ∙ c)
                | inr l ↦ inr (ap (λ j. lookup j x.streams) (keeps s).0 ∙ l)
              ];
            })))
    | no away ↦
        let miss : called ref r (λ t. (f t).0) s ≡ s = ground (arith, away) in
        Follows-along ref _ miss (elim (Option-cases (get_elem? x.heap r)) [
          | inl e ↦ rw (e, invoke) v
          | inr (t, e) ↦
              rw (e, invoke)
                (perform-Follows ref (f t).1 _ s (record {
                  good = update-Inv (λ t. (f t).0) keeps r x.heap x.streams v.good;
                  there = get_elem?-update_ne r ref (λ t. (f t).0) x.heap away ∙ v.there;
                  listed = v.listed;
                }))
        ])
  ]

  -- After one input, the object at the reference is what the input makes of the object on its own.
  pub step-Follows :
      (ref : ℕ) (x : Session Event) (i : Input) (s : Stream Event)
      → IsFresh x i
      → Follows ref x s
      → Follows ref (step x i) (evolve ref i s)
  unfolding step on_stream_close on_data_chunk_recv call write_impl resume_write_impl
      producer_callback get_status
  step-Follows ref x (begin_headers f) s fresh v =
      on_begin_headers-Follows ref f x s fresh (step-Good x (begin_headers f) fresh v.good) v
  step-Follows ref x (header k name value) s fresh v = on_header-Follows ref k name value x s v
  step-Follows ref x (frame_recv f) s fresh v = on_frame_recv-Follows ref f x s v
  step-Follows ref x (data_chunk k bytes) s fresh v =
      with_stream-Follows ref k (on_data bytes) _ s (on_data-Keeps bytes)
        (Follows-kept ref x _ s refl refl v.good v)
  step-Follows ref x (stream_close k) s fresh v = close_stream-Follows ref k x s v
  step-Follows ref x (pull r size) s fresh v =
      invoke-Follows ref r (λ t. ((producer_callback size t).0, [])) x s (λ t. ground arith) v
  step-Follows ref x (response done r status headers) s fresh v =
      respond-Follows ref done r status headers (get_elem? x.heap r) x s v
  step-Follows ref x (request answer path n headers) s fresh v =
      submit_request_for-Follows ref answer path n headers x s x.role refl fresh
        (step-Good x (request answer path n headers) fresh v.good) v
  step-Follows ref x (read r room) s fresh v =
      invoke-Follows ref r (reading room) x s (read_some-Keeps room) v
  step-Follows ref x (wake_read r ec) s fresh v =
      invoke-Follows ref r (waking ec) x s (resume_read-Keeps ec) v
  step-Follows ref x (write r bytes end) s fresh v =
      invoke-Follows ref r (λ t. let w = write_impl bytes end t in (w.0, w.2)) x s
        (λ t. ground arith) v
  step-Follows ref x (wake_write r ec) s fresh v =
      invoke-Follows ref r (λ t. ((resume_write_impl ec t).0, [])) x s (λ t. ground arith) v
  step-Follows ref x (ask_status r) s fresh v =
      invoke-Follows ref r (λ t. ((get_status t).0, [])) x s (λ t. ground arith) v
