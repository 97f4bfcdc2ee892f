-- ===== src/Session/Delivery/Callbacks.antt =====
-- What the callbacks and the submit calls of a session (src/session.cpp) does to what its streams hold.
use nghttp2_corosio.Base.{
  ℕ, ◌≡◌, ◌≢◌, refl, sym, ap, ◌∙◌, inl, inr, Bool, true, false, ◌&&◌, Option, none, some, [], ◌++◌,
  append-nil, arith, Bytes, length, get_elem?, ◌==◌, ==_iff, Bool-cases, Option-cases,
  if◌then◌else◌,
}
use nghttp2_corosio.Capy.{AsyncEvent, BufferCopy}
use nghttp2_corosio.Stream.{Stream, Headers, new_stream, set_id, on_close}
use nghttp2_corosio.Stream.Read.{on_data}
use nghttp2_corosio.Stream.Read.Content.{content, on_data-content}
use nghttp2_corosio.Session.{
  Session, Role, server, client, lookup, find_stream, at, with_stream, create_stream, close_stream,
  prefix_of, dispatch_request, start_write, call, consume_connection,
}
use nghttp2_corosio.Session.Callbacks.{
  Frame, is_headers, is_request, on_begin_headers, on_data_chunk_recv,
}
use nghttp2_corosio.Session.Submit.{
  Submitted, assigned, refused, submit_response_to, submit_request_for, request_submitted,
  make_placeholder,
}
use nghttp2_corosio.Session.Inputs.{respond}
use nghttp2_corosio.Session.Table.{update-append_last}
use nghttp2_corosio.Session.WellFormed.{IsOpen-some}
use nghttp2_corosio.Session.Preservation.{Good}
use nghttp2_corosio.Session.Window.{Neutral, update-All}
use nghttp2_corosio.Session.Window.Callbacks.{IsCallbackRelation, on_close-Neutral}
use nghttp2_corosio.Session.Window.Methods.{IsSound-at}
use nghttp2_corosio.Session.Window.Steps.{AllSound}
use nghttp2_corosio.Session.Delivery.{
  content_of, content_at, content_at-update, content_at-update-Neutral, content_at-append,
}

not_same : (k id : ℕ) → k ≢ id → (k == id) ≡ false
not_same k id h = ground arith

module _ {Event : Type 0} ⦃events : AsyncEvent Event⦄ ⦃buffers : BufferCopy⦄ where
  -- No stream holds more or less than before.
  abbrev pub Holds : Session Event → Session Event → Type 0
  Holds x y = (ref : ℕ) → content_at ref y.heap ≡ content_at ref x.heap

  Holds-with_stream :
      (k : ℕ) (f : Stream Event → Stream Event) (x : Session Event)
      → Neutral f
      → AllSound x
      → AllSound (with_stream k f x) × Holds x (with_stream k f x)
  unfolding with_stream find_stream at
  Holds-with_stream k f x h v = elim (Option-cases (lookup k x.streams)) [
    | inl e ↦ rw (e, with_stream) (v, λ ref. refl)
    | inr (r, e) ↦
        rw (e, with_stream)
          (
            update-All r f x.heap (λ s _ w. (h s w).0) v,
            λ ref. content_at-update-Neutral ref r f x.heap h v,
          )
  ]

  pub holding_callbacks :
      IsCallbackRelation {Event = Event} (λ x y. AllSound x → AllSound y × Holds x y)
  holding_callbacks = record {
    same = λ x v. (v, λ ref. refl);
    trans = λ v w sound. let p = v sound in let q = w p.0 in (q.0, λ ref. q.1 ref ∙ p.1 ref);
    on_stream = λ k f x h v. Holds-with_stream k f x h v;
    on_dispatch = unfold dispatch_request in λ ref x v. (v, λ i. refl);
  }

  pub on_begin_headers-Holds : (f : Frame) (x : Session Event) → Holds x (on_begin_headers f x)
  unfolding on_begin_headers create_stream new_stream
  on_begin_headers-Holds f x ref = elim (Bool-cases (is_headers f.type && is_request f.category)) [
    | inl e ↦
        rw e (content_at-append ref (new_stream f.stream_id (prefix_of x f.stream_id)) x.heap refl)
    | inr e ↦ rw e refl
  ]

  pub close_stream-Holds : (k : ℕ) (x : Session Event) → AllSound x → Holds x (close_stream k x)
  unfolding close_stream find_stream at
  close_stream-Holds k x v ref = elim (Option-cases (lookup k x.streams)) [
    | inl e ↦ rw (e, close_stream) refl
    | inr (r, e) ↦
        rw (e, close_stream) (content_at-update-Neutral ref r on_close x.heap on_close-Neutral v)
  ]

  pub respond-Holds :
      (done : Bool) (r status : ℕ) (headers : Headers) (o : Option (Stream Event))
      (x : Session Event)
      → Holds x (respond done r status headers o x)
  unfolding submit_response_to call start_write
  respond-Holds done r status headers none x ref = refl
  respond-Holds true r status headers (some s) x ref = refl
  respond-Holds false r status headers (some s) x ref = refl

  pub submit_request_for-Holds :
      (answer : Submitted) (path : Bytes) (n : Option ℕ) (headers : Headers) (x : Session Event)
      (role : Role)
      → x.role ≡ role
      → Holds x (submit_request_for answer path n headers x).0
  unfolding submit_request_for request_submitted make_placeholder call start_write at new_stream
      set_id
  submit_request_for-Holds answer path n headers x server e ref = rw (e, submit_request_for) refl
  submit_request_for-Holds refused path n headers x client e ref =
      rw (e, submit_request_for) (content_at-append ref (new_stream 0 x.log_prefix) x.heap refl)
  submit_request_for-Holds (assigned k) path n headers x client e ref =
      rw (e, submit_request_for, update-append_last)
        (content_at-append ref (set_id k (prefix_of x k) (new_stream 0 x.log_prefix)) x.heap refl)

  on_data-content_at :
      (ref k r : ℕ) (bytes : Bytes) (x : Session Event) {s : Stream Event}
      → AllSound x
      → lookup k x.streams ≡ some r
      → get_elem? x.heap r ≡ some s
      → content_at ref (with_stream k (on_data bytes) x).heap
        ≡ content_at ref x.heap ++ (if r == ref then bytes else [])
  unfolding with_stream find_stream at
  on_data-content_at ref k r bytes x {s} v e there =
      let placed : content_at ref (with_stream k (on_data bytes) x).heap
          ≡ (if r == ref then content (on_data bytes s) else content_at ref x.heap) =
        rw (e, with_stream) (content_at-update ref r (on_data bytes) x.heap there) in
      placed ∙ (elim (Bool-cases (r == ref)) [
        | inl here ↦ rw here (
            on_data-content bytes s (IsSound-at r x.heap v there)
            ∙ ap (λ c. c ++ bytes)
                (sym (ap content_of there) ∙ ap (λ i. content_at i x.heap) ((==_iff r ref).0 here)))
        | inr away ↦ rw away (sym (append-nil (content_at ref x.heap)))
      ])

  on_data-missing :
      (k : ℕ) (bytes : Bytes) (x : Session Event)
      → lookup k x.streams ≡ none
      → with_stream k (on_data bytes) x ≡ x
  unfolding with_stream find_stream
  on_data-missing k bytes x e = rw (e, with_stream) refl

  abbrev id_of : Option (Stream Event) → ℕ
  id_of none = 0
  id_of (some s) = s.id

  -- What arrives for a stream of the table is added to it, and to no other.
  on_data-content_of_id :
      (id ref k : ℕ) (bytes : Bytes) (x : Session Event)
      → Good x
      → AllSound x
      → lookup id x.streams ≡ some ref
      → content_at ref (with_stream k (on_data bytes) x).heap
        ≡ content_at ref x.heap ++ (if k == id then bytes else [])
  on_data-content_of_id id ref k bytes x good v found = elim (Option-cases (lookup k x.streams)) [
    | inl e ↦
        let apart : (k == id) ≡ false =
          not_same k id (λ same. ground (arith, ap (λ j. lookup j x.streams) same)) in
        ap (λ (y : Session Event). content_at ref y.heap) (on_data-missing k bytes x e)
        ∙ rw apart (sym (append-nil (content_at ref x.heap)))
    | inr (r, e) ↦
        let (s, there, i, _) = IsOpen-some k _ (good.open_streams k r e) in
        let (t, at_ref, j, _) = IsOpen-some id _ (good.open_streams id ref found) in
        let agree : (r == ref) ≡ (k == id) = elim (Bool-cases (r == ref)) [
          | inl same ↦
              let one : some s ≡ some t =
                sym there ∙ ap (get_elem? x.heap) ((==_iff r ref).0 same) ∙ at_ref in
              let same_id : k ≡ id = sym i ∙ ap id_of one ∙ j in
              same ∙ sym ((==_iff k id).1 same_id)
          | inr differ ↦
              differ
              ∙ sym (
                  not_same k id (λ same.
                    ground (arith, differ, sym e ∙ ap (λ l. lookup l x.streams) same ∙ found)))
        ] in
        on_data-content_at ref k r bytes x v e there
        ∙ ap (λ b. content_at ref x.heap ++ (if b then bytes else [])) agree
  ]

  pub on_data_chunk_recv-content_at :
      (id ref k : ℕ) (bytes : Bytes) (x : Session Event)
      → Good x
      → AllSound x
      → find_stream x id ≡ some ref
      → content_at ref (on_data_chunk_recv k bytes x).heap
        ≡ content_at ref x.heap ++ (if k == id then bytes else [])
  unfolding on_data_chunk_recv find_stream call
  on_data_chunk_recv-content_at id ref k bytes x good v found =
      on_data-content_of_id id ref k bytes (call (consume_connection (length bytes)) x) good v found
