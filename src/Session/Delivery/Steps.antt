-- ===== src/Session/Delivery/Steps.antt =====
-- What each input of a session (src/session.cpp) hands out of a stream and adds to it.
use nghttp2_corosio.Base.{
  ℕ, ◌≡◌, refl, sym, ◌∙◌, inl, inr, Bool, some, [], ◌++◌, append-nil, Bytes, get_elem?, ◌||◌, not,
  ◌==◌, ◌+◌, length, is_negative, Bool-cases,
}
use nghttp2_corosio.Capy.{AsyncEvent, BufferCopy}
use nghttp2_corosio.Stream.{Stream}
use nghttp2_corosio.Stream.Read.Content.{content, read_some-content}
use nghttp2_corosio.Stream.Write.{write_impl, resume_write_impl, producer_callback}
use nghttp2_corosio.Stream.Status.{get_status}
use nghttp2_corosio.Session.{Session, find_stream}
use nghttp2_corosio.Session.Callbacks.{on_stream_close}
use nghttp2_corosio.Session.Inputs.{
  Input, begin_headers, header, frame_recv, data_chunk, stream_close, pull, response, request, read,
  wake_read, write, wake_write, ask_status, reading, waking, step,
}
use nghttp2_corosio.Session.Preservation.{Good}
use nghttp2_corosio.Session.Window.Callbacks.{on_header-related, on_frame_recv-related}
use nghttp2_corosio.Session.Window.Steps.{AllSound, IsSoleReader}
use nghttp2_corosio.Session.Delivery.{
  content_at, arriving, handed_to, handed_by_read, handed_by_wake,
}
use nghttp2_corosio.Session.Delivery.Callbacks.{
  holding_callbacks, on_begin_headers-Holds, close_stream-Holds, respond-Holds,
  submit_request_for-Holds, on_data_chunk_recv-content_at,
}
use nghttp2_corosio.Session.Delivery.Calls.{
  content_at-invoke, content_at-invoke-kept, resume_read-content,
}

quiet : {before after : Bytes} → after ≡ before → after ≡ before ++ []
quiet {before} e = e ∙ sym (append-nil before)

module _ {Event : Type 0} ⦃events : AsyncEvent Event⦄ ⦃buffers : BufferCopy⦄ where
  producer_callback-content :
      (size : ℕ) (s : Stream Event) → content (producer_callback size s).0 ≡ content s
  unfolding producer_callback
  producer_callback-content size s = elim (Bool-cases s.write_pending) [
    | inl e ↦
        rw e
          (elim (Bool-cases (
            (s.write_offset + buffers.copied size (length s.cursor) == length s.pending)
            || not s.write_eof_requested)) [ inl e ↦ rw e refl | inr e ↦ rw e refl ])
    | inr e ↦ rw e refl
  ]

  write_impl-content :
      (bytes : Bytes) (end : Bool) (s : Stream Event)
      → content (write_impl bytes end s).0 ≡ content s
  unfolding write_impl
  write_impl-content bytes end s = elim (Bool-cases s.closed) [
    | inl e ↦ rw e refl
    | inr e ↦ rw e refl
  ]

  get_status-content : (s : Stream Event) → content (get_status s).0 ≡ content s
  unfolding get_status
  get_status-content s = elim (Bool-cases (is_negative s.status)) [
    | inl e ↦ rw e refl
    | inr e ↦ rw e refl
  ]

  -- No input but a body chunk adds to a stream, and no input but a read takes from it.
  pub step-Delivers :
      (id ref : ℕ) (x : Session Event) (i : Input)
      → IsSoleReader x i
      → Good x
      → AllSound x
      → find_stream x id ≡ some ref
      → handed_to ref x i ++ content_at ref (step x i).heap ≡ content_at ref x.heap ++ arriving id i
  unfolding step on_stream_close resume_write_impl
  step-Delivers id ref x (begin_headers f) alone good v found =
      quiet (on_begin_headers-Holds f x ref)
  step-Delivers id ref x (header k name value) alone good v found =
      quiet ((on_header-related holding_callbacks k name value x v).1 ref)
  step-Delivers id ref x (frame_recv f) alone good v found =
      quiet ((on_frame_recv-related holding_callbacks f x v).1 ref)
  step-Delivers id ref x (data_chunk k bytes) alone good v found =
      on_data_chunk_recv-content_at id ref k bytes x good v found
  step-Delivers id ref x (stream_close k) alone good v found = quiet (close_stream-Holds k x v ref)
  step-Delivers id ref x (response done r status headers) alone good v found =
      quiet (respond-Holds done r status headers (get_elem? x.heap r) x ref)
  step-Delivers id ref x (request answer path n headers) alone good v found =
      quiet (submit_request_for-Holds answer path n headers x x.role refl ref)
  step-Delivers id ref x (read r room) alone good v found =
      content_at-invoke ref r (reading room) (handed_by_read room) x
        (λ s e w. read_some-content room s w (alone s e)) v
      ∙ sym (append-nil (content_at ref x.heap))
  step-Delivers id ref x (wake_read r ec) alone good v found =
      content_at-invoke ref r (waking ec) (handed_by_wake ec) x (λ s _ w. resume_read-content ec s)
        v
      ∙ sym (append-nil (content_at ref x.heap))
  step-Delivers id ref x (pull r size) alone good v found = quiet (
      content_at-invoke-kept ref r (λ s. ((producer_callback size s).0, [])) x
        (λ s _. producer_callback-content size s) v)
  step-Delivers id ref x (write r bytes end) alone good v found = quiet (
      content_at-invoke-kept ref r (λ s. let w = write_impl bytes end s in (w.0, w.2)) x
        (λ s _. write_impl-content bytes end s) v)
  step-Delivers id ref x (wake_write r ec) alone good v found =
      quiet (content_at-invoke-kept ref r (λ s. ((resume_write_impl ec s).0, [])) x (λ s _. refl) v)
  step-Delivers id ref x (ask_status r) alone good v found =
      quiet (
        content_at-invoke-kept ref r (λ s. ((get_status s).0, [])) x (λ s _. get_status-content s)
          v)
