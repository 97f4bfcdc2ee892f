-- ===== src/Session/Reading/Steps.antt =====
-- The read side of the object at a reference after each input of a session (src/session.cpp,
-- src/stream_impl.hpp).
use nghttp2_corosio.Base.{
  ℕ, ◌≡◌, refl, ap, inl, inr, Bool, true, false, ◌&&◌, ◌||◌, Option, none, some, arith, ◌==◌,
  if◌then◌else◌, Bool-cases, ==_iff, Option-cases,
}
use nghttp2_corosio.Capy.{AsyncEvent, BufferCopy, ErrorCode}
use nghttp2_corosio.Stream.{Stream, Sink, on_close}
use nghttp2_corosio.Stream.Read.{read_some, resume_read, resume_parked}
use nghttp2_corosio.Stream.Read.Order.{
  Side, Inv, Step-Inv, after, arrives, ends, closes, reads, resumes,
}
use nghttp2_corosio.Stream.Write.{write_impl, resume_write_impl, producer_callback}
use nghttp2_corosio.Stream.Status.{get_status}
use nghttp2_corosio.Session.Callbacks.{Frame, is_headers, is_data}
use nghttp2_corosio.Session.Inputs.{
  Input, begin_headers, header, frame_recv, data_chunk, stream_close, pull, response, request, read,
  wake_read, write, wake_write, ask_status, waking,
}
use nghttp2_corosio.Session.Isolation.Cases.{addressed_cases}
use nghttp2_corosio.Session.Isolation.{addressed, called, take_header, take_frame, evolve}
use nghttp2_corosio.Session.Reading.{takes, receives, wakes, IsInTurn}
use nghttp2_corosio.Session.Reading.Methods.{
  LeavesReading, SameReading-self, SameReading-Inv, addressed-LeavesReading, called-LeavesReading,
  take_header-LeavesReading, get_status-LeavesReading, write_impl-LeavesReading,
  producer_callback-LeavesReading,
}

module _ {Event : Type 0} ⦃events : AsyncEvent Event⦄ ⦃buffers : BufferCopy⦄ where
  aside :
      (f : Stream Event → Stream Event) (x : Side Event)
      → LeavesReading f
      → Inv x
      → Inv (record x { stream = f x.stream })
  aside f x h v = SameReading-Inv x (f x.stream) (h x.stream) v

  unchanged : (x : Side Event) → Inv x → Inv (record x { stream = x.stream })
  unchanged x v = SameReading-Inv x x.stream (SameReading-self x.stream) v

  take_frame-Inv :
      (f : Frame) (x : Side Event) → Inv x → Inv (record x { stream = take_frame f x.stream })
  take_frame-Inv f x v = elim (Bool-cases ((is_headers f.type || is_data f.type) && f.end_stream)) [
    | inl e ↦ rw e (Step-Inv (ends x) v)
    | inr e ↦ rw e (unchanged x v)
  ]

  chunk-Inv : (b : Bool) (x y : Side Event) → Inv y → Inv x → Inv (if b then y else x)
  chunk-Inv true x y w v = w
  chunk-Inv false x y w v = v

  turn-Inv :
      (ref r : ℕ) (x y : Side Event) → (r ≡ ref → Inv y) → Inv x → Inv (if r == ref then y else x)
  turn-Inv ref r x y w v = elim (Bool-cases (r == ref)) [
    | inl e ↦ rw e (w ((==_iff r ref).0 e))
    | inr e ↦ rw e v
  ]

  wakes_cases {ℓ} :
      (P : Side Event → Type ℓ) (ec : Option ErrorCode) (x : Side Event)
      → P x
      → ((k : Sink) → x.stream.read_sink ≡ some k → P (after x (resume_parked k ec x.stream)))
      → P (wakes ec x)
  unfolding resume_read
  wakes_cases P ec x idle parked = elim (Option-cases x.stream.read_sink) [
    | inl e ↦
        let nobody : resume_read ec x.stream ≡ none =
          ap (λ o. elim o [ none ↦ none | some j ↦ some (resume_parked j ec x.stream) ]) e in
        rw (nobody, wakes) idle
    | inr (k, e) ↦
        let waits : resume_read ec x.stream ≡ some (resume_parked k ec x.stream) =
          ap (λ o. elim o [ none ↦ none | some j ↦ some (resume_parked j ec x.stream) ]) e in
        rw (waits, wakes) (parked k e)
  ]

  pub takes-Inv :
      (ref : ℕ) (x : Side Event) (i : Input) → IsInTurn ref x i → Inv x → Inv (takes ref i x)
  takes-Inv ref x (data_chunk id bytes) turn v =
      chunk-Inv _ x (receives bytes x) (Step-Inv (arrives x bytes) v) v
  takes-Inv ref x (read r room) turn v =
      turn-Inv ref r x _ (λ e. Step-Inv (reads x room (turn e)) v) v
  takes-Inv ref x (wake_read r ec) turn v =
      turn-Inv ref r x (wakes ec x)
        (λ e. wakes_cases Inv ec x v (λ k sink. Step-Inv (resumes x k ec sink (turn e)) v)) v
  takes-Inv ref x (begin_headers f) turn v = v
  takes-Inv ref x (header id name value) turn v =
      aside (addressed id (take_header name value)) x
        (addressed-LeavesReading id (take_header name value) (take_header-LeavesReading name value))
        v
  takes-Inv ref x (frame_recv f) turn v =
      addressed_cases (λ s. Inv (record x { stream = s })) f.stream_id (take_frame f) x.stream
        (take_frame-Inv f x v) (unchanged x v)
  takes-Inv ref x (stream_close id) turn v =
      addressed_cases (λ s. Inv (record x { stream = s })) id on_close x.stream
        (Step-Inv (closes x) v) (unchanged x v)
  takes-Inv ref x (pull r size) turn v =
      let f : Stream Event → Stream Event = λ t. (producer_callback size t).0 in
      aside (called ref r f) x (called-LeavesReading ref r f (producer_callback-LeavesReading size))
        v
  takes-Inv ref x (response done r status headers) turn v = v
  takes-Inv ref x (request answer path n headers) turn v = v
  takes-Inv ref x (write r bytes end) turn v =
      let f : Stream Event → Stream Event = λ t. (write_impl bytes end t).0 in
      aside (called ref r f) x (called-LeavesReading ref r f (write_impl-LeavesReading bytes end)) v
  takes-Inv ref x (wake_write r ec) turn v =
      let f : Stream Event → Stream Event = λ t. (resume_write_impl ec t).0 in
      aside (called ref r f) x
        (called-LeavesReading ref r f (λ t. unfold resume_write_impl in ground arith)) v
  takes-Inv ref x (ask_status r) turn v =
      let f : Stream Event → Stream Event = λ t. (get_status t).0 in
      aside (called ref r f) x (called-LeavesReading ref r f get_status-LeavesReading) v

  wakes-stream :
      (ec : Option ErrorCode) (x : Side Event) → (wakes ec x).stream ≡ (waking ec x.stream).0
  wakes-stream ec x = elim (Option-cases (resume_read ec x.stream)) [
    | inl e ↦ rw (e, wakes, waking) refl
    | inr (r, e) ↦ rw (e, wakes, waking) refl
  ]

  either-stream :
      (b : Bool) (x y : Side Event) (s : Stream Event)
      → y.stream ≡ s
      → (if b then y else x).stream ≡ (if b then s else x.stream)
  either-stream true x y s e = e
  either-stream false x y s e = refl

  -- The history's object is the object.
  pub takes-evolve :
      (ref : ℕ) (i : Input) (x : Side Event) → (takes ref i x).stream ≡ evolve ref i x.stream
  takes-evolve ref (data_chunk id bytes) x = either-stream _ x (receives bytes x) _ refl
  takes-evolve ref (read r room) x = either-stream _ x (after x (read_some room x.stream)) _ refl
  takes-evolve ref (wake_read r ec) x = either-stream _ x (wakes ec x) _ (wakes-stream ec x)
  takes-evolve ref (begin_headers f) x = refl
  takes-evolve ref (header id name value) x = refl
  takes-evolve ref (frame_recv f) x = refl
  takes-evolve ref (stream_close id) x = refl
  takes-evolve ref (pull r size) x = refl
  takes-evolve ref (response done r status headers) x = refl
  takes-evolve ref (request answer path n headers) x = refl
  takes-evolve ref (write r bytes end) x = refl
  takes-evolve ref (wake_write r ec) x = refl
  takes-evolve ref (ask_status r) x = refl
