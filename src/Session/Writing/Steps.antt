-- ===== src/Session/Writing/Steps.antt =====
-- The write side of the object at a reference after each input of a session (src/session.cpp,
-- src/stream_impl.hpp).
use nghttp2_corosio.Base.{ℕ, ◌≡◌, refl, inl, inr, ◌==◌, if◌then◌else◌, Bool-cases, ==_iff}
use nghttp2_corosio.Capy.{AsyncEvent, BufferCopy}
use nghttp2_corosio.Stream.{Stream, on_close}
use nghttp2_corosio.Stream.Write.{Produced, deferred, produced, producer_callback}
use nghttp2_corosio.Stream.Write.Progress.{
  Sending, record_frame, Inv, Step, Step-Inv, writes, pulls, closes, resumes,
}
use nghttp2_corosio.Session.Inputs.{
  Input, begin_headers, header, frame_recv, data_chunk, stream_close, pull, response, request, read,
  wake_read, write, wake_write, ask_status,
}
use nghttp2_corosio.Session.Isolation.Cases.{addressed_cases}
use nghttp2_corosio.Session.Isolation.{addressed, evolve}
use nghttp2_corosio.Session.Writing.{sends, IsInTurn}
use nghttp2_corosio.Session.Writing.Methods.{
  LeavesWriting, SameWriting-self, SameWriting-Inv, addressed-LeavesWriting, called-LeavesWriting,
  take_header-LeavesWriting, take_frame-LeavesWriting, on_data-LeavesWriting, reading-LeavesWriting,
  waking-LeavesWriting, get_status-LeavesWriting,
}

module _ {Event : Type 0} ⦃events : AsyncEvent Event⦄ ⦃buffers : BufferCopy⦄ where
  aside :
      (f : Stream Event → Stream Event) (x : Sending Event)
      → LeavesWriting f
      → Inv x
      → Inv (record x { stream = f x.stream })
  aside f x h v = SameWriting-Inv x (f x.stream) (h x.stream) v

  closed-Inv :
      (id : ℕ) (x : Sending Event)
      → Inv x
      → Inv (record x { stream = addressed id on_close x.stream })
  closed-Inv id x v =
      addressed_cases (λ s. Inv (record x { stream = s })) id on_close x.stream
        (Step-Inv (closes x) v) (SameWriting-Inv x x.stream (SameWriting-self x.stream) v)

  -- A write-side input keeps the invariant if, where it names the object, it is a step of the writer.
  turn-Inv :
      (ref r : ℕ) (x y : Sending Event)
      → (r ≡ ref → Step x y)
      → Inv x
      → Inv (if r == ref then y else x)
  turn-Inv ref r x y step v = elim (Bool-cases (r == ref)) [
    | inl e ↦ rw e (Step-Inv (step ((==_iff r ref).0 e)) v)
    | inr e ↦ rw e v
  ]

  pub sends-Inv :
      (ref : ℕ) (x : Sending Event) (i : Input) → IsInTurn ref x i → Inv x → Inv (sends ref i x)
  sends-Inv ref x (write r bytes end) turn v =
      turn-Inv ref r x _ (λ e. writes x bytes end (turn e)) v
  sends-Inv ref x (pull r size) turn v = turn-Inv ref r x _ (λ e. pulls x size (turn e)) v
  sends-Inv ref x (wake_write r ec) turn v =
      turn-Inv ref r x _ (λ e. resumes x ec (turn e).0 (turn e).1) v
  sends-Inv ref x (begin_headers f) turn v = v
  sends-Inv ref x (header id name value) turn v =
      aside _ x (addressed-LeavesWriting id _ (take_header-LeavesWriting name value)) v
  sends-Inv ref x (frame_recv f) turn v =
      aside _ x (addressed-LeavesWriting f.stream_id _ (take_frame-LeavesWriting f)) v
  sends-Inv ref x (data_chunk id bytes) turn v =
      aside _ x (addressed-LeavesWriting id _ (on_data-LeavesWriting bytes)) v
  sends-Inv ref x (stream_close id) turn v = closed-Inv id x v
  sends-Inv ref x (response done r status headers) turn v = v
  sends-Inv ref x (request answer path n headers) turn v = v
  sends-Inv ref x (read r room) turn v =
      aside _ x (called-LeavesWriting ref r _ (reading-LeavesWriting room)) v
  sends-Inv ref x (wake_read r ec) turn v =
      aside _ x (called-LeavesWriting ref r _ (waking-LeavesWriting ec)) v
  sends-Inv ref x (ask_status r) turn v =
      aside _ x (called-LeavesWriting ref r _ get_status-LeavesWriting) v

  record_frame-stream : (p : Produced) (x : Sending Event) → (record_frame p x).stream ≡ x.stream
  record_frame-stream deferred x = refl
  record_frame-stream (produced bytes end) x = refl

  turn-stream :
      (ref r : ℕ) (x y : Sending Event) (s : Stream Event)
      → y.stream ≡ s
      → (if r == ref then y else x).stream ≡ (if r == ref then s else x.stream)
  turn-stream ref r x y s e = elim (Bool-cases (r == ref)) [ inl h ↦ rw h e | inr h ↦ rw h refl ]

  -- The history's object is the object.
  pub sends-evolve :
      (ref : ℕ) (i : Input) (x : Sending Event) → (sends ref i x).stream ≡ evolve ref i x.stream
  sends-evolve ref (write r bytes end) x = turn-stream ref r x _ _ refl
  sends-evolve ref (pull r size) x =
      turn-stream ref r x _ _ (record_frame-stream (producer_callback size x.stream).1 _)
  sends-evolve ref (wake_write r ec) x = turn-stream ref r x _ _ refl
  sends-evolve ref (begin_headers f) x = refl
  sends-evolve ref (header id name value) x = refl
  sends-evolve ref (frame_recv f) x = refl
  sends-evolve ref (data_chunk id bytes) x = refl
  sends-evolve ref (stream_close id) x = refl
  sends-evolve ref (response done r status headers) x = refl
  sends-evolve ref (request answer path n headers) x = refl
  sends-evolve ref (read r room) x = refl
  sends-evolve ref (wake_read r ec) x = refl
  sends-evolve ref (ask_status r) x = refl
