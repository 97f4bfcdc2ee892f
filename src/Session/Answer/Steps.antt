-- ===== src/Session/Answer/Steps.antt =====
-- The status of the object at a reference after each input of a session (src/session.cpp,
-- src/stream_impl.hpp).
use nghttp2_corosio.Base.{
  ℕ, ◌^◌, ◌<◌, ◌≡◌, refl, inl, inr, true, false, ◌&&◌, ◌||◌, some, arith, Bytes, same, same_sound,
  if◌then◌else◌, Bool-cases,
}
use nghttp2_corosio.Capy.{AsyncEvent, BufferCopy}
use nghttp2_corosio.Stream.{Stream, set_path, add_header, on_close}
use nghttp2_corosio.Stream.Read.{on_data}
use nghttp2_corosio.Stream.Write.{write_impl, resume_write_impl, producer_callback}
use nghttp2_corosio.Stream.Status.{get_status}
use nghttp2_corosio.Stream.Status.Waits.{Seen, Inv, IsLate, Step-Inv, asks, arrives, ends, closes}
use nghttp2_corosio.Session.Callbacks.{
  Frame, is_headers, is_data, starts_with, path_name, status_name, content_length_name, status_of,
  content_length_of,
}
use nghttp2_corosio.Session.Inputs.{
  Input, begin_headers, header, frame_recv, data_chunk, stream_close, pull, response, request, read,
  wake_read, write, wake_write, ask_status, reading, waking,
}
use nghttp2_corosio.Session.Isolation.Cases.{called_cases}
use nghttp2_corosio.Session.Isolation.{addressed, called, take_length, take_header, take_frame}
use nghttp2_corosio.Session.Answer.{reaches, hears, attends, IsTimely}
use nghttp2_corosio.Session.Answer.Methods.{
  SameStatus, LeavesStatus, SameStatus-Inv, addressed-LeavesStatus, called-LeavesStatus,
  take_length-LeavesStatus, on_data-LeavesStatus, reading-LeavesStatus, waking-LeavesStatus,
  write_impl-LeavesStatus, producer_callback-LeavesStatus,
}

no_status : (name : Bytes) → same name path_name ≡ true → same name status_name ≡ false
no_status name e = rw (same_sound name path_name e) (unfold same in refl)

module _ {Event : Type 0} ⦃events : AsyncEvent Event⦄ ⦃buffers : BufferCopy⦄ where
  aside :
      (f : Stream Event → Stream Event) (seen : Seen) (s : Stream Event)
      → LeavesStatus f
      → Inv (seen, s)
      → Inv (seen, f s)
  aside f seen s h v = SameStatus-Inv seen s (f s) (h s) v

  with_field :
      (name value : Bytes) (s : Stream Event)
      → SameStatus s (
          add_header name value
            (if same name content_length_name then take_length (content_length_of value) s else s))
  unfolding add_header
  with_field name value s = elim (Bool-cases (same name content_length_name)) [
    | inl e ↦ rw e (ground (arith, take_length-LeavesStatus (content_length_of value) s))
    | inr e ↦ rw e (ground arith)
  ]

  take_header-Inv :
      (name value : Bytes) (seen : Seen) (s : Stream Event)
      → (same name status_name ≡ true → status_of value < 2 ^ 31)
      → Inv (seen, s)
      → Inv (
        (if same name status_name then record seen { status = some (status_of value) } else seen),
        take_header name value s,
      )
  take_header-Inv name value seen s small v = elim (Bool-cases (same name path_name)) [
    | inl e ↦
        rw (e, no_status name e)
          (SameStatus-Inv seen s (set_path value s) (unfold set_path in ground arith) v)
    | inr e ↦ rw e (elim (Bool-cases (same name status_name)) [
      | inl e ↦ rw e (Step-Inv (arrives (status_of value) (small e)) v)
      | inr e ↦ rw e (elim (Bool-cases (starts_with b':' name)) [
        | inl e ↦ rw e v
        | inr e ↦ rw e (SameStatus-Inv seen s _ (with_field name value s) v)
      ])
    ])
  ]

  header-Inv :
      (id : ℕ) (name value : Bytes) (seen : Seen) (s : Stream Event)
      → (same name status_name ≡ true → status_of value < 2 ^ 31)
      → Inv (seen, s)
      → Inv (hears (header id name value) s seen, addressed id (take_header name value) s)
  header-Inv id name value seen s small v = elim (Bool-cases (reaches id s)) [
    | inl e ↦ rw e (take_header-Inv name value seen s small v)
    | inr e ↦ rw e v
  ]

  frame-Inv :
      (f : Frame) (seen : Seen) (s : Stream Event)
      → Inv (seen, s)
      → Inv (hears (frame_recv f) s seen, addressed f.stream_id (take_frame f) s)
  frame-Inv f seen s v = elim (Bool-cases (reaches f.stream_id s)) [
    | inl e ↦ rw e (elim (Bool-cases ((is_headers f.type || is_data f.type) && f.end_stream)) [
      | inl e ↦ rw e (Step-Inv ends v)
      | inr e ↦ rw e v
    ])
    | inr e ↦ rw e v
  ]

  close-Inv :
      (id : ℕ) (seen : Seen) (s : Stream Event)
      → Inv (seen, s)
      → Inv (hears (stream_close id) s seen, addressed id on_close s)
  close-Inv id seen s v = elim (Bool-cases (reaches id s)) [
    | inl e ↦ rw e (Step-Inv closes v)
    | inr e ↦ rw e v
  ]

  ask-Inv :
      (ref r : ℕ) (seen : Seen) (s : Stream Event)
      → (r ≡ ref → ¬ IsLate seen)
      → Inv (seen, s)
      → Inv (seen, called ref r (λ t. (get_status t).0) s)
  ask-Inv ref r seen s timely v =
      called_cases (λ t. Inv (seen, t)) ref r (λ t. (get_status t).0) s
        (λ e. Step-Inv (asks (timely e)) v) v

  pub attends-Inv :
      (ref : ℕ) (seen : Seen) (s : Stream Event) (i : Input)
      → IsTimely ref (seen, s) i
      → Inv (seen, s)
      → Inv (attends ref i (seen, s))
  attends-Inv ref seen s (header id name value) timely v = header-Inv id name value seen s timely v
  attends-Inv ref seen s (frame_recv f) timely v = frame-Inv f seen s v
  attends-Inv ref seen s (stream_close id) timely v = close-Inv id seen s v
  attends-Inv ref seen s (ask_status r) timely v = ask-Inv ref r seen s timely v
  attends-Inv ref seen s (begin_headers f) timely v = v
  attends-Inv ref seen s (data_chunk id bytes) timely v =
      aside (addressed id (on_data bytes)) seen s
        (addressed-LeavesStatus id (on_data bytes) (on_data-LeavesStatus bytes)) v
  attends-Inv ref seen s (pull r size) timely v =
      let f : Stream Event → Stream Event = λ t. (producer_callback size t).0 in
      aside (called ref r f) seen s
        (called-LeavesStatus ref r f (producer_callback-LeavesStatus size)) v
  attends-Inv ref seen s (response done r status headers) timely v = v
  attends-Inv ref seen s (request answer path n headers) timely v = v
  attends-Inv ref seen s (read r room) timely v =
      let f : Stream Event → Stream Event = λ t. (reading room t).0 in
      aside (called ref r f) seen s (called-LeavesStatus ref r f (reading-LeavesStatus room)) v
  attends-Inv ref seen s (wake_read r ec) timely v =
      let f : Stream Event → Stream Event = λ t. (waking ec t).0 in
      aside (called ref r f) seen s (called-LeavesStatus ref r f (waking-LeavesStatus ec)) v
  attends-Inv ref seen s (write r bytes end) timely v =
      let f : Stream Event → Stream Event = λ t. (write_impl bytes end t).0 in
      aside (called ref r f) seen s
        (called-LeavesStatus ref r f (write_impl-LeavesStatus bytes end)) v
  attends-Inv ref seen s (wake_write r ec) timely v =
      let f : Stream Event → Stream Event = λ t. (resume_write_impl ec t).0 in
      aside (called ref r f) seen s
        (called-LeavesStatus ref r f (λ t. unfold resume_write_impl in ground arith)) v
