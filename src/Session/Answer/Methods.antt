-- ===== src/Session/Answer/Methods.antt =====
-- The methods of a stream (src/stream_impl.hpp, src/stream.cpp) that leave alone its status, the end of
-- its body, and the event of those who wait for its status.
use nghttp2_corosio.Base.{ℕ, ◌≡◌, refl, ap, ◌∙◌, Bool, Option, none, some, arith, Bytes}
use nghttp2_corosio.Capy.{AsyncEvent, BufferCopy, ErrorCode}
use nghttp2_corosio.Stream.{Stream, Sink, set_content_length}
use nghttp2_corosio.Stream.Read.{park, keep_chunk, on_data_to, on_data, read_some, resume_parked}
use nghttp2_corosio.Stream.Read.Cases.{after_drain_cases, resume_parked_cases}
use nghttp2_corosio.Stream.Write.{write_impl, producer_callback}
use nghttp2_corosio.Stream.Status.Waits.{Seen, Inv}
use nghttp2_corosio.Session.Inputs.{reading, waking}
use nghttp2_corosio.Session.Isolation.Cases.{addressed_cases, called_cases, waking_cases}
use nghttp2_corosio.Session.Isolation.{addressed, called, take_length}

module _ {Event : Type 0} where
  pub record SameStatus (s t : Stream Event) : Type 0 where
    pub status : t.status ≡ s.status
    pub read_eof : t.read_eof ≡ s.read_eof
    pub status_ready : t.status_ready ≡ s.status_ready

  pub SameStatus-self : (s : Stream Event) → SameStatus s s
  SameStatus-self s = record { status = refl; read_eof = refl; status_ready = refl }

  abbrev pub LeavesStatus : (Stream Event → Stream Event) → Type 0
  LeavesStatus f = (s : Stream Event) → SameStatus s (f s)

  pub addressed-LeavesStatus :
      (id : ℕ) (f : Stream Event → Stream Event) → LeavesStatus f → LeavesStatus (addressed id f)
  addressed-LeavesStatus id f h s = addressed_cases (SameStatus s) id f s (h s) (SameStatus-self s)

  pub called-LeavesStatus :
      (ref r : ℕ) (f : Stream Event → Stream Event) → LeavesStatus f → LeavesStatus (called ref r f)
  called-LeavesStatus ref r f h s =
      called_cases (SameStatus s) ref r f s (λ _. h s) (SameStatus-self s)

  pub take_length-LeavesStatus : (n : Option ℕ) → LeavesStatus (take_length n)
  unfolding set_content_length
  take_length-LeavesStatus none s = SameStatus-self s
  take_length-LeavesStatus (some n) s = ground arith

module _ {Event : Type 0} ⦃events : AsyncEvent Event⦄ ⦃buffers : BufferCopy⦄ where
  pub SameStatus-Inv :
      (seen : Seen) (s t : Stream Event) → SameStatus s t → Inv (seen, s) → Inv (seen, t)
  SameStatus-Inv seen s t h v = record {
    status = rw h.status v.status;
    ended = h.read_eof ∙ v.ended;
    awake = λ a. ap events.is_set h.status_ready ∙ v.awake a;
  }

  pub on_data-LeavesStatus : (bytes : Bytes) → LeavesStatus {Event = Event} (on_data bytes)
  unfolding on_data
  on_data-LeavesStatus bytes s = go s.read_sink
    where
      go : (sink : Option Sink) → SameStatus s (on_data_to sink bytes s)
      go none = unfold keep_chunk in ground arith
      go (some k) = unfold keep_chunk in ground arith

  pub reading-LeavesStatus : (room : ℕ) → LeavesStatus {Event = Event} (λ s. (reading room s).0)
  unfolding read_some
  reading-LeavesStatus room s =
      after_drain_cases (λ r. SameStatus s r.0) _ s (λ _. ground arith) (λ _ _. ground arith)
        (λ _ _. unfold park in ground arith)

  pub waking-LeavesStatus :
      (ec : Option ErrorCode) → LeavesStatus {Event = Event} (λ s. (waking ec s).0)
  waking-LeavesStatus ec s = waking_cases (SameStatus s) ec s (SameStatus-self s) parked_leaves
    where
      parked_leaves : (k : Sink) → SameStatus s (resume_parked k ec s).0
      parked_leaves k =
          resume_parked_cases (λ r. SameStatus s r.0) k ec s (λ _. ground arith)
            (λ _ _ _. ground arith) (λ _ _ _. ground arith) (λ _ _ _. unfold park in ground arith)

  pub write_impl-LeavesStatus :
      (bytes : Bytes) (end : Bool) → LeavesStatus {Event = Event} (λ s. (write_impl bytes end s).0)
  unfolding write_impl
  write_impl-LeavesStatus bytes end s = ground arith

  pub producer_callback-LeavesStatus :
      (size : ℕ) → LeavesStatus {Event = Event} (λ s. (producer_callback size s).0)
  unfolding producer_callback
  producer_callback-LeavesStatus size s = ground arith
