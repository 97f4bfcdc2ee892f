-- ===== src/Session/Writing/Methods.antt =====
-- The methods of a stream (src/stream_impl.hpp, src/stream.cpp) that leave its write side alone.
use nghttp2_corosio.Base.{
  ℕ, ◌≡◌, refl, inl, inr, ◌&&◌, ◌||◌, Option, none, some, arith, Bytes, same, Bool-cases,
  is_negative,
}
use nghttp2_corosio.Capy.{AsyncEvent, BufferCopy, ErrorCode}
use nghttp2_corosio.Stream.{
  Stream, Sink, set_path, set_status, set_content_length, add_header, on_read_eof,
}
use nghttp2_corosio.Stream.Read.{park, keep_chunk, on_data_to, on_data, read_some, resume_parked}
use nghttp2_corosio.Stream.Read.Cases.{after_drain_cases, resume_parked_cases}
use nghttp2_corosio.Stream.Status.{get_status}
use nghttp2_corosio.Stream.Write.Progress.{Sending, Inv}
use nghttp2_corosio.Session.Callbacks.{
  Frame, is_headers, is_data, starts_with, path_name, status_name, content_length_name,
  content_length_of,
}
use nghttp2_corosio.Session.Inputs.{reading, waking}
use nghttp2_corosio.Session.Isolation.Cases.{addressed_cases, called_cases, waking_cases}
use nghttp2_corosio.Session.Isolation.{addressed, called, take_length, take_header, take_frame}

module _ {Event : Type 0} where
  -- The fields of the write side are equal, and whether the stream is closed.
  pub record SameWriting (s t : Stream Event) : Type 0 where
    pub closed : t.closed ≡ s.closed
    pub pending : t.pending ≡ s.pending
    pub cursor : t.cursor ≡ s.cursor
    pub write_offset : t.write_offset ≡ s.write_offset
    pub write_pending : t.write_pending ≡ s.write_pending
    pub write_eof_requested : t.write_eof_requested ≡ s.write_eof_requested
    pub write_deferred : t.write_deferred ≡ s.write_deferred
    pub write_progress : t.write_progress ≡ s.write_progress

  pub SameWriting-self : (s : Stream Event) → SameWriting s s
  SameWriting-self s = record {
    closed = refl;
    pending = refl;
    cursor = refl;
    write_offset = refl;
    write_pending = refl;
    write_eof_requested = refl;
    write_deferred = refl;
    write_progress = refl;
  }

  abbrev pub LeavesWriting : (Stream Event → Stream Event) → Type 0
  LeavesWriting f = (s : Stream Event) → SameWriting s (f s)

  pub addressed-LeavesWriting :
      (id : ℕ) (f : Stream Event → Stream Event) → LeavesWriting f → LeavesWriting (addressed id f)
  addressed-LeavesWriting id f h s =
      addressed_cases (SameWriting s) id f s (h s) (SameWriting-self s)

  pub called-LeavesWriting :
      (ref r : ℕ) (f : Stream Event → Stream Event)
      → LeavesWriting f
      → LeavesWriting (called ref r f)
  called-LeavesWriting ref r f h s =
      called_cases (SameWriting s) ref r f s (λ _. h s) (SameWriting-self s)

module _ {Event : Type 0} ⦃events : AsyncEvent Event⦄ ⦃buffers : BufferCopy⦄ where
  pub SameWriting-Inv :
      (x : Sending Event) (t : Stream Event)
      → SameWriting x.stream t
      → Inv x
      → Inv (record x { stream = t })
  SameWriting-Inv x t h v = ground arith

  take_length-same : (n : Option ℕ) → LeavesWriting {Event = Event} (take_length n)
  unfolding set_content_length
  take_length-same none s = SameWriting-self s
  take_length-same (some n) s = ground arith

  pub take_header-LeavesWriting :
      (name value : Bytes) → LeavesWriting {Event = Event} (take_header name value)
  unfolding set_path set_status add_header
  take_header-LeavesWriting name value s = elim (Bool-cases (same name path_name)) [
    | inl e ↦ rw e (ground arith)
    | inr e ↦ rw e (elim (Bool-cases (same name status_name)) [
      | inl e ↦ rw e (ground arith)
      | inr e ↦ rw e (elim (Bool-cases (starts_with b':' name)) [
        | inl e ↦ rw e (SameWriting-self s)
        | inr e ↦ rw e (elim (Bool-cases (same name content_length_name)) [
          | inl e ↦ rw e (ground (arith, take_length-same (content_length_of value) s))
          | inr e ↦ rw e (ground arith)
        ])
      ])
    ])
  ]

  pub take_frame-LeavesWriting : (f : Frame) → LeavesWriting {Event = Event} (take_frame f)
  unfolding on_read_eof
  take_frame-LeavesWriting f s =
      elim (Bool-cases ((is_headers f.type || is_data f.type) && f.end_stream)) [
        | inl e ↦ rw e (ground arith)
        | inr e ↦ rw e (SameWriting-self s)
      ]

  pub on_data-LeavesWriting : (bytes : Bytes) → LeavesWriting {Event = Event} (on_data bytes)
  unfolding on_data
  on_data-LeavesWriting bytes s = go s.read_sink
    where
      go : (sink : Option Sink) → SameWriting s (on_data_to sink bytes s)
      go none = unfold keep_chunk in ground arith
      go (some k) = unfold keep_chunk in ground arith

  pub reading-LeavesWriting : (room : ℕ) → LeavesWriting {Event = Event} (λ s. (reading room s).0)
  unfolding read_some
  reading-LeavesWriting room s =
      after_drain_cases (λ r. SameWriting s r.0) _ s (λ _. ground arith) (λ _ _. ground arith)
        (λ _ _. unfold park in ground arith)

  pub waking-LeavesWriting :
      (ec : Option ErrorCode) → LeavesWriting {Event = Event} (λ s. (waking ec s).0)
  waking-LeavesWriting ec s = waking_cases (SameWriting s) ec s (SameWriting-self s) parked_leaves
    where
      parked_leaves : (k : Sink) → SameWriting s (resume_parked k ec s).0
      parked_leaves k =
          resume_parked_cases (λ r. SameWriting s r.0) k ec s (λ _. ground arith)
            (λ _ _ _. ground arith) (λ _ _ _. ground arith) (λ _ _ _. unfold park in ground arith)

  pub get_status-LeavesWriting : LeavesWriting {Event = Event} (λ s. (get_status s).0)
  unfolding get_status
  get_status-LeavesWriting s = elim (Bool-cases (is_negative s.status)) [
    | inl e ↦ rw e (ground arith)
    | inr e ↦ rw e (SameWriting-self s)
  ]
