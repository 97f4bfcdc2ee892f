-- ===== src/Session/Reading/Methods.antt =====
-- The methods of a stream (src/stream_impl.hpp, src/stream.cpp) that leave its read side alone.
use nghttp2_corosio.Base.{
  ℕ, ◌≡◌, refl, sym, ap, subst, ◌∙◌, inl, inr, Bool, Option, none, some, arith, Bytes, same,
  Bool-cases,
}
use nghttp2_corosio.Capy.{AsyncEvent, BufferCopy}
use nghttp2_corosio.Stream.{Stream, Sink, set_path, set_status, set_content_length, add_header}
use nghttp2_corosio.Stream.Read.Order.{Side, Inv, IsAwake}
use nghttp2_corosio.Stream.Write.{write_impl, producer_callback}
use nghttp2_corosio.Stream.Status.{get_status}
use nghttp2_corosio.Session.Callbacks.{
  starts_with, path_name, status_name, content_length_name, content_length_of,
}
use nghttp2_corosio.Session.Isolation.Cases.{addressed_cases, called_cases}
use nghttp2_corosio.Session.Isolation.{addressed, called, take_length, take_header}

module _ {Event : Type 0} where
  -- The fields of the read side are equal, and whether the stream is closed.
  pub record SameReading (s t : Stream Event) : Type 0 where
    pub closed : t.closed ≡ s.closed
    pub chunks : t.chunks ≡ s.chunks
    pub front_offset : t.front_offset ≡ s.front_offset
    pub read_sink : t.read_sink ≡ s.read_sink
    pub read_eof : t.read_eof ≡ s.read_eof
    pub read_ready : t.read_ready ≡ s.read_ready

  pub SameReading-self : (s : Stream Event) → SameReading s s
  SameReading-self s = record {
    closed = refl;
    chunks = refl;
    front_offset = refl;
    read_sink = refl;
    read_eof = refl;
    read_ready = refl;
  }

  abbrev pub LeavesReading : (Stream Event → Stream Event) → Type 0
  LeavesReading f = (s : Stream Event) → SameReading s (f s)

  pub addressed-LeavesReading :
      (id : ℕ) (f : Stream Event → Stream Event) → LeavesReading f → LeavesReading (addressed id f)
  addressed-LeavesReading id f h s =
      addressed_cases (SameReading s) id f s (h s) (SameReading-self s)

  pub called-LeavesReading :
      (ref r : ℕ) (f : Stream Event → Stream Event)
      → LeavesReading f
      → LeavesReading (called ref r f)
  called-LeavesReading ref r f h s =
      called_cases (SameReading s) ref r f s (λ _. h s) (SameReading-self s)

  take_length-same : (n : Option ℕ) → LeavesReading (take_length n)
  unfolding set_content_length
  take_length-same none s = SameReading-self s
  take_length-same (some n) s = ground arith

module _ {Event : Type 0} ⦃events : AsyncEvent Event⦄ ⦃buffers : BufferCopy⦄ where
  IsAwake-same :
      (sink : Option Sink) (s t : Stream Event) → SameReading s t → IsAwake sink s → IsAwake sink t
  IsAwake-same none s t h v = tt
  IsAwake-same (some k) s t h v =
      λ w. ap events.is_set h.read_ready ∙ v (ground (arith, h.read_eof, h.closed))

  pub SameReading-Inv :
      (x : Side Event) (t : Stream Event)
      → SameReading x.stream t
      → Inv x
      → Inv (record x { stream = t })
  SameReading-Inv x t h v = record {
    sound = record {
      front = rw (h.chunks, h.front_offset) v.sound.front;
      no_overtaking = rw (h.read_sink, h.chunks) v.sound.no_overtaking;
    };
    order = rw (h.read_sink, h.chunks, h.front_offset) v.order;
    credit = v.credit;
    awake =
        subst (λ sink. IsAwake sink t) (sym h.read_sink)
          (IsAwake-same x.stream.read_sink x.stream t h v.awake);
  }

  pub take_header-LeavesReading :
      (name value : Bytes) → LeavesReading {Event = Event} (take_header name value)
  unfolding set_path set_status add_header
  take_header-LeavesReading name value s = elim (Bool-cases (same name path_name)) [
    | inl e ↦ rw e (ground arith)
    | inr e ↦ rw e (elim (Bool-cases (same name status_name)) [
      | inl e ↦ rw e (ground arith)
      | inr e ↦ rw e (elim (Bool-cases (starts_with b':' name)) [
        | inl e ↦ rw e (SameReading-self s)
        | inr e ↦ rw e (elim (Bool-cases (same name content_length_name)) [
          | inl e ↦ rw e (ground (arith, take_length-same (content_length_of value) s))
          | inr e ↦ rw e (ground arith)
        ])
      ])
    ])
  ]

  pub get_status-LeavesReading : LeavesReading {Event = Event} (λ s. (get_status s).0)
  unfolding get_status
  get_status-LeavesReading s = ground arith

  pub write_impl-LeavesReading :
      (bytes : Bytes) (end : Bool) → LeavesReading {Event = Event} (λ s. (write_impl bytes end s).0)
  unfolding write_impl
  write_impl-LeavesReading bytes end s = ground arith

  pub producer_callback-LeavesReading :
      (size : ℕ) → LeavesReading {Event = Event} (λ s. (producer_callback size s).0)
  unfolding producer_callback
  producer_callback-LeavesReading size s = ground arith
