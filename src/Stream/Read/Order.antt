-- ===== src/Stream/Read/Order.antt =====
-- The read side of a stream over every interleaving of nghttp2's callbacks with the reader's calls
-- and wake-ups (src/stream_impl.hpp, src/stream.cpp): what arrives, what readers have been handed,
-- and what nghttp2 was told to add to the stream's window again.
use nghttp2_corosio.Base.{
  ℕ, ◌+◌, ◌<◌, ◌≡◌, refl, sym, ap, ◌∙◌, ◌⊎◌, ◌≢◌, true, ◌||◌, Option, none, some, List, [], ◌∷◌,
  ◌++◌, append_assoc, arith, Bytes, length, length-append,
}
use nghttp2_corosio.Capy.{AsyncEvent, BufferCopy, ErrorCode}
use nghttp2_corosio.Stream.{
  Stream, Sink, Effect, consume_stream, resume_data, start_write, consume, on_close, on_read_eof,
}
use nghttp2_corosio.Stream.Read.{
  Draining, park, keep_chunk, on_data_to, on_data, after_drain, read_some, resume_parked,
}
use nghttp2_corosio.Stream.Read.Cases.{ReadResult, after_drain_cases, resume_parked_cases}
use nghttp2_corosio.Stream.Read.Content.{
  handed, content, IsSound, on_data-content, on_data-IsSound, read_some-content, read_some-IsSound,
  resume_parked-content, resume_parked-IsSound,
}

-- The bytes that nghttp2 is told of as consumed.
abbrev pub credits : List Effect → ℕ
credits [] = 0
credits (consume_stream id n ∷ fx) = n + credits fx
credits (resume_data id ∷ fx) = credits fx
credits (start_write ∷ fx) = credits fx

-- A stream with its history: the bytes that arrived, those handed to readers, and the credit given.
pub record Side (Event : Type 0) : Type 0 where
  pub stream : Stream Event
  pub arrived : Bytes
  pub taken : Bytes
  pub credited : ℕ

module _ {Event : Type 0} where
  abbrev pub after : Side Event → ReadResult Event → Side Event
  after x r = record x {
    stream = r.0;
    taken = x.taken ++ handed r.1;
    credited = x.credited + credits r.2;
  }

module _ {Event : Type 0} ⦃events : AsyncEvent Event⦄ ⦃buffers : BufferCopy⦄ where
  -- A read starts when none waits; a waiting one goes on when its event is set or it is cancelled.
  pub data Step : Side Event → Side Event → Type 0 where
    arrives :
        (x : Side Event) (bytes : Bytes)
        → Step x (record x { stream = on_data bytes x.stream; arrived = x.arrived ++ bytes })
    ends : (x : Side Event) → Step x (record x { stream = on_read_eof x.stream })
    closes : (x : Side Event) → Step x (record x { stream = on_close x.stream })
    reads :
        (x : Side Event) (room : ℕ)
        → x.stream.read_sink ≡ none
        → Step x (after x (read_some room x.stream))
    resumes :
        (x : Side Event) (k : Sink) (ec : Option ErrorCode)
        → x.stream.read_sink ≡ some k
        → (ec ≢ none) ⊎ (events.is_set x.stream.read_ready ≡ true)
        → Step x (after x (resume_parked k ec x.stream))

  pub data Reach (x : Side Event) : Side Event → Type 0 where
    here : Reach x x
    next : {y z : Side Event} → Reach x y → Step y z → Reach x z

  -- A waiting read is awake if there is something for it: bytes, the end, or the close.
  abbrev pub IsAwake : Option Sink → Stream Event → Type 0
  IsAwake none s = Unit {0}
  IsAwake (some k) s =
      (0 < length k.copied) ⊎ (s.read_eof || s.closed ≡ true) → events.is_set s.read_ready ≡ true

  pub record Inv (x : Side Event) : Type 0 where
    pub sound : IsSound x.stream
    pub order : x.taken ++ content x.stream ≡ x.arrived
    pub credit : x.credited ≡ length x.taken
    pub awake : IsAwake x.stream.read_sink x.stream

  after_drain-credits :
      (d : Draining) (s : Stream Event)
      → credits (after_drain d s).2 ≡ length (handed (after_drain d s).1)
  after_drain-credits d s =
      after_drain_cases (λ r. credits r.2 ≡ length (handed r.1)) d s
        (λ _. unfold consume in omega arith) (λ _ _. refl) (λ _ _. refl)

  resume_parked-credits :
      (k : Sink) (ec : Option ErrorCode) (s : Stream Event)
      → credits (resume_parked k ec s).2 ≡ length (handed (resume_parked k ec s).1)
  resume_parked-credits k ec s =
      resume_parked_cases (λ r. credits r.2 ≡ length (handed r.1)) k ec s
        (λ _. unfold consume in omega arith) (λ _ _ _. refl) (λ _ _ _. refl) (λ _ _ _. refl)

  pub after_drain-IsAwake :
      (d : Draining) (s : Stream Event)
      → s.read_sink ≡ none
      → IsAwake (after_drain d s).0.read_sink (after_drain d s).0
  after_drain-IsAwake d s e =
      after_drain_cases (λ r. IsAwake r.0.read_sink r.0) d s (λ _. rw e tt) (λ _ _. rw e tt)
        (λ _ live. unfold park in λ h. ground arith)

  pub resume_parked-IsAwake :
      (k : Sink) (ec : Option ErrorCode) (s : Stream Event)
      → IsAwake (resume_parked k ec s).0.read_sink (resume_parked k ec s).0
  resume_parked-IsAwake k ec s =
      resume_parked_cases (λ r. IsAwake r.0.read_sink r.0) k ec s (λ _. tt) (λ _ _ _. tt)
        (λ _ _ _. tt) (λ empty _ live. unfold park in λ h. ground (arith, ap length empty))

  pub woken : (s : Stream Event) → events.is_set s.read_ready ≡ true → IsAwake s.read_sink s
  woken s set = go s.read_sink
    where
      go : (sink : Option Sink) → IsAwake sink s
      go none = tt
      go (some k) = λ _. set

  pub on_data-ready :
      (bytes : Bytes) (s : Stream Event) → events.is_set (on_data bytes s).read_ready ≡ true
  unfolding on_data
  on_data-ready bytes s = go s.read_sink
    where
      go : (sink : Option Sink) → events.is_set (on_data_to sink bytes s).read_ready ≡ true
      go none = unfold keep_chunk in events.is_set-set _
      go (some k) = unfold keep_chunk in events.is_set-set _

  took :
      (x : Side Event) (r : ReadResult Event)
      → Inv x
      → handed r.1 ++ content r.0 ≡ content x.stream
      → credits r.2 ≡ length (handed r.1)
      → IsSound r.0
      → IsAwake r.0.read_sink r.0
      → Inv (after x r)
  took x r v kept paid sound awake = record {
    sound = sound;
    order =
        append_assoc x.taken (handed r.1) (content r.0)
        ∙ ap (λ bytes. x.taken ++ bytes) kept
        ∙ v.order;
    credit = omega (arith, v.credit, length-append x.taken (handed r.1));
    awake = awake;
  }

  pub Step-Inv : {x y : Side Event} → Step x y → Inv x → Inv y
  unfolding on_read_eof on_close read_some
  Step-Inv (arrives x bytes) v = record {
    sound = on_data-IsSound bytes x.stream v.sound;
    order =
        ap (λ bs. x.taken ++ bs) (on_data-content bytes x.stream v.sound)
        ∙ sym (append_assoc x.taken (content x.stream) bytes)
        ∙ ap (λ bs. bs ++ bytes) v.order;
    credit = v.credit;
    awake = woken (on_data bytes x.stream) (on_data-ready bytes x.stream);
  }
  Step-Inv (ends x) v = record {
    sound = record { front = v.sound.front; no_overtaking = v.sound.no_overtaking };
    order = v.order;
    credit = v.credit;
    awake = woken (on_read_eof x.stream) (events.is_set-set x.stream.read_ready);
  }
  Step-Inv (closes x) v = record {
    sound = record { front = v.sound.front; no_overtaking = v.sound.no_overtaking };
    order = v.order;
    credit = v.credit;
    awake = woken (on_close x.stream) (events.is_set-set x.stream.read_ready);
  }
  Step-Inv (reads x room e) v =
      took x (read_some room x.stream) v (read_some-content room x.stream v.sound e)
        (after_drain-credits _ x.stream) (read_some-IsSound room x.stream v.sound e)
        (after_drain-IsAwake _ x.stream e)
  Step-Inv (resumes x k ec e w) v =
      took x (resume_parked k ec x.stream) v (resume_parked-content k ec x.stream e)
        (resume_parked-credits k ec x.stream) (resume_parked-IsSound k ec x.stream v.sound e)
        (resume_parked-IsAwake k ec x.stream)
