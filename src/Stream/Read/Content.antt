-- ===== src/Stream/Read/Content.antt =====
-- What a stream has received and not yet handed to its reader (src/stream_impl.hpp, src/stream.cpp):
-- on_data() adds at its end, read_some() takes from its front, also where a read waits and the bytes
-- go straight into the caller's buffers.
use nghttp2_corosio.Base.{
  ℕ, ◌-◌, ◌≤◌, ◌<◌, ◌≡◌, refl, sym, ap, ◌∙◌, subst, ◌⊎◌, inl, inr, Option, none, some, List, [],
  ◌∷◌, ◌++◌, append_assoc, append-nil, arith, Bytes, All-append, length, take, drop, concat, min,
  Bool-cases, length-append, take-append-drop, drop_all, drop-append, is_empty, ltb, if◌then◌else◌,
}
use nghttp2_corosio.Capy.{AsyncEvent, BufferCopy, ErrorCode}
use nghttp2_corosio.Stream.{Stream, Sink}
use nghttp2_corosio.Stream.Read.{
  ReadOutcome, delivered, failed, parked, Draining, enough, drain, put, park, keep_chunk,
  on_data_to, on_data, after_drain, read_some, resume_parked,
}
use nghttp2_corosio.Stream.Read.Cases.{after_drain_cases, resume_parked_cases, unparked}
use nghttp2_corosio.Stream.Read.Drain.{buffered, IsFront, HasEnded, drain-Drains, drain_ends}

abbrev pub in_sink : Option Sink → Bytes
in_sink none = []
in_sink (some k) = k.copied

-- Bytes queue up behind a waiting read only when its buffers are full.
abbrev pub IsWaiting : Option Sink → List Bytes → Type 0
IsWaiting none chunks = Unit {0}
IsWaiting (some k) chunks = (k.room ≡ 0) ⊎ (chunks ≡ [])

module _ {Event : Type 0} where
  abbrev starting : ℕ → Stream Event → Draining
  starting room s = record {
    chunks = s.chunks;
    front_offset = s.front_offset;
    room = room;
    out = [];
  }

  abbrev pub content : Stream Event → Bytes
  content s = in_sink s.read_sink ++ buffered s.chunks s.front_offset

  pub record IsSound (s : Stream Event) : Type 0 where
    pub front : IsFront s.chunks s.front_offset
    pub no_overtaking : IsWaiting s.read_sink s.chunks

concat-append : (cs : List Bytes) (b : Bytes) → concat (cs ++ b ∷ []) ≡ concat cs ++ b
concat-append [] b = append-nil b
concat-append (c ∷ cs) b = rw (concat-append cs b) (sym (append_assoc c (concat cs) b))

offset-le : (cs : List Bytes) (offset : ℕ) → IsFront cs offset → offset ≤ length (concat cs)
offset-le [] offset h = omega arith
offset-le (c ∷ cs) offset h = omega (arith, length-append c (concat cs))

buffered-append :
    (cs : List Bytes) (b : Bytes) (offset : ℕ)
    → IsFront cs offset
    → buffered (cs ++ b ∷ []) offset ≡ buffered cs offset ++ b
buffered-append cs b offset h =
    rw concat-append (drop-append offset (concat cs) b (offset-le cs offset h))

IsFront-append :
    (cs : List Bytes) (b : Bytes) (offset : ℕ)
    → IsFront cs offset
    → 0 < length b
    → IsFront (cs ++ b ∷ []) offset
IsFront-append [] b offset h p = (omega arith, tt)
IsFront-append (c ∷ cs) b offset h p = (h.0, All-append (λ x. 0 < length x) cs (b ∷ []) h.1 (p, tt))

-- The bytes that a call hands to its caller.
abbrev pub handed : ReadOutcome → Bytes
handed (delivered bytes) = bytes
handed (failed e) = []
handed parked = []

-- Bytes that go to a waiting read in part: what does not fit queues up behind it.
split_order :
    (k : Sink) (chunks : List Bytes) (offset n : ℕ) (bytes : Bytes)
    → (k.room ≡ 0) ⊎ (chunks ≡ [])
    → IsFront chunks offset
    → n ≡ min k.room (length bytes)
    → (k.copied ++ take n bytes) ++ (buffered chunks offset ++ drop n bytes)
      ≡ (k.copied ++ buffered chunks offset) ++ bytes
split_order k chunks offset n bytes (inl full) h e =
    let nothing : n ≡ 0 = omega arith in
    rw (nothing, append-nil) (sym (append_assoc k.copied (buffered chunks offset) bytes))
split_order k chunks offset n bytes (inr idle) h e =
    let unread : buffered chunks offset ≡ [] =
      ap (λ cs. drop offset (concat cs)) idle ∙ drop_all offset [] (omega arith) in
    rw (unread, append-nil, append_assoc, take-append-drop)

put_IsWaiting :
    (room n : ℕ) (chunks : List Bytes) (bytes : Bytes)
    → (room ≡ 0) ⊎ (chunks ≡ [])
    → n ≡ min room (length bytes)
    → (room - n ≡ 0)
      ⊎ ((if is_empty (drop n bytes) then chunks else chunks ++ drop n bytes ∷ []) ≡ [])
put_IsWaiting room n chunks bytes (inl full) e = inl (omega arith)
put_IsWaiting room n chunks bytes (inr idle) e = elim (Bool-cases (ltb n (length bytes))) [
  | inl more ↦ inl (ground arith)
  | inr all_in ↦ rw (drop_all n bytes (ground arith)) (inr idle)
]

module _ {Event : Type 0} ⦃events : AsyncEvent Event⦄ ⦃buffers : BufferCopy⦄ where
  keep_chunk-buffered :
      (bytes : Bytes) (s : Stream Event)
      → IsFront s.chunks s.front_offset
      → buffered (keep_chunk bytes s).chunks s.front_offset
        ≡ buffered s.chunks s.front_offset ++ bytes
  unfolding keep_chunk
  keep_chunk-buffered [] s h = sym (append-nil _)
  keep_chunk-buffered (b ∷ bs) s h = buffered-append s.chunks (b ∷ bs) s.front_offset h

  keep_chunk-IsFront :
      (bytes : Bytes) (s : Stream Event)
      → IsFront s.chunks s.front_offset
      → IsFront (keep_chunk bytes s).chunks s.front_offset
  unfolding keep_chunk
  keep_chunk-IsFront [] s h = h
  keep_chunk-IsFront (b ∷ bs) s h = IsFront-append s.chunks (b ∷ bs) s.front_offset h (omega arith)

  on_data_to-content :
      (sink : Option Sink) (bytes : Bytes) (s : Stream Event)
      → s.read_sink ≡ sink
      → IsFront s.chunks s.front_offset
      → IsWaiting sink s.chunks
      → content (on_data_to sink bytes s)
        ≡ (in_sink sink ++ buffered s.chunks s.front_offset) ++ bytes
  unfolding on_data_to
  on_data_to-content none bytes s e h w = unfold keep_chunk in rw e (keep_chunk-buffered bytes s h)
  on_data_to-content (some k) bytes s e h w =
      let n = buffers.copied k.room (length bytes) in
      ap (λ rest. (k.copied ++ take n bytes) ++ rest)
        (keep_chunk-buffered (drop n bytes) (record s { read_sink = some (put bytes k).1 }) h)
      ∙ split_order k s.chunks s.front_offset n bytes w h
          (buffers.copied-eq-min k.room (length bytes))

  -- on_data() adds what nghttp2 delivers at the end, whether a read waits or not.
  pub on_data-content :
      (bytes : Bytes) (s : Stream Event)
      → IsSound s
      → content (on_data bytes s) ≡ content s ++ bytes
  unfolding on_data
  on_data-content bytes s h = on_data_to-content s.read_sink bytes s refl h.front h.no_overtaking

  on_data_to-IsSound :
      (sink : Option Sink) (bytes : Bytes) (s : Stream Event)
      → s.read_sink ≡ sink
      → IsFront s.chunks s.front_offset
      → IsWaiting sink s.chunks
      → IsSound (on_data_to sink bytes s)
  unfolding on_data_to
  on_data_to-IsSound none bytes s e h w = record {
    front = keep_chunk-IsFront bytes s h;
    no_overtaking = unfold keep_chunk in rw e tt;
  }
  on_data_to-IsSound (some k) bytes s e h w = record {
    front = keep_chunk-IsFront (drop n bytes) (record s { read_sink = some (put bytes k).1 }) h;
    no_overtaking =
        unfold keep_chunk put in
        put_IsWaiting k.room n s.chunks bytes w (buffers.copied-eq-min k.room (length bytes));
  }
    where
      n : ℕ
      n = buffers.copied k.room (length bytes)

  pub on_data-IsSound : (bytes : Bytes) (s : Stream Event) → IsSound s → IsSound (on_data bytes s)
  unfolding on_data
  on_data-IsSound bytes s h = on_data_to-IsSound s.read_sink bytes s refl h.front h.no_overtaking

  after_drain-content :
      (d : Draining) (s : Stream Event)
      → s.read_sink ≡ none
      → let (s', outcome, _) = after_drain d s in
        handed outcome ++ content s' ≡ d.out ++ buffered d.chunks d.front_offset
  after_drain-content d s e =
      after_drain_cases (λ r. handed r.1 ++ content r.0 ≡ d.out ++ buffered d.chunks d.front_offset)
        d s (λ _. rw e) (λ empty _. rw (e, empty)) (λ empty _. unfold park in rw empty)

  after_drain-IsSound :
      (d : Draining) (s : Stream Event)
      → s.read_sink ≡ none
      → IsFront d.chunks d.front_offset
      → HasEnded d
      → IsSound (after_drain d s).0
  after_drain-IsSound d s e f ended =
      after_drain_cases (λ r. IsSound r.0) d s (λ _. record { front = f; no_overtaking = rw e tt })
        (λ _ _. record { front = f; no_overtaking = rw e tt })
        (λ _ _. unfold park in record { front = f; no_overtaking = ended })

  pub read_some-content :
      (room : ℕ) (s : Stream Event)
      → IsSound s
      → s.read_sink ≡ none
      → let (s', outcome, _) = read_some room s in handed outcome ++ content s' ≡ content s
  unfolding read_some
  read_some-content room s h e =
      after_drain-content (drain (enough s.chunks) (starting room s)) s e
      ∙ (drain-Drains (enough s.chunks) (starting room s) h.front).in_order
      ∙ rw e refl

  pub read_some-IsSound :
      (room : ℕ) (s : Stream Event) → IsSound s → s.read_sink ≡ none → IsSound (read_some room s).0
  unfolding read_some
  read_some-IsSound room s h e =
      after_drain-IsSound (drain (enough s.chunks) (starting room s)) s e
        (drain-Drains (enough s.chunks) (starting room s) h.front).front
        (drain_ends (enough s.chunks) (starting room s) h.front (omega arith))

  pub resume_parked-content :
      (k : Sink) (ec : Option ErrorCode) (s : Stream Event)
      → s.read_sink ≡ some k
      → let (s', outcome, _) = resume_parked k ec s in handed outcome ++ content s' ≡ content s
  resume_parked-content k ec s e =
      resume_parked_cases (λ r. handed r.1 ++ content r.0 ≡ content s) k ec s (λ _. rw e)
        (λ _ empty _. rw (e, empty)) (λ empty _ _. rw (e, empty)) (λ _ _ _. unfold park in rw e)

  pub resume_parked-IsSound :
      (k : Sink) (ec : Option ErrorCode) (s : Stream Event)
      → IsSound s
      → s.read_sink ≡ some k
      → IsSound (resume_parked k ec s).0
  resume_parked-IsSound k ec s h e =
      resume_parked_cases (λ r. IsSound r.0) k ec s (λ _. idle) (λ _ _ _. idle) (λ _ _ _. idle)
        (λ _ _ _.
          unfold park in
          record {
            front = h.front;
            no_overtaking = subst (λ sink. IsWaiting sink s.chunks) e h.no_overtaking;
          })
    where
      idle : IsSound (unparked s)
      idle = record { front = h.front; no_overtaking = tt }
