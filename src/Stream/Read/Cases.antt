-- ===== src/Stream/Read/Cases.antt =====
-- The ways in which read_some() (src/stream_impl.hpp) ends or waits, for proofs about all of them.
use nghttp2_corosio.Base.{
  ◌<◌, ◌≡◌, refl, true, false, ◌||◌, Option, none, some, List, [], ◌∷◌, arith, Bytes, length, ltb,
  Bool-cases, inl, inr, if◌then◌else◌,
}
use nghttp2_corosio.Capy.{AsyncEvent, BufferCopy, ErrorCode}
use nghttp2_corosio.Stream.{Stream, Sink, Effect, consume, eof_error}
use nghttp2_corosio.Stream.Read.{
  ReadOutcome, delivered, failed, parked, Draining, park, after_drain, resume_parked,
}

nil_of_not_lt : (bytes : Bytes) → ltb 0 (length bytes) ≡ false → bytes ≡ []
nil_of_not_lt [] h = refl
nil_of_not_lt (b ∷ bs) h = ground arith

abbrev pub ReadResult : Type 0 → Type 0
ReadResult Event = Stream Event × ReadOutcome × List Effect

module _ {Event : Type 0} where
  abbrev pub drained : Draining → Stream Event → Stream Event
  drained d s = record s { chunks = d.chunks; front_offset = d.front_offset }

  abbrev pub unparked : Stream Event → Stream Event
  unparked s = record s { read_sink = none }

module _ {Event : Type 0} ⦃events : AsyncEvent Event⦄ ⦃buffers : BufferCopy⦄ where
  pub after_drain_cases {ℓ} :
      (P : ReadResult Event → Type ℓ) (d : Draining) (s : Stream Event)
      → (0 < length d.out → P (drained d s, delivered d.out, consume s.id (length d.out)))
      → (d.out ≡ [] → (s.read_eof || s.closed) ≡ true → P (drained d s, failed (eof_error s), []))
      → (d.out ≡ []
          → (s.read_eof || s.closed) ≡ false
          → P (park (record { room = d.room; copied = [] }) (drained d s), parked, []))
      → P (after_drain d s)
  unfolding after_drain
  after_drain_cases P d s got over wait = elim (Bool-cases (ltb 0 (length d.out))) [
    | inl some_out ↦ rw some_out (got (ground arith))
    | inr no_out ↦
        let empty = nil_of_not_lt d.out no_out in
        rw no_out (elim (Bool-cases (s.read_eof || s.closed)) [
          | inl e ↦ rw e (over empty e)
          | inr e ↦ rw e (wait empty e)
        ])
  ]

  pub resume_parked_cases {ℓ} :
      (P : ReadResult Event → Type ℓ) (k : Sink) (ec : Option ErrorCode) (s : Stream Event)
      → (0 < length k.copied → P (unparked s, delivered k.copied, consume s.id (length k.copied)))
      → ((e : ErrorCode) → k.copied ≡ [] → ec ≡ some e → P (unparked s, failed e, []))
      → (k.copied ≡ []
          → ec ≡ none
          → (s.read_eof || s.closed) ≡ true
          → P (unparked s, failed (eof_error s), []))
      → (k.copied ≡ []
          → ec ≡ none
          → (s.read_eof || s.closed) ≡ false
          → P (park k (unparked s), parked, []))
      → P (resume_parked k ec s)
  unfolding resume_parked
  resume_parked_cases P k ec s got cancelled over wait =
      elim (Bool-cases (ltb 0 (length k.copied))) [
        | inl some_out ↦ rw some_out (got (ground arith))
        | inr no_out ↦ rw no_out (go (nil_of_not_lt k.copied no_out) ec cancelled over wait)
      ]
    where
      go :
          k.copied ≡ []
          → (c : Option ErrorCode)
          → ((e : ErrorCode) → k.copied ≡ [] → c ≡ some e → P (unparked s, failed e, []))
          → (k.copied ≡ []
              → c ≡ none
              → (s.read_eof || s.closed) ≡ true
              → P (unparked s, failed (eof_error s), []))
          → (k.copied ≡ []
              → c ≡ none
              → (s.read_eof || s.closed) ≡ false
              → P (park k (unparked s), parked, []))
          → P (elim c [
            | some e ↦ (unparked s, failed e, [])
            | none ↦
                if s.read_eof || s.closed
                then (unparked s, failed (eof_error s), [])
                else (park k (unparked s), parked, [])
          ])
      go empty (some e) cancelled over wait = cancelled e empty refl
      go empty none cancelled over wait = elim (Bool-cases (s.read_eof || s.closed)) [
        | inl e ↦ rw e (over empty refl e)
        | inr e ↦ rw e (wait empty refl e)
      ]
