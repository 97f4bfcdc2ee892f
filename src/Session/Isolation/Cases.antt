-- ===== src/Session/Isolation/Cases.antt =====
-- The ways in which an input may reach a Stream object (src/session.cpp, src/stream_impl.hpp), for
-- proofs about all of them.
use nghttp2_corosio.Base.{
  ℕ, ◌≡◌, ap, inl, inr, not, ◌&&◌, Option, none, some, ◌==◌, Bool-cases, ==_iff, Option-cases,
}
use nghttp2_corosio.Capy.{AsyncEvent, BufferCopy, ErrorCode}
use nghttp2_corosio.Stream.{Stream, Sink}
use nghttp2_corosio.Stream.Read.{resume_parked, resume_read}
use nghttp2_corosio.Session.Inputs.{waking}
use nghttp2_corosio.Session.Isolation.{addressed, called}

module _ {Event : Type 0} where
  pub addressed_cases {ℓ} :
      (P : Stream Event → Type ℓ) (id : ℕ) (f : Stream Event → Stream Event) (s : Stream Event)
      → P (f s)
      → P s
      → P (addressed id f s)
  addressed_cases P id f s hit miss = elim (Bool-cases ((s.id == id) && not s.closed)) [
    | inl e ↦ rw e hit
    | inr e ↦ rw e miss
  ]

  pub called_cases {ℓ} :
      (P : Stream Event → Type ℓ) (ref r : ℕ) (f : Stream Event → Stream Event) (s : Stream Event)
      → (r ≡ ref → P (f s))
      → P s
      → P (called ref r f s)
  called_cases P ref r f s hit miss = elim (Bool-cases (r == ref)) [
    | inl e ↦ rw e (hit ((==_iff r ref).0 e))
    | inr e ↦ rw e miss
  ]

module _ {Event : Type 0} ⦃events : AsyncEvent Event⦄ ⦃buffers : BufferCopy⦄ where
  pub waking_cases {ℓ} :
      (P : Stream Event → Type ℓ) (ec : Option ErrorCode) (s : Stream Event)
      → P s
      → ((k : Sink) → P (resume_parked k ec s).0)
      → P (waking ec s).0
  unfolding resume_read
  waking_cases P ec s idle parked = elim (Option-cases s.read_sink) [
    | inl e ↦
        let nobody : resume_read ec s ≡ none =
          ap (λ o. elim o [ none ↦ none | some j ↦ some (resume_parked j ec s) ]) e in
        rw (nobody, waking) idle
    | inr (k, e) ↦
        let waits : resume_read ec s ≡ some (resume_parked k ec s) =
          ap (λ o. elim o [ none ↦ none | some j ↦ some (resume_parked j ec s) ]) e in
        rw (waits, waking) (parked k)
  ]
