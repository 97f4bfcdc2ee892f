-- ===== src/Session/Window/Reads.antt =====
-- What reads take from what their stream holds, and what they ask nghttp2 to add to its window
-- (src/stream_impl.hpp).
use nghttp2_corosio.Base.{
  ℕ, subst, ◌+◌, ◌≤◌, ◌≡◌, refl, sym, ap, ◌∙◌, inl, inr, Option, none, some, List, [], ◌++◌, arith,
  Bytes, length, length-append, ◌==◌, Bool-cases, ◌==◌,
}
use nghttp2_corosio.Capy.{AsyncEvent, BufferCopy, ErrorCode}
use nghttp2_corosio.Stream.{Stream, Sink, Effect, consume}
use nghttp2_corosio.Stream.Read.{on_data, park, read_some, resume_read, resume_parked}
use nghttp2_corosio.Stream.Read.Cases.{ReadResult, after_drain_cases, resume_parked_cases}
use nghttp2_corosio.Stream.Read.Content.{
  content, handed, IsSound, on_data-content, read_some-content, read_some-IsSound,
  resume_parked-content, resume_parked-IsSound,
}
use nghttp2_corosio.Session.Inputs.{reading, waking}
use nghttp2_corosio.Session.Preservation.Methods.{on_data-Keeps, read_some-Keeps}
use nghttp2_corosio.Session.Window.{if_stream, effect_credits, weight}
use nghttp2_corosio.Session.Window.Methods.{Pays}

if_stream-add : (id k m n : ℕ) → if_stream id k (m + n) ≡ if_stream id k m + if_stream id k n
if_stream-add id k m n = elim (Bool-cases (k == id)) [
  | inl here ↦ rw here refl
  | inr away ↦ rw away refl
]

module _ {Event : Type 0} ⦃events : AsyncEvent Event⦄ ⦃buffers : BufferCopy⦄ where
  -- What a read hands out is credited.
  paid_for :
      (id : ℕ) (s t : Stream Event) (bytes : Bytes) (credited : ℕ)
      → bytes ++ content t ≡ content s
      → t.id ≡ s.id
      → credited ≤ if_stream id s.id (length bytes)
      → credited + weight id t ≤ weight id s
  paid_for id s t bytes credited e i c =
      let parts : length (content s) ≡ length bytes + length (content t) =
        ap length (sym e) ∙ length-append bytes (content t) in
      let before : weight id s
          ≡ if_stream id s.id (length bytes) + if_stream id s.id (length (content t)) =
        ap (if_stream id s.id) parts ∙ if_stream-add id s.id (length bytes) (length (content t)) in
      let after : weight id t ≡ if_stream id s.id (length (content t)) =
        ap (λ k. if_stream id k (length (content t))) i in
      omega (arith, before, after, c)

  read_some-credits :
      (id room : ℕ) (s : Stream Event)
      → let r = read_some room s in effect_credits id r.2 ≤ if_stream id s.id (length (handed r.1))
  unfolding read_some
  read_some-credits id room s =
      after_drain_cases (λ r. effect_credits id r.2 ≤ if_stream id s.id (length (handed r.1))) _ s
        (λ _. unfold consume in omega arith) (λ _ _. omega arith) (λ _ _. omega arith)

  pub read_some-Pays :
      (id room : ℕ) (s : Stream Event) → s.read_sink ≡ none → IsSound s → Pays id s (reading room s)
  read_some-Pays id room s idle v = (
    read_some-IsSound room s v idle,
    paid_for id s (read_some room s).0 (handed (read_some room s).1) _
        (read_some-content room s v idle) (read_some-Keeps room s).0 (read_some-credits id room s),
  )

  resume_parked-id :
      (k : Sink) (ec : Option ErrorCode) (s : Stream Event) → (resume_parked k ec s).0.id ≡ s.id
  resume_parked-id k ec s =
      resume_parked_cases (λ r. r.0.id ≡ s.id) k ec s (λ _. refl) (λ _ _ _. refl) (λ _ _ _. refl)
        (λ _ _ _. unfold park in refl)

  resume_parked-credits :
      (id : ℕ) (k : Sink) (ec : Option ErrorCode) (s : Stream Event)
      → let r = resume_parked k ec s in
        effect_credits id r.2 ≤ if_stream id s.id (length (handed r.1))
  resume_parked-credits id k ec s =
      resume_parked_cases (λ r. effect_credits id r.2 ≤ if_stream id s.id (length (handed r.1))) k
        ec s (λ _. unfold consume in omega arith) (λ _ _ _. omega arith) (λ _ _ _. omega arith)
        (λ _ _ _. omega arith)

  abbrev waking_from : Option ErrorCode → Stream Event → Option Sink → Stream Event × List Effect
  waking_from ec s none = (s, [])
  waking_from ec s (some k) = let r = resume_parked k ec s in (r.0, r.2)

  waking-waking_from :
      (ec : Option ErrorCode) (s : Stream Event) → waking ec s ≡ waking_from ec s s.read_sink
  unfolding resume_read
  waking-waking_from ec s = go s.read_sink
    where
      go :
          (o : Option Sink)
          → (let r : Option (ReadResult Event) = elim o [
            | none ↦ none
            | some k ↦ some (resume_parked k ec s)
          ] in
              elim r as (λ _. Stream Event × List Effect) [ none ↦ (s, []) | some q ↦ (q.0, q.2) ])
            ≡ waking_from ec s o
      go none = refl
      go (some k) = refl

  pub resume_read-Pays :
      (id : ℕ) (ec : Option ErrorCode) (s : Stream Event) → IsSound s → Pays id s (waking ec s)
  unfolding resume_read
  resume_read-Pays id ec s v = go s.read_sink refl
    where
      go : (o : Option Sink) → s.read_sink ≡ o → Pays id s (waking ec s)
      go none e =
          let stays : waking ec s ≡ (s, []) = waking-waking_from ec s ∙ ap (waking_from ec s) e in
          subst (Pays id s) (sym stays) (v, omega arith)
      go (some k) e =
          let r = resume_parked k ec s in
          let wakes : waking ec s ≡ (r.0, r.2) =
            waking-waking_from ec s ∙ ap (waking_from ec s) e in
          subst (Pays id s) (sym wakes) (
            resume_parked-IsSound k ec s v e,
            paid_for id s r.0 (handed r.1) _ (resume_parked-content k ec s e)
                (resume_parked-id k ec s) (resume_parked-credits id k ec s),
          )

  -- on_data() adds what arrived.
  pub weight-on_data :
      (id : ℕ) (bytes : Bytes) (s : Stream Event)
      → IsSound s
      → weight id (on_data bytes s) ≡ weight id s + if_stream id s.id (length bytes)
  weight-on_data id bytes s v =
      ap (λ k. if_stream id k (length (content (on_data bytes s)))) (on_data-Keeps bytes s).0
      ∙ ap (if_stream id s.id)
          (ap length (on_data-content bytes s v) ∙ length-append (content s) bytes)
      ∙ if_stream-add id s.id (length (content s)) (length bytes)
