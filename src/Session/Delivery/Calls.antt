-- ===== src/Session/Delivery/Calls.antt =====
-- What the calls of readers and writers (src/stream_impl.hpp) do to what a session's streams hold.
use nghttp2_corosio.Base.{
  ℕ, ◌≡◌, refl, sym, ap, ◌∙◌, inl, inr, Bool, true, false, Option, none, some, List, [], ◌++◌,
  Bytes, get_elem?, ◌==◌, ==_iff, Bool-cases, Option-cases, if◌then◌else◌,
}
use nghttp2_corosio.Capy.{AsyncEvent, BufferCopy, ErrorCode}
use nghttp2_corosio.Stream.{Stream, Sink, Effect}
use nghttp2_corosio.Stream.Read.{resume_read, resume_parked}
use nghttp2_corosio.Stream.Read.Content.{content, handed, IsSound, resume_parked-content}
use nghttp2_corosio.Session.{Session, at, perform}
use nghttp2_corosio.Stream.Read.Cases.{ReadResult}
use nghttp2_corosio.Session.Inputs.{invoke, waking}
use nghttp2_corosio.Session.Window.{perform-heap}
use nghttp2_corosio.Session.Window.Methods.{IsSound-at}
use nghttp2_corosio.Session.Window.Steps.{AllSound}
use nghttp2_corosio.Session.Delivery.{
  content_of, content_at, with_object, content_at-update, handed_by_wake,
}

nothing : (b : Bool) → (let out : Bytes = if b then [] else [] in out) ≡ []
nothing true = refl
nothing false = refl

module _ {Event : Type 0} ⦃events : AsyncEvent Event⦄ ⦃buffers : BufferCopy⦄ where
  invoke-missing :
      (r : ℕ) (f : Stream Event → Stream Event × List Effect) (x : Session Event)
      → get_elem? x.heap r ≡ none
      → invoke r f x ≡ x
  unfolding invoke
  invoke-missing r f x e = rw (e, invoke) refl

  content_at-invoke-found :
      (ref r : ℕ) (f : Stream Event → Stream Event × List Effect) (x : Session Event)
      {s : Stream Event}
      → get_elem? x.heap r ≡ some s
      → content_at ref (invoke r f x).heap
        ≡ (if r == ref then content (f s).0 else content_at ref x.heap)
  unfolding invoke at
  content_at-invoke-found ref r f x {s} e =
      ap
        (λ o.
          content_at ref
            (elim o as (λ _. Session Event) [
              | none ↦ x
              | some t ↦ perform (f t).1 (at r (λ t. (f t).0) x)
            ]).heap)
        e
      ∙ ap (content_at ref) (perform-heap (f s).1 (at r (λ t. (f t).0) x))
      ∙ content_at-update ref r (λ t. (f t).0) x.heap e

  -- A method that takes from what its stream holds.
  pub content_at-invoke :
      (ref r : ℕ) (f : Stream Event → Stream Event × List Effect) (h : Stream Event → Bytes)
      (x : Session Event)
      → ((s : Stream Event)
          → get_elem? x.heap r ≡ some s
          → IsSound s
          → h s ++ content (f s).0 ≡ content s)
      → AllSound x
      → (if r == ref then with_object h (get_elem? x.heap r) else [])
          ++ content_at ref (invoke r f x).heap
        ≡ content_at ref x.heap
  content_at-invoke ref r f h x takes v = elim (Option-cases (get_elem? x.heap r)) [
    | inl e ↦
        ap (λ o. (if r == ref then with_object h o else []) ++ content_at ref (invoke r f x).heap) e
        ∙ ap (λ out. out ++ content_at ref (invoke r f x).heap) (nothing (r == ref))
        ∙ ap (λ (y : Session Event). content_at ref y.heap) (invoke-missing r f x e)
    | inr (s, e) ↦
        ap (λ o. (if r == ref then with_object h o else []) ++ content_at ref (invoke r f x).heap) e
        ∙ ap (λ rest. (if r == ref then h s else []) ++ rest) (content_at-invoke-found ref r f x e)
        ∙ (elim (Bool-cases (r == ref)) [
          | inl here ↦ rw here (
              takes s e (IsSound-at r x.heap v e)
              ∙ sym (ap content_of e)
              ∙ ap (λ i. content_at i x.heap) ((==_iff r ref).0 here))
          | inr away ↦ rw away refl
        ])
  ]

  pub content_at-invoke-kept :
      (ref r : ℕ) (f : Stream Event → Stream Event × List Effect) (x : Session Event)
      → ((s : Stream Event) → IsSound s → content (f s).0 ≡ content s)
      → AllSound x
      → content_at ref (invoke r f x).heap ≡ content_at ref x.heap
  content_at-invoke-kept ref r f x keeps v =
      ap (λ out. out ++ content_at ref (invoke r f x).heap)
        (sym (empty (get_elem? x.heap r) (r == ref)))
      ∙ content_at-invoke ref r f (λ s. []) x (λ s _ w. keeps s w) v
    where
      empty :
          (o : Option (Stream Event)) (b : Bool) → (if b then with_object (λ s. []) o else []) ≡ []
      empty o false = refl
      empty none true = refl
      empty (some s) true = refl

  pub resume_read-content :
      (ec : Option ErrorCode) (s : Stream Event)
      → handed_by_wake ec s ++ content (waking ec s).0 ≡ content s
  unfolding resume_read
  resume_read-content ec s = go s.read_sink refl
    where
      go :
          (o : Option Sink)
          → s.read_sink ≡ o
          → (let r : Option (ReadResult Event) = elim o [
            | none ↦ none
            | some k ↦ some (resume_parked k ec s)
          ] in
              (elim r as (λ _. Bytes) [ none ↦ [] | some q ↦ handed q.1 ])
              ++ content
                  (elim r as (λ _. Stream Event × List Effect) [
                    | none ↦ (s, [])
                    | some q ↦ (q.0, q.2)
                  ]).0)
            ≡ content s
      go none e = refl
      go (some k) e = resume_parked-content k ec s e
