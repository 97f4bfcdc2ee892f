-- ===== src/Session/Preservation/Methods.antt =====
-- The invariant of a session under the methods of a stream and the session's own helpers
-- (src/stream_impl.hpp, src/session.cpp).
use nghttp2_corosio.Base.{
  ℕ, ◌≡◌, refl, inl, inr, Option, none, some, List, [], ◌∷◌, Bytes, get_elem?, Option-cases,
}
use nghttp2_corosio.Capy.{AsyncEvent, BufferCopy, ErrorCode}
use nghttp2_corosio.Stream.{
  Stream, Sink, Effect, consume_stream, resume_data, start_write, new_stream,
}
use nghttp2_corosio.Stream.Read.{
  park, keep_chunk, on_data_to, on_data, read_some, resume_parked, resume_read,
}
use nghttp2_corosio.Stream.Read.Cases.{after_drain_cases, resume_parked_cases}
use nghttp2_corosio.Session.{
  Session, lookup, at, with_stream, perform, create_stream, close_stream, prefix_of,
}
use nghttp2_corosio.Session.Inputs.{invoke, waking}
use nghttp2_corosio.Session.WellFormed.{Inv, enter-Inv, update-Inv, close-Inv}

module _ {Event : Type 0} where
  -- A method that changes neither the identifier nor whether the stream is closed.
  abbrev pub Keeps : (Stream Event → Stream Event) → Type 0
  Keeps f = (s : Stream Event) → ((f s).id ≡ s.id) × ((f s).closed ≡ s.closed)

  abbrev pub Good : Session Event → Type 0
  Good x = Inv x.heap x.streams

module _ {Event : Type 0} ⦃events : AsyncEvent Event⦄ where
  pub perform-Good : (fx : List Effect) (x : Session Event) → Good x → Good (perform fx x)
  unfolding perform
  perform-Good [] x v = v
  perform-Good (consume_stream id n ∷ fx) x v = perform-Good fx _ v
  perform-Good (resume_data id ∷ fx) x v = perform-Good fx _ v
  perform-Good (start_write ∷ fx) x v = perform-Good fx _ v

  pub with_stream-Good :
      (id : ℕ) (f : Stream Event → Stream Event) (x : Session Event)
      → Keeps f
      → Good x
      → Good (with_stream id f x)
  unfolding with_stream
  with_stream-Good id f x keeps v = elim (Option-cases (lookup id x.streams)) [
    | inl e ↦ rw (e, with_stream) v
    | inr (ref, e) ↦ rw (e, with_stream) (update-Inv f keeps ref x.heap x.streams v)
  ]

  pub create_stream-Good :
      (id : ℕ) (x : Session Event) → lookup id x.streams ≡ none → Good x → Good (create_stream id x)
  unfolding create_stream
  create_stream-Good id x fresh v =
      enter-Inv x.heap x.streams (new_stream id (prefix_of x id)) fresh refl v

  pub close_stream-Good : (id : ℕ) (x : Session Event) → Good x → Good (close_stream id x)
  unfolding close_stream
  close_stream-Good id x v = elim (Option-cases (lookup id x.streams)) [
    | inl e ↦ rw (e, close_stream) v
    | inr (ref, e) ↦ rw (e, close_stream) (close-Inv x.heap x.streams id ref e v)
  ]

module _ {Event : Type 0} ⦃events : AsyncEvent Event⦄ ⦃buffers : BufferCopy⦄ where
  pub on_data-Keeps : (bytes : Bytes) → Keeps {Event = Event} (on_data bytes)
  unfolding on_data
  on_data-Keeps bytes s = go s.read_sink
    where
      go :
          (sink : Option Sink)
          → ((on_data_to sink bytes s).id ≡ s.id) × ((on_data_to sink bytes s).closed ≡ s.closed)
      go none = unfold keep_chunk in (refl, refl)
      go (some k) = unfold keep_chunk in (refl, refl)

  pub read_some-Keeps : (room : ℕ) → Keeps {Event = Event} (λ s. (read_some room s).0)
  unfolding read_some
  read_some-Keeps room s =
      after_drain_cases (λ r. (r.0.id ≡ s.id) × (r.0.closed ≡ s.closed)) _ s (λ _. (refl, refl))
        (λ _ _. (refl, refl)) (λ _ _. unfold park in (refl, refl))

  pub resume_read-Keeps : (ec : Option ErrorCode) → Keeps {Event = Event} (λ s. (waking ec s).0)
  unfolding resume_read
  resume_read-Keeps ec s = elim (Option-cases s.read_sink) [
    | inl e ↦ rw (e, resume_read) (refl, refl)
    | inr (k, e) ↦ rw (e, resume_read) (parked_keeps k)
  ]
    where
      parked_keeps :
          (k : Sink)
          → ((resume_parked k ec s).0.id ≡ s.id) × ((resume_parked k ec s).0.closed ≡ s.closed)
      parked_keeps k =
          resume_parked_cases (λ r. (r.0.id ≡ s.id) × (r.0.closed ≡ s.closed)) k ec s
            (λ _. (refl, refl)) (λ _ _ _. (refl, refl)) (λ _ _ _. (refl, refl))
            (λ _ _ _. unfold park in (refl, refl))

  pub invoke-Good :
      (ref : ℕ) (f : Stream Event → Stream Event × List Effect) (x : Session Event)
      → Keeps (λ s. (f s).0)
      → Good x
      → Good (invoke ref f x)
  unfolding invoke
  invoke-Good ref f x keeps v = elim (Option-cases (get_elem? x.heap ref)) [
    | inl e ↦ rw (e, invoke) v
    | inr (s, e) ↦
        rw (e, invoke)
          (perform-Good (f s).1 (at ref (λ t. (f t).0) x)
            (update-Inv (λ t. (f t).0) keeps ref x.heap x.streams v))
  ]
