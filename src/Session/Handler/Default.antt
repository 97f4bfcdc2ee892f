-- ===== src/Session/Handler/Default.antt =====
-- The response to a request when the server has no handler (src/session.cpp).
use nghttp2_corosio.Base.{
  ℕ, ◌≡◌, refl, ap, ◌∙◌, true, false, none, some, List, [], ◌∷◌, ◌++◌, append_assoc, arith, codes,
  get_elem?, Bool-cases, inl, inr, if◌then◌else◌,
}
use nghttp2_corosio.Capy.{AsyncEvent, BufferCopy}
use nghttp2_corosio.Decimal.{to_string, digits_of}
use nghttp2_corosio.Stream.{Stream, Effect}
use nghttp2_corosio.Stream.Write.{write_impl, write_eof, producer_callback, produced}
use nghttp2_corosio.Message.{submit}
use nghttp2_corosio.Session.{Session, submit_response, resume_data, call, start_write, perform, at}
use nghttp2_corosio.Session.Callbacks.{status_name}
use nghttp2_corosio.Session.Submit.{submit_response_to, response_headers}
use nghttp2_corosio.Session.Inputs.{invoke, respond}
use nghttp2_corosio.Session.Table.{get_elem?-update_self}
use nghttp2_corosio.Session.Objects.{make_response, response_submit, response_write_eof}
use nghttp2_corosio.Session.Handler.{close_empty, handle_request}

module _ {Event : Type 0} ⦃events : AsyncEvent Event⦄ ⦃buffers : BufferCopy⦄ where
  empty_pull :
      (size : ℕ) (s : Stream Event)
      → s.closed ≡ false
      → (producer_callback size (write_impl [] true s).0).1 ≡ produced [] true
  unfolding producer_callback write_impl
  empty_pull size s live =
      let nothing : buffers.copied size 0 ≡ 0 = buffers.copied-eq-min size 0 ∙ (omega arith) in
      rw (live, nothing) refl

  invoke_found :
      (ref : ℕ) (f : Stream Event → Stream Event × List Effect) (x : Session Event)
      (s : Stream Event)
      → get_elem? x.heap ref ≡ some s
      → invoke ref f x ≡ perform (f s).1 (at ref (λ t. (f t).0) x)
  unfolding invoke
  invoke_found ref f x s e = rw (e, invoke) refl

  -- What is left of the calls when the stream is found and open.
  close_empty_found :
      (ref : ℕ) (s : Stream Event) (x : Session Event)
      → get_elem? x.heap ref ≡ some s
      → close_empty true (make_response ref) x
        ≡ perform (write_impl [] true s).2 (
            at ref
              (λ t. (write_impl [] true t).0)
              (start_write
                (call (submit_response s.id (response_headers 200 (submit none [])) ref) x)))
  unfolding close_empty response_submit response_write_eof make_response submit_response_to
      write_eof call start_write
  close_empty_found ref s x there =
      ap
        (λ o.
          invoke ref (λ t. let r = write_impl [] true t in (r.0, r.2))
            (respond true ref 200 (submit none []) o x))
        there
      ∙ invoke_found ref (λ t. let r = write_impl [] true t in (r.0, r.2))
          (start_write (call (submit_response s.id (response_headers 200 (submit none [])) ref) x))
          s there

  open_write_effects :
      (s : Stream Event)
      → s.closed ≡ false
      → (write_impl [] true s).2 ≡ (
          if s.write_deferred
          then Effect.resume_data s.id ∷ Effect.start_write ∷ []
          else Effect.start_write ∷ [])
  unfolding write_impl
  open_write_effects s live = rw live refl

  -- On a server without a handler, a request whose stream is not closed, and whose response nghttp2
  -- takes: nghttp2 is given a response with the one header ":status: 200" and the stream as its data
  -- provider, and then at most resumes that provider; the send loop is woken; and whatever room
  -- nghttp2 has when it pulls, it gets no bytes and the end of the body at once.
  pub handle_request_empty :
      (ref size : ℕ) (s : Stream Event) (x : Session Event)
      → get_elem? x.heap ref ≡ some s
      → s.closed ≡ false
      → let y = (handle_request false true ref s x).0 in
        (y.native
          ≡ x.native
            ++ submit_response s.id ((status_name, codes "200") ∷ []) ref
              ∷ (if s.write_deferred then resume_data s.id ∷ [] else []))
        × (events.is_set y.write_ready ≡ true)
        × (t : Stream Event) × (get_elem? y.heap ref ≡ some t)
        × ((producer_callback size t).1 ≡ produced [] true)
  unfolding handle_request perform at call start_write submit response_headers to_string digits_of
  handle_request_empty ref size s x there live =
      rw (close_empty_found ref s x there, open_write_effects s live)
        (elim (Bool-cases s.write_deferred) [
          | inl e ↦ rw e (
            append_assoc x.native _ _,
            events.is_set-set _,
            (write_impl [] true s).0,
            get_elem?-update_self ref (λ t. (write_impl [] true t).0) x.heap there,
            empty_pull size s live,
          )
          | inr e ↦ rw e (
            refl,
            events.is_set-set _,
            (write_impl [] true s).0,
            get_elem?-update_self ref (λ t. (write_impl [] true t).0) x.heap there,
            empty_pull size s live,
          )
        ])
