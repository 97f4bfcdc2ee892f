-- ===== src/Session/Handler.antt =====
-- Session::Impl::handle_request() (src/session.cpp): what the user's handler is given, and what is done
-- without a handler. What nghttp2 answers is an argument.
pub mod Default
use nghttp2_corosio.Base.{ℕ, Bool, true, false, Option, none, some, List, [], ◌∷◌, Bytes, get_elem?}
use nghttp2_corosio.Capy.{AsyncEvent, BufferCopy}
use nghttp2_corosio.Stream.{Stream}
use nghttp2_corosio.Session.{Session}
use nghttp2_corosio.Session.Objects.{
  Request, Response, make_request, make_response, response_submit, response_write_eof,
}

module _ {Event : Type 0} ⦃events : AsyncEvent Event⦄ ⦃buffers : BufferCopy⦄ where
  -- `submit()` with its default arguments, and then `write_eof()`, up to its wait.
  unfoldable pub close_empty : Bool → Response → Session Event → Session Event
  unfolding response_submit response_write_eof
  close_empty done r x = response_write_eof r (response_submit r done 200 [] x)

  -- `done` says that nghttp2 takes the headers of the response. With a handler, what it is called
  -- with.
  unfoldable pub handle_request :
      Bool → Bool → ℕ → Stream Event → Session Event → Session Event × Option (Request × Response)
  unfolding close_empty make_request make_response
  handle_request has_handler done ref s x = elim has_handler [
    | true ↦ (x, some (make_request ref s, make_response ref))
    | false ↦ (close_empty done (make_response ref) x, none)
  ]
