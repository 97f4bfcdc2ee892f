-- ===== src/Session/Objects.antt =====
-- The objects that users hold on a session's streams: Request, Response, ClientRequest and
-- ClientResponse of include/nghttp2-corosio/session.hpp, as src/session.cpp makes them. A coroutine
-- runs up to its first wait; what nghttp2 answers is an argument.
use nghttp2_corosio.Base.{ℕ, Bool, Option, none, [], Bytes, get_elem?}
use nghttp2_corosio.Capy.{AsyncEvent, BufferCopy}
use nghttp2_corosio.Stream.{Stream, Headers}
use nghttp2_corosio.Stream.Write.{write_some, write_eof}
use nghttp2_corosio.Stream.Status.{get_status}
use nghttp2_corosio.Message.{submit}
use nghttp2_corosio.Session.{Session}
use nghttp2_corosio.Session.Inputs.{invoke, reading, respond}

-- What the handler of a request gets: the values of the request, and the stream that Reader and
-- Writer are for.
pub record Request : Type 0 where
  pub path : Bytes
  pub content_length : Option ℕ
  pub headers : Headers
  pub reader : ℕ

pub record Response : Type 0 where
  pub writer : ℕ
  pub content_length : Option ℕ

pub record ClientRequest : Type 0 where
  pub writer : ℕ

module _ {Event : Type 0} where
  unfoldable pub make_request : ℕ → Stream Event → Request
  make_request ref s = record {
    path = s.path;
    content_length = s.content_length;
    headers = s.headers;
    reader = ref;
  }

unfoldable pub make_response : ℕ → Response
make_response ref = record { writer = ref; content_length = none }

unfoldable pub set_content_length : Option ℕ → Response → Response
set_content_length n r = record r { content_length = n }

module _ {Event : Type 0} ⦃events : AsyncEvent Event⦄ ⦃buffers : BufferCopy⦄ where
  unfoldable pub request_read_some : Request → ℕ → Session Event → Session Event
  unfolding invoke
  request_read_some r room x = invoke r.reader (reading room) x

  -- `done` says that nghttp2 takes the headers.
  unfoldable pub response_submit : Response → Bool → ℕ → Headers → Session Event → Session Event
  unfolding submit
  response_submit r done status headers x =
      respond done r.writer status (submit r.content_length headers) (get_elem? x.heap r.writer) x

  unfoldable pub response_write_some : Response → Bytes → Session Event → Session Event
  unfolding invoke write_some
  response_write_some r bytes x = invoke r.writer (λ s. let w = write_some bytes s in (w.0, w.2)) x

  -- `write_eof()`, and the last call of `write_eof(buffers)`.
  unfoldable pub response_write_eof : Response → Session Event → Session Event
  unfolding invoke write_eof
  response_write_eof r x = invoke r.writer (λ s. let w = write_eof [] s in (w.0, w.2)) x

  unfoldable pub client_write_some : ClientRequest → Bytes → Session Event → Session Event
  unfolding invoke write_some
  client_write_some r bytes x = invoke r.writer (λ s. let w = write_some bytes s in (w.0, w.2)) x

  unfoldable pub client_write_eof : ClientRequest → Session Event → Session Event
  unfolding invoke write_eof
  client_write_eof r x = invoke r.writer (λ s. let w = write_eof [] s in (w.0, w.2)) x

  -- `get_response()`, up to the wait of status().
  unfoldable pub client_get_response : ClientRequest → Session Event → Session Event
  unfolding invoke get_status
  client_get_response r x = invoke r.writer (λ s. ((get_status s).0, [])) x
