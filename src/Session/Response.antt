-- ===== src/Session/Response.antt =====
-- What ClientRequest::get_response() returns (src/session.cpp, include/nghttp2-corosio/session.hpp).
use nghttp2_corosio.Base.{
  ℕ, ◌^◌, ◌≤◌, ◌<◌, ◌≡◌, refl, Option, none, some, [], ◌∷◌, ◌++◌, All, get_elem?,
}
use nghttp2_corosio.Capy.{AsyncEvent, ErrorCode}
use nghttp2_corosio.Decimal.{size_max, to_string}
use nghttp2_corosio.Stream.{Stream, Headers}
use nghttp2_corosio.Stream.Status.{StatusOutcome, known, failed, waiting, get_status}
use nghttp2_corosio.Message.{submit}
use nghttp2_corosio.Session.{Session, find_stream}
use nghttp2_corosio.Session.Callbacks.{content_length_name}
use nghttp2_corosio.Session.Submit.{response_headers}
use nghttp2_corosio.Session.HeaderBlock.{IsRegular, on_headers}
use nghttp2_corosio.Session.Exchange.{KnowsResponse, response_round_trip}

-- The values of a Session::ClientResponse, with the error that comes with it.
pub record ClientResponse : Type 0 where
  pub ec : Option ErrorCode
  pub status : ℕ
  pub content_length : Option ℕ
  pub headers : Headers

module _ {Event : Type 0} where
  -- What follows the wait of status(), if it is over.
  unfoldable pub response_of : StatusOutcome → Stream Event → Option ClientResponse
  response_of waiting s = none
  response_of (known status) s = some (record {
    ec = none;
    status = status;
    content_length = s.content_length;
    headers = s.headers;
  })
  response_of (failed e) s =
      some
        (record { ec = some e; status = 0; content_length = s.content_length; headers = s.headers })

module _ {Event : Type 0} ⦃events : AsyncEvent Event⦄ where
  known_response :
      (status n : ℕ) (hs : Headers) (s t : Stream Event)
      → KnowsResponse status n hs s t
      → response_of (get_status t).1 t
        ≡ some (record {
          ec = none;
          status = status;
          content_length = some n;
          headers = s.headers ++ (hs ++ (content_length_name, to_string n) ∷ []);
        })
  unfolding get_status response_of
  known_response status n hs s t (st, len, fields) = rw (st, len, fields) refl

  -- A server submits a response with a content length below 2^64, a status below 2^31 and headers none
  -- of which is a pseudo-header; the client's callbacks run for what nghttp2 was given, on a stream of
  -- its table. Then get_response() returns at once, without an error, that status, that content
  -- length, and the headers in order after those the stream had, the content length last.
  pub get_response_lem :
      (id ref status n : ℕ) (hs : Headers) (x : Session Event) (s : Stream Event)
      → find_stream x id ≡ some ref
      → get_elem? x.heap ref ≡ some s
      → status < 2 ^ 31
      → n ≤ size_max
      → All IsRegular hs
      → (t : Stream Event) × (get_elem?
            (on_headers id (response_headers status (submit (some n) hs)) x).heap
            ref
          ≡ some t)
        × (response_of (get_status t).1 t
            ≡ some (record {
              ec = none;
              status = status;
              content_length = some n;
              headers = s.headers ++ (hs ++ (content_length_name, to_string n) ∷ []);
            }))
  get_response_lem id ref status n hs x s found there lt le r =
      let (t, made, knows) = response_round_trip id ref status n hs x s found there lt le r in
      (t, made, known_response status n hs s t knows)
