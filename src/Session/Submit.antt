-- ===== src/Session/Submit.antt =====
-- submit_response() and submit_request() of src/session.cpp. What nghttp2 answers is an argument.
pub mod Outcome
use nghttp2_corosio.Base.{
  ℕ, Bool, Option, none, some, [], ◌∷◌, ◌++◌, Bytes, codes, length, if◌then◌else◌,
}
use nghttp2_corosio.Capy.{AsyncEvent, ErrorCode, operation_not_permitted, invalid_argument}
use nghttp2_corosio.Decimal.{to_string}
use nghttp2_corosio.Stream.{Headers, new_stream, set_id}
use nghttp2_corosio.Session.{
  Session, server, client, submit_response, submit_request, call, at, emplace, prefix_of,
  start_write,
}
use nghttp2_corosio.Session.Callbacks.{status_name, path_name, content_length_name}

-- `nva` of a response, and of a request.
unfoldable pub response_headers : ℕ → Headers → Headers
response_headers status headers = (status_name, to_string status) ∷ headers

abbrev pub content_length_header : Option ℕ → Headers
content_length_header none = []
content_length_header (some n) = (content_length_name, to_string n) ∷ []

unfoldable pub request_headers : Bytes → Option ℕ → Headers → Headers
request_headers path content_length headers =
    (codes ":method", codes "POST")
    ∷ (codes ":scheme", codes "http")
    ∷ (path_name, path)
    ∷ (codes ":authority", codes "localhost")
    ∷ (content_length_header content_length ++ headers)

-- What nghttp2_submit_request2() returns: a stream identifier, or a negative error code.
pub data Submitted : Type 0 where
  assigned : ℕ → Submitted
  refused : Submitted

-- What submit_request() returns: the new stream, which the ClientRequest holds, or an error.
pub data RequestResult : Type 0 where
  opened : ℕ → RequestResult
  failed : ErrorCode → RequestResult

module _ {Event : Type 0} ⦃events : AsyncEvent Event⦄ where
  -- `done` says that nghttp2_submit_response2() returned 0.
  unfoldable pub submit_response_to :
      Bool → ℕ → ℕ → ℕ → Headers → Session Event → Session Event × Option ErrorCode
  unfolding response_headers call start_write
  submit_response_to done ref id status headers x =
      let x' = call (submit_response id (response_headers status headers) ref) x in
      if done then (start_write x', none) else (x', some invalid_argument)

  unfoldable pub request_submitted : Submitted → ℕ → Session Event → Session Event × RequestResult
  unfolding at set_id emplace start_write prefix_of
  request_submitted refused ref x = (x, failed invalid_argument)
  request_submitted (assigned id) ref x =
      let x' = at ref (set_id id (prefix_of x id)) x in
      (start_write (record x' { streams = emplace id ref x.streams }), opened ref)

  unfoldable pub make_placeholder : Session Event → Session Event
  unfolding new_stream
  make_placeholder x = record x { heap = x.heap ++ new_stream 0 x.log_prefix ∷ [] }

  unfoldable pub submit_request_for :
      Submitted → Bytes → Option ℕ → Headers → Session Event → Session Event × RequestResult
  unfolding request_submitted make_placeholder call request_headers
  submit_request_for answer path content_length headers x = elim x.role [
    | server ↦ (x, failed operation_not_permitted)
    | client ↦ request_submitted answer (length x.heap) (
        call (submit_request (request_headers path content_length headers) (length x.heap))
          (make_placeholder x))
  ]
