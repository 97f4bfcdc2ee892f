-- ===== src/Session/Exchange.antt =====
-- The headers of a response and of a request from one session to the other: what
-- Response::submit() and submit_request() send (include/nghttp2-corosio/session.hpp,
-- src/session.cpp), and what the peer's callbacks make of it.
use nghttp2_corosio.Base.{
  ℕ, ◌^◌, ◌≤◌, ◌<◌, ◌≡◌, refl, ap, ◌∙◌, false, Option, none, some, [], ◌∷◌, ◌++◌, arith, Bytes, All,
  All-append, pos, get_elem?, same, codes,
}
use nghttp2_corosio.Capy.{AsyncEvent}
use nghttp2_corosio.Decimal.{size_max, to_string}
use nghttp2_corosio.Stream.{Stream, Headers, set_path, set_status}
use nghttp2_corosio.Session.{Session, find_stream, at}
use nghttp2_corosio.Session.Callbacks.{path_name, status_name, content_length_name}
use nghttp2_corosio.Session.Submit.{response_headers, request_headers, content_length_header}
use nghttp2_corosio.Session.Table.{get_elem?-update_self}
use nghttp2_corosio.Session.HeaderBlock.{
  IsRegular, capture, capture_all, on_headers, on_headers-at, capture_all-append,
  capture_all-regular, capture_all-content_length, capture-length_header, status_of-to_string,
}
use nghttp2_corosio.Message.{submit, has_header}

length_header-IsRegular : (n : Option ℕ) → All IsRegular (content_length_header n)
length_header-IsRegular none = tt
length_header-IsRegular (some n) = (refl, tt)

-- What a client's stream knows after the headers of a response.
abbrev pub KnowsResponse : {Event : Type 0} → ℕ → ℕ → Headers → Stream Event → Stream Event → Type 0
KnowsResponse status n hs s t =
    (t.status ≡ pos status)
    × (t.content_length ≡ some n)
    × (t.headers ≡ s.headers ++ (hs ++ (content_length_name, to_string n) ∷ []))

-- What a server's stream knows after the headers of a request.
abbrev pub KnowsRequest :
    {Event : Type 0} → Bytes → ℕ → Headers → Stream Event → Stream Event → Type 0
KnowsRequest path n hs s t =
    (t.path ≡ path)
    × (t.content_length ≡ some n)
    × (t.headers ≡ s.headers ++ (content_length_name, to_string n) ∷ hs)

module _ {Event : Type 0} ⦃events : AsyncEvent Event⦄ where
  capture-status :
      (status : ℕ) (s : Stream Event)
      → status < 2 ^ 31
      → let t = capture (status_name, to_string status) s in
        (t.status ≡ pos status) × (t.headers ≡ s.headers)
  unfolding capture same set_status
  capture-status status s lt = (rw (status_of-to_string status (omega arith)) (ground arith), refl)

  pseudo :
      (path : Bytes) (s : Stream Event)
      → capture
          (codes ":authority", codes "localhost")
          (capture
            (path_name, path)
            (capture (codes ":scheme", codes "http") (capture (codes ":method", codes "POST") s)))
        ≡ set_path path s
  unfolding capture same
  pseudo path s = refl

  response_block :
      (status n : ℕ) (hs : Headers) (s : Stream Event)
      → status < 2 ^ 31
      → n ≤ size_max
      → All IsRegular hs
      → KnowsResponse status n hs s (capture_all (response_headers status (submit (some n) hs)) s)
  unfolding response_headers capture_all submit
  response_block status n hs s lt le r =
      let first = capture (status_name, to_string status) s in
      let fields = capture_all-regular (hs ++ content_length_header (some n)) first (
        All-append IsRegular hs (content_length_header (some n)) r
          (length_header-IsRegular (some n))) in
      (
        fields.1 ∙ (capture-status status s lt).0,
        rw capture_all-append (capture-length_header n (capture_all hs first) le),
        fields.0
            ∙ ap (λ l. l ++ (hs ++ content_length_header (some n))) (capture-status status s lt).1,
      )

  request_block :
      (path : Bytes) (n : ℕ) (hs : Headers) (s : Stream Event)
      → n ≤ size_max
      → All IsRegular hs
      → has_header content_length_name hs ≡ false
      → KnowsRequest path n hs s (capture_all (request_headers path (some n) hs) s)
  unfolding request_headers capture_all
  request_block path n hs s le r alone =
      let first = set_path path s in
      let length_known = capture (content_length_name, to_string n) first in
      let fields = capture_all-regular ((content_length_name, to_string n) ∷ hs) first (refl, r) in
      rw (pseudo path s) (
        fields.2 ∙ (unfold set_path in refl),
        capture_all-content_length hs length_known r alone ∙ capture-length_header n first le,
        fields.0 ∙ (unfold set_path in refl),
      )

  -- A response that is submitted with a content length below 2^64, a status below 2^31 and headers
  -- none of which is a pseudo-header: the callbacks for what nghttp2 is given leave the peer's stream
  -- with that status, that content length, and those headers in order, the content length last.
  pub response_round_trip :
      (id ref status n : ℕ) (hs : Headers) (x : Session Event) (s : Stream Event)
      → find_stream x id ≡ some ref
      → get_elem? x.heap ref ≡ some s
      → status < 2 ^ 31
      → n ≤ size_max
      → All IsRegular hs
      → (t : Stream Event) × (get_elem?
            (on_headers id (response_headers status (submit (some n) hs)) x).heap
            ref
          ≡ some t)
        × KnowsResponse status n hs s t
  unfolding at
  response_round_trip id ref status n hs x s found there lt le r =
      let block = response_headers status (submit (some n) hs) in
      (
        capture_all block s,
        rw (on_headers-at id ref block x found)
            (get_elem?-update_self ref (capture_all block) x.heap there),
        response_block status n hs s lt le r,
      )

  -- A request that is submitted with a content length below 2^64 and headers none of which is a
  -- pseudo-header or a content-length: the callbacks for what nghttp2 is given leave the peer's
  -- stream with that path, that content length, and the content length and those headers in order.
  pub request_round_trip :
      (id ref : ℕ) (path : Bytes) (n : ℕ) (hs : Headers) (x : Session Event) (s : Stream Event)
      → find_stream x id ≡ some ref
      → get_elem? x.heap ref ≡ some s
      → n ≤ size_max
      → All IsRegular hs
      → has_header content_length_name hs ≡ false
      → (t : Stream Event) × (get_elem?
            (on_headers id (request_headers path (some n) hs) x).heap
            ref
          ≡ some t)
        × KnowsRequest path n hs s t
  unfolding at
  request_round_trip id ref path n hs x s found there le r alone =
      let block = request_headers path (some n) hs in
      (
        capture_all block s,
        rw (on_headers-at id ref block x found)
            (get_elem?-update_self ref (capture_all block) x.heap there),
        request_block path n hs s le r alone,
      )
