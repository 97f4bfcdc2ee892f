-- ===== src/Session/Callbacks.antt =====
-- The nghttp2 callbacks of src/session.cpp that change state.
use nghttp2_corosio.Base.{
  ℕ, Bool, true, false, ◌&&◌, ◌||◌, Option, none, some, [], ◌∷◌, Bytes, codes, length, same,
  is_empty, ◌==◌, if◌then◌else◌,
}
use nghttp2_corosio.Capy.{AsyncEvent, BufferCopy}
use nghttp2_corosio.Decimal.{Errc, Parsed, from_chars, size_max, uint_max}
use nghttp2_corosio.Stream.{set_path, set_status, set_content_length, add_header, on_read_eof}
use nghttp2_corosio.Stream.Read.{on_data}
use nghttp2_corosio.Session.{
  Session, consume_connection, call, find_stream, with_stream, create_stream, close_stream,
  dispatch_request,
}

pub data FrameType : Type 0 where
  nghttp2_data nghttp2_headers nghttp2_priority nghttp2_rst_stream : FrameType
  nghttp2_settings nghttp2_push_promise nghttp2_ping nghttp2_goaway : FrameType
  nghttp2_window_update nghttp2_continuation nghttp2_altsvc nghttp2_origin : FrameType
  other : ℕ → FrameType

pub data HeadersCategory : Type 0 where
  request response push_response headers : HeadersCategory

-- What the callbacks read of an nghttp2_frame; `end_stream` is the flag NGHTTP2_FLAG_END_STREAM.
pub record Frame : Type 0 where
  pub stream_id : ℕ
  pub type : FrameType
  pub category : HeadersCategory
  pub end_stream : Bool

abbrev pub is_headers : FrameType → Bool
is_headers nghttp2_headers = true
is_headers type = false

abbrev pub is_data : FrameType → Bool
is_data nghttp2_data = true
is_data type = false

abbrev pub is_request : HeadersCategory → Bool
is_request request = true
is_request response = false
is_request push_response = false
is_request headers = false

abbrev pub starts_with : ℕ → Bytes → Bool
starts_with c [] = false
starts_with c (d ∷ ds) = d == c

abbrev pub path_name : Bytes
path_name = codes ":path"

abbrev pub status_name : Bytes
status_name = codes ":status"

abbrev pub content_length_name : Bytes
content_length_name = codes "content-length"

abbrev pub value_or : Option ℕ → ℕ → ℕ
value_or none d = d
value_or (some n) d = n

-- `unsigned int status = 0; std::from_chars(…, status);`
unfoldable pub status_of : Bytes → ℕ
unfolding from_chars
status_of value = value_or (from_chars uint_max value).value 0

-- The content length, if the whole value is a number that fits.
unfoldable pub accepted : Parsed → Option ℕ
accepted p = elim p.ec [
  | Errc.ok ↦ if is_empty p.rest then some (value_or p.value 0) else none
  | Errc.invalid_argument ↦ none
  | Errc.result_out_of_range ↦ none
]

unfoldable pub content_length_of : Bytes → Option ℕ
unfolding accepted from_chars
content_length_of value = accepted (from_chars size_max value)

module _ {Event : Type 0} ⦃events : AsyncEvent Event⦄ where
  unfoldable pub on_begin_headers : Frame → Session Event → Session Event
  unfolding create_stream
  on_begin_headers f x =
      if is_headers f.type && is_request f.category then create_stream f.stream_id x else x

  unfoldable pub on_content_length : ℕ → Option ℕ → Session Event → Session Event
  unfolding with_stream set_content_length
  on_content_length id none x = x
  on_content_length id (some n) x = with_stream id (set_content_length n) x

  unfoldable pub on_header : ℕ → Bytes → Bytes → Session Event → Session Event
  unfolding with_stream set_path set_status add_header on_content_length status_of content_length_of
  on_header id name value x =
      if same name path_name
      then with_stream id (set_path value) x
      else if same name status_name
      then with_stream id (set_status (status_of value)) x
      else if starts_with b':' name
      then x
      else with_stream id (add_header name value) (
          if same name content_length_name
          then on_content_length id (content_length_of value) x
          else x)

  unfoldable pub dispatch_found : Option ℕ → Session Event → Session Event
  unfolding dispatch_request
  dispatch_found none x = x
  dispatch_found (some ref) x = dispatch_request ref x

  unfoldable pub on_frame_recv : Frame → Session Event → Session Event
  unfolding dispatch_found with_stream on_read_eof find_stream
  on_frame_recv f x =
      let dispatched =
        if is_headers f.type && is_request f.category
        then dispatch_found (find_stream x f.stream_id) x
        else x in
      if (is_headers f.type || is_data f.type) && f.end_stream
      then with_stream f.stream_id on_read_eof dispatched
      else dispatched

  unfoldable pub on_stream_close : ℕ → Session Event → Session Event
  unfolding close_stream
  on_stream_close id x = close_stream id x

module _ {Event : Type 0} ⦃events : AsyncEvent Event⦄ ⦃buffers : BufferCopy⦄ where
  unfoldable pub on_data_chunk_recv : ℕ → Bytes → Session Event → Session Event
  unfolding call with_stream
  on_data_chunk_recv id bytes x =
      with_stream id (on_data bytes) (call (consume_connection (length bytes)) x)
