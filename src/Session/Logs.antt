-- ===== src/Session/Logs.antt =====
-- The nghttp2 callbacks of src/session.cpp that only log, with frame_type_name() and the tags of
-- sessions. The texts of nghttp2_strerror() and the contents of its buffers are arguments.
use nghttp2_corosio.Base.{ℕ, ◌∷◌, ◌++◌, Bytes, codes}
use nghttp2_corosio.Decimal.{to_string}
use nghttp2_corosio.Logging.{LogLevel, debug, warn, error}
use nghttp2_corosio.Session.{Role, server, client, Session, prefix_of}
use nghttp2_corosio.Session.Callbacks.{
  FrameType, nghttp2_data, nghttp2_headers, nghttp2_priority, nghttp2_rst_stream, nghttp2_settings,
  nghttp2_push_promise, nghttp2_ping, nghttp2_goaway, nghttp2_window_update, nghttp2_continuation,
  nghttp2_altsvc, nghttp2_origin, other,
}

unfoldable pub frame_type_name : FrameType → Bytes
frame_type_name nghttp2_data = codes "DATA"
frame_type_name nghttp2_headers = codes "HEADERS"
frame_type_name nghttp2_priority = codes "PRIORITY"
frame_type_name nghttp2_rst_stream = codes "RST_STREAM"
frame_type_name nghttp2_settings = codes "SETTINGS"
frame_type_name nghttp2_push_promise = codes "PUSH_PROMISE"
frame_type_name nghttp2_ping = codes "PING"
frame_type_name nghttp2_goaway = codes "GOAWAY"
frame_type_name nghttp2_window_update = codes "WINDOW_UPDATE"
frame_type_name nghttp2_continuation = codes "CONTINUATION"
frame_type_name nghttp2_altsvc = codes "ALTSVC"
frame_type_name nghttp2_origin = codes "ORIGIN"
frame_type_name (other n) = codes "UNKNOWN"

-- The tag that the constructor of a session gives it.
unfoldable pub tag_of : Role → Bytes
tag_of server = 27 ∷ codes "[1;31mserver" ++ 27 ∷ codes "[0m"
tag_of client = 27 ∷ codes "[1;32mclient" ++ 27 ∷ codes "[0m"

pub record Message : Type 0 where
  pub level : LogLevel
  pub text : Bytes

-- `[prefix] text`
abbrev tagged : LogLevel → Bytes → Bytes → Message
tagged level prefix text = record {
  level = level;
  text = codes "[" ++ prefix ++ codes "] " ++ text;
}

module _ {Event : Type 0} where
  unfoldable pub on_frame_not_send : Session Event → ℕ → FrameType → Bytes → Message
  unfolding frame_type_name prefix_of
  on_frame_not_send x id type strerror =
      tagged warn (prefix_of x id)
        (codes "on_frame_not_send_callback: " ++ frame_type_name type ++ codes " " ++ strerror)

  unfoldable pub on_error : Session Event → Bytes → Message
  on_error x message = tagged error x.log_prefix (codes "nghttp2 error: " ++ message)

  unfoldable pub on_invalid_header : Session Event → ℕ → Bytes → Bytes → Message
  unfolding prefix_of
  on_invalid_header x id name value =
      tagged warn (prefix_of x id)
        (codes "on_invalid_header_callback: " ++ name ++ codes ": " ++ value)

  -- `length` and `flags` are of the frame's header.
  unfoldable pub on_frame_send : Session Event → ℕ → FrameType → ℕ → ℕ → Message
  unfolding frame_type_name prefix_of
  on_frame_send x id type length flags = tagged debug (prefix_of x id) (
      codes "on_frame_send_callback: "
      ++ frame_type_name type
      ++ codes " length="
      ++ to_string length
      ++ codes " flags="
      ++ to_string flags)
