-- ===== src/Stream.antt =====
-- Class Stream of src/stream_impl.hpp and src/stream.cpp: the bridge between nghttp2's callbacks and
-- the coroutines that read and write one HTTP/2 stream. This file has the state and its small
-- methods; Read, Write and Status have the operations, and the modules below them their proofs.
pub mod Read
pub mod Write
pub mod Status
pub mod Transfer
use nghttp2_corosio.Base.{
  ℕ, Bool, true, false, not, Option, none, some, List, [], ◌∷◌, ◌++◌, Bytes, ℤ, pos, negsuc,
  to_int32, if◌then◌else◌,
}
use nghttp2_corosio.Capy.{AsyncEvent, BufferCopy, ErrorCode, eof, stream_truncated}

-- A read_some() call that waits: the room left in the caller's buffers, and what was copied there.
pub record Sink : Type 0 where
  pub room : ℕ
  pub copied : Bytes

abbrev pub Headers : Type 0
Headers = List (Bytes × Bytes)

-- A buffer sequence is the bytes that it holds, in order; `cursor` is what `pending_cursor_` has not
-- consumed of `pending`.
pub record Stream (Event : Type 0) : Type 0 where
  pub id : ℕ
  pub closed : Bool
  pub path : Bytes
  pub content_length : Option ℕ
  pub headers : Headers
  pub log_prefix : Bytes
  pub status : ℤ
  pub status_ready : Event
  pub chunks : List Bytes
  pub front_offset : ℕ
  pub read_sink : Option Sink
  pub read_eof : Bool
  pub read_ready : Event
  pub pending : Bytes
  pub cursor : Bytes
  pub write_offset : ℕ
  pub write_pending : Bool
  pub write_eof_requested : Bool
  pub write_deferred : Bool
  pub write_progress : Event

-- What a method asks of the session: calls of nghttp2 for the stream, and of start_write().
pub data Effect : Type 0 where
  consume_stream : ℕ → ℕ → Effect
  resume_data : ℕ → Effect
  start_write : Effect

module _ {Event : Type 0} ⦃events : AsyncEvent Event⦄ where
  -- The constructor; `prefix` is the session's log tag for the identifier.
  unfoldable pub new_stream : ℕ → Bytes → Stream Event
  new_stream id tag = record {
    id = id;
    closed = false;
    path = [];
    content_length = none;
    headers = [];
    log_prefix = tag;
    status = negsuc 0;
    status_ready = events.fresh;
    chunks = [];
    front_offset = 0;
    read_sink = none;
    read_eof = false;
    read_ready = events.fresh;
    pending = [];
    cursor = [];
    write_offset = 0;
    write_pending = false;
    write_eof_requested = false;
    write_deferred = false;
    write_progress = events.fresh;
  }

  unfoldable pub set_status : ℕ → Stream Event → Stream Event
  set_status status s = record s {
    status = to_int32 status;
    status_ready = events.set s.status_ready;
  }

  unfoldable pub on_read_eof : Stream Event → Stream Event
  on_read_eof s = record s { read_eof = true; read_ready = events.set s.read_ready }

  unfoldable pub on_close : Stream Event → Stream Event
  on_close s = record s {
    closed = true;
    read_ready = events.set s.read_ready;
    write_progress = events.set s.write_progress;
    status_ready = events.set s.status_ready;
  }

module _ {Event : Type 0} where
  unfoldable pub set_id : ℕ → Bytes → Stream Event → Stream Event
  set_id id tag s = record s { id = id; log_prefix = tag }

  unfoldable pub set_path : Bytes → Stream Event → Stream Event
  set_path path s = record s { path = path }

  unfoldable pub set_content_length : ℕ → Stream Event → Stream Event
  set_content_length n s = record s { content_length = some n }

  unfoldable pub add_header : Bytes → Bytes → Stream Event → Stream Event
  add_header name value s = record s { headers = s.headers ++ (name, value) ∷ [] }

  unfoldable pub eof_error : Stream Event → ErrorCode
  eof_error s = if s.read_eof then eof else stream_truncated

-- Replenishes the stream's window at nghttp2, and wakes the send loop.
unfoldable pub consume : ℕ → ℕ → List Effect
consume id n = consume_stream id n ∷ start_write ∷ []
