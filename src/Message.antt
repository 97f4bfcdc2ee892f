-- ===== src/Message.antt =====
-- The classes Request, Response, ClientRequest and ClientResponse of
-- include/nghttp2-corosio/session.hpp, which users of a session see. What the stream's coroutines and
-- capy's write algorithm return is an argument.
use nghttp2_corosio.Base.{
  ℕ, Bool, false, ◌||◌, Option, none, some, List, [], ◌∷◌, ◌++◌, Bytes, same,
}
use nghttp2_corosio.Capy.{ErrorCode}
use nghttp2_corosio.Stream.{Headers}
use nghttp2_corosio.Session.Submit.{content_length_header}

-- `has_header`
unfoldable pub has_header : Bytes → Headers → Bool
has_header name [] = false
has_header name ((n, v) ∷ headers) = same n name || has_header name headers

-- The header list that `Response::submit` hands on.
unfoldable pub submit : Option ℕ → Headers → Headers
submit content_length headers = headers ++ content_length_header content_length

-- `io_result<std::size_t>`
pub record IoResult : Type 0 where
  pub ec : Option ErrorCode
  pub n : ℕ

-- A call of the writer or of the stream's write_eof, in order.
pub data WriterCall : Type 0 where
  write : Bytes → WriterCall
  write_eof : Bytes → WriterCall

-- `Response::write_eof(buffers)`: `wrote` and `ended` are what the writer's
-- write() and the stream's write_eof() return. With it the calls that are made.
unfoldable pub write_eof_all : Bytes → IoResult → IoResult → IoResult × List WriterCall
write_eof_all bytes wrote ended = elim wrote.ec [
  | some e ↦ (record { ec = some e; n = wrote.n }, write bytes ∷ [])
  | none ↦ (record { ec = ended.ec; n = wrote.n }, write bytes ∷ write_eof [] ∷ [])
]

-- `write_eof()` without a body.
unfoldable pub write_eof_empty : IoResult → Option ErrorCode × List WriterCall
write_eof_empty ended = (ended.ec, write_eof [] ∷ [])

-- `ClientRequest::write_eof(buffers)`, which keeps both results of its last call.
unfoldable pub client_write_eof_all : Bytes → IoResult → IoResult → IoResult × List WriterCall
client_write_eof_all bytes wrote ended = elim wrote.ec [
  | some e ↦ (record { ec = some e; n = wrote.n }, write bytes ∷ [])
  | none ↦ (record { ec = ended.ec; n = wrote.n }, write bytes ∷ write_eof [] ∷ [])
]
