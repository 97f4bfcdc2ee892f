-- ===== src/Capy.antt =====
-- What the program uses of the capy library (boost/capy), which is not part of the repository.
use nghttp2_corosio.Base.{ℕ, ◌≡◌, Bool, true, false, min}

-- `capy::async_event`: a flag that a coroutine waits for. `wait` completes once the event is set.
pub record AsyncEvent (Event : Type 0) : Type 0 where
  pub fresh : Event
  pub set : Event → Event
  pub clear : Event → Event
  pub is_set : Event → Bool
  pub is_set-fresh : is_set fresh ≡ false
  pub is_set-set : (e : Event) → is_set (set e) ≡ true
  pub is_set-clear : (e : Event) → is_set (clear e) ≡ false

-- `capy::buffer_copy`: the number of bytes that it copies, from the front of both sequences, out of
-- the destination's size and the source's.
pub record BufferCopy : Type 0 where
  pub copied : ℕ → ℕ → ℕ
  pub copied-eq-min : (room size : ℕ) → copied room size ≡ min room size

-- The error codes that the program makes itself, and those that the library hands to it.
pub data ErrorCode : Type 0 where
  eof stream_truncated canceled : ErrorCode
  operation_not_permitted invalid_argument protocol_not_supported : ErrorCode
  system : ℕ → ErrorCode
