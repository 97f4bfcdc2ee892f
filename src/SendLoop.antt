-- ===== src/SendLoop.antt =====
-- Session::Impl::send_loop() of src/session.cpp: output of nghttp2 is collected in an accumulator
-- and written to the connection. What nghttp2, the connection and the event answer in a round of the
-- loop is an argument.
pub mod Writes
pub mod Order
use nghttp2_corosio.Base.{
  ℕ, ◌+◌, ◌-◌, Bool, true, false, ◌&&◌, not, Option, none, some, List, [], ◌∷◌, ◌++◌, Bytes, length,
  ltb, leb, if◌then◌else◌,
}
use nghttp2_corosio.Capy.{ErrorCode}

-- What nghttp2_session_mem_send2() returns: a chunk, empty if there is none, or an error.
pub data Chunk : Type 0 where
  chunk : Bytes → Chunk
  send_error : Chunk

-- The answers of one round; those that the round does not ask for are not read. `wants` says that
-- nghttp2 wants to read or to write.
pub record Round : Type 0 where
  pub mem_send : Chunk
  pub write_error : Option ErrorCode
  pub wants : Bool
  pub wait_error : Option ErrorCode

-- Where the loop stands: at its top, at its top after a wait, or ended, because nghttp2 wants no
-- more, or because nghttp2, the connection or the wait failed.
pub data Phase : Type 0 where
  running waited finished failed : Phase

-- One write to the connection: what was collected, the chunk that follows it, and the error of the write.
pub record Write : Type 0 where
  pub collected : Bytes
  pub fresh : Bytes
  pub error : Option ErrorCode

-- The loop's variable, with the writes made so far, newest last.
pub record Sender : Type 0 where
  pub pending : Bytes
  pub writes : List Write
  pub phase : Phase

abbrev pub ended_by : Option ErrorCode → Phase → Phase
ended_by none p = p
ended_by (some e) p = failed

-- `capacity` is that of the accumulator.
unfoldable pub send_chunk : ℕ → Bytes → Round → Sender → Sender
send_chunk capacity bytes r s =
    if ltb 0 (length bytes) && leb (length bytes) (capacity - length s.pending)
    then record s { pending = s.pending ++ bytes; phase = running }
    else if ltb 0 (length s.pending + length bytes)
    then record s {
      pending = [];
      writes =
          s.writes ++ record { collected = s.pending; fresh = bytes; error = r.write_error } ∷ [];
      phase = ended_by r.write_error running;
    }
    else if not r.wants
    then record s { phase = finished }
    else record s { phase = ended_by r.wait_error waited }

unfoldable pub send_round : ℕ → Round → Sender → Sender
unfolding send_chunk
send_round capacity r s = elim r.mem_send [
  | chunk bytes ↦ send_chunk capacity bytes r s
  | send_error ↦ record s { phase = failed }
]

-- The loop, for the rounds that are given.
unfoldable pub send_loop : ℕ → List Round → Sender → Sender
unfolding send_round
send_loop capacity [] s = s
send_loop capacity (r ∷ rounds) s = elim s.phase [
  | running ↦ send_loop capacity rounds (send_round capacity r s)
  | waited ↦ send_loop capacity rounds (send_round capacity r s)
  | finished ↦ s
  | failed ↦ s
]

unfoldable pub start : Sender
start = record { pending = []; writes = []; phase = running }
