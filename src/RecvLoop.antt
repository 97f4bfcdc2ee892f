-- ===== src/RecvLoop.antt =====
-- Session::Impl::recv_loop() of src/session.cpp: what the connection delivers is fed to nghttp2.
-- What nghttp2 and the connection answer in a round of the loop is an argument.
pub mod Order
use nghttp2_corosio.Base.{Bool, true, false, Option, none, some, List, [], ◌∷◌, ◌++◌, Bytes}
use nghttp2_corosio.Capy.{ErrorCode}

-- `read_some` of the connection.
pub data Received : Type 0 where
  received : Bytes → Received
  read_error : ErrorCode → Received

-- The answers of one round. `wants` says that nghttp2 wants to read or to write, `parsed` that
-- nghttp2_session_mem_recv2() does not fail.
pub record Round : Type 0 where
  pub wants : Bool
  pub read : Received
  pub parsed : Bool

pub data Code : Type 0 where
  no_error protocol_error : Code

pub data Action : Type 0 where
  mem_recv : Bytes → Action
  terminate_session : Code → Action
  start_write : Action

-- What follows the loop.
abbrev leave : List Action
leave = terminate_session no_error ∷ start_write ∷ []

-- The loop's actions for the rounds that are given, and whether it has ended.
pub record Receiving : Type 0 where
  pub actions : List Action
  pub ended : Bool

abbrev pub prepend : List Action → Receiving → Receiving
prepend before r = record r { actions = before ++ r.actions }

abbrev pub left_loop : Receiving
left_loop = record { actions = leave; ended = true }

-- A round, and what the loop does after it if it goes on.
unfoldable pub recv_round : Round → Receiving → Receiving
recv_round r rest = elim r.wants [
  | false ↦ left_loop
  | true ↦ elim r.read [
    | read_error e ↦ left_loop
    | received bytes ↦ elim r.parsed [
      | false ↦
          prepend (mem_recv bytes ∷ terminate_session protocol_error ∷ start_write ∷ []) left_loop
      | true ↦ prepend (mem_recv bytes ∷ start_write ∷ []) rest
    ]
  ]
]

unfoldable pub recv_loop : List Round → Receiving
unfolding recv_round
recv_loop [] = record { actions = []; ended = false }
recv_loop (r ∷ rounds) = recv_round r (recv_loop rounds)
