-- ===== src/Tests/Loops.antt =====
-- The loops of a session, of the servers and of the echo handler on short runs (src/session.cpp,
-- src/server.cpp, src/client.cpp, echo_handler.cpp).
use nghttp2_corosio.Base.{
  ℕ, same, ◌≡◌, ◌≤◌, ◌⊎◌, refl, inl, Bool, true, false, Option, none, some, List, [], ◌∷◌, ◌++◌,
  Bytes, All, codes, length,
}
use nghttp2_corosio.Capy.{ErrorCode, eof, canceled}
use nghttp2_corosio.SendLoop
use nghttp2_corosio.SendLoop.{chunk, send_loop, send_round, send_chunk}
use nghttp2_corosio.SendLoop.Writes.{sent, lost}
use nghttp2_corosio.SendLoop.Order.{pulled, IsWorthwhile, send_loop_lem, send_loop_flushed}
use nghttp2_corosio.RecvLoop
use nghttp2_corosio.RecvLoop.{received, read_error, recv_loop}
use nghttp2_corosio.RecvLoop.Order.{Inv, recv_loop_lem}
use nghttp2_corosio.Echo
use nghttp2_corosio.Echo.{Request, Answers, got, read_failed}
use nghttp2_corosio.Server
use nghttp2_corosio.Server.{Handshake, accept_loop}
use nghttp2_corosio.Server.Accept.{Serves, accept_loop-Serves}
use nghttp2_corosio.Server.Tasks
use nghttp2_corosio.Server.Tasks.{
  TaskGroup, TaskEvent, started, ended, new_group, on_events, on_event, spawn, complete,
  request_stop, drain_round, destroy, outstanding, IsPossible, ArePossible, IsDrained,
  count-outstanding, destroy_lem,
}
use nghttp2_corosio.Server.Lifecycle
use nghttp2_corosio.Server.Lifecycle.{accept_next, dispatch, connect_next}
use nghttp2_corosio.Server.Lifecycle.Tracking.{IsTracked, Reach-IsTracked}
use nghttp2_corosio.Client.{connect_to}
use nghttp2_corosio.Client.Outcome.{Connects, connect_to-Connects}

-- One small chunk, and then no more.
abbrev sends : Bytes → SendLoop.Round
sends bytes = record { mem_send = chunk bytes; write_error = none; wants = true; wait_error = none }

abbrev two_chunks : List SendLoop.Round
two_chunks = sends (codes "ab") ∷ sends [] ∷ sends [] ∷ []

send_loop_lem_example :
    let s = send_loop 16 two_chunks SendLoop.start in
    ((sent s.writes ++ lost s.writes) ++ s.pending ≡ pulled 16 two_chunks SendLoop.start)
    × ((s.phase ≡ SendLoop.failed) ⊎ (lost s.writes ≡ []))
    × (length s.pending ≤ 16)
    × All (IsWorthwhile 16) s.writes
send_loop_lem_example = send_loop_lem 16 two_chunks

two_chunks-waits : (send_loop 16 two_chunks SendLoop.start).phase ≡ SendLoop.waited
unfolding send_loop send_round send_chunk SendLoop.start
two_chunks-waits = refl

send_loop_flushed_example :
    sent (send_loop 16 two_chunks SendLoop.start).writes ≡ pulled 16 two_chunks SendLoop.start
send_loop_flushed_example = send_loop_flushed 16 two_chunks (inl two_chunks-waits)

-- The connection delivers a few bytes, and fails.
abbrev short_connection : List RecvLoop.Round
short_connection =
    record { wants = true; read = received (codes "abc"); parsed = true }
    ∷ record { wants = true; read = read_error eof; parsed = true }
    ∷ []

recv_loop_lem_example : Inv short_connection (recv_loop short_connection)
recv_loop_lem_example = recv_loop_lem short_connection

-- A request of two reads is echoed.
abbrev reads : Echo.ReadAnswer → Echo.Round
reads answer = record { read = answer; submit_error = none; write_error = none }

abbrev answers : Answers
answers = record {
  eager_error = none;
  rounds = reads (got (codes "ab")) ∷ reads (got (codes "c")) ∷ reads (read_failed eof) ∷ [];
  last_error = none;
  eof_error = none;
}

abbrev plain_request : Request
plain_request = record { content_length = some 3; headers = [] }

-- A server with TLS gets three connections, of which one negotiated HTTP/2, and is stopped.
abbrev connection : Option ErrorCode → Bool → Bytes → Server.Round
connection failure stopped alpn = record {
  accept_error = failure;
  stop_requested = stopped;
  peer = 7;
  handshake = record { error = none; alpn = alpn };
}

abbrev connections : List Server.Round
connections =
    connection none false (codes "h2")
    ∷ connection none false (codes "http/1.1")
    ∷ connection (some canceled) true []
    ∷ []

accept_loop-Serves_example : Serves true connections (accept_loop true connections)
accept_loop-Serves_example = accept_loop-Serves true connections

abbrev good_handshake : Handshake
good_handshake = record { error = none; alpn = codes "h2" }

connect_to-Connects_example :
    Connects none true
      (codes "localhost")
      good_handshake
      (connect_to none true (codes "localhost") good_handshake)
connect_to-Connects_example = connect_to-Connects none true (codes "localhost") good_handshake

-- A server with TLS accepts a peer, whose session gets a request; a client connects on the same
-- io_context; and the server is destroyed.
abbrev stopped : Lifecycle.Running
stopped =
    let accepted = accept_next true none 7 good_handshake Lifecycle.start in
    let connected = connect_next 2 none false [] good_handshake (dispatch 1 accepted) in
    Lifecycle.stop_all connected

abbrev destroyed : Lifecycle.Running
destroyed = accept_next true (some canceled) 0 good_handshake stopped

destroyed-Reach : Lifecycle.Reach true Lifecycle.start destroyed
unfolding Lifecycle.start accept_next dispatch connect_next connect_to Server.accept_round
    Server.serve Server.negotiated same
destroyed-Reach =
    Lifecycle.next
      (Lifecycle.next
        (Lifecycle.next
          (Lifecycle.next
            (Lifecycle.next Lifecycle.here (Lifecycle.accepts _ none 7 good_handshake refl))
            (Lifecycle.dispatches _ 7 1 refl))
          (Lifecycle.connects _ 2 none false [] good_handshake))
        (Lifecycle.stops _))
      (Lifecycle.accepts _ (some canceled) 0 good_handshake refl)

Reach-IsTracked_example : IsTracked destroyed
Reach-IsTracked_example = Reach-IsTracked destroyed-Reach

-- Three coroutines are left: two end at once, and the last one after a round in which none does.
abbrev three_left : TaskGroup
three_left = record { count = 3; stop_requested = false }

abbrev last_rounds : List Tasks.Round
last_rounds =
    record { polled = 2; in_poll = ended 2 ∷ ended 5 ∷ []; in_run_one = [] }
    ∷ record { polled = 0; in_poll = []; in_run_one = [] }
    ∷ record { polled = 0; in_poll = []; in_run_one = ended 4 ∷ [] }
    ∷ []

abbrev last_ones : List ℕ
last_ones = 2 ∷ 4 ∷ 5 ∷ []

last_rounds-possible : ArePossible last_ones last_rounds
last_rounds-possible = ((refl, (refl, tt)), (tt, ((refl, tt), tt)))

destroy_lem_example :
    IsDrained last_ones last_rounds (destroy last_rounds three_left)
    × ((destroy last_rounds three_left).group.stop_requested ≡ true)
destroy_lem_example = destroy_lem last_ones last_rounds three_left refl last_rounds-possible
