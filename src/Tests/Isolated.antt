-- ===== src/Tests/Isolated.antt =====
-- One Stream object among the others of a session, on short runs (src/session.cpp).
use nghttp2_corosio.Base.{
  ℕ, ◌≡◌, refl, sym, ap, arith, Bool, true, false, none, some, List, [], ◌∷◌, ◌++◌, codes,
  get_elem?,
}
use nghttp2_corosio.Capy.{eof}
use nghttp2_corosio.Stream.{Stream, new_stream, on_read_eof, on_close, consume, eof_error}
use nghttp2_corosio.Stream.Read.{
  failed, on_data, on_data_to, keep_chunk, read_some, drain, drain_front, after_drain,
}
use nghttp2_corosio.Stream.Write.{write_impl, producer_callback}
use nghttp2_corosio.Stream.Write.Progress.{Sending}
use nghttp2_corosio.Stream.Write.Delivery.{start, IsSent, IsMoving}
use nghttp2_corosio.Session.{
  server, new_session, find_stream, lookup, emplace, update, at, with_stream, call, create_stream,
  perform, start_write, prefix_of,
}
use nghttp2_corosio.Session.Callbacks.{on_begin_headers, on_data_chunk_recv, on_frame_recv}
use nghttp2_corosio.Session.Inputs
use nghttp2_corosio.Session.Inputs.{Input, invoke, step, run}
use nghttp2_corosio.Session.Lifetime.{after}
use nghttp2_corosio.Session.Preservation.{AreFresh}
use nghttp2_corosio.Session.Window.Runs.{AreSoleReaders}
use nghttp2_corosio.Session.Delivery.Runs.{AllSpare}
use nghttp2_corosio.Session.Isolation.{replay}
use nghttp2_corosio.Session.Isolation.Runs.{Mirrors, run-Mirrors}
use nghttp2_corosio.Session.Isolation.Opening.{Opens}
use nghttp2_corosio.Session.Transfer.{body_over_sessions}
use nghttp2_corosio.Session.Delivery.{content_at, all_arriving, all_handed_to}
use nghttp2_corosio.Session.Writing.{all_sends, AreInTurn}
use nghttp2_corosio.Session.Writing.Runs.{
  IsAccounted, so_far, opened_ref, opened, run-IsAccounted, run-IsSent, run-IsMoving,
}
use nghttp2_corosio.Tests.{flags, copies}
use nghttp2_corosio.Tests.Windows.{two_requests-alone, end_of_body}
use nghttp2_corosio.Tests.Sessions.{
  opening, two_requests, two_requests-fresh, two_streams, first, first-found, first-made,
}

-- Chunks of both bodies arrive, a handler reads and writes, and the second stream is closed.
abbrev busy : List Input
busy =
    Inputs.data_chunk 1 (codes "abc")
    ∷ Inputs.data_chunk 3 (codes "xy")
    ∷ Inputs.write 0 (codes "hello") true
    ∷ Inputs.read 0 2
    ∷ Inputs.stream_close 3
    ∷ []

busy-fresh : AreFresh two_streams busy
busy-fresh = (tt, (tt, (tt, (tt, (tt, tt)))))

run-Mirrors_example : Mirrors 0 (run two_streams busy) (replay 0 busy first)
run-Mirrors_example =
    run-Mirrors server [] two_requests busy 1 0 first two_requests-fresh busy-fresh first-found
      first-made

-- A second request is answered with five bytes in two pulls, while the first one goes away.
abbrev pub one_request : List Input
one_request = Inputs.begin_headers (opening 1) ∷ []

abbrev pub second : Input
second = Inputs.begin_headers (opening 3)

abbrev answering : List Input
answering =
    Inputs.write 1 (codes "hello") true
    ∷ Inputs.pull 0 9
    ∷ Inputs.pull 1 3
    ∷ Inputs.stream_close 1
    ∷ Inputs.pull 1 9
    ∷ []

second-fresh : AreFresh {Event = Bool} (new_session server []) (one_request ++ second ∷ answering)
unfolding new_session step on_begin_headers create_stream lookup emplace find_stream
second-fresh = ((λ _. refl), ((λ _. refl), (tt, (tt, (tt, (tt, (tt, tt)))))))

pub second-Opens : Opens (so_far Bool server [] one_request 3) second 3
second-Opens = (refl, refl)

abbrev ref : ℕ
ref = opened_ref Bool server [] one_request 3

abbrev answered : Sending Bool
answered =
    all_sends (opened_ref Bool server [] one_request 3) answering
      (opened Bool server [] one_request 3)

answering-turns : AreInTurn ref (opened Bool server [] one_request 3) answering
unfolding new_session run step on_begin_headers create_stream start new_stream write_impl
    producer_callback
answering-turns = ((λ _. refl), ((λ _. refl), ((λ _. refl), (tt, ((λ _. refl), tt)))))

run-IsAccounted_example :
    IsAccounted ref (after server [] (one_request ++ second ∷ answering)) answered
run-IsAccounted_example =
    run-IsAccounted Bool server [] one_request 3 answering second second-fresh second-Opens
      answering-turns

answered-waits : answered.suspended ≡ true
unfolding new_session run step on_begin_headers create_stream start new_stream write_impl
    producer_callback on_close
answered-waits = refl

answered-eof : answered.stream.write_eof_requested ≡ true
unfolding new_session run step on_begin_headers create_stream start new_stream write_impl
    producer_callback on_close
answered-eof = refl

answered-open : answered.stream.closed ≡ false
unfolding new_session run step on_begin_headers create_stream start new_stream write_impl
    producer_callback on_close
answered-open = refl

answered-set : answered.stream.write_progress ≡ true
unfolding new_session run step on_begin_headers create_stream start new_stream write_impl
    producer_callback on_close
answered-set = refl

abbrev AnsweredHolds : Type 0
AnsweredHolds =
    get_elem? (after server [] (one_request ++ second ∷ answering)).heap ref ≡ some answered.stream

run-IsSent_example : AnsweredHolds × IsSent answered
run-IsSent_example =
    run-IsSent Bool server [] one_request 3 answering second second-fresh second-Opens
      answering-turns answered-waits answered-eof answered-open answered-set

run-IsMoving_example : AnsweredHolds × IsMoving answered
run-IsMoving_example =
    run-IsMoving Bool server [] one_request 3 answering second second-fresh second-Opens
      answering-turns answered-waits

-- The five bytes of the answer reach the reader of the peer's first stream.
abbrev whole_body : List Input
whole_body =
    Inputs.data_chunk 1 (codes "hello") ∷ Inputs.read 0 8 ∷ Inputs.frame_recv end_of_body ∷ []

whole_body-spared : AllSpare 1 whole_body
whole_body-spared = (tt, (tt, (tt, tt)))

whole_body-fresh : AreFresh two_streams whole_body
whole_body-fresh = (tt, (tt, (tt, tt)))

whole_body-alone : AreSoleReaders two_streams whole_body
unfolding new_session step on_begin_headers create_stream lookup emplace find_stream
    on_data_chunk_recv with_stream at update call on_data on_data_to keep_chunk new_stream run
whole_body-alone =
    (tt, ((λ s e. ap (λ o. elim o [ none ↦ none | some u ↦ u.read_sink ]) (sym e)), (tt, tt)))

abbrev read_out : Stream Bool
read_out = on_read_eof (read_some 8 (on_data (codes "hello") first)).0

read_out-there : get_elem? (run two_streams whole_body).heap 0 ≡ some read_out
unfolding new_session step on_begin_headers create_stream lookup emplace find_stream invoke perform
    on_data_chunk_recv with_stream at update call on_data on_data_to keep_chunk new_stream run
    on_frame_recv start_write consume read_some after_drain drain drain_front on_read_eof prefix_of
read_out-there = refl

read_out-idle : read_out.read_sink ≡ none
unfolding on_read_eof read_some after_drain drain drain_front on_data on_data_to keep_chunk
    new_stream
read_out-idle = refl

read_out-ended : (read_some 8 read_out).1 ≡ failed eof
unfolding on_read_eof read_some after_drain drain drain_front on_data on_data_to keep_chunk
    new_stream eof_error
read_out-ended = refl

holds_nothing : content_at 0 two_streams.heap ≡ []
unfolding new_session run step on_begin_headers create_stream new_stream
holds_nothing = refl

answer_arrives : all_arriving 1 whole_body ≡ answered.body
unfolding new_session run step on_begin_headers create_stream start new_stream write_impl
    producer_callback on_close
answer_arrives = refl

body_over_sessions_example :
    (all_handed_to 0 two_streams whole_body ≡ answered.reported ++ answered.given) × (eof ≡ eof)
body_over_sessions_example =
    body_over_sessions Bool server server [] [] one_request answering two_requests whole_body second
      3 1 0 8 read_out eof second-fresh second-Opens answering-turns answered-waits answered-eof
      answered-open answered-set two_requests-fresh two_requests-alone whole_body-fresh
      whole_body-alone whole_body-spared first-found holds_nothing answer_arrives read_out-there
      read_out-idle (omega arith) read_out-ended
