-- ===== src/Tests/Readers.antt =====
-- The readers of one Stream object among the others of a session, on short runs (src/session.cpp).
use nghttp2_corosio.Base.{
  ℕ, ◌≡◌, refl, inl, arith, Bool, true, some, List, [], ◌∷◌, ◌++◌, codes, get_elem?,
}
use nghttp2_corosio.Stream.{Sink, new_stream}
use nghttp2_corosio.Stream.Read.{
  on_data, on_data_to, keep_chunk, read_some, drain, drain_front, after_drain, park, put,
}
use nghttp2_corosio.Stream.Read.Order.{Side}
use nghttp2_corosio.Stream.Read.Delivery.{start}
use nghttp2_corosio.Session.{server, new_session, find_stream, lookup, emplace, create_stream}
use nghttp2_corosio.Session.Callbacks.{on_begin_headers}
use nghttp2_corosio.Session.Inputs
use nghttp2_corosio.Session.Inputs.{Input, step, run}
use nghttp2_corosio.Session.Lifetime.{after}
use nghttp2_corosio.Session.Preservation.{AreFresh}
use nghttp2_corosio.Session.Reading.{all_takes, AreInTurn}
use nghttp2_corosio.Session.Reading.Runs.{
  opened_ref, opened, IsInOrder, run-IsInOrder, run-reader_awake,
}
use nghttp2_corosio.Tests.{flags, copies}
use nghttp2_corosio.Tests.Isolated.{one_request, second, second-Opens}

abbrev ref : ℕ
ref = opened_ref Bool server [] one_request 3

-- The second stream after some inputs.
abbrev side_after : List Input → Side Bool
side_after is = all_takes ref is (opened Bool server [] one_request 3)

abbrev Holds : List Input → Type 0
Holds is =
    get_elem? (after {Event = Bool} server [] (one_request ++ second ∷ is)).heap ref
    ≡ some (side_after is).stream

-- A read waits on the second stream, and both bodies arrive.
abbrev waiting : List Input
waiting = Inputs.read 1 8 ∷ Inputs.data_chunk 1 (codes "x") ∷ Inputs.data_chunk 3 (codes "abc") ∷ []

waiting-fresh : AreFresh {Event = Bool} (new_session server []) (one_request ++ second ∷ waiting)
unfolding new_session step on_begin_headers create_stream lookup emplace find_stream
waiting-fresh = ((λ _. refl), ((λ _. refl), (tt, (tt, (tt, tt)))))

waiting-turns : AreInTurn ref (opened Bool server [] one_request 3) waiting
unfolding start new_stream
waiting-turns = ((λ _. refl), (tt, (tt, tt)))

run-IsInOrder_example :
    IsInOrder ref (after server [] (one_request ++ second ∷ waiting)) (side_after waiting)
run-IsInOrder_example =
    run-IsInOrder Bool server [] one_request 3 waiting second waiting-fresh second-Opens
      waiting-turns

abbrev filled_sink : Sink
filled_sink = record { room = 5; copied = codes "abc" }

waiting-parked : (side_after waiting).stream.read_sink ≡ some filled_sink
unfolding new_session run step on_begin_headers create_stream start new_stream on_data on_data_to
    keep_chunk read_some after_drain drain drain_front park put
waiting-parked = refl

run-reader_awake_example : Holds waiting × ((side_after waiting).stream.read_ready ≡ true)
run-reader_awake_example =
    run-reader_awake Bool server [] one_request 3 waiting second filled_sink waiting-fresh
      second-Opens waiting-turns waiting-parked (inl (omega arith))

-- Three bytes arrive and are read, and the stream is reset.
abbrev cut_off : List Input
cut_off = Inputs.data_chunk 3 (codes "abc") ∷ Inputs.read 1 8 ∷ Inputs.stream_close 3 ∷ []

-- A read waits, and the stream is reset.
abbrev reset : List Input
reset = Inputs.read 1 8 ∷ Inputs.stream_close 3 ∷ []

abbrev empty_sink : Sink
empty_sink = record { room = 8; copied = [] }
