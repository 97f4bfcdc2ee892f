-- ===== src/Tests/Windows.antt =====
-- The window and the body of a stream on short runs of a session.
use nghttp2_corosio.Base.{true, ◌≤◌, ◌+◌, refl, sym, ap, Bool, none, some, List, [], ◌∷◌, codes}
use nghttp2_corosio.Stream.{new_stream}
use nghttp2_corosio.Stream.Read.{on_data, on_data_to, keep_chunk}
use nghttp2_corosio.Session.{
  Session, server, new_session, find_stream, lookup, emplace, create_stream, update, at,
  with_stream, call,
}
use nghttp2_corosio.Session.Callbacks.{on_begin_headers, on_data_chunk_recv}
use nghttp2_corosio.Stream.{Stream, on_read_eof}
use nghttp2_corosio.Stream.Read.{read_some}
use nghttp2_corosio.Session.Callbacks
use nghttp2_corosio.Session.Callbacks.{Frame, nghttp2_data}
use nghttp2_corosio.Tests.Sessions.{first}
use nghttp2_corosio.Session.Inputs
use nghttp2_corosio.Session.Inputs.{Input, step, run}
use nghttp2_corosio.Session.Preservation.{AreFresh}
use nghttp2_corosio.Session.Window.{stream_credits, held}
use nghttp2_corosio.Session.Window.Runs.{all_delivered_to, AreSoleReaders, run-stream_credits}
use nghttp2_corosio.Tests.{flags, copies}
use nghttp2_corosio.Session.Delivery.Runs.{AllSpare, Delivers, run-Delivers}
use nghttp2_corosio.Tests.Sessions.{
  opening, two_requests, two_requests-fresh, two_streams, first-found,
}

-- Five bytes arrive, and a read takes two of them.
abbrev reading_two : List Input
reading_two =
    Inputs.begin_headers (opening 1) ∷ Inputs.data_chunk 1 (codes "abcde") ∷ Inputs.read 0 2 ∷ []

reading_two-fresh : AreFresh {Event = Bool} (new_session server []) reading_two
unfolding new_session step on_begin_headers create_stream lookup emplace find_stream
reading_two-fresh = ((λ _. refl), (tt, (tt, tt)))

reading_two-alone : AreSoleReaders {Event = Bool} (new_session server []) reading_two
unfolding new_session step on_begin_headers create_stream lookup emplace find_stream
    on_data_chunk_recv with_stream at update call on_data on_data_to keep_chunk new_stream
reading_two-alone =
    (tt, (tt, ((λ s e. ap (λ o. elim o [ none ↦ none | some u ↦ u.read_sink ]) (sym e)), tt)))

run-stream_credits_example :
    let x : Session Bool = run (new_session server []) reading_two in
    stream_credits 1 x.native + held 1 x.heap ≤ all_delivered_to 1 reading_two
run-stream_credits_example =
    run-stream_credits Bool 1 server [] reading_two reading_two-fresh reading_two-alone

-- Chunks of two bodies arrive, and the reader of the first one takes two bytes.
abbrev interleaved : List Input
interleaved =
    Inputs.data_chunk 1 (codes "abc")
    ∷ Inputs.data_chunk 3 (codes "xy")
    ∷ Inputs.data_chunk 1 (codes "de")
    ∷ Inputs.read 0 2
    ∷ []

interleaved-fresh : AreFresh two_streams interleaved
interleaved-fresh = (tt, (tt, (tt, (tt, tt))))

pub two_requests-alone : AreSoleReaders {Event = Bool} (new_session server []) two_requests
two_requests-alone = (tt, (tt, tt))

interleaved-alone : AreSoleReaders two_streams interleaved
unfolding new_session step on_begin_headers create_stream lookup emplace find_stream
    on_data_chunk_recv with_stream at update call on_data on_data_to keep_chunk new_stream run
interleaved-alone =
    (tt, (tt, (tt, ((λ s e. ap (λ o. elim o [ none ↦ none | some u ↦ u.read_sink ]) (sym e)), tt))))

interleaved-spared : AllSpare 1 interleaved
interleaved-spared = (tt, (tt, (tt, (tt, tt))))

run-Delivers_example : Delivers 1 0 two_streams interleaved
run-Delivers_example =
    run-Delivers Bool 1 0 server [] two_requests interleaved two_requests-fresh two_requests-alone
      interleaved-fresh interleaved-alone interleaved-spared first-found

-- A body of one chunk arrives, is read, and ends; the next read fails.
abbrev pub end_of_body : Frame
end_of_body = record {
  stream_id = 1;
  type = nghttp2_data;
  category = Callbacks.headers;
  end_stream = true;
}

abbrev whole_body : List Input
whole_body = Inputs.data_chunk 1 (codes "ab") ∷ Inputs.read 0 4 ∷ Inputs.frame_recv end_of_body ∷ []

abbrev read_out : Stream Bool
read_out = on_read_eof (read_some 4 (on_data (codes "ab") first)).0
