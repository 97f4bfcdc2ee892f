-- ===== src/Tests/Sessions.antt =====
-- Sessions on short runs (src/session.cpp).
use nghttp2_corosio.Base.{
  true, false, ◌+◌, ◌⊎◌, if◌then◌else◌, ℕ, ◌≡◌, refl, Bool, false, none, some, List, [], ◌∷◌, ◌++◌,
  arith, codes, get_elem?, All, same,
}
use nghttp2_corosio.Decimal.{to_string}
use nghttp2_corosio.Stream.{Stream, Headers, new_stream, on_close}
use nghttp2_corosio.Session
use nghttp2_corosio.Session.{
  Session, server, client, new_session, find_stream, lookup, emplace, erase, update, at,
  create_stream, close_stream, close_all, end_run,
}
use nghttp2_corosio.Session.Callbacks
use nghttp2_corosio.Session.Callbacks.{
  Frame, FrameType, nghttp2_headers, on_begin_headers, content_length_name, status_name,
}
use nghttp2_corosio.Session.Submit.{response_headers, request_headers}
use nghttp2_corosio.Session.Inputs
use nghttp2_corosio.Session.Inputs.{Input, begin_headers, step, run}
use nghttp2_corosio.Session.Preservation.{Good, AreFresh}
use nghttp2_corosio.Session.WellFormed.{IsSettled}
use nghttp2_corosio.Session.Lifetime.{
  IsReleased, after, run-Good_new, end_run-IsSettled, end_run-IsReleased, close_stream_lem,
}
use nghttp2_corosio.Session.HeaderBlock
use nghttp2_corosio.Session.HeaderBlock.{on_headers, capture_all, on_headers-at}
use nghttp2_corosio.Session.Exchange.{
  KnowsResponse, KnowsRequest, response_round_trip, request_round_trip,
}
use nghttp2_corosio.Message.{submit, has_header}
use nghttp2_corosio.Stream.Write.{producer_callback, produced}
use nghttp2_corosio.Stream.Status.{get_status}
use nghttp2_corosio.Session.Response.{response_of, get_response_lem}
use nghttp2_corosio.Session.Signals.{credits, work}
use nghttp2_corosio.Session.Signals.Runs.{all_delivered, all_taken, run-credits, run-signals}
use nghttp2_corosio.Session.Handler.{handle_request}
use nghttp2_corosio.Session.Handler.Default.{handle_request_empty}
use nghttp2_corosio.Tests.{flags, copies}

-- Two requests arrive at a server.
abbrev pub opening : ℕ → Frame
opening id = record {
  stream_id = id;
  type = nghttp2_headers;
  category = Callbacks.request;
  end_stream = false;
}

abbrev pub two_requests : List Input
two_requests = begin_headers (opening 1) ∷ begin_headers (opening 3) ∷ []

abbrev pub two_streams : Session Bool
two_streams = after server [] two_requests

pub two_requests-fresh : AreFresh {Event = Bool} (new_session server []) two_requests
unfolding new_session step on_begin_headers create_stream lookup emplace find_stream
two_requests-fresh = (λ _. refl, (λ _. refl, tt))

run-Good_new_example : Good two_streams
run-Good_new_example = run-Good_new server [] two_requests two_requests-fresh

pub first-found : find_stream two_streams 1 ≡ some 0
unfolding new_session run step on_begin_headers create_stream lookup emplace find_stream
first-found = refl

close_stream_lem_example :
    let x = close_stream 1 two_streams in
    (find_stream x 1 ≡ none) × (s : Stream Bool) × (get_elem? x.heap 0 ≡ some s) × IsReleased s
close_stream_lem_example =
    close_stream_lem server [] two_requests 1 0 two_requests-fresh first-found

end_run-IsReleased_example :
    (s : Stream Bool) × (get_elem? (end_run two_streams).heap 0 ≡ some s) × IsReleased s
end_run-IsReleased_example =
    end_run-IsReleased server [] two_requests 1 0 two_requests-fresh first-found

abbrev first_at_end : Stream Bool
first_at_end = on_close (new_stream 1 (codes "." ++ to_string 1))

ended-made : get_elem? (end_run two_streams).heap 0 ≡ some first_at_end
unfolding new_session run step on_begin_headers create_stream lookup emplace find_stream end_run
    close_all at update Session.prefix_of
ended-made = refl

end_run-IsSettled_example : (find_stream (end_run two_streams) 1 ≡ none) × IsSettled first_at_end
end_run-IsSettled_example =
    end_run-IsSettled server [] two_requests 1 0 first_at_end two_requests-fresh ended-made

-- Headers of a response and of a request.
abbrev pub first : Stream Bool
first = new_stream 1 (codes "." ++ to_string 1)

pub first-made : get_elem? two_streams.heap 0 ≡ some first
unfolding new_session run step on_begin_headers create_stream lookup emplace find_stream
    Session.prefix_of
first-made = refl

abbrev fields : Headers
fields = (codes "server", codes "x") ∷ []

fields-IsRegular : All HeaderBlock.IsRegular fields
fields-IsRegular = (refl, tt)

fields-alone : has_header content_length_name fields ≡ false
unfolding has_header same
fields-alone = refl

response_round_trip_example :
    (t : Stream Bool) × (get_elem?
        (on_headers 1 (response_headers 200 (submit (some 12) fields)) two_streams).heap
        0
      ≡ some t)
    × KnowsResponse 200 12 fields first t
response_round_trip_example =
    response_round_trip 1 0 200 12 fields two_streams first first-found first-made (omega arith)
      (omega arith) fields-IsRegular

request_round_trip_example :
    (t : Stream Bool) × (get_elem?
        (on_headers 1 (request_headers (codes "/a") (some 12) fields) two_streams).heap
        0
      ≡ some t)
    × KnowsRequest (codes "/a") 12 fields first t
request_round_trip_example =
    request_round_trip 1 0 (codes "/a") 12 fields two_streams first first-found first-made
      (omega arith) fields-IsRegular fields-alone

-- Body bytes arrive, and a response is submitted.
abbrev traffic : List Input
traffic = Inputs.data_chunk 1 (codes "abc") ∷ Inputs.response true 0 200 [] ∷ []

run-credits_example :
    credits (run two_streams traffic).native ≡ credits two_streams.native + all_delivered traffic
run-credits_example = run-credits two_streams traffic

traffic-taken : all_taken traffic ≡ true
traffic-taken = refl

run-signals_example :
    ((work (run two_streams traffic).native ≡ work two_streams.native)
      × ((run two_streams traffic).write_ready ≡ two_streams.write_ready))
    ⊎ ((run two_streams traffic).write_ready ≡ true)
run-signals_example = run-signals two_streams traffic traffic-taken

first-open : first.closed ≡ false
unfolding new_stream
first-open = refl

handle_request_empty_example :
    let y = (handle_request false true 0 first two_streams).0 in
    (y.native
      ≡ two_streams.native
        ++ Session.submit_response first.id ((status_name, codes "200") ∷ []) 0
          ∷ (if first.write_deferred then Session.resume_data first.id ∷ [] else []))
    × (y.write_ready ≡ true)
    × (t : Stream Bool) × (get_elem? y.heap 0 ≡ some t)
    × ((producer_callback 16 t).1 ≡ produced [] true)
handle_request_empty_example = handle_request_empty 0 16 first two_streams first-made first-open

get_response_lem_example :
    (t : Stream Bool) × (get_elem?
        (on_headers 1 (response_headers 200 (submit (some 12) fields)) two_streams).heap
        0
      ≡ some t)
    × (response_of (get_status t).1 t
        ≡ some (record {
          ec = none;
          status = 200;
          content_length = some 12;
          headers = first.headers ++ (fields ++ (content_length_name, to_string 12) ∷ []);
        }))
get_response_lem_example =
    get_response_lem 1 0 200 12 fields two_streams first first-found first-made (omega arith)
      (omega arith) fields-IsRegular
