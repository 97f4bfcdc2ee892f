-- ===== src/Tests/Statuses.antt =====
-- The status of a response (src/stream_impl.hpp).
use nghttp2_corosio.Base.{[], ◌≡◌, refl, Bool, true, false, none, is_negative}
use nghttp2_corosio.Stream.{Stream, new_stream, on_close, eof_error}
use nghttp2_corosio.Stream.Status.{failed, waiting, get_status, resume_status}
use nghttp2_corosio.Stream.Status.Outcome.{status-on_close}
use nghttp2_corosio.Tests.{flags}

abbrev asked : Stream Bool
asked = new_stream 1 []

asked-unknown : is_negative asked.status ≡ true
unfolding new_stream
asked-unknown = refl

status-on_close_example :
    let t = on_close (get_status asked).0 in
    (t.status_ready ≡ true)
    × (resume_status none t ≡ failed (eof_error asked))
    × ((get_status t).1 ≡ waiting)
    × ((get_status t).0.status_ready ≡ false)
status-on_close_example = status-on_close asked asked-unknown
