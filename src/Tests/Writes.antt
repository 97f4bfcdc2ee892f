-- ===== src/Tests/Writes.antt =====
-- The write side of a stream on short histories (src/stream_impl.hpp).
use nghttp2_corosio.Base.{◌≡◌, refl, Bool, true, false, none, some, [], codes}
use nghttp2_corosio.Capy.{eof}
use nghttp2_corosio.Stream.{Stream, new_stream, on_close}
use nghttp2_corosio.Stream.Write
use nghttp2_corosio.Stream.Write.{write_impl, resume_write_impl, producer_callback}
use nghttp2_corosio.Stream.Write.Progress
use nghttp2_corosio.Stream.Write.Progress.{Sending, writes, pulls, closes, started, pulled}
use nghttp2_corosio.Stream.Write.Delivery
use nghttp2_corosio.Stream.Write.Delivery.{write_eof-on_close}
use nghttp2_corosio.Tests.{flags, copies}

-- A write of five bytes is pulled in two frames of at most three bytes.
abbrev pub idle : Sending Bool
idle = Delivery.start 1 []

abbrev writing : Bool → Sending Bool
writing end = started idle (codes "hello") (write_impl (codes "hello") end idle.stream)

idle-idle : idle.suspended ≡ false
unfolding Delivery.start
idle-idle = refl

abbrev begun : (end : Bool) → Progress.Reach idle (writing end)
begun end = Progress.next Progress.here (writes idle (codes "hello") end idle-idle)

writing-pulls : (end : Bool) → (writing end).provider_deferred ≡ false
unfolding Delivery.start new_stream write_impl
writing-pulls true = refl
writing-pulls false = refl

abbrev once : Bool → Sending Bool
once end = pulled (writing end) (producer_callback 3 (writing end).stream)

abbrev half_way : (end : Bool) → Progress.Reach idle (once end)
half_way end = Progress.next (begun end) (pulls (writing end) 3 (writing-pulls end))

once-pulls : (end : Bool) → (once end).provider_deferred ≡ false
unfolding Delivery.start new_stream write_impl producer_callback
once-pulls true = refl
once-pulls false = refl

abbrev open_stream : Stream Bool
open_stream = new_stream 1 []

open_stream-open : open_stream.closed ≡ false
unfolding new_stream
open_stream-open = refl

write_eof-on_close_example :
    let s = on_close (write_impl (codes "hello") true open_stream).0 in
    (s.write_progress ≡ true)
    × ((resume_write_impl none s).1 ≡ Write.written none 0)
    × ((write_impl (codes "hello") true s).1 ≡ Write.written (some eof) 0)
write_eof-on_close_example = write_eof-on_close (codes "hello") open_stream open_stream-open
