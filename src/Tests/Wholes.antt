-- ===== src/Tests/Wholes.antt =====
-- write_eof(buffers) on a stream (include/nghttp2-corosio/session.hpp): two writes and the end.
use nghttp2_corosio.Base.{◌≡◌, refl, true, false, none, some, Bool, [], ◌∷◌, ◌++◌, codes}
use nghttp2_corosio.Stream.{new_stream}
use nghttp2_corosio.Stream.Write.{
  written, write_some, write_eof, write_impl, resume_write_impl, producer_callback,
}
use nghttp2_corosio.Stream.Write.Progress
use nghttp2_corosio.Stream.Write.Progress.{Sending, started, pulled, finished}
use nghttp2_corosio.Stream.Write.Delivery.{start}
use nghttp2_corosio.Stream.Write.Whole
use nghttp2_corosio.Stream.Write.Whole.{Waits, Writes, write_eof_lem}
use nghttp2_corosio.Capy.{eof}
use nghttp2_corosio.Echo
use nghttp2_corosio.Echo.{Request, Answers, got, read_failed, echo, echo_loop, finish}
use nghttp2_corosio.Echo.Body.{Submits}
use nghttp2_corosio.Echo.Performance
use nghttp2_corosio.Echo.Performance.{Performs, AreWritten, requested, echo-pulled}
use nghttp2_corosio.Message.{has_header}
use nghttp2_corosio.Tests.{flags, copies}

abbrev idle : Sending Bool
idle = start 1 []

-- A write of three bytes of which two are pulled, and one of the three that are left.
abbrev first_begun : Sending Bool
first_begun = started idle (codes "hel") (write_some (codes "hel") idle.stream)

abbrev first_pulled : Sending Bool
first_pulled = pulled first_begun (producer_callback 2 first_begun.stream)

abbrev first_over : Sending Bool
first_over = finished first_pulled (resume_write_impl none first_pulled.stream)

abbrev second_begun : Sending Bool
second_begun = started first_over (codes "llo") (write_some (codes "llo") first_over.stream)

abbrev second_pulled : Sending Bool
second_pulled = pulled second_begun (producer_callback 9 second_begun.stream)

abbrev second_over : Sending Bool
second_over = finished second_pulled (resume_write_impl none second_pulled.stream)

abbrev end_begun : Sending Bool
end_begun = started second_over [] (write_eof [] second_over.stream)

abbrev end_pulled : Sending Bool
end_pulled = pulled end_begun (producer_callback 9 end_begun.stream)

idle-idle : idle.suspended ≡ false
unfolding start
idle-idle = refl

first-active : first_begun.provider_deferred ≡ false
unfolding start new_stream write_some write_impl
first-active = refl

first-waits : first_pulled.suspended ≡ true
unfolding start new_stream write_some write_impl producer_callback
first-waits = refl

first-set : first_pulled.stream.write_progress ≡ true
unfolding start new_stream write_some write_impl producer_callback
first-set = refl

second-active : second_begun.provider_deferred ≡ false
unfolding start new_stream write_some write_impl producer_callback resume_write_impl
second-active = refl

second-waits : second_pulled.suspended ≡ true
unfolding start new_stream write_some write_impl producer_callback resume_write_impl
second-waits = refl

second-set : second_pulled.stream.write_progress ≡ true
unfolding start new_stream write_some write_impl producer_callback resume_write_impl
second-set = refl

second-Writes : Writes first_over (codes "llo") second_over
unfolding start new_stream write_some write_impl producer_callback resume_write_impl
second-Writes =
    Whole.more (codes "llo") [] refl refl (Whole.pulling 9 Whole.waits second-active) second-waits
      second-set Whole.all_written

both-Writes : Writes idle (codes "hello") second_over
unfolding start new_stream write_some write_impl producer_callback resume_write_impl
both-Writes =
    Whole.more (codes "hel") (codes "lo") refl idle-idle (Whole.pulling 2 Whole.waits first-active)
      first-waits first-set second-Writes

end-active : end_begun.provider_deferred ≡ false
unfolding start new_stream write_some write_eof write_impl producer_callback resume_write_impl
end-active = refl

end-waits : end_pulled.suspended ≡ true
unfolding start new_stream write_some write_eof write_impl producer_callback resume_write_impl
end-waits = refl

end-open : end_pulled.stream.closed ≡ false
unfolding start new_stream write_some write_eof write_impl producer_callback resume_write_impl
end-open = refl

end-set : end_pulled.stream.write_progress ≡ true
unfolding start new_stream write_some write_eof write_impl producer_callback resume_write_impl
end-set = refl

write_eof_lem_example :
    (end_pulled.body ≡ idle.body ++ codes "hello")
    × (end_pulled.end_sent ≡ true)
    × ((resume_write_impl none end_pulled.stream).1 ≡ written none 0)
write_eof_lem_example =
    write_eof_lem 1 [] (codes "hello") Progress.here idle-idle both-Writes
      (Whole.pulling 9 Whole.waits end-active) end-waits end-open end-set

-- The echo of a request of five bytes on that stream.
abbrev reads : Echo.ReadAnswer → Echo.Round
reads answer = record { read = answer; submit_error = none; write_error = none }

abbrev answers : Answers
answers = record {
  eager_error = none;
  rounds = reads (got (codes "hello")) ∷ reads (read_failed eof) ∷ [];
  last_error = none;
  eof_error = none;
}

abbrev five_bytes : Request
five_bytes = record { content_length = some 5; headers = [] }

answers-Submits : Submits answers
answers-Submits = record { eager = refl; each = (refl, (refl, tt)); last = refl }

answers-AreWritten : AreWritten answers.rounds
answers-AreWritten = (refl, (refl, tt))

abbrev echo_over : Sending Bool
echo_over = finished end_pulled (resume_write_impl none end_pulled.stream)

echo-Performs : Performs idle (echo five_bytes answers).calls echo_over
unfolding echo echo_loop finish has_header
echo-Performs = Performance.submitting (some 5) (
    Performance.writing both-Writes (
      Performance.ending (Whole.pulling 9 Whole.waits end-active) end-waits end-open end-set
        Performance.performed))

echo-pulled_example :
    (echo_over.body ≡ requested answers.rounds)
    × (echo_over.end_sent ≡ true)
    × ((echo five_bytes answers).outcome ≡ Echo.returned none)
echo-pulled_example =
    echo-pulled 1 [] five_bytes answers answers-Submits answers-AreWritten refl echo-Performs
