-- ===== src/Stream/Status/Outcome.antt =====
-- What get_response() of a client learns from Stream::status() (src/stream_impl.hpp), before and after
-- the headers of the response and the close of the stream.
use nghttp2_corosio.Base.{ℕ, ◌^◌, ◌<◌, ◌≡◌, true, false, none, arith, is_negative}
use nghttp2_corosio.Capy.{AsyncEvent}
use nghttp2_corosio.Stream.{Stream, eof_error, set_status, on_close}
use nghttp2_corosio.Stream.Status.{known, failed, waiting, get_status, resume_status}

module _ {Event : Type 0} ⦃events : AsyncEvent Event⦄ where
  -- A status below 2^31 that arrived reaches status(), whether it waited before or asks afterwards,
  -- and also if the stream was closed in between; a waiting call has its event set.
  pub status_arrives :
      (status : ℕ) (s : Stream Event)
      → status < 2 ^ 31
      → let t = on_close (set_status status s) in
        (resume_status none (set_status status s) ≡ known status)
        × (resume_status none t ≡ known status)
        × ((get_status t).1 ≡ known status)
        × (events.is_set (set_status status s).status_ready ≡ true)
        × (events.is_set t.status_ready ≡ true)
  unfolding get_status resume_status set_status on_close
  status_arrives status s lt =
      (ground arith, ground arith, ground arith, events.is_set-set _, events.is_set-set _)

  -- On a stream that is closed without a status: a status() that waited is woken, and fails with the
  -- stream's error; but one that is called after the close clears the event and waits, with the
  -- event not set.
  pub status-on_close :
      (s : Stream Event)
      → is_negative s.status ≡ true
      → let t = on_close (get_status s).0 in
        (events.is_set t.status_ready ≡ true)
        × (resume_status none t ≡ failed (eof_error s))
        × ((get_status t).1 ≡ waiting)
        × (events.is_set (get_status t).0.status_ready ≡ false)
  unfolding get_status resume_status on_close eof_error
  status-on_close s e =
      (events.is_set-set _, ground arith, ground arith, simp (e, events.is_set-clear))
