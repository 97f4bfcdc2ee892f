-- ===== src/Stream/Status.antt =====
-- Stream::status() (src/stream_impl.hpp), cut at its wait.
pub mod Outcome
pub mod Waits
use nghttp2_corosio.Base.{ℕ, Option, none, some, is_negative, to_uint32, if◌then◌else◌}
use nghttp2_corosio.Capy.{AsyncEvent, ErrorCode}
use nghttp2_corosio.Stream.{Stream, eof_error}

pub data StatusOutcome : Type 0 where
  known : ℕ → StatusOutcome
  failed : ErrorCode → StatusOutcome
  waiting : StatusOutcome

module _ {Event : Type 0} ⦃events : AsyncEvent Event⦄ where
  unfoldable pub get_status : Stream Event → Stream Event × StatusOutcome
  get_status s =
      if is_negative s.status
      then (record s { status_ready = events.clear s.status_ready }, waiting)
      else (s, known (to_uint32 s.status))

module _ {Event : Type 0} where
  unfoldable pub resume_status : Option ErrorCode → Stream Event → StatusOutcome
  unfolding eof_error
  resume_status (some e) s = failed e
  resume_status none s =
      if is_negative s.status then failed (eof_error s) else known (to_uint32 s.status)
