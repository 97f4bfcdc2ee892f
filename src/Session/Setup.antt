-- ===== src/Session/Setup.antt =====
-- The start of Session::Impl::run() with setup_callbacks(), what run() frees at its end, and the
-- destructor (src/session.cpp). What nghttp2 answers is an argument.
pub mod Resources
use nghttp2_corosio.Base.{ℕ, Bool, true, false, List, [], ◌∷◌, ◌++◌, ◌&&◌, Bytes, codes, ◌*◌}
use nghttp2_corosio.Session.{Role, server, client}

-- The events that a callback is registered for.
pub data Callback : Type 0 where
  on_begin_headers on_header on_frame_not_send error : Callback
  on_invalid_header on_frame_recv on_data_chunk_recv on_frame_send on_stream_close : Callback

pub data Setting : Type 0 where
  max_concurrent_streams initial_window_size : Setting

-- The calls of nghttp2 that make, configure and free its objects; a flag says that the object was
-- made. `drive` stands for send_loop() and recv_loop().
pub data Call : Type 0 where
  option_new callbacks_new : Bool → Call
  session_new : Role → Bool → Call
  no_auto_window_update : Call
  register : Callback → Call
  submit_settings : List (Setting × ℕ) → Call
  set_local_window_size : ℕ → Call
  drive : Call
  option_del callbacks_del session_del : Call

-- Which objects nghttp2 makes when it is asked to.
pub record Answers : Type 0 where
  pub option_made : Bool
  pub callbacks_made : Bool
  pub session_made : Bool

-- run() has gone on to the loops, or has thrown std::runtime_error.
pub data Outcome : Type 0 where
  completed : Outcome
  thrown : Bytes → Outcome

abbrev pub window_size : ℕ
window_size = 1024 * 1024

abbrev pub callback_table : List Callback
callback_table =
    on_begin_headers ∷ on_header ∷ on_frame_not_send ∷ error ∷ on_invalid_header ∷ on_frame_recv
    ∷ on_data_chunk_recv ∷ on_frame_send ∷ on_stream_close ∷ []

abbrev registrations : List Callback → List Call
registrations [] = []
registrations (c ∷ cs) = register c ∷ registrations cs

-- A part of the coroutine: its calls, and how it ends.
pub record Part : Type 0 where
  pub calls : List Call
  pub outcome : Outcome

abbrev pub before : List Call → Part → Part
before calls p = record p { calls = calls ++ p.calls }

-- A local object with a deleter: it is freed when the rest of the coroutine is over, normally or by
-- an exception.
abbrev pub freeing : Call → Part → Part
freeing del p = record p { calls = p.calls ++ del ∷ [] }

abbrev pub throws : Bytes → Part
throws message = record { calls = []; outcome = thrown message }

abbrev pub session_failure : Role → Bytes
session_failure server = codes "nghttp2_session_server_new2 failed"
session_failure client = codes "nghttp2_session_client_new2 failed"

-- From the call that makes the session to the end of the loops.
unfoldable pub run_session : Role → Bool → Part
run_session role false = before (session_new role false ∷ []) (throws (session_failure role))
run_session role true =
    before
      (session_new role true
        ∷ submit_settings ((max_concurrent_streams, 100) ∷ (initial_window_size, window_size) ∷ [])
        ∷ set_local_window_size window_size
        ∷ drive
        ∷ [])
      (record { calls = []; outcome = completed })

-- `setup_callbacks`, and what run() does with its result.
unfoldable pub run_callbacks : Role → Bool → Bool → Part
unfolding run_session
run_callbacks role false session_made =
    before (callbacks_new false ∷ []) (throws (codes "nghttp2_session_callbacks_new failed"))
run_callbacks role true session_made =
    before (callbacks_new true ∷ registrations callback_table)
      (freeing callbacks_del (run_session role session_made))

unfoldable pub run_options : Role → Bool → Bool → Bool → Part
unfolding run_callbacks
run_options role false callbacks_made session_made =
    before (option_new false ∷ []) (throws (codes "nghttp2_option_new failed"))
run_options role true callbacks_made session_made = before (option_new true ∷ []) (
    freeing option_del
      (before (no_auto_window_update ∷ []) (run_callbacks role callbacks_made session_made)))

-- run(), seen from nghttp2.
unfoldable pub run_all : Role → Answers → Part
unfolding run_options
run_all role a = run_options role a.option_made a.callbacks_made a.session_made

-- `~Impl()`: whether session_ was set.
unfoldable pub destruct : Bool → List Call
destruct true = session_del ∷ []
destruct false = []

-- All the calls for a session that is run once and then destroyed.
unfoldable pub life : Role → Answers → List Call
unfolding run_all destruct
life role a =
    (run_all role a).calls ++ destruct (a.option_made && a.callbacks_made && a.session_made)
