-- ===== src/Session.antt =====
-- Class Session::Impl (src/session_impl.hpp, src/session.cpp): its state, the table of its streams
-- and the helpers of its operations. Callbacks, Submit and Inputs below have the operations that
-- nghttp2 and the user call.
pub mod Callbacks
pub mod Submit
pub mod Inputs
pub mod Table
pub mod WellFormed
pub mod Preservation
pub mod Lifetime
pub mod Isolation
pub mod Writing
pub mod Transfer
pub mod Answer
pub mod Reading
pub mod HeaderBlock
pub mod Exchange
pub mod ContentLength
pub mod Signals
pub mod Objects
pub mod Handler
pub mod Response
pub mod Setup
pub mod Window
pub mod Delivery
pub mod Logs
use nghttp2_corosio.Base.{
  ℕ, zero, suc, ◌+◌, Bool, true, false, Option, none, some, List, [], ◌∷◌, ◌++◌, Bytes, codes,
  length, get_elem?, ◌==◌, if◌then◌else◌,
}
use nghttp2_corosio.Capy.{AsyncEvent}
use nghttp2_corosio.Decimal.{to_string}
use nghttp2_corosio.Stream
use nghttp2_corosio.Stream.{Stream, Headers, Effect, new_stream, on_close}

pub data Role : Type 0 where
  server client : Role

-- The calls made on the nghttp2_session, with what matters of their arguments. A data provider is
-- named by the Stream that it points to.
pub data NativeCall : Type 0 where
  consume_connection : ℕ → NativeCall
  consume_stream : ℕ → ℕ → NativeCall
  resume_data : ℕ → NativeCall
  submit_response : ℕ → Headers → ℕ → NativeCall
  submit_request : Headers → ℕ → NativeCall

-- A `shared_ptr<Stream>` is an index of `heap`, which holds every Stream that was made; `streams` is
-- the map from identifiers. `native` has the calls made on the nghttp2_session, `handlers` the
-- streams whose request handler was spawned, each oldest first.
pub record Session (Event : Type 0) : Type 0 where
  pub role : Role
  pub log_prefix : Bytes
  pub native : List NativeCall
  pub write_ready : Event
  pub heap : List (Stream Event)
  pub streams : List (ℕ × ℕ)
  pub request_counter : ℕ
  pub handlers : List ℕ

-- `streams_.find`, `emplace` (which keeps an entry that is there) and `erase`.
unfoldable pub lookup : ℕ → List (ℕ × ℕ) → Option ℕ
lookup id [] = none
lookup id ((k, ref) ∷ m) = if k == id then some ref else lookup id m

unfoldable pub emplace : ℕ → ℕ → List (ℕ × ℕ) → List (ℕ × ℕ)
unfolding lookup
emplace id ref m = elim (lookup id m) [ none ↦ (id, ref) ∷ m | some old ↦ m ]

unfoldable pub erase : ℕ → List (ℕ × ℕ) → List (ℕ × ℕ)
erase id [] = []
erase id ((k, ref) ∷ m) = if k == id then m else (k, ref) ∷ erase id m

module _ {Event : Type 0} where
  unfoldable pub update :
      ℕ → (Stream Event → Stream Event) → List (Stream Event) → List (Stream Event)
  update ref f [] = []
  update zero f (s ∷ heap) = f s ∷ heap
  update (suc ref) f (s ∷ heap) = s ∷ update ref f heap

  unfoldable pub prefix_of : Session Event → ℕ → Bytes
  prefix_of x id = if id == 0 then x.log_prefix else x.log_prefix ++ codes "." ++ to_string id

  unfoldable pub call : NativeCall → Session Event → Session Event
  call c x = record x { native = x.native ++ c ∷ [] }

  unfoldable pub find_stream : Session Event → ℕ → Option ℕ
  unfolding lookup
  find_stream x id = lookup id x.streams

  unfoldable pub at : ℕ → (Stream Event → Stream Event) → Session Event → Session Event
  unfolding update
  at ref f x = record x { heap = update ref f x.heap }

  -- `if (auto stream = find_stream(id)) stream->f()`
  unfoldable pub with_stream : ℕ → (Stream Event → Stream Event) → Session Event → Session Event
  unfolding find_stream at
  with_stream id f x = elim (find_stream x id) [ none ↦ x | some ref ↦ at ref f x ]

module _ {Event : Type 0} ⦃events : AsyncEvent Event⦄ where
  -- The constructor; `tag` is the session's log tag.
  unfoldable pub new_session : Role → Bytes → Session Event
  new_session role tag = record {
    role = role;
    log_prefix = tag;
    native = [];
    write_ready = events.fresh;
    heap = [];
    streams = [];
    request_counter = 0;
    handlers = [];
  }

  unfoldable pub start_write : Session Event → Session Event
  start_write x = record x { write_ready = events.set x.write_ready }

  -- What a Stream asks of its session.
  unfoldable pub perform : List Effect → Session Event → Session Event
  unfolding call start_write
  perform [] x = x
  perform (Effect.consume_stream id n ∷ fx) x = perform fx (call (consume_stream id n) x)
  perform (Effect.resume_data id ∷ fx) x = perform fx (call (resume_data id) x)
  perform (Effect.start_write ∷ fx) x = perform fx (start_write x)

  unfoldable pub create_stream : ℕ → Session Event → Session Event
  unfolding new_stream emplace prefix_of
  create_stream id x = record x {
    heap = x.heap ++ new_stream id (prefix_of x id) ∷ [];
    streams = emplace id (length x.heap) x.streams;
    request_counter = x.request_counter + 1;
  }

  unfoldable pub close_stream : ℕ → Session Event → Session Event
  unfolding find_stream at erase on_close
  close_stream id x = elim (find_stream x id) [
    | none ↦ x
    | some ref ↦ let x' = at ref on_close x in record x' { streams = erase id x.streams }
  ]

  -- The end of run(): every stream that is still in the table is closed, and the table emptied.
  unfoldable pub close_all : List (ℕ × ℕ) → Session Event → Session Event
  unfolding at on_close
  close_all [] x = x
  close_all ((id, ref) ∷ m) x = close_all m (at ref on_close x)

  unfoldable pub end_run : Session Event → Session Event
  unfolding close_all
  end_run x = close_all x.streams (record x { streams = [] })

module _ {Event : Type 0} where
  unfoldable pub dispatch_request : ℕ → Session Event → Session Event
  dispatch_request ref x = record x { handlers = x.handlers ++ ref ∷ [] }
