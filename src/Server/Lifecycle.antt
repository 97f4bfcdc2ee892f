-- ===== src/Server/Lifecycle.antt =====
-- A Server over its life (src/server.cpp): the constructor starts the accept loop, the loop starts
-- sessions, these start request handlers (src/session.cpp), and the destructor asks all of them to
-- stop. Clients on the same io_context (src/client.cpp) start sessions of theirs. Every one of these
-- coroutines is in the task group of the io_context.
pub mod Tracking
use nghttp2_corosio.Base.{
  ℕ, ◌+◌, ◌≡◌, refl, ◌⊎◌, inl, inr, Bool, true, false, ◌||◌, Option, none, some, List, [], ◌∷◌,
  ◌++◌, arith, Bytes, length, ◌==◌, Bool-cases, if◌then◌else◌,
}
use nghttp2_corosio.Capy.{ErrorCode}
use nghttp2_corosio.Client.{
  Call, connect, no_delay, handshake, set_hostname, spawn_session, connect_to,
}
use nghttp2_corosio.Server.{Handshake, Round, Action, Accepting, accept_round, serve}
use nghttp2_corosio.Server.Tasks.{TaskGroup, new_group, spawn, complete, request_stop}

-- The coroutines: the accept loop, an accepted session by its peer, a handler by its request, and a
-- client's session by a number of its own.
pub data Task : Type 0 where
  accept_loop : Task
  session handler client_session : ℕ → Task

abbrev is_accept_loop : Task → Bool
is_accept_loop accept_loop = true
is_accept_loop (session n) = false
is_accept_loop (handler n) = false
is_accept_loop (client_session n) = false

abbrev is_session : ℕ → Task → Bool
is_session peer accept_loop = false
is_session peer (session n) = n == peer
is_session peer (handler n) = false
is_session peer (client_session n) = false

abbrev is_handler : ℕ → Task → Bool
is_handler request accept_loop = false
is_handler request (session n) = false
is_handler request (handler n) = n == request
is_handler request (client_session n) = false

abbrev is_client_session : ℕ → Task → Bool
is_client_session id accept_loop = false
is_client_session id (session n) = false
is_client_session id (handler n) = false
is_client_session id (client_session n) = n == id

abbrev pub is_task : Task → Task → Bool
is_task accept_loop t = is_accept_loop t
is_task (session peer) t = is_session peer t
is_task (handler request) t = is_handler request t
is_task (client_session id) t = is_client_session id t

abbrev pub is_running : Task → List Task → Bool
is_running t [] = false
is_running t (u ∷ tasks) = is_task t u || is_running t tasks

abbrev pub without : Task → List Task → List Task
without t [] = []
without t (u ∷ tasks) = if is_task t u then tasks else u ∷ without t tasks

-- The group, with the coroutines that have been started in it and not ended.
pub record Running : Type 0 where
  pub group : TaskGroup
  pub tasks : List Task

abbrev pub begin : Task → Running → Running
begin t x = record { group = spawn x.group; tasks = t ∷ x.tasks }

abbrev pub end : Task → Running → Running
end t x = record { group = complete x.group; tasks = without t x.tasks }

-- The constructor, with `Impl::start()`.
unfoldable pub start : Running
unfolding spawn new_group
start = begin accept_loop (record { group = new_group; tasks = [] })

abbrev pub do_action : Action → Running → Running
do_action (Action.no_delay peer) x = x
do_action (Action.spawn peer t role) x = begin (session peer) x

abbrev pub do_actions : List Action → Running → Running
do_actions [] x = x
do_actions (a ∷ actions) x = do_actions actions (do_action a x)

abbrev pub finish_if : Bool → Running → Running
finish_if true x = end accept_loop x
finish_if false x = x

-- A round of the accept loop, whose stop token is that of the group.
unfoldable pub accept_next : Bool → Option ErrorCode → ℕ → Handshake → Running → Running
unfolding accept_round spawn complete
accept_next has_tls accept_error peer h x =
    let r : Round = record {
      accept_error = accept_error;
      stop_requested = x.group.stop_requested;
      peer = peer;
      handshake = h;
    } in
    let a = accept_round has_tls r (record { actions = []; ended = false }) in
    finish_if a.ended (do_actions a.actions x)

-- `dispatch_request()` of a session.
unfoldable pub dispatch : ℕ → Running → Running
unfolding spawn
dispatch request x = begin (handler request) x

abbrev pub do_call : ℕ → Call → Running → Running
do_call id connect x = x
do_call id no_delay x = x
do_call id handshake x = x
do_call id (set_hostname name) x = x
do_call id (spawn_session t role) x = begin (client_session id) x

abbrev pub do_calls : ℕ → List Call → Running → Running
do_calls id [] x = x
do_calls id (c ∷ calls) x = do_calls id calls (do_call id c x)

-- `Client::connect()` of a client on the same io_context.
unfoldable pub connect_next : ℕ → Option ErrorCode → Bool → Bytes → Handshake → Running → Running
unfolding connect_to spawn
connect_next id connect_error has_tls hostname h x =
    do_calls id (connect_to connect_error has_tls hostname h).calls x

abbrev pub stop_all : Running → Running
stop_all x = record x { group = request_stop x.group }

module _ (has_tls : Bool) where
  -- What can happen on a server's io_context: its accept loop comes round, a session gets a request, a
  -- client connects, a session or a handler ends, and the destructor begins.
  pub data Step : Running → Running → Type 0 where
    accepts :
        (x : Running) (accept_error : Option ErrorCode) (peer : ℕ) (h : Handshake)
        → is_running accept_loop x.tasks ≡ true
        → Step x (accept_next has_tls accept_error peer h x)
    dispatches :
        (x : Running) (peer request : ℕ)
        → is_running (session peer) x.tasks ≡ true
        → Step x (dispatch request x)
    session_ends :
        (x : Running) (peer : ℕ)
        → is_running (session peer) x.tasks ≡ true
        → Step x (end (session peer) x)
    handler_ends :
        (x : Running) (request : ℕ)
        → is_running (handler request) x.tasks ≡ true
        → Step x (end (handler request) x)
    connects :
        (x : Running) (id : ℕ) (connect_error : Option ErrorCode) (tls : Bool) (hostname : Bytes)
        (h : Handshake)
        → Step x (connect_next id connect_error tls hostname h x)
    client_ends :
        (x : Running) (id : ℕ)
        → is_running (client_session id) x.tasks ≡ true
        → Step x (end (client_session id) x)
    stops : (x : Running) → Step x (stop_all x)

  pub data Reach (x : Running) : Running → Type 0 where
    here : Reach x x
    next : {y z : Running} → Reach x y → Step y z → Reach x z
