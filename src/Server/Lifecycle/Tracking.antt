-- ===== src/Server/Lifecycle/Tracking.antt =====
-- The task group of a server against the coroutines that run (src/server.cpp, src/task_group.hpp).
use nghttp2_corosio.Base.{
  ℕ, ◌+◌, ◌≡◌, refl, ◌⊎◌, inl, inr, Bool, true, false, Option, none, some, List, [], ◌∷◌, ◌++◌,
  arith, length, Bool-cases, if◌then◌else◌,
}
use nghttp2_corosio.Capy.{ErrorCode}
use nghttp2_corosio.Client
use nghttp2_corosio.Client.{Call, connect, handshake, set_hostname, spawn_session, connect_to}
use nghttp2_corosio.Server.{Handshake, Round, Action, no_delay, Accepting, accept_round, serve}
use nghttp2_corosio.Server.Tasks.{new_group, spawn, complete, request_stop}
use nghttp2_corosio.Server.Lifecycle.{
  Task, accept_loop, session, handler, client_session, is_task, is_running, without, Running, begin,
  end, start, do_actions, finish_if, accept_next, dispatch, do_calls, connect_next, Step, accepts,
  dispatches, session_ends, handler_ends, connects, client_ends, stops, Reach, here, next,
}

pub record IsTracked (x : Running) : Type 0 where
  pub counted : x.group.count ≡ length x.tasks
  pub listening : (is_running accept_loop x.tasks ≡ true) ⊎ (x.group.stop_requested ≡ true)

length-without :
    (t : Task) (tasks : List Task)
    → is_running t tasks ≡ true
    → length (without t tasks) + 1 ≡ length tasks
length-without t [] h = absurd (cc)
length-without t (u ∷ tasks) h = elim (Bool-cases (is_task t u)) [
  | inl e ↦ rw e (omega arith)
  | inr e ↦ rw e (omega (arith, length-without t tasks (ground arith)))
]

end-IsTracked :
    (t : Task) (x : Running)
    → is_running t x.tasks ≡ true
    → (is_running accept_loop (without t x.tasks) ≡ true) ⊎ (x.group.stop_requested ≡ true)
    → IsTracked x
    → IsTracked (end t x)
unfolding complete
end-IsTracked t x h listens v = record {
  counted = omega (arith, v.counted, length-without t x.tasks h);
  listening = listens;
}

-- The end of a session or of a handler leaves the accept loop.
kept :
    (t : Task) (tasks : List Task)
    → is_task t accept_loop ≡ false
    → is_running accept_loop (without t tasks) ≡ is_running accept_loop tasks
kept t [] h = refl
kept t (accept_loop ∷ tasks) h = rw h refl
kept t (session n ∷ tasks) h = elim (Bool-cases (is_task t (session n))) [
  | inl e ↦ rw e refl
  | inr e ↦ rw e (kept t tasks h)
]
kept t (client_session n ∷ tasks) h = elim (Bool-cases (is_task t (client_session n))) [
  | inl e ↦ rw e refl
  | inr e ↦ rw e (kept t tasks h)
]
kept t (handler n ∷ tasks) h = elim (Bool-cases (is_task t (handler n))) [
  | inl e ↦ rw e refl
  | inr e ↦ rw e (kept t tasks h)
]

begin-IsTracked : (t : Task) (x : Running) → IsTracked x → IsTracked (begin t x)
unfolding spawn
begin-IsTracked t x v = record {
  counted = omega (arith, v.counted);
  listening = ground (arith, v.listening);
}

do_actions-IsTracked :
    (actions : List Action) (x : Running) → IsTracked x → IsTracked (do_actions actions x)
do_actions-IsTracked [] x v = v
do_actions-IsTracked (no_delay peer ∷ actions) x v = do_actions-IsTracked actions x v
do_actions-IsTracked (Action.spawn peer t role ∷ actions) x v =
    do_actions-IsTracked actions _ (begin-IsTracked (session peer) x v)

do_calls-IsTracked :
    (id : ℕ) (calls : List Call) (x : Running) → IsTracked x → IsTracked (do_calls id calls x)
do_calls-IsTracked id [] x v = v
do_calls-IsTracked id (connect ∷ calls) x v = do_calls-IsTracked id calls x v
do_calls-IsTracked id (Client.no_delay ∷ calls) x v = do_calls-IsTracked id calls x v
do_calls-IsTracked id (handshake ∷ calls) x v = do_calls-IsTracked id calls x v
do_calls-IsTracked id (set_hostname name ∷ calls) x v = do_calls-IsTracked id calls x v
do_calls-IsTracked id (spawn_session t role ∷ calls) x v =
    do_calls-IsTracked id calls _ (begin-IsTracked (client_session id) x v)

accept_next-IsTracked :
    (has_tls : Bool) (accept_error : Option ErrorCode) (peer : ℕ) (hs : Handshake) (x : Running)
    → is_running accept_loop x.tasks ≡ true
    → IsTracked x
    → IsTracked (accept_next has_tls accept_error peer hs x)
unfolding accept_next accept_round
accept_next-IsTracked has_tls none peer hs x h v =
    let r : Round = record {
      accept_error = none;
      stop_requested = x.group.stop_requested;
      peer = peer;
      handshake = hs;
    } in
    do_actions-IsTracked (serve has_tls r ++ []) x v
accept_next-IsTracked has_tls (some e) peer hs x h v = go x.group.stop_requested refl
  where
    go :
        (stopped : Bool)
        → x.group.stop_requested ≡ stopped
        → let a : Accepting =
            if stopped
            then record { actions = []; ended = true }
            else record { actions = []; ended = false } in
          IsTracked (finish_if a.ended (do_actions a.actions x))
    go true e = end-IsTracked accept_loop x h (inr e) v
    go false e = v

Step-IsTracked : {has_tls : Bool} {x y : Running} → Step has_tls x y → IsTracked x → IsTracked y
unfolding dispatch request_stop connect_next
Step-IsTracked (accepts x e peer hs h) v = accept_next-IsTracked _ e peer hs x h v
Step-IsTracked (dispatches x peer request h) v = begin-IsTracked (handler request) x v
Step-IsTracked (session_ends x peer h) v =
    end-IsTracked (session peer) x h (ground (arith, v.listening, kept (session peer) x.tasks refl))
      v
Step-IsTracked (handler_ends x request h) v =
    end-IsTracked (handler request) x h
      (ground (arith, v.listening, kept (handler request) x.tasks refl)) v
Step-IsTracked (connects x id e tls hostname h) v =
    do_calls-IsTracked id (connect_to e tls hostname h).calls x v
Step-IsTracked (client_ends x id h) v =
    end-IsTracked (client_session id) x h
      (ground (arith, v.listening, kept (client_session id) x.tasks refl)) v
Step-IsTracked (stops x) v = record { counted = v.counted; listening = inr refl }

start-IsTracked : IsTracked start
unfolding start spawn new_group
start-IsTracked = record { counted = refl; listening = inl refl }

Reach-IsTracked_from :
    {has_tls : Bool} {x y : Running} → Reach has_tls x y → IsTracked x → IsTracked y
Reach-IsTracked_from here v = v
Reach-IsTracked_from (next r step) v = Step-IsTracked step (Reach-IsTracked_from r v)

-- Whatever the acceptor, the sockets and the handshakes answer, in whatever order sessions and handlers
-- start and end, and whatever clients connect on the same io_context: the count of its task group is the
-- number of the coroutines that run in it (the accept loop, the accepted sessions and their request
-- handlers, and the sessions of clients), and the accept loop runs unless the destructor has asked
-- it to stop.
pub Reach-IsTracked : {has_tls : Bool} {x : Running} → Reach has_tls start x → IsTracked x
Reach-IsTracked r = Reach-IsTracked_from r start-IsTracked
