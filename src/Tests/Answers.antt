-- ===== src/Tests/Answers.antt =====
-- The status of a response among the other inputs of a client's session (src/session.cpp).
use nghttp2_corosio.Base.{
  ℕ, ◌≡◌, refl, inl, arith, Bool, none, some, List, [], ◌∷◌, ◌++◌, codes, get_elem?, same,
}
use nghttp2_corosio.Decimal.{from_chars}
use nghttp2_corosio.Stream.{Stream, new_stream, set_status}
use nghttp2_corosio.Stream.Status.{get_status}
use nghttp2_corosio.Stream.Status.Waits.{Seen, unseen, IsLate, HasAnswer, Answers}
use nghttp2_corosio.Session.{client, new_session, lookup, prefix_of}
use nghttp2_corosio.Session.Callbacks.{status_name, status_of}
use nghttp2_corosio.Session.Submit.{assigned}
use nghttp2_corosio.Session.Inputs
use nghttp2_corosio.Session.Inputs.{Input, run}
use nghttp2_corosio.Session.Lifetime.{after}
use nghttp2_corosio.Session.Preservation.{AreFresh}
use nghttp2_corosio.Session.Isolation.Opening.{Opens}
use nghttp2_corosio.Session.Answer.{all_attends, AreTimely}
use nghttp2_corosio.Session.Answer.Runs
use nghttp2_corosio.Session.Answer.Runs.{so_far, run-Answers}
use nghttp2_corosio.Tests.{flags, copies}

-- A request is sent, a call of status() waits, the status arrives, and the stream is closed.
abbrev asking : Input
asking = Inputs.request (assigned 1) (codes "/") none []

abbrev answering : List Input
answering =
    Inputs.ask_status 0 ∷ Inputs.header 1 status_name (codes "404") ∷ Inputs.stream_close 1 ∷ []

asking-fresh : AreFresh {Event = Bool} (new_session client []) ([] ++ asking ∷ answering)
unfolding new_session lookup
asking-fresh = (refl, (tt, (tt, (tt, tt))))

asking-Opens : Opens (so_far Bool client [] [] 1) asking 1
unfolding new_session run
asking-Opens = (refl, refl)

abbrev ref : ℕ
ref = Runs.opened_ref Bool client [] [] 1

abbrev answered : Seen × Stream Bool
answered = all_attends ref answering (Runs.opened Bool client [] [] 1)

not-IsLate : ¬ IsLate unseen
not-IsLate (e, c) = absurd (cc)

answering-timely : AreTimely ref (Runs.opened Bool client [] [] 1) answering
unfolding new_session run status_of from_chars
answering-timely = ((λ _ late. absurd (not-IsLate late)), ((λ _. omega arith), (tt, tt)))

answered-HasAnswer : HasAnswer answered.0
unfolding new_session run status_of from_chars new_stream get_status set_status same prefix_of
answered-HasAnswer = inl (404, refl)

run-Answers_example :
    (get_elem? (after {Event = Bool} client [] ([] ++ asking ∷ answering)).heap ref
      ≡ some answered.1)
    × Answers answered.0 answered.1
run-Answers_example =
    run-Answers Bool client [] [] 1 answering asking asking-fresh asking-Opens answering-timely
      answered-HasAnswer
