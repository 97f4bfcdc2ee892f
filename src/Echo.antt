-- ===== src/Echo.antt =====
-- The echo handler, echo_handler.cpp. What the request's body, submit(), write() and write_eof()
-- return in a round of the loop is an argument.
pub mod Laws
pub mod Body
pub mod Performance
use nghttp2_corosio.Base.{
  ℕ, Bool, true, false, Option, none, some, List, [], ◌∷◌, ◌++◌, Bytes, codes, if◌then◌else◌,
}
use nghttp2_corosio.Capy.{ErrorCode}
use nghttp2_corosio.Stream.{Headers}
use nghttp2_corosio.Message.{has_header}

-- What the handler reads of its request.
pub record Request : Type 0 where
  pub content_length : Option ℕ
  pub headers : Headers

pub data ReadAnswer : Type 0 where
  got : Bytes → ReadAnswer
  read_failed : ErrorCode → ReadAnswer

-- The answers of one round; `submit_error` is read where the round submits.
pub record Round : Type 0 where
  pub read : ReadAnswer
  pub submit_error : Option ErrorCode
  pub write_error : Option ErrorCode

-- The answers of a run.
pub record Answers : Type 0 where
  pub eager_error : Option ErrorCode
  pub rounds : List Round
  pub last_error : Option ErrorCode
  pub eof_error : Option ErrorCode

-- The calls of the response. `submit` has the content length that was set before.
pub data Call : Type 0 where
  submit : Option ℕ → Call
  write : Bytes → Call
  write_eof : Call

-- The handler waits for more of the request, or has returned.
pub data Outcome : Type 0 where
  waiting : Outcome
  returned : Option ErrorCode → Outcome

pub record Echoing : Type 0 where
  pub calls : List Call
  pub outcome : Outcome

abbrev pub prepend : Call → Echoing → Echoing
prepend c e = record e { calls = c ∷ e.calls }

abbrev pub returns : List Call → Option ErrorCode → Echoing
returns calls ec = record { calls = calls; outcome = returned ec }

-- A submit, and what follows it if it succeeds.
abbrev pub submit_then : Option ℕ → Option ErrorCode → Echoing → Echoing
submit_then n none rest = prepend (submit n) rest
submit_then n (some e) rest = returns (submit n ∷ []) (some e)

-- What follows the loop.
unfoldable pub finish : Bool → Option ℕ → Answers → Echoing
finish submitted n a =
    let eof = returns (write_eof ∷ []) a.eof_error in
    if submitted then eof else submit_then n a.last_error eof

unfoldable pub echo_loop : Bool → Option ℕ → Answers → List Round → Echoing
unfolding finish
echo_loop submitted n a [] = record { calls = []; outcome = waiting }
echo_loop submitted n a (r ∷ rounds) =
    let rest = echo_loop true n a rounds in
    elim r.read [
      | read_failed e ↦ finish submitted n a
      | got bytes ↦
          let written =
            prepend (write bytes) (elim r.write_error [ none ↦ rest | some e ↦ finish true n a ]) in
          if submitted then written else submit_then n r.submit_error written
    ]

unfoldable pub echo : Request → Answers → Echoing
unfolding has_header echo_loop
echo request a =
    let n = request.content_length in
    if has_header (codes "x-eager-submit") request.headers
    then submit_then n a.eager_error (echo_loop true n a a.rounds)
    else echo_loop false n a a.rounds
