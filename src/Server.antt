-- ===== src/Server.antt =====
-- The server of src/server.cpp and its task group (src/task_group.hpp). What the acceptor, the TLS
-- stream and the scheduler answer is an argument.
pub mod Accept
pub mod Tasks
pub mod Lifecycle
use nghttp2_corosio.Base.{
  ℕ, Bool, true, false, Option, none, some, List, [], ◌∷◌, ◌++◌, Bytes, codes, same, if◌then◌else◌,
}
use nghttp2_corosio.Capy.{ErrorCode}
use nghttp2_corosio.Session.{Role, server}

-- The stream that a session runs on.
pub data Transport : Type 0 where
  plain tls : Transport

-- What a TLS handshake returns, and the protocol that it negotiates.
pub record Handshake : Type 0 where
  pub error : Option ErrorCode
  pub alpn : Bytes

-- The answers of one round of the accept loop; `handshake` is read where the server has TLS.
pub record Round : Type 0 where
  pub accept_error : Option ErrorCode
  pub stop_requested : Bool
  pub peer : ℕ
  pub handshake : Handshake

-- What the loop does: `no_delay` sets the option of a peer's socket, `spawn` starts its session.
pub data Action : Type 0 where
  no_delay : ℕ → Action
  spawn : ℕ → Transport → Role → Action

pub record Accepting : Type 0 where
  pub actions : List Action
  pub ended : Bool

abbrev pub prepend : List Action → Accepting → Accepting
prepend before a = record a { actions = before ++ a.actions }

-- Whether a handshake leads to a session.
unfoldable pub negotiated : Handshake → Bool
negotiated h = elim h.error [ some e ↦ false | none ↦ same h.alpn (codes "h2") ]

-- A connection that was accepted, on a server with TLS or without.
unfoldable pub serve : Bool → Round → List Action
unfolding negotiated
serve has_tls r =
    no_delay r.peer
    ∷ (if has_tls
        then (if negotiated r.handshake then spawn r.peer tls server ∷ [] else [])
        else spawn r.peer plain server ∷ [])

-- A round, and what follows it if the loop goes on.
unfoldable pub accept_round : Bool → Round → Accepting → Accepting
unfolding serve
accept_round has_tls r rest = elim r.accept_error [
  | some e ↦ if r.stop_requested then record { actions = []; ended = true } else rest
  | none ↦ prepend (serve has_tls r) rest
]

unfoldable pub accept_loop : Bool → List Round → Accepting
unfolding accept_round
accept_loop has_tls [] = record { actions = []; ended = false }
accept_loop has_tls (r ∷ rounds) = accept_round has_tls r (accept_loop has_tls rounds)
