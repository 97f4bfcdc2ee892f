-- ===== src/Server/Accept.antt =====
-- Which connections the accept loop of src/server.cpp serves, and when it ends.
use nghttp2_corosio.Base.{
  ℕ, ◌≡◌, refl, ap, inl, inr, Bool, true, false, not, ◌&&◌, Option, none, some, List, [], ◌∷◌,
  Bytes, codes, same, Bool-cases, if◌then◌else◌,
}
use nghttp2_corosio.Capy.{ErrorCode}
use nghttp2_corosio.Server.{
  Transport, plain, tls, Round, Action, no_delay, spawn, Accepting, negotiated, serve, accept_round,
  accept_loop,
}

abbrev pub is_error : Option ErrorCode → Bool
is_error none = false
is_error (some e) = true

-- The rounds before the one that ends the loop.
abbrev pub before_stop : List Round → List Round
before_stop [] = []
before_stop (r ∷ rounds) =
    if is_error r.accept_error && r.stop_requested then [] else r ∷ before_stop rounds

abbrev pub has_stop : List Round → Bool
has_stop [] = false
has_stop (r ∷ rounds) =
    if is_error r.accept_error && r.stop_requested then true else has_stop rounds

-- A connection gets a session: it was accepted, and if the server has TLS the handshake succeeded
-- and negotiated HTTP/2.
abbrev pub is_served : Bool → Round → Bool
is_served has_tls r =
    not (is_error r.accept_error)
    && (if has_tls
        then not (is_error r.handshake.error) && same r.handshake.alpn (codes "h2")
        else true)

abbrev pub served : Bool → List Round → List ℕ
served has_tls [] = []
served has_tls (r ∷ rounds) =
    if is_served has_tls r then r.peer ∷ served has_tls rounds else served has_tls rounds

abbrev pub accepted : List Round → List ℕ
accepted [] = []
accepted (r ∷ rounds) =
    if is_error r.accept_error then accepted rounds else r.peer ∷ accepted rounds

-- The peers whose session was started on a transport, and those whose socket got the option.
abbrev pub transport_peers : List Action → List (ℕ × Transport)
transport_peers [] = []
transport_peers (no_delay p ∷ rest) = transport_peers rest
transport_peers (spawn p t role ∷ rest) = (p, t) ∷ transport_peers rest

abbrev pub undelayed : List Action → List ℕ
undelayed [] = []
undelayed (no_delay p ∷ rest) = p ∷ undelayed rest
undelayed (spawn p t role ∷ rest) = undelayed rest

abbrev pub with_transport : Bool → List ℕ → List (ℕ × Transport)
with_transport has_tls [] = []
with_transport has_tls (p ∷ ps) = (p, if has_tls then tls else plain) ∷ with_transport has_tls ps

pub record Serves (has_tls : Bool) (rounds : List Round) (a : Accepting) : Type 0 where
  pub sessions :
      transport_peers a.actions ≡ with_transport has_tls (served has_tls (before_stop rounds))
  pub sockets : undelayed a.actions ≡ accepted (before_stop rounds)
  pub over : a.ended ≡ has_stop rounds

accept_round-Serves :
    (has_tls : Bool) (accept_error : Option ErrorCode) (stop_requested : Bool) (peer : ℕ)
    (error : Option ErrorCode) (alpn : Bytes) (rounds : List Round) (rest : Accepting)
    → Serves has_tls rounds rest
    → let r : Round = record {
      accept_error = accept_error;
      stop_requested = stop_requested;
      peer = peer;
      handshake = record { error = error; alpn = alpn };
    } in
      Serves has_tls (r ∷ rounds) (accept_round has_tls r rest)
unfolding accept_round serve negotiated
accept_round-Serves has_tls (some e) true peer error alpn rounds rest v = record {
  sessions = refl;
  sockets = refl;
  over = refl;
}
accept_round-Serves has_tls (some e) false peer error alpn rounds rest v = record {
  sessions = v.sessions;
  sockets = v.sockets;
  over = v.over;
}
accept_round-Serves false none stop_requested peer error alpn rounds rest v = record {
  sessions = ap (λ rest. (peer, plain) ∷ rest) v.sessions;
  sockets = ap (λ rest. peer ∷ rest) v.sockets;
  over = v.over;
}
accept_round-Serves true none stop_requested peer (some e) alpn rounds rest v = record {
  sessions = v.sessions;
  sockets = ap (λ rest. peer ∷ rest) v.sockets;
  over = v.over;
}
accept_round-Serves true none stop_requested peer none alpn rounds rest v =
    elim (Bool-cases (same alpn (codes "h2"))) [
      | inl h2 ↦ record {
        sessions = simp (h2, v.sessions);
        sockets = simp (h2, v.sockets);
        over = v.over;
      }
      | inr other ↦ record {
        sessions = simp (other, v.sessions);
        sockets = simp (other, v.sockets);
        over = v.over;
      }
    ]

-- Whatever the acceptor and the handshakes answer, the loop serves the peers accepted before the
-- round in which it is stopped, in order: each gets TCP_NODELAY, and a session exactly if the server
-- has no TLS, or the handshake succeeded and negotiated "h2", on the transport of the server. The
-- loop has ended exactly if some accept failed after the stop was requested.
pub accept_loop-Serves :
    (has_tls : Bool) (rounds : List Round) → Serves has_tls rounds (accept_loop has_tls rounds)
unfolding accept_loop
accept_loop-Serves has_tls [] = record { sessions = refl; sockets = refl; over = refl }
accept_loop-Serves has_tls (r ∷ rounds) =
    accept_round-Serves has_tls r.accept_error r.stop_requested r.peer r.handshake.error
      r.handshake.alpn rounds (accept_loop has_tls rounds) (accept_loop-Serves has_tls rounds)
