-- ===== src/Client.antt =====
-- The client of src/client.cpp. What the socket and the TLS stream answer is an argument.
pub mod Outcome
use nghttp2_corosio.Base.{
  ℕ, ◌≡◌, refl, inl, inr, Bool, true, false, not, Option, none, some, List, [], ◌∷◌, ◌++◌, Bytes,
  codes, same, Bool-cases, if◌then◌else◌, is_empty,
}
use nghttp2_corosio.Capy.{ErrorCode, protocol_not_supported}
use nghttp2_corosio.Session.{Role, client}
use nghttp2_corosio.Server.{
  Transport, plain, tls, Handshake, negotiated, Round, serve, Action, spawn,
}

-- What `connect` does to the socket, in order, and the session that it starts.
pub data Call : Type 0 where
  connect no_delay handshake : Call
  set_hostname : Bytes → Call
  spawn_session : Transport → Role → Call

pub record Connected : Type 0 where
  pub calls : List Call
  pub ec : Option ErrorCode

abbrev pub before : List Call → Connected → Connected
before calls c = record c { calls = calls ++ c.calls }

abbrev pub fails : ErrorCode → Connected
fails e = record { calls = []; ec = some e }

abbrev pub opens : Transport → Connected
opens t = record { calls = spawn_session t client ∷ []; ec = none }

unfoldable pub connect_tls : Bytes → Handshake → Connected
connect_tls hostname h = before (if is_empty hostname then [] else set_hostname hostname ∷ []) (
    before (handshake ∷ []) (elim h.error [
      | some e ↦ fails e
      | none ↦ if same h.alpn (codes "h2") then opens tls else fails protocol_not_supported
    ]))

-- `Client::Impl::connect`, with a TLS context or without.
unfoldable pub connect_to : Option ErrorCode → Bool → Bytes → Handshake → Connected
unfolding connect_tls
connect_to connect_error has_tls hostname h = before (connect ∷ []) (elim connect_error [
  | some e ↦ fails e
  | none ↦ before (no_delay ∷ []) (if has_tls then connect_tls hostname h else opens plain)
])
