-- ===== src/Client/Outcome.antt =====
-- The outcome of `connect` of src/client.cpp.
use nghttp2_corosio.Base.{
  ◌≡◌, refl, inl, inr, Bool, true, false, not, ◌&&◌, ◌||◌, Option, none, some, List, [], ◌∷◌, Bytes,
  codes, same, Bool-cases, if◌then◌else◌,
}
use nghttp2_corosio.Capy.{ErrorCode, protocol_not_supported}
use nghttp2_corosio.Session.{Role, client}
use nghttp2_corosio.Server.{Transport, plain, tls, Handshake, negotiated}
use nghttp2_corosio.Client.{
  Call, connect, no_delay, handshake, set_hostname, spawn_session, Connected, connect_tls,
  connect_to,
}

abbrev pub is_none : Option ErrorCode → Bool
is_none none = true
is_none (some e) = false

abbrev pub sessions : List Call → List (Transport × Role)
sessions [] = []
sessions (spawn_session t role ∷ rest) = (t, role) ∷ sessions rest
sessions (connect ∷ rest) = sessions rest
sessions (no_delay ∷ rest) = sessions rest
sessions (handshake ∷ rest) = sessions rest
sessions (set_hostname name ∷ rest) = sessions rest

-- For each handshake, the host names that were set before it.
abbrev pub hostnames_at_handshake : List Bytes → List Call → List (List Bytes)
hostnames_at_handshake names [] = []
hostnames_at_handshake names (handshake ∷ rest) = names ∷ hostnames_at_handshake names rest
hostnames_at_handshake names (set_hostname name ∷ rest) = hostnames_at_handshake (name ∷ names) rest
hostnames_at_handshake names (connect ∷ rest) = hostnames_at_handshake names rest
hostnames_at_handshake names (no_delay ∷ rest) = hostnames_at_handshake names rest
hostnames_at_handshake names (spawn_session t role ∷ rest) = hostnames_at_handshake names rest

-- The first thing that goes wrong.
abbrev pub first_error : Option ErrorCode → Bool → Handshake → Option ErrorCode
first_error (some e) has_tls h = some e
first_error none false h = none
first_error none true h = elim h.error [
  | some e ↦ some e
  | none ↦ if same h.alpn (codes "h2") then none else some protocol_not_supported
]

abbrev pub hostname_list : Bytes → List Bytes
hostname_list [] = []
hostname_list (b ∷ bs) = (b ∷ bs) ∷ []

pub record Connects (connect_error : Option ErrorCode) (has_tls : Bool) (hostname : Bytes)
    (h : Handshake) (c : Connected) : Type 0 where
  pub error : c.ec ≡ first_error connect_error has_tls h
  pub session :
      sessions c.calls
      ≡ (if is_none c.ec then (if has_tls then tls else plain, client) ∷ [] else [])
  pub opened : is_none c.ec ≡ is_none connect_error && (not has_tls || negotiated h)
  pub named :
      hostnames_at_handshake [] c.calls
      ≡ (if is_none connect_error && has_tls then hostname_list hostname ∷ [] else [])

connect_tls-Connects :
    (hostname : Bytes) (e : Option ErrorCode) (alpn : Bytes)
    → let h : Handshake = record { error = e; alpn = alpn } in
      Connects none true hostname h (connect_to none true hostname h)
unfolding connect_to connect_tls negotiated
connect_tls-Connects [] (some e) alpn = record {
  error = refl;
  session = refl;
  opened = refl;
  named = refl;
}
connect_tls-Connects (b ∷ bs) (some e) alpn = record {
  error = refl;
  session = refl;
  opened = refl;
  named = refl;
}
connect_tls-Connects [] none alpn = elim (Bool-cases (same alpn (codes "h2"))) [
  | inl q ↦ record { error = simp q; session = simp q; opened = simp q; named = simp q }
  | inr q ↦ record { error = simp q; session = simp q; opened = simp q; named = simp q }
]
connect_tls-Connects (b ∷ bs) none alpn = elim (Bool-cases (same alpn (codes "h2"))) [
  | inl q ↦ record { error = simp q; session = simp q; opened = simp q; named = simp q }
  | inr q ↦ record { error = simp q; session = simp q; opened = simp q; named = simp q }
]

-- Whatever the socket and the TLS stream answer, `connect` returns the first error of connecting,
-- the handshake and the negotiation of "h2"; it starts one client session if there is none, and no
-- session otherwise; with TLS, it succeeds on the handshakes that the server accepts; and a
-- handshake is made exactly once, with the host name set before it if that is not empty, if the
-- socket connected and there is TLS.
pub connect_to-Connects :
    (connect_error : Option ErrorCode) (has_tls : Bool) (hostname : Bytes) (h : Handshake)
    → Connects connect_error has_tls hostname h (connect_to connect_error has_tls hostname h)
unfolding connect_to
connect_to-Connects (some e) has_tls hostname h = record {
  error = refl;
  session = refl;
  opened = refl;
  named = refl;
}
connect_to-Connects none false hostname h = record {
  error = refl;
  session = refl;
  opened = refl;
  named = refl;
}
connect_to-Connects none true hostname h = connect_tls-Connects hostname h.error h.alpn
