-- ===== src/Demo.antt =====
-- The TCP echo server of main.cpp, and the command line of server_main.cpp. What sockets return, and
-- what std::atoi() makes of an argument, is an argument.
pub mod Laws
use nghttp2_corosio.Base.{
  ℕ, ◌+◌, ◌-◌, ◌%◌, ◌^◌, Bool, true, false, Option, none, some, List, [], ◌∷◌, ◌++◌, Bytes, length,
  ℤ, pos, negsuc,
}
use nghttp2_corosio.Capy.{ErrorCode}
use nghttp2_corosio.Logging.{LogLevel, default_level, parse_log_level}

-- One round of the loop: the read, and the write where there is one. A write returns how many bytes
-- it wrote.
pub record Round : Type 0 where
  pub read_error : Option ErrorCode
  pub bytes : Bytes
  pub write_error : Option ErrorCode
  pub written : ℕ

-- What the loop has written to the socket, and the total that it reports once it has ended.
pub record Echoing : Type 0 where
  pub writes : List Bytes
  pub total : Option ℕ

abbrev pub writing : Bytes → Echoing → Echoing
writing bytes e = record e { writes = bytes ∷ e.writes }

abbrev pub ends : ℕ → Echoing
ends total = record { writes = []; total = some total }

-- `echo_session`, with its variable total_bytes.
unfoldable pub echo_session : ℕ → List Round → Echoing
echo_session total [] = record { writes = []; total = none }
echo_session total (r ∷ rounds) =
    let next = echo_session (total + r.written) rounds in
    elim r.read_error [
      | some e ↦ ends total
      | none ↦ writing r.bytes (elim r.write_error [ some e ↦ ends total | none ↦ next ])
    ]

-- What one call of accept() in `accept_loop` leads to: the peer's session is started, or the error
-- is skipped. The loop does not end.
unfoldable pub accept_loop : List (Option ErrorCode × ℕ) → List ℕ
accept_loop [] = []
accept_loop ((none, peer) ∷ rest) = peer ∷ accept_loop rest
accept_loop ((some e, peer) ∷ rest) = accept_loop rest

-- `static_cast<std::uint16_t>` of an int.
unfoldable pub to_port : ℤ → ℕ
to_port (pos n) = n % 2 ^ 16
to_port (negsuc n) = (2 ^ 16 - 1) - n % 2 ^ 16

-- The configuration that server_main.cpp starts the server with; `none` is the exception of
-- parse_log_level(). The arguments are the number in the first, and the second.
pub record Options : Type 0 where
  pub port : ℕ
  pub level : LogLevel

abbrev pub default_port : ℕ
default_port = 8080

abbrev port_of : Option ℤ → ℕ
port_of none = default_port
port_of (some n) = to_port n

abbrev with_level : ℕ → Option LogLevel → Option Options
with_level port none = none
with_level port (some level) = some (record { port = port; level = level })

unfoldable pub options : Option ℤ → Option Bytes → Option Options
unfolding to_port
options number none = with_level (port_of number) (some default_level)
options number (some name) = with_level (port_of number) (parse_log_level name)

-- The calls of main() of main.cpp, and how it ends: it throws, or runs the loop and returns.
pub data SetupCall : Type 0 where
  open_acceptor reuse_address : SetupCall
  bind : ℕ → SetupCall
  listen start_accept_loop run : SetupCall

pub data Ending : Type 0 where
  threw : ErrorCode → Ending
  returned : ℕ → Ending

-- The arguments are the number on the command line and what bind() and listen() return.
unfoldable pub main : Option ℤ → Option ErrorCode → Option ErrorCode → List SetupCall × Ending
unfolding to_port
main number bound listened =
    let setup = open_acceptor ∷ reuse_address ∷ bind (port_of number) ∷ [] in
    elim bound [
      | some e ↦ (setup, threw e)
      | none ↦ elim listened [
        | some e ↦ (setup ++ listen ∷ [], threw e)
        | none ↦ (setup ++ listen ∷ start_accept_loop ∷ run ∷ [], returned 0)
      ]
    ]
