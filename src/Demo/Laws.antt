-- ===== src/Demo/Laws.antt =====
-- The echo of main.cpp, and the port of server_main.cpp.
use nghttp2_corosio.Base.{
  ℕ, ◌+◌, ◌%◌, ◌^◌, ◌<◌, ◌≡◌, refl, ap, ◌∙◌, Option, none, some, List, [], ◌∷◌, arith, Bytes, pos,
  negsuc,
}
use nghttp2_corosio.Capy.{ErrorCode}
use nghttp2_corosio.Demo.{Round, Echoing, echo_session, to_port}

-- The reads up to the first error of the session, and the bytes written without one.
abbrev pub echoed : List Round → List Bytes
echoed [] = []
echoed (r ∷ rounds) = elim r.read_error [
  | some e ↦ []
  | none ↦ r.bytes ∷ (elim r.write_error [ some e ↦ [] | none ↦ echoed rounds ])
]

abbrev pub counted : List Round → ℕ
counted [] = 0
counted (r ∷ rounds) = elim r.read_error [
  | some e ↦ 0
  | none ↦ elim r.write_error [ some e ↦ 0 | none ↦ r.written + counted rounds ]
]

abbrev pub is_over : List Round → Option (Unit {0})
is_over [] = none
is_over (r ∷ rounds) = elim r.read_error [
  | some e ↦ some tt
  | none ↦ elim r.write_error [ some e ↦ some tt | none ↦ is_over rounds ]
]

abbrev pub total_if : Option (Unit {0}) → ℕ → Option ℕ
total_if none n = none
total_if (some tt) n = some n

pub record Echoes (total : ℕ) (rounds : List Round) (e : Echoing) : Type 0 where
  pub same_bytes : e.writes ≡ echoed rounds
  pub reported : e.total ≡ total_if (is_over rounds) (total + counted rounds)

echo_round :
    (read_error write_error : Option ErrorCode) (bytes : Bytes) (written total : ℕ)
    (rounds : List Round)
    → Echoes (total + written) rounds (echo_session (total + written) rounds)
    → let r : Round = record {
      read_error = read_error;
      bytes = bytes;
      write_error = write_error;
      written = written;
    } in
      Echoes total (r ∷ rounds) (echo_session total (r ∷ rounds))
unfolding echo_session
echo_round (some e) we bytes written total rounds v = record {
  same_bytes = refl;
  reported = ap some (omega arith);
}
echo_round none (some e) bytes written total rounds v = record {
  same_bytes = refl;
  reported = ap some (omega arith);
}
echo_round none none bytes written total rounds v = record {
  same_bytes = ap (λ rest. bytes ∷ rest) v.same_bytes;
  reported = v.reported ∙ ap (total_if (is_over rounds)) (omega arith);
}

-- For any answers of the socket: what is written is what was read, in order, up to the first error,
-- and the total reported at the end is what the writes without an error wrote.
pub echo_session-Echoes :
    (total : ℕ) (rounds : List Round) → Echoes total rounds (echo_session total rounds)
unfolding echo_session
echo_session-Echoes total [] = record { same_bytes = refl; reported = refl }
echo_session-Echoes total (r ∷ rounds) =
    echo_round r.read_error r.write_error r.bytes r.written total rounds
      (echo_session-Echoes (total + r.written) rounds)

-- The port that a number on the command line selects: it fits in 16 bits, and is the number itself if
-- that does; of a negative number it is the one that is congruent to it modulo 2^16.
pub to_port_lem :
    (n k : ℕ)
    → k < 2 ^ 16
    → (to_port (pos n) < 2 ^ 16)
      × (to_port (negsuc n) < 2 ^ 16)
      × (to_port (pos k) ≡ k)
      × ((to_port (negsuc n) + n + 1) % 2 ^ 16 ≡ 0)
unfolding to_port
to_port_lem n k h = (omega arith, omega arith, omega arith, omega arith)
