-- ===== src/RecvLoop/Order.antt =====
-- What recv_loop() (src/session.cpp) asks of nghttp2 and of the send loop, for any answers.
use nghttp2_corosio.Base.{
  ◌≡◌, refl, ap, ◌⊎◌, inl, inr, Bool, true, false, List, [], ◌∷◌, ◌++◌, Bytes, ◌&&◌, if◌then◌else◌,
}
use nghttp2_corosio.RecvLoop.{
  Received, received, read_error, Round, no_error, protocol_error, Action, mem_recv,
  terminate_session, start_write, Receiving, recv_round, recv_loop,
}

-- The bytes fed to nghttp2.
abbrev pub fed : List Action → Bytes
fed [] = []
fed (mem_recv bytes ∷ rest) = bytes ++ fed rest
fed (terminate_session c ∷ rest) = fed rest
fed (start_write ∷ rest) = fed rest

-- Whether a round is followed by another, and what the connection delivers in it.
abbrev pub continues : Round → Bool
continues r = elim r.read [ read_error e ↦ false | received bytes ↦ r.wants && r.parsed ]

abbrev pub arrived : Round → Bytes
arrived r = elim r.wants [
  | false ↦ []
  | true ↦ elim r.read [ read_error e ↦ [] | received bytes ↦ bytes ]
]

-- The bytes that the connection delivers up to the first round that is not followed by another, and
-- whether there is such a round.
abbrev pub delivered : List Round → Bytes
delivered [] = []
delivered (r ∷ rounds) = arrived r ++ (if continues r then delivered rounds else [])

abbrev pub has_end : List Round → Bool
has_end [] = false
has_end (r ∷ rounds) = if continues r then has_end rounds else true

-- Whether nghttp2 was given something after the last start_write(), so that it may have output that
-- the send loop does not know of.
abbrev pub unsignalled : Bool → List Action → Bool
unsignalled b [] = b
unsignalled b (mem_recv bytes ∷ rest) = unsignalled true rest
unsignalled b (terminate_session c ∷ rest) = unsignalled true rest
unsignalled b (start_write ∷ rest) = unsignalled false rest

-- What the rounds of a loop come to.
pub record Inv (rounds : List Round) (x : Receiving) : Type 0 where
  pub in_order : fed x.actions ≡ delivered rounds
  pub signalled : unsignalled false x.actions ≡ false
  pub over : x.ended ≡ has_end rounds
  pub says_goodbye :
      (x.ended ≡ false)
      ⊎ ((before : List Action) × (x.actions
            ≡ before ++ terminate_session no_error ∷ start_write ∷ []))

recv_round-Inv :
    (wants : Bool) (read : Received) (parsed : Bool) (rounds : List Round) (rest : Receiving)
    → Inv rounds rest
    → let r : Round = record { wants = wants; read = read; parsed = parsed } in
      Inv (r ∷ rounds) (recv_round r rest)
unfolding recv_round
recv_round-Inv false (received bytes) parsed rounds rest v = record {
  in_order = refl;
  signalled = refl;
  over = refl;
  says_goodbye = inr ([], refl);
}
recv_round-Inv false (read_error e) parsed rounds rest v = record {
  in_order = refl;
  signalled = refl;
  over = refl;
  says_goodbye = inr ([], refl);
}
recv_round-Inv true (read_error e) parsed rounds rest v = record {
  in_order = refl;
  signalled = refl;
  over = refl;
  says_goodbye = inr ([], refl);
}
recv_round-Inv true (received bytes) false rounds rest v = record {
  in_order = refl;
  signalled = refl;
  over = refl;
  says_goodbye = inr (mem_recv bytes ∷ terminate_session protocol_error ∷ start_write ∷ [], refl);
}
recv_round-Inv true (received bytes) true rounds rest v = record {
  in_order = ap (λ tail. bytes ++ tail) v.in_order;
  signalled = v.signalled;
  over = v.over;
  says_goodbye = elim v.says_goodbye [
    | inl goes_on ↦ inl goes_on
    | inr (before, same) ↦ inr (
      mem_recv bytes ∷ start_write ∷ before,
      ap (λ tail. mem_recv bytes ∷ start_write ∷ tail) same,
    )
  ];
}

-- For any answers of nghttp2 and the connection: nghttp2 is fed what the connection delivers, in
-- order, up to the round in which nghttp2 wants nothing more, the connection fails or nghttp2 does;
-- the loop ends with that round and not before; since the last call that may have given nghttp2
-- something to send, start_write() was called; and a loop that has ended has last terminated the
-- nghttp2 session without an error code and then called start_write().
pub recv_loop_lem : (rounds : List Round) → Inv rounds (recv_loop rounds)
unfolding recv_loop
recv_loop_lem [] = record {
  in_order = refl;
  signalled = refl;
  over = refl;
  says_goodbye = inl refl;
}
recv_loop_lem (r ∷ rounds) =
    recv_round-Inv r.wants r.read r.parsed rounds (recv_loop rounds) (recv_loop_lem rounds)
