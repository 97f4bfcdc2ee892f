-- ===== src/SendLoop/Order.antt =====
-- What send_loop() (src/session.cpp) does with nghttp2's output, for any answers of its surroundings.
use nghttp2_corosio.Base.{
  ℕ, ◌+◌, ◌-◌, ◌≤◌, ◌<◌, ◌≡◌, refl, sym, ap, ◌∙◌, ◌⊎◌, ◌≢◌, inl, inr, false, ◌&&◌, not, List, [],
  ◌∷◌, ◌++◌, append_assoc, append-nil, arith, Bytes, All, All-append, length, length-append, ltb,
  leb, Bool-cases,
}
use nghttp2_corosio.SendLoop.Writes.{sent, lost, pieces}
use nghttp2_corosio.SendLoop.{
  Chunk, chunk, send_error, Round, Phase, running, waited, finished, failed, Write, Sender,
  send_chunk, send_round, send_loop, start,
}

abbrev pub chunk_of : Chunk → Bytes
chunk_of (chunk bytes) = bytes
chunk_of send_error = []

-- The bytes that the loop pulled out of nghttp2 in those of the rounds that it got to.
abbrev pub pulled : ℕ → List Round → Sender → Bytes
pulled capacity [] s = []
pulled capacity (r ∷ rounds) s = elim s.phase [
  | running ↦ chunk_of r.mem_send ++ pulled capacity rounds (send_round capacity r s)
  | waited ↦ chunk_of r.mem_send ++ pulled capacity rounds (send_round capacity r s)
  | finished ↦ []
  | failed ↦ []
]

-- A write that was not forced by nghttp2 having no more fills more than the accumulator.
abbrev pub IsWorthwhile : ℕ → Write → Type 0
IsWorthwhile capacity w = (w.fresh ≡ []) ⊎ (capacity < length w.collected + length w.fresh)

pub record Inv (capacity : ℕ) (s : Sender) : Type 0 where
  pub fits : length s.pending ≤ capacity
  pub flushed : (s.phase ≡ waited) ⊎ (s.phase ≡ finished) → s.pending ≡ []
  pub coalesced : All (IsWorthwhile capacity) s.writes
  pub unbroken : (s.phase ≡ failed) ⊎ (lost s.writes ≡ [])

-- All that the loop has pulled out of nghttp2.
abbrev held : Sender → Bytes
held s = (sent s.writes ++ lost s.writes) ++ s.pending

nil_of_length : (bytes : Bytes) → length bytes ≡ 0 → bytes ≡ []
nil_of_length [] h = refl
nil_of_length (b ∷ bs) h = absurd (omega arith)

send_chunk-order :
    (capacity : ℕ) (bytes : Bytes) (r : Round) (s : Sender)
    → lost s.writes ≡ []
    → held (send_chunk capacity bytes r s) ≡ held s ++ bytes
unfolding send_chunk
send_chunk-order capacity bytes r s h = ground (
  arith,
  append_assoc (sent s.writes ++ lost s.writes) s.pending bytes,
  append_assoc (sent s.writes) s.pending bytes,
  append-nil (sent s.writes),
  (pieces s.writes (record { collected = s.pending; fresh = bytes; error = r.write_error }) h).0,
  append-nil (sent s.writes ++ (s.pending ++ bytes)),
  nil_of_length bytes,
  append-nil (held s),
)

send_chunk-Inv :
    (capacity : ℕ) (bytes : Bytes) (r : Round) (s : Sender)
    → lost s.writes ≡ []
    → Inv capacity s
    → Inv capacity (send_chunk capacity bytes r s)
unfolding send_chunk
send_chunk-Inv capacity bytes r s h v =
    elim (Bool-cases (ltb 0 (length bytes) && leb (length bytes) (capacity - length s.pending))) [
      | inl small ↦ rw small (record {
        fits = ground (arith, length-append s.pending bytes);
        flushed = λ e. absurd (ground arith);
        coalesced = v.coalesced;
        unbroken = inr h;
      })
      | inr large ↦ rw large (elim (Bool-cases (ltb 0 (length s.pending + length bytes))) [
        | inl some_bytes ↦ rw some_bytes (record {
          fits = omega arith;
          flushed = λ _. refl;
          coalesced =
              All-append (IsWorthwhile capacity) s.writes _ v.coalesced
                (worthwhile s.pending bytes large v.fits, tt);
          unbroken =
              (pieces s.writes
                (record { collected = s.pending; fresh = bytes; error = r.write_error }) h).1;
        })
        | inr no_bytes ↦
            let empty = nil_of_length s.pending (ground arith) in
            rw no_bytes (elim (Bool-cases (not r.wants)) [
              | inl e ↦ rw e (record {
                fits = v.fits;
                flushed = λ _. empty;
                coalesced = v.coalesced;
                unbroken = inr h;
              })
              | inr e ↦ rw e (record {
                fits = v.fits;
                flushed = λ _. empty;
                coalesced = v.coalesced;
                unbroken = inr h;
              })
            ])
      ])
    ]
  where
    worthwhile :
        (old new : Bytes)
        → (ltb 0 (length new) && leb (length new) (capacity - length old)) ≡ false
        → length old ≤ capacity
        → IsWorthwhile capacity (record { collected = old; fresh = new; error = r.write_error })
    worthwhile old [] h le = inl refl
    worthwhile old (b ∷ bs) h le = inr (ground arith)

send_round-Inv :
    (capacity : ℕ) (r : Round) (s : Sender)
    → lost s.writes ≡ []
    → Inv capacity s
    → Inv capacity (send_round capacity r s)
unfolding send_round
send_round-Inv capacity r s h v = go r.mem_send
  where
    go :
        (c : Chunk)
        → Inv capacity (elim c [
          | chunk bytes ↦ send_chunk capacity bytes r s
          | send_error ↦ record s { phase = failed }
        ])
    go (chunk bytes) = send_chunk-Inv capacity bytes r s h v
    go send_error = record {
      fits = v.fits;
      flushed = λ e. absurd (ground arith);
      coalesced = v.coalesced;
      unbroken = inl refl;
    }

send_round-order :
    (capacity : ℕ) (r : Round) (s : Sender)
    → lost s.writes ≡ []
    → held (send_round capacity r s) ≡ held s ++ chunk_of r.mem_send
unfolding send_round
send_round-order capacity r s h = go r.mem_send
  where
    go :
        (c : Chunk)
        → held (elim c as (λ _. Sender) [
          | chunk bytes ↦ send_chunk capacity bytes r s
          | send_error ↦ record s { phase = failed }
        ])
          ≡ held s ++ chunk_of c
    go (chunk bytes) = send_chunk-order capacity bytes r s h
    go send_error = sym (append-nil _)

-- While the loop goes on no write has failed.
nothing_lost :
    {capacity : ℕ} {s : Sender} (p : Phase)
    → s.phase ≡ p
    → p ≢ failed
    → Inv capacity s
    → lost s.writes ≡ []
nothing_lost p e h v = elim v.unbroken [
  | inl f ↦ absurd (h (sym e ∙ f))
  | inr none_lost ↦ none_lost
]

-- Whether the loop makes another round.
Phase-cases : (p : Phase) → ((p ≡ running) ⊎ (p ≡ waited)) ⊎ ((p ≡ finished) ⊎ (p ≡ failed))
Phase-cases running = inl (inl refl)
Phase-cases waited = inl (inr refl)
Phase-cases finished = inr (inl refl)
Phase-cases failed = inr (inr refl)

send_loop-Inv :
    (capacity : ℕ) (rounds : List Round) (s : Sender)
    → Inv capacity s
    → Inv capacity (send_loop capacity rounds s)
      × (held (send_loop capacity rounds s) ≡ held s ++ pulled capacity rounds s)
unfolding send_loop
send_loop-Inv capacity [] s v = (v, sym (append-nil _))
send_loop-Inv capacity (r ∷ rounds) s v =
    let next = goes_on (λ w. send_loop-Inv capacity rounds (send_round capacity r s) w) in
    elim (Phase-cases s.phase) [
      | inl (inl e) ↦ rw (e, send_loop) (next (nothing_lost running e (λ f. cc) v))
      | inl (inr e) ↦ rw (e, send_loop) (next (nothing_lost waited e (λ f. cc) v))
      | inr (inl e) ↦ rw (e, send_loop) (v, sym (append-nil _))
      | inr (inr e) ↦ rw (e, send_loop) (v, sym (append-nil _))
    ]
  where
    goes_on :
        (let t = send_round capacity r s in
          Inv capacity t
          → Inv capacity (send_loop capacity rounds t)
            × (held (send_loop capacity rounds t) ≡ held t ++ pulled capacity rounds t))
        → lost s.writes ≡ []
        → let t = send_round capacity r s in
          Inv capacity (send_loop capacity rounds t)
          × (held (send_loop capacity rounds t)
              ≡ held s ++ (chunk_of r.mem_send ++ pulled capacity rounds t))
    goes_on loops h =
        let t = send_round capacity r s in
        let (w, order) = loops (send_round-Inv capacity r s h v) in
        (
          w,
          order
              ∙ ap (λ bytes. bytes ++ pulled capacity rounds t) (send_round-order capacity r s h)
              ∙ append_assoc (held s) (chunk_of r.mem_send) _,
        )

start-Inv : (capacity : ℕ) → Inv capacity start
unfolding start
start-Inv capacity = record {
  fits = omega arith;
  flushed = λ _. refl;
  coalesced = tt;
  unbroken = inr refl;
}

-- For any answers of nghttp2, the connection and the event, after any number of rounds: the bytes of
-- the writes to the connection that succeeded, then those of a write that failed, then those in the
-- accumulator, are the bytes pulled out of nghttp2, in order; no write has failed unless the loop has
-- ended with a failure; the accumulator is within its capacity; and no write is made before the accumulator would
-- overflow unless nghttp2 has no more to give.
pub send_loop_lem :
    (capacity : ℕ) (rounds : List Round)
    → let s = send_loop capacity rounds start in
      ((sent s.writes ++ lost s.writes) ++ s.pending ≡ pulled capacity rounds start)
      × ((s.phase ≡ failed) ⊎ (lost s.writes ≡ []))
      × (length s.pending ≤ capacity)
      × All (IsWorthwhile capacity) s.writes
unfolding start
send_loop_lem capacity rounds =
    let (v, order) = send_loop-Inv capacity rounds start (start-Inv capacity) in
    (order, v.unbroken, v.fits, v.coalesced)

-- When the loop has come back from a wait, or has ended because nghttp2 wants no more, every byte
-- pulled out of nghttp2 was written to the connection, by writes that succeeded.
pub send_loop_flushed :
    (capacity : ℕ) (rounds : List Round)
    → ((send_loop capacity rounds start).phase ≡ waited)
      ⊎ ((send_loop capacity rounds start).phase ≡ finished)
    → sent (send_loop capacity rounds start).writes ≡ pulled capacity rounds start
send_loop_flushed capacity rounds h =
    let s = send_loop capacity rounds start in
    let v = (send_loop-Inv capacity rounds start (start-Inv capacity)).0 in
    let none_lost : lost s.writes ≡ [] = elim h [
      | inl e ↦ nothing_lost waited e (λ f. cc) v
      | inr e ↦ nothing_lost finished e (λ f. cc) v
    ] in
    sym (
      ap (λ l. (sent s.writes ++ l) ++ s.pending) none_lost
      ∙ ap (λ l. (sent s.writes ++ []) ++ l) (v.flushed h)
      ∙ append-nil _
      ∙ append-nil _)
    ∙ (send_loop_lem capacity rounds).0
