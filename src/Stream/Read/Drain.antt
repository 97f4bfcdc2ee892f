-- ===== src/Stream/Read/Drain.antt =====
-- The loop of read_some() (src/stream_impl.hpp) that empties the queue of chunks: what it takes, in
-- what order, how much, and with how many turns.
use nghttp2_corosio.Base.{
  ℕ, zero, suc, ◌+◌, ◌-◌, ◌≤◌, ◌<◌, ◌≡◌, refl, sym, ap, ◌∙◌, subst, ◌⊎◌, inl, inr, false, List, [],
  ◌∷◌, ◌++◌, append_assoc, append-nil, arith, Bytes, All, length, take, drop, concat, ◌==◌,
  Bool-cases, length-append, length-take, length-drop, take-append-drop, take_all, drop_all,
  drop-append, drop-drop, ==_iff,
}
use nghttp2_corosio.Capy.{BufferCopy}
use nghttp2_corosio.Stream.Read.{Draining, drain_front, drain, enough}

-- What the queue still holds, in order of arrival.
abbrev pub buffered : List Bytes → ℕ → Bytes
buffered chunks offset = drop offset (concat chunks)

-- No chunk is empty, and the front one is not used up.
abbrev pub IsFront : List Bytes → ℕ → Type 0
IsFront [] offset = offset ≡ 0
IsFront (chunk ∷ rest) offset = (offset < length chunk) × All (λ c. 0 < length c) rest

abbrev pub left : Draining → Bytes
left d = buffered d.chunks d.front_offset

pub record Drains (d d' : Draining) : Type 0 where
  pub in_order : d'.out ++ left d' ≡ d.out ++ left d
  pub in_room : d'.room + length d'.out ≡ d.room + length d.out
  pub front : IsFront d'.chunks d'.front_offset

module _ ⦃buffers : BufferCopy⦄ (chunk : Bytes) (rest : List Bytes) (d : Draining) where
  abbrev rest_of_front : Bytes
  rest_of_front = drop d.front_offset chunk

  abbrev moved : ℕ
  moved = buffers.copied d.room (length rest_of_front)

  front-buffered :
      d.front_offset ≤ length chunk
      → buffered (chunk ∷ rest) d.front_offset ≡ rest_of_front ++ concat rest
  front-buffered h = drop-append d.front_offset chunk (concat rest) h

  moved-le : moved ≤ length chunk - d.front_offset
  moved-le =
      omega (
        arith,
        buffers.copied-eq-min d.room (length rest_of_front),
        length-drop d.front_offset chunk,
      )

  -- Either the front chunk is used up, or a part of it is left.
  front-left :
      d.front_offset < length chunk
      → take moved rest_of_front ++ left (drain_front chunk rest d) ≡ rest_of_front ++ concat rest
  unfolding drain_front
  front-left h = elim (Bool-cases (d.front_offset + moved == length chunk)) [
    | inl done ↦ rw (
      done,
      take_all moved rest_of_front
          (omega (arith, (==_iff _ _).0 done, length-drop d.front_offset chunk)),
    )
    | inr more ↦ rw (
      more,
      drop-append (d.front_offset + moved) chunk (concat rest) (omega (arith, moved-le)),
      ← drop-drop moved d.front_offset chunk,
      ← append_assoc (take moved rest_of_front) (drop moved rest_of_front) (concat rest),
      take-append-drop moved rest_of_front,
    )
  ]

  drain_front-out : (drain_front chunk rest d).out ≡ d.out ++ take moved rest_of_front
  unfolding drain_front
  drain_front-out = refl

  drain_front-room :
      (drain_front chunk rest d).room + length (drain_front chunk rest d).out
      ≡ d.room + length d.out
  unfolding drain_front
  drain_front-room = omega (
    arith,
    length-append d.out (take moved rest_of_front),
    length-take moved rest_of_front,
    buffers.copied-eq-min d.room (length rest_of_front),
  )

  drain_front-IsFront :
      IsFront (chunk ∷ rest) d.front_offset
      → IsFront (drain_front chunk rest d).chunks (drain_front chunk rest d).front_offset
  unfolding drain_front
  drain_front-IsFront (h, hs) = elim (Bool-cases (d.front_offset + moved == length chunk)) [
    | inl done ↦ rw done (next rest hs)
    | inr more ↦ rw more (ground (arith, moved-le), hs)
  ]
    where
      next : (cs : List Bytes) → All (λ c. 0 < length c) cs → IsFront cs 0
      next [] a = refl
      next (c ∷ cs) a = a

  -- A step uses up a chunk or fills the caller's buffers.
  drain_front_ends :
      d.front_offset < length chunk
      → ((drain_front chunk rest d).room ≡ 0) ⊎ ((drain_front chunk rest d).chunks ≡ rest)
  unfolding drain_front
  drain_front_ends h =
      ground (
        arith,
        buffers.copied-eq-min d.room (length rest_of_front),
        length-drop d.front_offset chunk,
      )

  drain_front-Drains :
      d.chunks ≡ chunk ∷ rest
      → IsFront (chunk ∷ rest) d.front_offset
      → Drains d (drain_front chunk rest d)
  drain_front-Drains e h = record {
    in_order = order;
    in_room = drain_front-room;
    front = drain_front-IsFront h;
  }
    where
      order : (drain_front chunk rest d).out ++ left (drain_front chunk rest d) ≡ d.out ++ left d
      order =
          rw (drain_front-out, append_assoc)
            (ap (λ bytes. d.out ++ bytes) (front-left h.0 ∙ sym (front-buffered (omega arith)))
              ∙ ap (λ cs. d.out ++ buffered cs d.front_offset) (sym e))

Drains-refl : (d : Draining) → IsFront d.chunks d.front_offset → Drains d d
Drains-refl d h = record { in_order = refl; in_room = refl; front = h }

Drains-trans : (a b c : Draining) → Drains a b → Drains b c → Drains a c
Drains-trans a b c p q = record {
  in_order = q.in_order ∙ p.in_order;
  in_room = q.in_room ∙ p.in_room;
  front = q.front;
}

abbrev pub HasEnded : Draining → Type 0
HasEnded d = (d.room ≡ 0) ⊎ (d.chunks ≡ [])

take-length : (xs ys : Bytes) → take (length xs) (xs ++ ys) ≡ xs
take-length [] ys = refl
take-length (x ∷ xs) ys = ap (λ r. x ∷ r) (take-length xs ys)

List-cases {ℓ} :
    {A : Type ℓ} (xs : List A) → (xs ≡ []) ⊎ ((x : A) × (rest : List A) × (xs ≡ x ∷ rest))
List-cases [] = inl refl
List-cases (x ∷ xs) = inr (x, xs, refl)

module _ ⦃buffers : BufferCopy⦄ where
  drain_empty : (fuel : ℕ) (d : Draining) → d.chunks ≡ [] → drain fuel d ≡ d
  unfolding drain
  drain_empty zero d e = refl
  drain_empty (suc fuel) d e = ground arith

  drain_full : (fuel : ℕ) (d : Draining) → d.room ≡ 0 → drain fuel d ≡ d
  unfolding drain
  drain_full zero d e = refl
  drain_full (suc fuel) d e = ground arith

  drain_step :
      (fuel : ℕ) (d : Draining) (chunk : Bytes) (rest : List Bytes)
      → d.chunks ≡ chunk ∷ rest
      → (d.room == 0) ≡ false
      → drain (suc fuel) d ≡ drain fuel (drain_front chunk rest d)
  unfolding drain
  drain_step fuel d chunk rest e h = rw (e, drain, h)

  pub drain-Drains :
      (fuel : ℕ) (d : Draining) → IsFront d.chunks d.front_offset → Drains d (drain fuel d)
  unfolding drain
  drain-Drains zero d h = Drains-refl d h
  drain-Drains (suc fuel) d h = elim (Bool-cases (d.room == 0)) [
    | inl full ↦ rw (drain_full (suc fuel) d (ground arith)) (Drains-refl d h)
    | inr room ↦ elim (List-cases d.chunks) [
      | inl none_left ↦ rw (drain_empty (suc fuel) d none_left) (Drains-refl d h)
      | inr (chunk, rest, e) ↦
          let one =
            drain_front-Drains chunk rest d e (subst (λ cs. IsFront cs d.front_offset) e h) in
          rw (drain_step fuel d chunk rest e room) (
            Drains-trans d (drain_front chunk rest d) (drain fuel (drain_front chunk rest d)) one
              (drain-Drains fuel (drain_front chunk rest d) one.front))
    ]
  ]

  pub drain_ends :
      (fuel : ℕ) (d : Draining)
      → IsFront d.chunks d.front_offset
      → suc (length d.chunks) < fuel
      → HasEnded (drain fuel d)
  drain_ends zero d h lt = elim lt [ ]
  drain_ends (suc fuel) d h lt = elim (Bool-cases (d.room == 0)) [
    | inl full ↦ rw (drain_full (suc fuel) d (ground arith)) (inl (ground arith))
    | inr room ↦ elim (List-cases d.chunks) [
      | inl none_left ↦ rw (drain_empty (suc fuel) d none_left) (inr none_left)
      | inr (chunk, rest, e) ↦
          let front = subst (λ cs. IsFront cs d.front_offset) e h in
          rw (drain_step fuel d chunk rest e room) (elim (drain_front_ends chunk rest d front.0) [
            | inl full ↦ rw (drain_full fuel (drain_front chunk rest d) full) (inl full)
            | inr used ↦
                drain_ends fuel (drain_front chunk rest d)
                  (drain_front-Drains chunk rest d e front).front
                  (omega (arith, ap length used, ap length e))
          ])
    ]
  ]

  -- A call of read_some() takes what is queued, in order, as far as the caller's buffers go.
  pub drain_takes :
      (chunks : List Bytes) (offset room : ℕ)
      → IsFront chunks offset
      → (drain
          (enough chunks)
          (record { chunks = chunks; front_offset = offset; room = room; out = [] })).out
        ≡ take room (buffered chunks offset)
  drain_takes chunks offset room h =
      taken (drain (enough chunks) start) (drain-Drains (enough chunks) start h)
        (drain_ends (enough chunks) start h (omega arith))
    where
      start : Draining
      start = record { chunks = chunks; front_offset = offset; room = room; out = [] }

      taken : (d : Draining) → Drains start d → HasEnded d → d.out ≡ take room (left start)
      taken d drains (inl full) =
          let used : length d.out ≡ room = omega (arith, drains.in_room) in
          rw (← drains.in_order, ← used) (sym (take-length d.out (left d)))
      taken d drains (inr used) =
          let whole : d.out ≡ left start =
            sym (append-nil d.out)
            ∙ ap (λ bytes. d.out ++ bytes)
                (sym (drop_all d.front_offset [] (omega arith))
                  ∙ ap (λ cs. drop d.front_offset (concat cs)) (sym used))
            ∙ drains.in_order in
          whole ∙ sym (take_all room (left start) (omega (arith, drains.in_room, ap length whole)))
