-- ===== src/Echo/Performance.antt =====
-- The calls of the echo handler (echo_handler.cpp) carried out on the Stream of its response
-- (src/stream_impl.hpp), while nghttp2 pulls.
use nghttp2_corosio.Base.{
  ℕ, ◌≡◌, refl, sym, ap, ◌∙◌, inr, Bool, true, false, Option, none, some, All, List, [], ◌∷◌, ◌++◌,
  append_assoc, append-nil, Bytes, take, take_all, arith, if◌then◌else◌,
}
use nghttp2_corosio.Capy.{AsyncEvent, BufferCopy, ErrorCode}
use nghttp2_corosio.Stream.Write as Writer
use nghttp2_corosio.Stream.Write.{resume_write_impl}
use nghttp2_corosio.Stream.Write.Progress.{Sending, started, finished, Inv, Step-Inv, resumes}
use nghttp2_corosio.Stream.Write.Delivery.{start, start-Inv, Inv-IsSent}
use nghttp2_corosio.Stream.Write.Whole.{
  Waits, Writes, Waits-Inv, Waits-IsSame, Writes-IsWritten, started-Inv, started-eof_requested,
}
use nghttp2_corosio.Echo.{
  Request, ReadAnswer, got, read_failed, Round, Answers, Call, submit, write, write_eof, waiting,
  returned, echo,
}
use nghttp2_corosio.Echo.Laws.{IsProtocol, echo-IsProtocol}
use nghttp2_corosio.Echo.Body.{Submits, body, ends, echoed, is_over, echo-Sends}

module _ {Event : Type 0} ⦃events : AsyncEvent Event⦄ ⦃buffers : BufferCopy⦄ where
  -- The calls so far have succeeded, one after the other, on the stream of the response.
  pub data Performs : Sending Event → List Call → Sending Event → Type 0 where
    performed : {x : Sending Event} → Performs x [] x
    submitting :
        {x z : Sending Event} {calls : List Call} (n : Option ℕ)
        → Performs x calls z
        → Performs x (submit n ∷ calls) z
    writing :
        {x y z : Sending Event} {bytes : Bytes} {calls : List Call}
        → Writes x bytes y
        → Performs y calls z
        → Performs x (write bytes ∷ calls) z
    ending :
        {x y z : Sending Event} {calls : List Call}
        → Waits (started x [] (Writer.write_eof [] x.stream)) y
        → y.suspended ≡ true
        → y.stream.closed ≡ false
        → events.is_set y.stream.write_progress ≡ true
        → Performs (finished y (resume_write_impl none y.stream)) calls z
        → Performs x (write_eof ∷ calls) z

  pub record IsPerformed (x : Sending Event) (bytes : Bytes) (z : Sending Event) : Type 0 where
    pub inv : Inv z
    pub idle : z.suspended ≡ false
    pub reported : z.reported ≡ x.reported ++ bytes

  -- What a write_eof() leaves.
  ended :
      (x y : Sending Event)
      → Inv x
      → x.suspended ≡ false
      → Waits (started x [] (Writer.write_eof [] x.stream)) y
      → y.suspended ≡ true
      → y.stream.closed ≡ false
      → events.is_set y.stream.write_progress ≡ true
      → IsPerformed x [] (finished y (resume_write_impl none y.stream)) × (y.end_sent ≡ true)
  unfolding Writer.write_eof resume_write_impl
  ended x y v idle w halted live set =
      let u = Waits-Inv w (started-Inv x [] true idle v) in
      let same = Waits-IsSame (started x [] (Writer.write_impl [] true x.stream)) w in
      let ends = started-eof_requested x [] true (sym same.suspended ∙ halted) in
      (
        record {
          inv = Step-Inv (resumes y none halted (inr set)) u;
          idle = refl;
          reported =
              ap (λ p. y.reported ++ take y.stream.write_offset p) same.given
              ∙ ap (λ l. y.reported ++ l) (take_all y.stream.write_offset [] (omega arith))
              ∙ ap (λ l. l ++ []) same.reported;
        },
        (Inv-IsSent y u halted (same.eof_requested ∙ ends) live set).1,
      )

  Performs-IsPerformed :
      {x z : Sending Event} {calls : List Call}
      → Performs x calls z
      → Inv x
      → x.suspended ≡ false
      → IsPerformed x (body calls) z
  Performs-IsPerformed (performed {x}) v idle = record {
    inv = v;
    idle = idle;
    reported = sym (append-nil x.reported);
  }
  Performs-IsPerformed (submitting n p) v idle = Performs-IsPerformed p v idle
  Performs-IsPerformed (writing {x} {y} {z} {bytes} {calls} w p) v idle =
      let u = Writes-IsWritten w v idle in
      let rest = Performs-IsPerformed p u.inv u.idle in
      record {
        inv = rest.inv;
        idle = rest.idle;
        reported =
            rest.reported
            ∙ ap (λ l. l ++ body calls) u.reported
            ∙ append_assoc x.reported bytes (body calls);
      }
  Performs-IsPerformed (ending {x} {y} {z} {calls} w halted live set p) v idle =
      let (u, _) = ended x y v idle w halted live set in
      let rest = Performs-IsPerformed p u.inv u.idle in
      record {
        inv = rest.inv;
        idle = rest.idle;
        reported = rest.reported ∙ ap (λ l. l ++ body calls) (u.reported ∙ append-nil x.reported);
      }

  Performs-nil : {x z : Sending Event} {calls : List Call} → Performs x calls z → calls ≡ [] → z ≡ x
  Performs-nil performed e = refl
  Performs-nil (submitting n p) e = absurd (cc)
  Performs-nil (writing w p) e = absurd (cc)
  Performs-nil (ending w halted live set p) e = absurd (cc)

  -- A response that has ended, by a write_eof() with nothing after it, has END_STREAM on a frame.
  Performs-end_sent :
      (n : Option ℕ) (submitted : Bool) {x z : Sending Event} {calls : List Call}
      → Performs x calls z
      → IsProtocol n submitted calls
      → ends calls ≡ 1
      → Inv x
      → x.suspended ≡ false
      → z.end_sent ≡ true
  Performs-end_sent n submitted performed h e v idle = absurd (omega (arith, e))
  Performs-end_sent n false (submitting m p) h e v idle = Performs-end_sent n true p h.1 e v idle
  Performs-end_sent n true (submitting m p) h e v idle = absurd h
  Performs-end_sent n false (writing w p) h e v idle = absurd h
  Performs-end_sent n true (writing w p) h e v idle =
      let u = Writes-IsWritten w v idle in Performs-end_sent n true p h e u.inv u.idle
  Performs-end_sent n false (ending w halted live set p) h e v idle = absurd h
  Performs-end_sent n true (ending {x} {y} w halted live set p) h e v idle =
      ap (λ (u : Sending Event). u.end_sent) (Performs-nil p h)
      ∙ (ended x y v idle w halted live set).1

-- The bytes of a request that are read up to the first read that fails, and whether there is one.
abbrev pub requested : List Round → Bytes
requested [] = []
requested (r ∷ rounds) = elim r.read [ read_failed e ↦ [] | got bytes ↦ bytes ++ requested rounds ]

abbrev pub is_read : List Round → Bool
is_read [] = false
is_read (r ∷ rounds) = elim r.read [ read_failed e ↦ true | got bytes ↦ is_read rounds ]

abbrev pub AreWritten : List Round → Type 0
AreWritten rounds = All (λ (r : Round). r.write_error ≡ none) rounds

echoed-requested :
    (rounds : List Round)
    → AreWritten rounds
    → (echoed rounds ≡ requested rounds) × (is_over rounds ≡ is_read rounds)
echoed-requested [] h = (refl, refl)
echoed-requested (r ∷ rounds) h = go r.read r.write_error h.0 (echoed-requested rounds h.1)
  where
    go :
        (read : ReadAnswer) (we : Option ErrorCode)
        → we ≡ none
        → (echoed rounds ≡ requested rounds) × (is_over rounds ≡ is_read rounds)
        → let s : Round = record { read = read; submit_error = r.submit_error; write_error = we } in
          (echoed (s ∷ rounds) ≡ requested (s ∷ rounds))
          × (is_over (s ∷ rounds) ≡ is_read (s ∷ rounds))
    go (read_failed e) we w rest = (refl, refl)
    go (got bytes) none w rest = (ap (λ l. bytes ++ l) rest.0, rest.1)
    go (got bytes) (some e) w rest = absurd (cc)

module _ {Event : Type 0} ⦃events : AsyncEvent Event⦄ ⦃buffers : BufferCopy⦄ where
  -- When every submit() and every write() of the handler succeeds and a read of its request has
  -- failed, and the handler's calls are carried out one after the other on the new Stream of its
  -- response, each write() and the write_eof() with success: then nghttp2 has pulled out of that Stream
  -- exactly the bytes that the handler read of its request, in order, with END_STREAM on a frame, and
  -- the handler has returned what write_eof() returned.
  pub echo-pulled :
      (id : ℕ) (tag : Bytes) (request : Request) (a : Answers) {z : Sending Event}
      → Submits a
      → AreWritten a.rounds
      → is_read a.rounds ≡ true
      → Performs (start id tag) (echo request a).calls z
      → (z.body ≡ requested a.rounds)
        × (z.end_sent ≡ true)
        × ((echo request a).outcome ≡ returned a.eof_error)
  unfolding start
  echo-pulled id tag request a {z} submits written over p =
      let sends = echo-Sends request a submits in
      let over' : is_over a.rounds ≡ true = (echoed-requested a.rounds written).1 ∙ over in
      let v = start-Inv id tag in
      let done = Performs-IsPerformed p v refl in
      let ended : ends (echo request a).calls ≡ 1 =
        sends.one_end ∙ ap (λ b. if b then 1 else 0) over' in
      (
        done.inv.accounted
            ∙ ap (λ b. z.reported ++ (if b then take z.stream.write_offset z.given else []))
                done.idle
            ∙ append-nil z.reported
            ∙ done.reported
            ∙ sends.same_body
            ∙ (echoed-requested a.rounds written).0,
        Performs-end_sent request.content_length false p (echo-IsProtocol request a) ended v refl,
        sends.result ∙ ap (λ b. if b then returned a.eof_error else waiting) over',
      )
