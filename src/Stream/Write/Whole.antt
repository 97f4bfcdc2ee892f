-- ===== src/Stream/Write/Whole.antt =====
-- write() and write_eof(buffers) of Response and ClientRequest (include/nghttp2-corosio/session.hpp) on a
-- Stream's write side (src/stream_impl.hpp). capy's write() is an algorithm of the library below: its
-- documentation says that it calls write_some() on what is left of the buffers until nothing is.
use nghttp2_corosio.Base.{
  ℕ, zero, suc, Bool, inr, ◌≤◌, ◌≡◌, refl, sym, ap, ◌∙◌, true, false, none, [], ◌∷◌, ◌++◌,
  append_assoc, append-nil, arith, Bytes, length, take, drop, if◌then◌else◌,
}
use nghttp2_corosio.Capy.{AsyncEvent, BufferCopy}
use nghttp2_corosio.Stream.{on_close}
use nghttp2_corosio.Stream.Write.{
  written, write_some, write_eof, resume_write_impl, producer_callback, write_impl,
}
use nghttp2_corosio.Stream.Write.Progress.{
  Sending, started, pulled, finished, Inv, Step-Inv, writes, pulls, closes, resumes, Reach,
  Reach-Inv,
}
use nghttp2_corosio.Stream.Write.Delivery.{start, start-Inv, Inv-IsSent}

split_at :
    (n : ℕ) (part rest : Bytes)
    → n ≤ length part
    → take n part ++ drop n (part ++ rest) ≡ part ++ rest
split_at zero part rest h = refl
split_at (suc n) [] rest h = absurd (omega (arith, h))
split_at (suc n) (p ∷ part) rest h = ap (λ l. p ∷ l) (split_at n part rest (omega (arith, h)))

module _ {Event : Type 0} ⦃events : AsyncEvent Event⦄ ⦃buffers : BufferCopy⦄ where
  -- What nghttp2 does while a write waits: it pulls, and it may close the stream.
  pub data Waits (x : Sending Event) : Sending Event → Type 0 where
    waits : Waits x x
    pulling :
        {y : Sending Event} (size : ℕ)
        → Waits x y
        → y.provider_deferred ≡ false
        → Waits x (pulled y (producer_callback size y.stream))
    closing : {y : Sending Event} → Waits x y → Waits x (record y { stream = on_close y.stream })

  -- A write() that succeeds: each write_some() takes some of the buffers that are left, is woken without
  -- an error, and what it reports is taken off.
  pub data Writes : Sending Event → Bytes → Sending Event → Type 0 where
    all_written : {x : Sending Event} → Writes x [] x
    more :
        {x y z : Sending Event} {bytes : Bytes} (part rest : Bytes)
        → part ++ rest ≡ bytes
        → x.suspended ≡ false
        → Waits (started x part (write_some part x.stream)) y
        → y.suspended ≡ true
        → events.is_set y.stream.write_progress ≡ true
        → Writes (finished y (resume_write_impl none y.stream)) (drop y.stream.write_offset bytes) z
        → Writes x bytes z

  pub Waits-Inv : {x y : Sending Event} → Waits x y → Inv x → Inv y
  Waits-Inv waits v = v
  Waits-Inv (pulling {y} size w active) v = Step-Inv (pulls y size active) (Waits-Inv w v)
  Waits-Inv (closing {y} w) v = Step-Inv (closes y) (Waits-Inv w v)

  -- Meanwhile the buffers and what was reported before stay.
  pub record IsSame (x y : Sending Event) : Type 0 where
    pub given : y.given ≡ x.given
    pub reported : y.reported ≡ x.reported
    pub suspended : y.suspended ≡ x.suspended
    pub eof_requested : y.stream.write_eof_requested ≡ x.stream.write_eof_requested

  pulled-IsSame :
      (x : Sending Event) (size : ℕ) → IsSame x (pulled x (producer_callback size x.stream))
  unfolding producer_callback
  pulled-IsSame x size = ground arith

  closed-IsSame : (x : Sending Event) → IsSame x (record x { stream = on_close x.stream })
  unfolding on_close
  closed-IsSame x = record { given = refl; reported = refl; suspended = refl; eof_requested = refl }

  IsSame-trans : (x y z : Sending Event) → IsSame x y → IsSame y z → IsSame x z
  IsSame-trans x y z v w = record {
    given = w.given ∙ v.given;
    reported = w.reported ∙ v.reported;
    suspended = w.suspended ∙ v.suspended;
    eof_requested = w.eof_requested ∙ v.eof_requested;
  }

  pub Waits-IsSame : (x : Sending Event) {y : Sending Event} → Waits x y → IsSame x y
  Waits-IsSame x waits = record {
    given = refl;
    reported = refl;
    suspended = refl;
    eof_requested = refl;
  }
  Waits-IsSame x (pulling {y} size w active) =
      IsSame-trans x y _ (Waits-IsSame x w) (pulled-IsSame y size)
  Waits-IsSame x (closing {y} w) = IsSame-trans x y _ (Waits-IsSame x w) (closed-IsSame y)

  pub started-Inv :
      (x : Sending Event) (bytes : Bytes) (end : Bool)
      → x.suspended ≡ false
      → Inv x
      → Inv (started x bytes (write_impl bytes end x.stream))
  started-Inv x bytes end idle v = Step-Inv (writes x bytes end idle) v

  -- A write that waits was asked to end the body or not.
  pub started-eof_requested :
      (x : Sending Event) (bytes : Bytes) (end : Bool)
      → (started x bytes (write_impl bytes end x.stream)).suspended ≡ true
      → (started x bytes (write_impl bytes end x.stream)).stream.write_eof_requested ≡ end
  unfolding write_impl
  started-eof_requested x bytes end waiting = ground arith

  -- One write_some() of the loop reports the first bytes of its buffers.
  one_write :
      (x y : Sending Event) (part rest : Bytes)
      → Inv x
      → x.suspended ≡ false
      → Waits (started x part (write_some part x.stream)) y
      → y.suspended ≡ true
      → events.is_set y.stream.write_progress ≡ true
      → Inv (finished y (resume_write_impl none y.stream))
        × ((finished y (resume_write_impl none y.stream)).reported
              ++ drop y.stream.write_offset (part ++ rest)
            ≡ x.reported ++ (part ++ rest))
  unfolding write_some resume_write_impl
  one_write x y part rest v idle w waiting set =
      let n = y.stream.write_offset in
      let begun = started x part (write_impl part false x.stream) in
      let u = Waits-Inv w (started-Inv x part false idle v) in
      let same = Waits-IsSame begun w in
      (
        Step-Inv (resumes y none waiting (inr set)) u,
        append_assoc y.reported (take n y.given) (drop n (part ++ rest))
            ∙ ap (λ p. y.reported ++ (take n p ++ drop n (part ++ rest))) same.given
            ∙ ap (λ l. y.reported ++ l)
                (split_at n part rest
                  (ground (arith, u.within, ap length (u.published waiting ∙ same.given))))
            ∙ ap (λ l. l ++ (part ++ rest)) same.reported,
      )

  -- What a write() that has succeeded leaves.
  pub record IsWritten (x : Sending Event) (bytes : Bytes) (z : Sending Event) : Type 0 where
    pub inv : Inv z
    pub idle : z.suspended ≡ false
    pub reported : z.reported ≡ x.reported ++ bytes

  pub Writes-IsWritten :
      {x z : Sending Event} {bytes : Bytes}
      → Writes x bytes z
      → Inv x
      → x.suspended ≡ false
      → IsWritten x bytes z
  unfolding resume_write_impl
  Writes-IsWritten (all_written {x}) v idle = record {
    inv = v;
    idle = idle;
    reported = sym (append-nil x.reported);
  }
  Writes-IsWritten (more {x} {y} {z} {bytes} part rest e idle w waiting set ws) v _ =
      let (u, first) = one_write x y part rest v idle w waiting set in
      let rest_of = Writes-IsWritten ws u refl in
      record {
        inv = rest_of.inv;
        idle = rest_of.idle;
        reported =
            rest_of.reported
            ∙ ap
                (λ b.
                  (finished y (resume_write_impl none y.stream)).reported
                  ++ drop y.stream.write_offset b)
                (sym e)
            ∙ first
            ∙ ap (λ b. x.reported ++ b) e;
      }

  -- In any history of a new stream with one write at a time, up to a moment when no write waits: if then
  -- write_eof(buffers) is called, its write() succeeds, and its last call, an empty write_eof(), is woken
  -- and not cancelled while the stream is open, then what nghttp2 has pulled is what it had pulled
  -- before, and then all of the buffers in order; END_STREAM is on a frame; and the last call reports
  -- success.
  pub write_eof_lem :
      (id : ℕ) (tag bytes : Bytes) {x z w : Sending Event}
      → Reach (start id tag) x
      → x.suspended ≡ false
      → Writes x bytes z
      → Waits (started z [] (write_eof [] z.stream)) w
      → w.suspended ≡ true
      → w.stream.closed ≡ false
      → events.is_set w.stream.write_progress ≡ true
      → (w.body ≡ x.body ++ bytes)
        × (w.end_sent ≡ true)
        × ((resume_write_impl none w.stream).1 ≡ written none 0)
  unfolding write_eof
  write_eof_lem id tag bytes {x} {z} {w} r idle ws e waiting live set =
      let v = Reach-Inv (start-Inv id tag) r in
      let u = Writes-IsWritten ws v idle in
      let begun = started z [] (write_impl [] true z.stream) in
      let same = Waits-IsSame begun e in
      let ends = started-eof_requested z [] true (sym same.suspended ∙ waiting) in
      let sent =
        Inv-IsSent w (Waits-Inv e (started-Inv z [] true u.idle u.inv)) waiting
          (same.eof_requested ∙ ends) live set in
      let before : x.body ≡ x.reported =
        v.accounted
        ∙ ap (λ b. x.reported ++ (if b then take x.stream.write_offset x.given else [])) idle
        ∙ append-nil x.reported in
      (
        sent.2
            ∙ ap (λ l. w.reported ++ l) same.given
            ∙ append-nil w.reported
            ∙ same.reported
            ∙ u.reported
            ∙ ap (λ l. l ++ bytes) (sym before),
        sent.1,
        sent.0 ∙ ap (λ l. written none (length l)) same.given,
      )
