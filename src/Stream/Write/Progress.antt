-- ===== src/Stream/Write/Progress.antt =====
-- The write side of a stream over every interleaving of the writer's calls and wake-ups with
-- nghttp2's (src/stream_impl.hpp, src/stream.cpp): the bytes that nghttp2 has pulled, those that
-- writes have reported, and whether the data provider is deferred.
use nghttp2_corosio.Base.{
  ℕ, zero, suc, ◌+◌, ◌≤◌, ◌≡◌, sym, ap, ◌∙◌, ◌⊎◌, ◌≢◌, Bool, true, false, not, ◌||◌, Option, none,
  List, [], ◌∷◌, ◌++◌, append_assoc, append-nil, arith, Bytes, length, take, drop, length-drop,
  drop-drop, take_all, if◌then◌else◌,
}
use nghttp2_corosio.Capy.{AsyncEvent, BufferCopy, ErrorCode}
use nghttp2_corosio.Stream.{Stream, Effect, consume_stream, resume_data, start_write, on_close}
use nghttp2_corosio.Stream.Write.{
  WriteOutcome, written, waiting, Produced, deferred, produced, write_impl, resume_write_impl,
  producer_callback,
}

-- A stream with its history. `suspended` says that a write waits, `provider_deferred` that nghttp2
-- was told to defer and not yet to resume; `given` is the bytes that the last write was called with,
-- `body` all that nghttp2 pulled, and `reported` what the finished writes reported as sent, each the
-- first bytes that it was called with; `pulls` and `end_sent` are of the last write.
pub record Sending (Event : Type 0) : Type 0 where
  pub stream : Stream Event
  pub suspended : Bool
  pub provider_deferred : Bool
  pub given : Bytes
  pub body : Bytes
  pub reported : Bytes
  pub pulls : ℕ
  pub end_sent : Bool

abbrev pub still_deferred : List Effect → Bool → Bool
still_deferred [] b = b
still_deferred (consume_stream id n ∷ fx) b = still_deferred fx b
still_deferred (resume_data id ∷ fx) b = still_deferred fx false
still_deferred (start_write ∷ fx) b = still_deferred fx b

abbrev pub is_waiting : WriteOutcome → Bool
is_waiting (written ec n) = false
is_waiting waiting = true

abbrev pub sent : WriteOutcome → ℕ
sent (written ec n) = n
sent waiting = 0

pub take-take-drop : (m n : ℕ) (xs : Bytes) → take m xs ++ take n (drop m xs) ≡ take (m + n) xs
take-take-drop zero n xs = ap (λ k. take k xs) (omega arith)
take-take-drop (suc m) n [] =
    take_all n [] (omega arith) ∙ sym (take_all (suc m + n) [] (omega arith))
take-take-drop (suc m) n (x ∷ xs) =
    ap (λ r. x ∷ r) (take-take-drop m n xs)
    ∙ ap (λ k. take k (x ∷ xs)) {x = suc (m + n)} {y = suc m + n} (omega arith)

module _ {Event : Type 0} where
  abbrev pub started :
      Sending Event → Bytes → Stream Event × WriteOutcome × List Effect → Sending Event
  started x bytes r = record x {
    stream = r.0;
    suspended = is_waiting r.1;
    given = bytes;
    provider_deferred = still_deferred r.2 x.provider_deferred;
    pulls = 0;
    end_sent = false;
  }

  abbrev pub record_frame : Produced → Sending Event → Sending Event
  record_frame deferred x = record x { provider_deferred = true }
  record_frame (produced bytes end) x = record x {
    body = x.body ++ bytes;
    pulls = x.pulls + 1;
    end_sent = x.end_sent || end;
  }

  abbrev pub pulled : Sending Event → Stream Event × Produced → Sending Event
  pulled x r = record_frame r.1 (record x { stream = r.0 })

  abbrev pub finished : Sending Event → Stream Event × WriteOutcome → Sending Event
  finished x r = record x {
    stream = r.0;
    suspended = false;
    reported = x.reported ++ take (sent r.1) x.given;
  }

module _ {Event : Type 0} ⦃events : AsyncEvent Event⦄ ⦃buffers : BufferCopy⦄ where
  -- One write at a time; nghttp2 does not pull from a provider that it was told to defer.
  pub data Step : Sending Event → Sending Event → Type 0 where
    writes :
        (x : Sending Event) (bytes : Bytes) (end : Bool)
        → x.suspended ≡ false
        → Step x (started x bytes (write_impl bytes end x.stream))
    pulls :
        (x : Sending Event) (size : ℕ)
        → x.provider_deferred ≡ false
        → Step x (pulled x (producer_callback size x.stream))
    closes : (x : Sending Event) → Step x (record x { stream = on_close x.stream })
    resumes :
        (x : Sending Event) (ec : Option ErrorCode)
        → x.suspended ≡ true
        → (ec ≢ none) ⊎ (events.is_set x.stream.write_progress ≡ true)
        → Step x (finished x (resume_write_impl ec x.stream))

  pub data Reach (x : Sending Event) : Sending Event → Type 0 where
    here : Reach x x
    next : {y z : Sending Event} → Reach x y → Step y z → Reach x z

  pub record Inv (x : Sending Event) : Type 0 where
    -- a write that waits has just the bytes that it was called with
    pub published : x.suspended ≡ true → x.stream.pending ≡ x.given
    -- the cursor stands after what was pulled
    pub seated : x.stream.cursor ≡ drop x.stream.write_offset x.stream.pending
    pub within : x.stream.write_offset ≤ length x.stream.pending
    -- what went out is what was reported, then what the current write has sent
    pub accounted :
        x.body ≡ x.reported ++ (if x.suspended then take x.stream.write_offset x.given else [])
    pub deferral : x.provider_deferred ≡ x.stream.write_deferred
    pub pending_waits :
        x.stream.write_pending ≡ true → (x.suspended ≡ true) × (x.stream.write_deferred ≡ false)
    pub awake :
        x.suspended ≡ true
        → (x.stream.write_pending ≡ false) ⊎ (x.stream.closed ≡ true)
        → events.is_set x.stream.write_progress ≡ true
    pub asleep :
        x.suspended ≡ true
        → events.is_set x.stream.write_progress ≡ true
        → (x.stream.write_pending ≡ false) ⊎ (x.stream.closed ≡ true)
    -- write_some() is over after one call that gave bytes
    pub one_pull :
        x.suspended ≡ true
        → x.stream.write_eof_requested ≡ false
        → x.pulls ≡ (if x.stream.write_pending then 0 else 1)
    -- write_eof() is over, and END_STREAM set, exactly when all of it was pulled
    pub end_last :
        x.suspended ≡ true
        → x.stream.write_eof_requested ≡ true
        → x.end_sent ≡ not x.stream.write_pending
    pub all_sent :
        x.suspended ≡ true
        → x.stream.write_eof_requested ≡ true
        → x.stream.write_pending ≡ false
        → x.stream.write_offset ≡ length x.stream.pending
    pub no_early_end :
        x.suspended ≡ true → x.stream.write_eof_requested ≡ false → x.end_sent ≡ false

  writes-Inv :
      (x : Sending Event) (bytes : Bytes) (end : Bool)
      → x.suspended ≡ false
      → Inv x
      → Inv (started x bytes (write_impl bytes end x.stream))
  unfolding write_impl
  writes-Inv x bytes end idle v =
      ground (arith, append-nil x.reported, events.is_set-clear x.stream.write_progress)

  closes-Inv : (x : Sending Event) → Inv x → Inv (record x { stream = on_close x.stream })
  unfolding on_close
  closes-Inv x v = ground (arith, events.is_set-set x.stream.write_progress)

  resumes-Inv :
      (x : Sending Event) (ec : Option ErrorCode)
      → x.suspended ≡ true
      → Inv x
      → Inv (finished x (resume_write_impl ec x.stream))
  unfolding resume_write_impl
  resumes-Inv x ec waits v =
      ground (arith, append-nil (x.reported ++ take x.stream.write_offset x.given))

  pulls-Inv :
      (x : Sending Event) (size : ℕ) → Inv x → Inv (pulled x (producer_callback size x.stream))
  unfolding producer_callback
  pulls-Inv x size v = ground (
    arith,
    events.is_set-set s.write_progress,
    v.seated,
    buffers.copied-eq-min size (length s.cursor),
    length-drop s.write_offset s.pending,
    ap length v.seated,
    v.published,
    drop-drop n s.write_offset s.pending,
    take-take-drop s.write_offset n s.pending,
    append_assoc x.reported (take s.write_offset s.pending) (take n s.cursor),
  )
    where
      s : Stream Event
      s = x.stream

      n : ℕ
      n = buffers.copied size (length s.cursor)

  pub Step-Inv : {x y : Sending Event} → Step x y → Inv x → Inv y
  Step-Inv (writes x bytes end idle) v = writes-Inv x bytes end idle v
  Step-Inv (pulls x size active) v = pulls-Inv x size v
  Step-Inv (closes x) v = closes-Inv x v
  Step-Inv (resumes x ec waits w) v = resumes-Inv x ec waits v

  pub Reach-Inv : {x y : Sending Event} → Inv x → Reach x y → Inv y
  Reach-Inv v here = v
  Reach-Inv v (next r s) = Step-Inv s (Reach-Inv v r)
