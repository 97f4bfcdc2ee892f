-- ===== src/Stream/Status/Waits.antt =====
-- Stream::status() (src/stream_impl.hpp) over every interleaving of its callers with the callbacks that
-- set the status, end the body and close the stream.
use nghttp2_corosio.Base.{
  ℕ, ◌^◌, ◌<◌, ◌≡◌, refl, ap, ◌⊎◌, inl, inr, Bool, true, false, Option, none, some, arith, Bytes,
  is_negative, ℤ, pos, Bool-cases, if◌then◌else◌,
}
use nghttp2_corosio.Capy.{AsyncEvent, eof, stream_truncated}
use nghttp2_corosio.Stream.{Stream, new_stream, set_status, on_read_eof, on_close, eof_error}
use nghttp2_corosio.Stream.Status.{StatusOutcome, known, failed, waiting, get_status, resume_status}

-- What has happened to a stream: the status that arrived last, and whether its body has ended and it
-- was closed.
pub record Seen : Type 0 where
  pub status : Option ℕ
  pub ended : Bool
  pub closed : Bool

abbrev pub unseen : Seen
unseen = record { status = none; ended = false; closed = false }

-- What a caller of status() is to learn of it.
abbrev pub answer : Seen → StatusOutcome
answer seen = elim seen.status [
  | some n ↦ known n
  | none ↦ failed (if seen.ended then eof else stream_truncated)
]

-- And at once, when it calls status().
abbrev pub at_once : Seen → StatusOutcome
at_once seen = elim seen.status [ some n ↦ known n | none ↦ waiting ]

-- There is something to tell.
abbrev pub HasAnswer : Seen → Type 0
HasAnswer seen = ((n : ℕ) × (seen.status ≡ some n)) ⊎ (seen.closed ≡ true)

-- A call is late if the stream was closed without a status.
abbrev pub IsLate : Seen → Type 0
IsLate seen = (seen.status ≡ none) × (seen.closed ≡ true)

abbrev pub HasStatus : Option ℕ → ℤ → Type 0
HasStatus none status = is_negative status ≡ true
HasStatus (some n) status = status ≡ pos n

only_late :
    (o : Option ℕ) (closed : Bool) (status : ℤ)
    → HasStatus o status
    → is_negative status ≡ true
    → ((n : ℕ) × (o ≡ some n)) ⊎ (closed ≡ true)
    → (o ≡ none) × (closed ≡ true)
only_late none closed status v e (inl (n, some_n)) = absurd (cc)
only_late none closed status v e (inr c) = (refl, c)
only_late (some n) closed status v e h = absurd (ground (arith, ap is_negative v))

module _ {Event : Type 0} ⦃events : AsyncEvent Event⦄ where
  -- One step; a call that is woken leaves the stream as it is.
  pub data Step : Seen × Stream Event → Seen × Stream Event → Type 0 where
    asks :
        {seen : Seen} {s : Stream Event} → ¬ IsLate seen → Step (seen, s) (seen, (get_status s).0)
    arrives :
        {seen : Seen} {s : Stream Event} (status : ℕ)
        → status < 2 ^ 31
        → Step (seen, s) (record seen { status = some status }, set_status status s)
    ends :
        {seen : Seen} {s : Stream Event}
        → Step (seen, s) (record seen { ended = true }, on_read_eof s)
    closes :
        {seen : Seen} {s : Stream Event}
        → Step (seen, s) (record seen { closed = true }, on_close s)

  pub data Reach (x : Seen × Stream Event) : Seen × Stream Event → Type 0 where
    here : Reach x x
    next : {y z : Seen × Stream Event} → Reach x y → Step y z → Reach x z

  pub record Inv (x : Seen × Stream Event) : Type 0 where
    pub status : HasStatus x.0.status x.1.status
    pub ended : x.1.read_eof ≡ x.0.ended
    pub awake : HasAnswer x.0 → events.is_set x.1.status_ready ≡ true

  asks-Inv :
      (seen : Seen) (s : Stream Event)
      → ¬ IsLate seen
      → Inv (seen, s)
      → Inv (seen, (get_status s).0)
  unfolding get_status
  asks-Inv seen s timely v = elim (Bool-cases (is_negative s.status)) [
    | inl e ↦ rw e (record {
      status = v.status;
      ended = v.ended;
      awake = λ h. absurd (timely (only_late seen.status seen.closed s.status v.status e h));
    })
    | inr e ↦ rw e v
  ]

  arrives-Inv :
      (seen : Seen) (s : Stream Event) (status : ℕ)
      → status < 2 ^ 31
      → Inv (seen, s)
      → Inv (record seen { status = some status }, set_status status s)
  unfolding set_status
  arrives-Inv seen s status lt v = record {
    status = ground arith;
    ended = v.ended;
    awake = λ _. events.is_set-set s.status_ready;
  }

  pub Step-Inv : {x y : Seen × Stream Event} → Step x y → Inv x → Inv y
  unfolding on_read_eof on_close
  Step-Inv (asks {seen} {s} timely) v = asks-Inv seen s timely v
  Step-Inv (arrives {seen} {s} status lt) v = arrives-Inv seen s status lt v
  Step-Inv (ends {seen} {s}) v = record { status = v.status; ended = refl; awake = v.awake }
  Step-Inv (closes {seen} {s}) v = record {
    status = v.status;
    ended = v.ended;
    awake = λ _. events.is_set-set s.status_ready;
  }

  Reach-Inv : {x y : Seen × Stream Event} → Reach x y → Inv x → Inv y
  Reach-Inv here v = v
  Reach-Inv (next r step) v = Step-Inv step (Reach-Inv r v)

  pub new_stream-Inv : (id : ℕ) (tag : Bytes) → Inv (unseen, new_stream id tag)
  unfolding new_stream
  new_stream-Inv id tag = record { status = refl; ended = refl; awake = not_yet }
    where
      not_yet : HasAnswer unseen → events.is_set events.fresh ≡ true
      not_yet (inl (n, e)) = absurd (cc)
      not_yet (inr e) = absurd (cc)

  resume_status-answer :
      (seen : Seen) (s : Stream Event) → Inv (seen, s) → resume_status none s ≡ answer seen
  unfolding resume_status eof_error
  resume_status-answer seen s v = go seen.status v.status
    where
      go :
          (o : Option ℕ)
          → HasStatus o s.status
          → resume_status none s ≡ (elim o [
            | some n ↦ known n
            | none ↦ failed (if seen.ended then eof else stream_truncated)
          ])
      go none e = rw (e, v.ended) refl
      go (some n) e = rw e refl

  get_status-at_once :
      (seen : Seen) (s : Stream Event) → Inv (seen, s) → (get_status s).1 ≡ at_once seen
  unfolding get_status
  get_status-at_once seen s v = go seen.status v.status
    where
      go :
          (o : Option ℕ)
          → HasStatus o s.status
          → (get_status s).1 ≡ (elim o [ some n ↦ known n | none ↦ waiting ])
      go none e = rw e refl
      go (some n) e = rw e refl

  pub record Answers (seen : Seen) (s : Stream Event) : Type 0 where
    pub is_woken : events.is_set s.status_ready ≡ true
    pub woken_with : resume_status none s ≡ answer seen
    pub told_at_once : (get_status s).1 ≡ at_once seen

  pub Inv-Answers :
      (seen : Seen) (s : Stream Event) → Inv (seen, s) → HasAnswer seen → Answers seen s
  Inv-Answers seen s v h = record {
    is_woken = v.awake h;
    woken_with = resume_status-answer seen s v;
    told_at_once = get_status-at_once seen s v;
  }

  -- In any history of a new stream in which no status() is called after the stream was closed without
  -- a status: once a status below 2^31 has arrived or the stream was closed, the event of every
  -- waiting status() is set, and one that is woken, not cancelled, returns the status that arrived
  -- last or, if none did, fails with `eof` if the peer has ended its body and with `stream_truncated`
  -- if not; and a new call of status() returns the last status at once, or waits if none has arrived.
  Reach-Answers :
      (id : ℕ) (tag : Bytes) {seen : Seen} {s : Stream Event}
      → Reach (unseen, new_stream id tag) (seen, s)
      → HasAnswer seen
      → Answers seen s
  Reach-Answers id tag {seen} {s} r h = Inv-Answers seen s (Reach-Inv r (new_stream-Inv id tag)) h
