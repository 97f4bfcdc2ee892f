-- ===== src/Session/Signals.antt =====
-- What the callbacks and calls of a session (src/session.cpp, src/stream_impl.hpp) ask of nghttp2, and
-- whether the send loop is woken for it.
pub mod Callbacks
pub mod Steps
pub mod Runs
use nghttp2_corosio.Base.{
  ℕ, ◌+◌, ◌≡◌, refl, sym, ap, ◌∙◌, ◌⊎◌, inl, inr, Bool, true, false, ◌&&◌, Option, none, some, List,
  [], ◌∷◌, ◌++◌, append-nil, arith, Bytes, length, get_elem?, Option-cases, Bool-cases, subst,
}
use nghttp2_corosio.Capy.{AsyncEvent, BufferCopy}
use nghttp2_corosio.Stream
use nghttp2_corosio.Stream.{Stream, Effect}
use nghttp2_corosio.Session.{
  Session, NativeCall, consume_connection, consume_stream, resume_data, submit_response,
  submit_request, call, start_write, perform, lookup, find_stream, with_stream, at,
}
use nghttp2_corosio.Session.Inputs.{invoke}

-- What nghttp2 was told to add to the window of the connection again.
abbrev pub credits : List NativeCall → ℕ
credits [] = 0
credits (consume_connection n ∷ calls) = n + credits calls
credits (consume_stream id n ∷ calls) = credits calls
credits (resume_data id ∷ calls) = credits calls
credits (submit_response id headers ref ∷ calls) = credits calls
credits (submit_request headers ref ∷ calls) = credits calls

-- The calls other than those of a callback: nghttp2 may have output after them, and no one polls it.
abbrev pub work : List NativeCall → List NativeCall
work [] = []
work (consume_connection n ∷ calls) = work calls
work (consume_stream id n ∷ calls) = consume_stream id n ∷ work calls
work (resume_data id ∷ calls) = resume_data id ∷ work calls
work (submit_response id headers ref ∷ calls) = submit_response id headers ref ∷ work calls
work (submit_request headers ref ∷ calls) = submit_request headers ref ∷ work calls

pub credits-append : (xs ys : List NativeCall) → credits (xs ++ ys) ≡ credits xs + credits ys
credits-append [] ys = omega arith
credits-append (consume_connection n ∷ xs) ys = rw (credits-append xs ys) (omega arith)
credits-append (consume_stream id n ∷ xs) ys = credits-append xs ys
credits-append (resume_data id ∷ xs) ys = credits-append xs ys
credits-append (submit_response id headers ref ∷ xs) ys = credits-append xs ys
credits-append (submit_request headers ref ∷ xs) ys = credits-append xs ys

pub work-connection :
    (n : ℕ) (xs : List NativeCall) → work (xs ++ consume_connection n ∷ []) ≡ work xs
work-connection n [] = refl
work-connection n (consume_connection m ∷ xs) = work-connection n xs
work-connection n (consume_stream id m ∷ xs) =
    ap (λ l. consume_stream id m ∷ l) (work-connection n xs)
work-connection n (resume_data id ∷ xs) = ap (λ l. resume_data id ∷ l) (work-connection n xs)
work-connection n (submit_response id headers ref ∷ xs) =
    ap (λ l. submit_response id headers ref ∷ l) (work-connection n xs)
work-connection n (submit_request headers ref ∷ xs) =
    ap (λ l. submit_request headers ref ∷ l) (work-connection n xs)

-- Whether a list of effects ends with a call of start_write(), or is empty and was signalled before.
abbrev pub signals : Bool → List Effect → Bool
signals b [] = b
signals b (Effect.consume_stream id n ∷ fx) = signals false fx
signals b (Effect.resume_data id ∷ fx) = signals false fx
signals b (Effect.start_write ∷ fx) = signals true fx

module _ {Event : Type 0} ⦃events : AsyncEvent Event⦄ where
  -- `ok` says that nghttp2 took what it was given.
  pub record Effects (arrived : ℕ) (ok : Bool) (x y : Session Event) : Type 0 where
    pub credit : credits y.native ≡ credits x.native + arrived
    pub signal :
        ((work y.native ≡ work x.native) × (y.write_ready ≡ x.write_ready))
        ⊎ ((events.is_set y.write_ready ≡ true) ⊎ (ok ≡ false))

  pub Effects-leaves :
      (ok : Bool) (x y : Session Event)
      → y.native ≡ x.native
      → y.write_ready ≡ x.write_ready
      → Effects 0 ok x y
  Effects-leaves ok x y n w = record {
    credit = ap credits n ∙ (omega arith);
    signal = inl (ap work n, w);
  }

  pub with_stream-Effects :
      (id : ℕ) (f : Stream Event → Stream Event) (x : Session Event)
      → ((with_stream id f x).native ≡ x.native)
        × ((with_stream id f x).write_ready ≡ x.write_ready)
  unfolding with_stream at find_stream
  with_stream-Effects id f x = elim (Option-cases (lookup id x.streams)) [
    | inl e ↦ rw (e, with_stream) (refl, refl)
    | inr (ref, e) ↦ rw (e, with_stream) (refl, refl)
  ]

  perform-credits :
      (fx : List Effect) (x : Session Event) → credits (perform fx x).native ≡ credits x.native
  unfolding perform call
  perform-credits [] x = refl
  perform-credits (Effect.consume_stream id n ∷ fx) x =
      perform-credits fx _ ∙ credits-append x.native _ ∙ (omega arith)
  perform-credits (Effect.resume_data id ∷ fx) x =
      perform-credits fx _ ∙ credits-append x.native _ ∙ (omega arith)
  perform-credits (Effect.start_write ∷ fx) x = perform-credits fx _

  perform-signals :
      (b : Bool) (fx : List Effect) (x : Session Event)
      → (b ≡ false) ⊎ (events.is_set x.write_ready ≡ true)
      → signals b fx ≡ true
      → events.is_set (perform fx x).write_ready ≡ true
  unfolding perform start_write
  perform-signals b [] x (inl off) h = absurd (cc)
  perform-signals b [] x (inr set) h = set
  perform-signals b (Effect.consume_stream id n ∷ fx) x before h =
      perform-signals false fx _ (inl refl) h
  perform-signals b (Effect.resume_data id ∷ fx) x before h =
      perform-signals false fx _ (inl refl) h
  perform-signals b (Effect.start_write ∷ fx) x before h =
      perform-signals true fx _ (inr (events.is_set-set x.write_ready)) h

  pub perform-Effects :
      (ok : Bool) (fx : List Effect) (x : Session Event)
      → signals true fx ≡ true
      → Effects 0 ok x (perform fx x)
  unfolding perform
  perform-Effects ok [] x h = Effects-leaves ok x x refl refl
  perform-Effects ok (Effect.consume_stream id n ∷ fx) x h = record {
    credit = perform-credits (Effect.consume_stream id n ∷ fx) x ∙ (omega arith);
    signal = inr (inl (perform-signals false fx _ (inl refl) h));
  }
  perform-Effects ok (Effect.resume_data id ∷ fx) x h = record {
    credit = perform-credits (Effect.resume_data id ∷ fx) x ∙ (omega arith);
    signal = inr (inl (perform-signals false fx _ (inl refl) h));
  }
  perform-Effects ok (Effect.start_write ∷ fx) x h = record {
    credit = perform-credits (Effect.start_write ∷ fx) x ∙ (omega arith);
    signal = inr (inl (perform-signals false (Effect.start_write ∷ fx) x (inl refl) h));
  }

  pub Effects-trans :
      (m n : ℕ) (p q : Bool) {x y z : Session Event}
      → Effects m p x y
      → Effects n q y z
      → Effects (m + n) (p && q) x z
  Effects-trans m n p q {x} {y} {z} v w = record {
    credit = w.credit ∙ ap (λ k. k + n) v.credit ∙ (omega arith);
    signal = elim w.signal [
      | inr (inl set) ↦ inr (inl set)
      | inr (inr refused) ↦ inr (inr (ground arith))
      | inl (same, kept) ↦ elim v.signal [
        | inl (same', kept') ↦ inl (same ∙ same', kept ∙ kept')
        | inr (inl set) ↦ inr (inl (ap events.is_set kept ∙ set))
        | inr (inr refused) ↦ inr (inr (ground arith))
      ]
    ];
  }

module _ {Event : Type 0} ⦃events : AsyncEvent Event⦄ ⦃buffers : BufferCopy⦄ where
  pub invoke-Effects :
      (ok : Bool) (ref : ℕ) (f : Stream Event → Stream Event × List Effect) (x : Session Event)
      → ((s : Stream Event) → signals true (f s).1 ≡ true)
      → Effects 0 ok x (invoke ref f x)
  unfolding invoke at
  invoke-Effects ok ref f x h = elim (Option-cases (get_elem? x.heap ref)) [
    | inl e ↦ rw (e, invoke) (Effects-leaves ok x x refl refl)
    | inr (s, e) ↦
        rw (e, invoke)
          (let v = perform-Effects ok (f s).1 (at ref (λ t. (f t).0) x) (h s) in
            record { credit = v.credit; signal = v.signal })
  ]
