-- ===== src/Session/Window.antt =====
-- What nghttp2 is told to add to the window of each stream again (src/session.cpp,
-- src/stream_impl.hpp), against what a session's streams hold for their readers.
pub mod Methods
pub mod Reads
pub mod Callbacks
pub mod Steps
pub mod Runs
use nghttp2_corosio.Base.{
  ℕ, zero, suc, ◌+◌, ◌≤◌, ◌≡◌, refl, sym, ap, ◌∙◌, inl, inr, Bool, true, false, Option, none, some,
  List, [], ◌∷◌, ◌++◌, arith, Bytes, All, All-append, length, get_elem?, ◌==◌, Option-cases,
  Bool-cases, if◌then◌else◌,
}
use nghttp2_corosio.Capy.{AsyncEvent}
use nghttp2_corosio.Stream.{Stream, Effect}
use nghttp2_corosio.Stream.Read.Content.{content, IsSound}
use nghttp2_corosio.Session.{
  Session, NativeCall, consume_connection, consume_stream, resume_data, submit_response,
  submit_request, call, start_write, perform, lookup, update, find_stream, with_stream, at,
}

-- A number that counts for the stream `id` only.
abbrev pub if_stream : ℕ → ℕ → ℕ → ℕ
if_stream id k n = if k == id then n else 0

-- The credit that nghttp2 was given for the stream `id`.
abbrev pub stream_credits : ℕ → List NativeCall → ℕ
stream_credits id [] = 0
stream_credits id (consume_stream k n ∷ calls) = if_stream id k n + stream_credits id calls
stream_credits id (consume_connection n ∷ calls) = stream_credits id calls
stream_credits id (resume_data k ∷ calls) = stream_credits id calls
stream_credits id (submit_response k headers ref ∷ calls) = stream_credits id calls
stream_credits id (submit_request headers ref ∷ calls) = stream_credits id calls

pub stream_credits-append :
    (id : ℕ) (xs ys : List NativeCall)
    → stream_credits id (xs ++ ys) ≡ stream_credits id xs + stream_credits id ys
stream_credits-append id [] ys = omega arith
stream_credits-append id (consume_stream k n ∷ xs) ys =
    rw (stream_credits-append id xs ys) (omega arith)
stream_credits-append id (consume_connection n ∷ xs) ys = stream_credits-append id xs ys
stream_credits-append id (resume_data k ∷ xs) ys = stream_credits-append id xs ys
stream_credits-append id (submit_response k headers ref ∷ xs) ys = stream_credits-append id xs ys
stream_credits-append id (submit_request headers ref ∷ xs) ys = stream_credits-append id xs ys

-- What a list of effects adds to it.
abbrev pub effect_credits : ℕ → List Effect → ℕ
effect_credits id [] = 0
effect_credits id (Effect.consume_stream k n ∷ fx) = if_stream id k n + effect_credits id fx
effect_credits id (Effect.resume_data k ∷ fx) = effect_credits id fx
effect_credits id (Effect.start_write ∷ fx) = effect_credits id fx

module _ {Event : Type 0} where
  -- What the Stream objects of identifier `id` hold.
  abbrev pub weight : ℕ → Stream Event → ℕ
  weight id s = if_stream id s.id (length (content s))

  abbrev pub held : ℕ → List (Stream Event) → ℕ
  held id [] = 0
  held id (s ∷ heap) = weight id s + held id heap

  pub held-append :
      (id : ℕ) (xs ys : List (Stream Event)) → held id (xs ++ ys) ≡ held id xs + held id ys
  held-append id [] ys = omega arith
  held-append id (s ∷ xs) ys = omega (arith, held-append id xs ys)

  pub held-update :
      (id ref : ℕ) (f : Stream Event → Stream Event) (heap : List (Stream Event)) {s : Stream Event}
      → get_elem? heap ref ≡ some s
      → held id (update ref f heap) + weight id s ≡ held id heap + weight id (f s)
  unfolding update
  held-update id ref f [] e = absurd (cc)
  held-update id zero f (t ∷ heap) {s} e =
      let same : t ≡ s = ground arith in
      ap (λ u. weight id (f t) + held id heap + weight id u) (sym same)
      ∙ (omega arith)
      ∙ ap (λ u. weight id t + held id heap + weight id (f u)) same
  held-update id (suc ref) f (t ∷ heap) e = omega (arith, held-update id ref f heap e)

  -- A method that neither takes from what its stream holds nor adds to it.
  abbrev pub Neutral : (Stream Event → Stream Event) → Type 0
  Neutral f =
      (s : Stream Event)
      → IsSound s
      → IsSound (f s) × (content (f s) ≡ content s) × ((f s).id ≡ s.id)

  pub update-All :
      (ref : ℕ) (f : Stream Event → Stream Event) (heap : List (Stream Event))
      → ((s : Stream Event) → get_elem? heap ref ≡ some s → IsSound s → IsSound (f s))
      → All IsSound heap
      → All IsSound (update ref f heap)
  unfolding update
  update-All ref f [] h v = tt
  update-All zero f (s ∷ heap) h v = (h s refl v.0, v.1)
  update-All (suc ref) f (s ∷ heap) h v = (v.0, update-All ref f heap h v.1)

  held-update-Neutral :
      (id ref : ℕ) (f : Stream Event → Stream Event) (heap : List (Stream Event))
      → Neutral f
      → All IsSound heap
      → held id (update ref f heap) ≡ held id heap
  unfolding update
  held-update-Neutral id ref f [] h v = refl
  held-update-Neutral id zero f (s ∷ heap) h v =
      let (_, same_content, same_id) = h s v.0 in rw (same_content, same_id) refl
  held-update-Neutral id (suc ref) f (s ∷ heap) h v =
      omega (arith, held-update-Neutral id ref f heap h v.1)

  -- From one state of a session to another, in which `n` bytes arrive for the stream `id`: it keeps
  -- its streams sound, and what was credited and what is held grow by `n` at most.
  pub record Balance (id n : ℕ) (x y : Session Event) : Type 0 where
    pub sound : All IsSound y.heap
    pub owed :
        stream_credits id y.native + held id y.heap
        ≤ stream_credits id x.native + held id x.heap + n

  pub Balance-trans :
      (id m n : ℕ) {x y z : Session Event}
      → Balance id m x y
      → Balance id n y z
      → Balance id (m + n) x z
  Balance-trans id m n v w = record { sound = w.sound; owed = omega arith }

  pub Balance-same :
      (id n : ℕ) (x y : Session Event)
      → All IsSound x.heap
      → y.heap ≡ x.heap
      → stream_credits id y.native ≡ stream_credits id x.native
      → Balance id n x y
  Balance-same id n x y v h e = record { sound = rw h v; owed = rw (h, e) (omega arith) }

  pub Balance-at :
      (id ref : ℕ) (f : Stream Event → Stream Event) (x : Session Event)
      → Neutral f
      → All IsSound x.heap
      → Balance id 0 x (at ref f x)
  unfolding at
  Balance-at id ref f x h v = record {
    sound = update-All ref f x.heap (λ s _ w. (h s w).0) v;
    owed = omega (arith, held-update-Neutral id ref f x.heap h v);
  }

  pub Balance-with_stream :
      (id k : ℕ) (f : Stream Event → Stream Event) (x : Session Event)
      → Neutral f
      → All IsSound x.heap
      → Balance id 0 x (with_stream k f x)
  unfolding with_stream find_stream
  Balance-with_stream id k f x h v = elim (Option-cases (lookup k x.streams)) [
    | inl e ↦ rw (e, with_stream) (Balance-same id 0 x x v refl refl)
    | inr (ref, e) ↦ rw (e, with_stream) (Balance-at id ref f x h v)
  ]

  -- A new Stream object, which holds nothing.
  pub Balance-append :
      (id : ℕ) (s : Stream Event) (x y : Session Event)
      → IsSound s
      → content s ≡ []
      → y.heap ≡ x.heap ++ s ∷ []
      → stream_credits id y.native ≡ stream_credits id x.native
      → All IsSound x.heap
      → Balance id 0 x y
  Balance-append id s x y w empty h e v =
      let nothing : weight id s ≡ 0 =
        ap (λ c. if_stream id s.id (length c)) empty ∙ (ground arith) in
      record {
        sound = rw h (All-append IsSound x.heap (s ∷ []) v (w, tt));
        owed = rw (h, e) (omega (arith, held-append id x.heap (s ∷ []), nothing));
      }

module _ {Event : Type 0} ⦃events : AsyncEvent Event⦄ where
  pub perform-credits :
      (id : ℕ) (fx : List Effect) (x : Session Event)
      → stream_credits id (perform fx x).native ≡ stream_credits id x.native + effect_credits id fx
  unfolding perform call start_write
  perform-credits id [] x = omega arith
  perform-credits id (Effect.consume_stream k n ∷ fx) x =
      perform-credits id fx _
      ∙ ap (λ m. m + effect_credits id fx) (stream_credits-append id x.native _)
      ∙ (omega arith)
  perform-credits id (Effect.resume_data k ∷ fx) x =
      perform-credits id fx _
      ∙ ap (λ m. m + effect_credits id fx) (stream_credits-append id x.native _)
      ∙ (omega arith)
  perform-credits id (Effect.start_write ∷ fx) x = perform-credits id fx _

  pub perform-heap : (fx : List Effect) (x : Session Event) → (perform fx x).heap ≡ x.heap
  unfolding perform call start_write
  perform-heap [] x = refl
  perform-heap (Effect.consume_stream k n ∷ fx) x = perform-heap fx _
  perform-heap (Effect.resume_data k ∷ fx) x = perform-heap fx _
  perform-heap (Effect.start_write ∷ fx) x = perform-heap fx _
