-- ===== src/Session/Window/Methods.antt =====
-- What the methods of a stream (src/stream_impl.hpp, src/stream.cpp) take from what it holds, and what
-- they ask nghttp2 to add to its window.
use nghttp2_corosio.Base.{
  ℕ, zero, suc, subst, ◌+◌, ◌≤◌, ◌≡◌, refl, inl, inr, Bool, Option, some, List, [], ◌∷◌, arith,
  Bytes, All, length, get_elem?, ◌==◌, Option-cases, Bool-cases, is_negative, ◌==◌, not, ◌||◌,
}
use nghttp2_corosio.Capy.{AsyncEvent, BufferCopy, ErrorCode}
use nghttp2_corosio.Stream.{Stream, Effect}
use nghttp2_corosio.Stream.Read.Content.{content, IsSound}
use nghttp2_corosio.Stream.Write.{write_impl, resume_write_impl, producer_callback}
use nghttp2_corosio.Stream.Status.{get_status}
use nghttp2_corosio.Session.{Session, at}
use nghttp2_corosio.Session.Inputs.{invoke}
use nghttp2_corosio.Session.Window.{
  effect_credits, weight, held-update, update-All, Balance, Balance-same, perform-credits,
  perform-heap,
}

module _ {Event : Type 0} ⦃events : AsyncEvent Event⦄ ⦃buffers : BufferCopy⦄ where
  pub IsSound-at :
      (ref : ℕ) (heap : List (Stream Event)) {s : Stream Event}
      → All IsSound heap
      → get_elem? heap ref ≡ some s
      → IsSound s
  IsSound-at ref [] v e = absurd (cc)
  IsSound-at zero (t ∷ heap) v e = subst IsSound (ground arith) v.0
  IsSound-at (suc ref) (t ∷ heap) v e = IsSound-at ref heap v.1 e

  -- A method that gives up at least what it credits.
  abbrev pub Pays : ℕ → Stream Event → Stream Event × List Effect → Type 0
  Pays id s r = IsSound r.0 × (effect_credits id r.1 + weight id r.0 ≤ weight id s)

  pub Balance-invoke :
      (id ref : ℕ) (f : Stream Event → Stream Event × List Effect) (x : Session Event)
      → ((s : Stream Event) → get_elem? x.heap ref ≡ some s → IsSound s → Pays id s (f s))
      → All IsSound x.heap
      → Balance id 0 x (invoke ref f x)
  unfolding invoke at
  Balance-invoke id ref f x h v = elim (Option-cases (get_elem? x.heap ref)) [
    | inl e ↦ rw (e, invoke) (Balance-same id 0 x x v refl refl)
    | inr (s, e) ↦
        let y = at ref (λ t. (f t).0) x in
        let (_, paid) = h s e (IsSound-at ref x.heap v e) in
        let stays = perform-heap (f s).1 y in
        let grown = held-update id ref (λ t. (f t).0) x.heap e in
        let asked = perform-credits id (f s).1 y in
        rw (e, invoke)
          (record {
            sound = rw stays (update-All ref (λ t. (f t).0) x.heap (λ t i w. (h t i w).0) v);
            owed = rw (stays, asked) (omega (arith, grown, paid));
          })
  ]

  Pays-same :
      (id : ℕ) (s t : Stream Event) (fx : List Effect)
      → IsSound t
      → content t ≡ content s
      → t.id ≡ s.id
      → effect_credits id fx ≡ 0
      → Pays id s (t, fx)
  Pays-same id s t fx v c i n = (v, rw (c, i, n) (omega arith))

  pub producer_callback-Pays :
      (id size : ℕ) (s : Stream Event) → IsSound s → Pays id s ((producer_callback size s).0, [])
  unfolding producer_callback
  producer_callback-Pays id size s v = elim (Bool-cases s.write_pending) [
    | inl e ↦
        rw e
          (elim (Bool-cases (
            (s.write_offset + buffers.copied size (length s.cursor) == length s.pending)
            || not s.write_eof_requested)) [
              | inl e ↦ rw e (
                  Pays-same id s _ [] (record { front = v.front; no_overtaking = v.no_overtaking })
                    refl refl refl)
              | inr e ↦ rw e (
                  Pays-same id s _ [] (record { front = v.front; no_overtaking = v.no_overtaking })
                    refl refl refl)
            ])
    | inr e ↦ rw e (
        Pays-same id s _ [] (record { front = v.front; no_overtaking = v.no_overtaking }) refl refl
          refl)
  ]

  pub write_impl-Pays :
      (id : ℕ) (bytes : Bytes) (end : Bool) (s : Stream Event)
      → IsSound s
      → Pays id s (let r = write_impl bytes end s in (r.0, r.2))
  unfolding write_impl
  write_impl-Pays id bytes end s v = elim (Bool-cases s.closed) [
    | inl e ↦ rw e (
        Pays-same id s _ [] (record { front = v.front; no_overtaking = v.no_overtaking }) refl refl
          refl)
    | inr e ↦ rw e (elim (Bool-cases s.write_deferred) [
      | inl e ↦ rw e (
          Pays-same id s _ (Effect.resume_data s.id ∷ Effect.start_write ∷ [])
            (record { front = v.front; no_overtaking = v.no_overtaking }) refl refl refl)
      | inr e ↦ rw e (
          Pays-same id s _ (Effect.start_write ∷ [])
            (record { front = v.front; no_overtaking = v.no_overtaking }) refl refl refl)
    ])
  ]

  pub resume_write_impl-Pays :
      (id : ℕ) (ec : Option ErrorCode) (s : Stream Event)
      → IsSound s
      → Pays id s ((resume_write_impl ec s).0, [])
  unfolding resume_write_impl
  resume_write_impl-Pays id ec s v =
      Pays-same id s _ [] (record { front = v.front; no_overtaking = v.no_overtaking }) refl refl
        refl

  pub get_status-Pays : (id : ℕ) (s : Stream Event) → IsSound s → Pays id s ((get_status s).0, [])
  unfolding get_status
  get_status-Pays id s v = elim (Bool-cases (is_negative s.status)) [
    | inl e ↦ rw e (
        Pays-same id s _ [] (record { front = v.front; no_overtaking = v.no_overtaking }) refl refl
          refl)
    | inr e ↦ rw e (Pays-same id s s [] v refl refl refl)
  ]
