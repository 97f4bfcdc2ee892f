-- ===== src/Session/Isolation/Routing.antt =====
-- What a session's helpers (src/session.cpp) do to the object at a reference, by way of the table, is
-- what is addressed to the object's own identifier while it is open.
use nghttp2_corosio.Base.{
  ℕ, ◌≡◌, refl, sym, ap, ◌∙◌, ◌⊎◌, inl, inr, ◌≢◌, true, false, not, ◌&&◌, none, some, arith,
  get_elem?, ◌==◌, Bool-cases, Option-cases, ℕ_discrete,
}
use nghttp2_corosio.Capy.{AsyncEvent}
use nghttp2_corosio.Stream.{Stream, on_close}
use nghttp2_corosio.Session.{Session, lookup, update, find_stream, at, with_stream, close_stream}
use nghttp2_corosio.Session.Table.{lookup-erase, get_elem?-update_ne, get_elem?-update_self}
use nghttp2_corosio.Session.WellFormed.{IsOpen-some, update-Inv, close-Inv}
use nghttp2_corosio.Session.Preservation.{Good, Keeps}
use nghttp2_corosio.Session.Isolation.{addressed}

module _ {Event : Type 0} where
  -- The session holds the object at `ref`, and its table leads to it as long as it is open.
  pub record Follows (ref : ℕ) (x : Session Event) (s : Stream Event) : Type 0 where
    pub good : Good x
    pub there : get_elem? x.heap ref ≡ some s
    pub listed : (s.closed ≡ true) ⊎ (lookup s.id x.streams ≡ some ref)

  pub addressed_hit :
      (k : ℕ) (f : Stream Event → Stream Event) (s : Stream Event)
      → s.id ≡ k
      → s.closed ≡ false
      → addressed k f s ≡ f s
  addressed_hit k f s i c = ground arith

  pub addressed_miss :
      (k : ℕ) (f : Stream Event → Stream Event) (s : Stream Event)
      → (s.id ≢ k) ⊎ (s.closed ≡ true)
      → addressed k f s ≡ s
  addressed_miss k f s h = ground arith

  -- The entry of `k` leads to the object if and only if the object has that identifier and is open.
  entry_cases :
      (ref k r : ℕ) (x : Session Event) (s : Stream Event)
      → Follows ref x s
      → lookup k x.streams ≡ some r
      → ((r ≡ ref) × (s.id ≡ k) × (s.closed ≡ false))
        ⊎ ((r ≢ ref) × ((s.id ≢ k) ⊎ (s.closed ≡ true)))
  entry_cases ref k r x s v e = elim (ℕ_discrete r ref) [
    | yes here ↦
        let (t, at_r, i, live) = IsOpen-some k _ (v.good.open_streams k r e) in
        let both : some t ≡ some s = sym at_r ∙ ap (get_elem? x.heap) here ∙ v.there in
        inl (here, ground arith, ground arith)
    | no away ↦ inr (
      away,
      elim v.listed [
        | inl c ↦ inr c
        | inr l ↦ inl (λ i. away (ground (arith, ap (λ j. lookup j x.streams) i)))
      ],
    )
  ]

  missing :
      (ref k : ℕ) (x : Session Event) (s : Stream Event)
      → Follows ref x s
      → lookup k x.streams ≡ none
      → (s.id ≢ k) ⊎ (s.closed ≡ true)
  missing ref k x s v e = elim v.listed [
    | inl c ↦ inr c
    | inr l ↦ inl (λ i. absurd (ground (arith, ap (λ j. lookup j x.streams) i)))
  ]

  pub Follows-along :
      (ref : ℕ) (x : Session Event) {s t : Stream Event} → t ≡ s → Follows ref x s → Follows ref x t
  Follows-along ref x e v = rw e v

  at-Follows :
      (ref r k : ℕ) (f : Stream Event → Stream Event) (x : Session Event) (s : Stream Event)
      → Keeps f
      → Follows ref x s
      → lookup k x.streams ≡ some r
      → Good (at r f x)
      → Follows ref (at r f x) (addressed k f s)
  unfolding at
  at-Follows ref r k f x s keeps v e good = elim (entry_cases ref k r x s v e) [
    | inl (here, i, live) ↦ Follows-along ref _ (addressed_hit k f s i live) (record {
      good = good;
      there =
          ap (λ j. get_elem? (at j f x).heap ref) here ∙ get_elem?-update_self ref f x.heap v.there;
      listed = inr (ap (λ j. lookup j x.streams) ((keeps s).0 ∙ i) ∙ e ∙ ap some here);
    })
    | inr (away, other) ↦ Follows-along ref _ (addressed_miss k f s other) (record {
      good = good;
      there = get_elem?-update_ne r ref f x.heap away ∙ v.there;
      listed = v.listed;
    })
  ]

  pub with_stream-Follows :
      (ref k : ℕ) (f : Stream Event → Stream Event) (x : Session Event) (s : Stream Event)
      → Keeps f
      → Follows ref x s
      → Follows ref (with_stream k f x) (addressed k f s)
  unfolding with_stream find_stream
  with_stream-Follows ref k f x s keeps v = elim (Option-cases (lookup k x.streams)) [
    | inl e ↦
        rw (e, with_stream) (Follows-along ref x (addressed_miss k f s (missing ref k x s v e)) v)
    | inr (r, e) ↦
        rw (e, with_stream)
          (at-Follows ref r k f x s keeps v e (update-Inv f keeps r x.heap x.streams v.good))
  ]

  pub addressed-addressed :
      (k : ℕ) (f g : Stream Event → Stream Event) (s : Stream Event)
      → Keeps f
      → addressed k g (addressed k f s) ≡ addressed k (λ t. g (f t)) s
  addressed-addressed k f g s keeps = elim (Bool-cases ((s.id == k) && not s.closed)) [
    | inl e ↦ rw e (
        addressed_hit k g (f s) ((keeps s).0 ∙ ground (arith, e)) ((keeps s).1 ∙ ground (arith, e)))
    | inr e ↦ rw (e, e) refl
  ]

  pub addressed_id : (k : ℕ) (s : Stream Event) → addressed k (λ t. t) s ≡ s
  addressed_id k s = elim (Bool-cases ((s.id == k) && not s.closed)) [
    | inl e ↦ rw e refl
    | inr e ↦ rw e refl
  ]

  -- A change of the session that leaves the store and the table as they are.
  pub Follows-kept :
      (ref : ℕ) (x y : Session Event) (s : Stream Event)
      → y.heap ≡ x.heap
      → y.streams ≡ x.streams
      → Good y
      → Follows ref x s
      → Follows ref y s
  Follows-kept ref x y s h m good v = record {
    good = good;
    there = ap (λ l. get_elem? l ref) h ∙ v.there;
    listed = elim v.listed [ inl c ↦ inl c | inr l ↦ inr (ap (lookup s.id) m ∙ l) ];
  }

module _ {Event : Type 0} ⦃events : AsyncEvent Event⦄ where
  pub close_stream-Follows :
      (ref k : ℕ) (x : Session Event) (s : Stream Event)
      → Follows ref x s
      → Follows ref (close_stream k x) (addressed k on_close s)
  unfolding close_stream find_stream at
  close_stream-Follows ref k x s v = elim (Option-cases (lookup k x.streams)) [
    | inl e ↦
        rw (e, close_stream)
          (Follows-along ref x (addressed_miss k on_close s (missing ref k x s v e)) v)
    | inr (r, e) ↦
        rw (e, close_stream)
          (elim (entry_cases ref k r x s v e) [
            | inl (here, i, live) ↦
                Follows-along ref _ (addressed_hit k on_close s i live) (record {
                  good = close-Inv x.heap x.streams k r e v.good;
                  there =
                      ap (λ j. get_elem? (update j on_close x.heap) ref) here
                      ∙ get_elem?-update_self ref on_close x.heap v.there;
                  listed = inl (unfold on_close in refl);
                })
            | inr (away, other) ↦ Follows-along ref _ (addressed_miss k on_close s other) (record {
              good = close-Inv x.heap x.streams k r e v.good;
              there = get_elem?-update_ne r ref on_close x.heap away ∙ v.there;
              listed = elim v.listed [
                | inl c ↦ inl c
                | inr l ↦ elim other [
                  | inl differ ↦ inr (ground (arith, lookup-erase k s.id x.streams v.good.distinct))
                  | inr c ↦ inl c
                ]
              ];
            })
          ])
  ]
