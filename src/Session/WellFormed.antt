-- ===== src/Session/WellFormed.antt =====
-- The invariant that ties a session's table of streams to the Stream objects it made
-- (src/session_impl.hpp), and the operations of src/session.cpp that keep it.
use nghttp2_corosio.Base.{
  ℕ, ◌≡◌, refl, ap, ◌∙◌, ◌⊎◌, inl, inr, ◌≢◌, true, false, Option, none, some, List, [], ◌∷◌, ◌++◌,
  arith, length, get_elem?, get_elem?_lt, get_elem?-append_left, get_elem?-append_last, ◌==◌,
  Bool-cases, ==_iff, ℕ_discrete,
}
use nghttp2_corosio.Capy.{AsyncEvent}
use nghttp2_corosio.Stream.{Stream, on_close}
use nghttp2_corosio.Session.{lookup, emplace, erase, update}
use nghttp2_corosio.Session.Table.{
  Distinct, lookup-emplace, emplace-Distinct, lookup-erase, erase-Distinct, get_elem?-update_ne,
  get_elem?-update_self, get_elem?-update_inv, get_elem?-append_inv,
}

module _ {Event : Type 0} where
  -- An open stream of that identifier.
  abbrev pub IsOpen : ℕ → Option (Stream Event) → Type 0
  IsOpen id none = ⊥
  IsOpen id (some s) = (s.id ≡ id) × (s.closed ≡ false)

  -- Identifier 0 is that of a request which nghttp2 has refused.
  abbrev pub IsTracked : List (ℕ × ℕ) → ℕ → Stream Event → Type 0
  IsTracked m ref s = (s.closed ≡ true) ⊎ ((lookup s.id m ≡ some ref) ⊎ (s.id ≡ 0))

  -- Every entry leads to an open stream of its identifier; every stream is closed, or in the table.
  pub record Inv (heap : List (Stream Event)) (m : List (ℕ × ℕ)) : Type 0 where
    pub distinct : Distinct m
    pub open_streams : (id ref : ℕ) → lookup id m ≡ some ref → IsOpen id (get_elem? heap ref)
    pub tracked : (ref : ℕ) (s : Stream Event) → get_elem? heap ref ≡ some s → IsTracked m ref s

  pub IsOpen-some :
      (id : ℕ) (o : Option (Stream Event))
      → IsOpen id o
      → (s : Stream Event) × (o ≡ some s) × (s.id ≡ id) × (s.closed ≡ false)
  IsOpen-some id none h = absurd h
  IsOpen-some id (some s) h = (s, refl, h.0, h.1)

  IsOpen-of :
      (id : ℕ) (o : Option (Stream Event)) (s : Stream Event)
      → o ≡ some s
      → s.id ≡ id
      → s.closed ≡ false
      → IsOpen id o
  IsOpen-of id o s e i c = rw e (i, c)

  -- A new stream that enters the table under a fresh identifier.
  pub enter-Inv :
      (heap : List (Stream Event)) (m : List (ℕ × ℕ)) (s0 : Stream Event)
      → lookup s0.id m ≡ none
      → s0.closed ≡ false
      → Inv heap m
      → Inv (heap ++ s0 ∷ []) (emplace s0.id (length heap) m)
  enter-Inv heap m s0 fresh c v = record {
    distinct = emplace-Distinct s0.id (length heap) m fresh v.distinct;
    open_streams = λ id ref e. entry id ref (Bool-cases (s0.id == id)) e;
    tracked = λ ref s e. track ref s (get_elem?-append_inv heap s0 ref s e);
  }
    where
      entry :
          (id ref : ℕ)
          → ((s0.id == id) ≡ true) ⊎ ((s0.id == id) ≡ false)
          → lookup id (emplace s0.id (length heap) m) ≡ some ref
          → IsOpen id (get_elem? (heap ++ s0 ∷ []) ref)
      entry id ref (inl same) e =
          let here : length heap ≡ ref =
            ground (arith, lookup-emplace s0.id (length heap) id m fresh) in
          IsOpen-of id _ s0 (rw (← here) (get_elem?-append_last heap s0)) ((==_iff _ _).0 same) c
      entry id ref (inr differ) e =
          let old : lookup id m ≡ some ref =
            ground (arith, lookup-emplace s0.id (length heap) id m fresh) in
          let (s, there, i, live) = IsOpen-some id _ (v.open_streams id ref old) in
          IsOpen-of id _ s
            (get_elem?-append_left heap (s0 ∷ []) ref (get_elem?_lt heap ref there) ∙ there) i live

      track :
          (ref : ℕ) (s : Stream Event)
          → (get_elem? heap ref ≡ some s) ⊎ ((ref ≡ length heap) × (s ≡ s0))
          → IsTracked (emplace s0.id (length heap) m) ref s
      track ref s (inl old) =
          ground (arith, v.tracked ref s old, lookup-emplace s0.id (length heap) s.id m fresh)
      track ref s (inr (last, new)) =
          ground (arith, lookup-emplace s0.id (length heap) s0.id m fresh)

  -- A stream that does not enter the table: the placeholder of a refused request.
  pub discard-Inv :
      (heap : List (Stream Event)) (m : List (ℕ × ℕ)) (s0 : Stream Event)
      → s0.id ≡ 0
      → Inv heap m
      → Inv (heap ++ s0 ∷ []) m
  discard-Inv heap m s0 z v = record {
    distinct = v.distinct;
    open_streams = λ id ref e.
        let (s, there, i, live) = IsOpen-some id _ (v.open_streams id ref e) in
        IsOpen-of id _ s
          (get_elem?-append_left heap (s0 ∷ []) ref (get_elem?_lt heap ref there) ∙ there) i live;
    tracked = λ ref s e. elim (get_elem?-append_inv heap s0 ref s e) [
      | inl old ↦ v.tracked ref s old
      | inr (last, new) ↦ inr (inr (ap (λ (t : Stream Event). t.id) new ∙ z))
    ];
  }

  -- A method that changes neither the identifier nor whether the stream is closed.
  pub update-Inv :
      (f : Stream Event → Stream Event)
      → ((s : Stream Event) → ((f s).id ≡ s.id) × ((f s).closed ≡ s.closed))
      → (r : ℕ) (heap : List (Stream Event)) (m : List (ℕ × ℕ)) → Inv heap m
      → Inv (update r f heap) m
  update-Inv f keeps r heap m v = record {
    distinct = v.distinct;
    open_streams = λ id ref e.
        let (s, there, i, live) = IsOpen-some id _ (v.open_streams id ref e) in
        elim (ℕ_discrete r ref) [
          | yes same ↦
              IsOpen-of id _ (f s) (rw same (get_elem?-update_self ref f heap there))
                ((keeps s).0 ∙ i) ((keeps s).1 ∙ live)
          | no differ ↦ IsOpen-of id _ s (get_elem?-update_ne r ref f heap differ ∙ there) i live
        ];
    tracked = λ ref s e. elim (get_elem?-update_inv r ref f heap s e) [
      | inl (t, same, there, made) ↦ ground (arith, v.tracked ref t there, keeps t)
      | inr (differ, there) ↦ v.tracked ref s there
    ];
  }

module _ {Event : Type 0} ⦃events : AsyncEvent Event⦄ where
  -- close_stream() on an entry: the stream is closed and leaves the table.
  pub close-Inv :
      (heap : List (Stream Event)) (m : List (ℕ × ℕ)) (id ref : ℕ)
      → lookup id m ≡ some ref
      → Inv heap m
      → Inv (update ref on_close heap) (erase id m)
  unfolding on_close
  close-Inv heap m id ref e v = record {
    distinct = erase-Distinct id m v.distinct;
    open_streams = λ j r f. entry j r (Bool-cases (id == j)) f;
    tracked = λ r s f. elim (get_elem?-update_inv ref r on_close heap s f) [
      | inl (t, same, there, made) ↦ inl (ground arith)
      | inr (differ, there) ↦ kept r s differ there (v.tracked r s there)
    ];
  }
    where
      closing : IsOpen id (get_elem? heap ref)
      closing = v.open_streams id ref e

      entry :
          (j r : ℕ)
          → ((id == j) ≡ true) ⊎ ((id == j) ≡ false)
          → lookup j (erase id m) ≡ some r
          → IsOpen j (get_elem? (update ref on_close heap) r)
      entry j r (inl same) f = absurd (ground (arith, lookup-erase id j m v.distinct))
      entry j r (inr differ) f =
          let old : lookup j m ≡ some r = ground (arith, lookup-erase id j m v.distinct) in
          let (s, there, i, live) = IsOpen-some j _ (v.open_streams j r old) in
          let (t, at_ref, k, _) = IsOpen-some id _ closing in
          let apart : ref ≢ r = λ same. ground (arith, ap (get_elem? heap) same) in
          IsOpen-of j _ s (get_elem?-update_ne ref r on_close heap apart ∙ there) i live

      kept :
          (r : ℕ) (s : Stream Event)
          → ref ≢ r
          → get_elem? heap r ≡ some s
          → IsTracked m r s
          → IsTracked (erase id m) r s
      kept r s differ there (inl c) = inl c
      kept r s differ there (inr (inl l)) =
          inr (inl (ground (arith, lookup-erase id s.id m v.distinct, differ)))
      kept r s differ there (inr (inr z)) = inr (inr z)

-- What a stream that was made has come to at the end of a session.
module _ {Event : Type 0} where
  abbrev pub IsSettled : Stream Event → Type 0
  IsSettled s = (s.closed ≡ true) ⊎ (s.id ≡ 0)
