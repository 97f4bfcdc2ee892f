-- ===== src/Session/Table.antt =====
-- The table of streams and the store of Stream objects of src/session.cpp, operation by operation.
use nghttp2_corosio.Base.{
  ℕ, zero, suc, ◌≡◌, refl, ap, ◌⊎◌, inl, inr, ◌≢◌, none, some, List, [], ◌∷◌, ◌++◌, arith, length,
  get_elem?, ◌==◌, if◌then◌else◌,
}
use nghttp2_corosio.Stream.{Stream}
use nghttp2_corosio.Session.{lookup, emplace, erase, update}

abbrev pub Distinct : List (ℕ × ℕ) → Type 0
Distinct [] = Unit {0}
Distinct ((k, ref) ∷ m) = (lookup k m ≡ none) × Distinct m

pub lookup-emplace :
    (id ref j : ℕ) (m : List (ℕ × ℕ))
    → lookup id m ≡ none
    → lookup j (emplace id ref m) ≡ (if id == j then some ref else lookup j m)
unfolding emplace
lookup-emplace id ref j m e = ground arith

pub emplace-Distinct :
    (id ref : ℕ) (m : List (ℕ × ℕ)) → lookup id m ≡ none → Distinct m → Distinct (emplace id ref m)
unfolding emplace
emplace-Distinct id ref m e d = rw (e, emplace) (e, d)

pub lookup-erase :
    (id j : ℕ) (m : List (ℕ × ℕ))
    → Distinct m
    → lookup j (erase id m) ≡ (if id == j then none else lookup j m)
unfolding lookup erase
lookup-erase id j [] d = ground arith
lookup-erase id j ((k, ref) ∷ m) d = ground (arith, lookup-erase id j m d.1)

pub erase-Distinct : (id : ℕ) (m : List (ℕ × ℕ)) → Distinct m → Distinct (erase id m)
unfolding erase
erase-Distinct id [] d = tt
erase-Distinct id ((k, ref) ∷ m) d =
    ground (arith, lookup-erase id k m d.1, erase-Distinct id m d.1)

module _ {Event : Type 0} where
  pub get_elem?-update_ne :
      (ref i : ℕ) (f : Stream Event → Stream Event) (heap : List (Stream Event))
      → ref ≢ i
      → get_elem? (update ref f heap) i ≡ get_elem? heap i
  unfolding update
  get_elem?-update_ne ref i f [] h = refl
  get_elem?-update_ne zero zero f (s ∷ heap) h = absurd (h refl)
  get_elem?-update_ne zero (suc i) f (s ∷ heap) h = refl
  get_elem?-update_ne (suc ref) zero f (s ∷ heap) h = refl
  get_elem?-update_ne (suc ref) (suc i) f (s ∷ heap) h =
      get_elem?-update_ne ref i f heap (λ e. h (ap suc e))

  pub get_elem?-update_self :
      (ref : ℕ) (f : Stream Event → Stream Event) (heap : List (Stream Event)) {s : Stream Event}
      → get_elem? heap ref ≡ some s
      → get_elem? (update ref f heap) ref ≡ some (f s)
  unfolding update
  get_elem?-update_self ref f [] e = absurd (cc)
  get_elem?-update_self zero f (t ∷ heap) e = ground arith
  get_elem?-update_self (suc ref) f (t ∷ heap) e = get_elem?-update_self ref f heap e

  -- What an updated store holds is what it held, or the updated object.
  pub get_elem?-update_inv :
      (ref i : ℕ) (f : Stream Event → Stream Event) (heap : List (Stream Event)) (s : Stream Event)
      → get_elem? (update ref f heap) i ≡ some s
      → ((t : Stream Event) × (ref ≡ i) × (get_elem? heap i ≡ some t) × (s ≡ f t))
        ⊎ ((ref ≢ i) × (get_elem? heap i ≡ some s))
  unfolding update
  get_elem?-update_inv ref i f [] s e = absurd (cc)
  get_elem?-update_inv zero zero f (t ∷ heap) s e = inl (t, refl, refl, ground arith)
  get_elem?-update_inv zero (suc i) f (t ∷ heap) s e = inr (omega arith, e)
  get_elem?-update_inv (suc ref) zero f (t ∷ heap) s e = inr (omega arith, e)
  get_elem?-update_inv (suc ref) (suc i) f (t ∷ heap) s e =
      elim (get_elem?-update_inv ref i f heap s e) [
        | inl (u, same, there, made) ↦ inl (u, ap suc same, there, made)
        | inr (differ, there) ↦ inr (omega (arith, differ), there)
      ]

  pub get_elem?-append_inv :
      (heap : List (Stream Event)) (s0 : Stream Event) (i : ℕ) (s : Stream Event)
      → get_elem? (heap ++ s0 ∷ []) i ≡ some s
      → (get_elem? heap i ≡ some s) ⊎ ((i ≡ length heap) × (s ≡ s0))
  get_elem?-append_inv [] s0 zero s e = inr (refl, ground arith)
  get_elem?-append_inv [] s0 (suc i) s e = absurd (cc)
  get_elem?-append_inv (t ∷ heap) s0 zero s e = inl e
  get_elem?-append_inv (t ∷ heap) s0 (suc i) s e = elim (get_elem?-append_inv heap s0 i s e) [
    | inl old ↦ inl old
    | inr (last, new) ↦ inr (ap suc last, new)
  ]

  pub update-append_last :
      (heap : List (Stream Event)) (s0 : Stream Event) (f : Stream Event → Stream Event)
      → update (length heap) f (heap ++ s0 ∷ []) ≡ heap ++ f s0 ∷ []
  unfolding update
  update-append_last [] s0 f = refl
  update-append_last (t ∷ heap) s0 f = ap (λ r. t ∷ r) (update-append_last heap s0 f)
