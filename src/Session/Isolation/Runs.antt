-- ===== src/Session/Isolation/Runs.antt =====
-- The streams of a running session (src/session.cpp, src/stream_impl.hpp) against the same streams each
-- on its own.
use nghttp2_corosio.Base.{
  ℕ, ◌≡◌, sym, ap, ◌∙◌, ◌↔◌, inl, inr, false, some, List, [], ◌∷◌, arith, Bytes, get_elem?,
}
use nghttp2_corosio.Capy.{AsyncEvent, BufferCopy}
use nghttp2_corosio.Stream.{Stream}
use nghttp2_corosio.Session.{Session, Role, new_session, lookup, find_stream}
use nghttp2_corosio.Session.Inputs.{Input, step, run}
use nghttp2_corosio.Session.Lifetime.{after, new_session-Good}
use nghttp2_corosio.Session.Preservation.{Good, AreFresh, run-Good}
use nghttp2_corosio.Session.WellFormed.{IsOpen-some}
use nghttp2_corosio.Session.Isolation.{evolve, replay}
use nghttp2_corosio.Session.Isolation.Routing.{Follows}
use nghttp2_corosio.Session.Isolation.Steps.{step-Follows}

module _ {Event : Type 0} ⦃events : AsyncEvent Event⦄ ⦃buffers : BufferCopy⦄ where
  pub run-Follows :
      (ref : ℕ) (x : Session Event) (is : List Input) (s : Stream Event)
      → AreFresh x is
      → Follows ref x s
      → Follows ref (run x is) (replay ref is s)
  unfolding run
  run-Follows ref x [] s fresh v = v
  run-Follows ref x (i ∷ is) s fresh v =
      run-Follows ref (step x i) is (evolve ref i s) fresh.1 (step-Follows ref x i s fresh.0 v)

  -- The object at `ref` is `s`, and its identifier leads to it exactly while it is open.
  pub record Mirrors (ref : ℕ) (x : Session Event) (s : Stream Event) : Type 0 where
    pub holds : get_elem? x.heap ref ≡ some s
    pub found : (find_stream x s.id ≡ some ref) ↔ (s.closed ≡ false)

  Follows-Mirrors :
      (ref : ℕ) (x : Session Event) (s : Stream Event) → Follows ref x s → Mirrors ref x s
  unfolding find_stream
  Follows-Mirrors ref x s v = record {
    holds = v.there;
    found = (open_if_listed, λ live. elim v.listed [ inl c ↦ absurd (ground arith) | inr l ↦ l ]);
  }
    where
      open_if_listed : find_stream x s.id ≡ some ref → s.closed ≡ false
      open_if_listed e =
          let (t, at_ref, _, live) = IsOpen-some s.id _ (v.good.open_streams s.id ref e) in
          let both : some t ≡ some s = sym at_ref ∙ v.there in ground arith

  -- A new session is run by any sequence of callbacks and calls in which nghttp2 opens streams under
  -- identifiers that are not in use, until its table leads from an identifier to the object `ref`, which is
  -- `s`. However the session goes on, with any other streams and with any calls on them, the object at
  -- `ref` is what `s` becomes on its own, by the inputs that name its reference and, while it is open, those
  -- that name its identifier; and its identifier leads to it exactly while it is open.
  pub run-Mirrors :
      (role : Role) (tag : Bytes) (before is : List Input) (id ref : ℕ) (s : Stream Event)
      → AreFresh {Event = Event} (new_session role tag) before
      → AreFresh {Event = Event} (after role tag before) is
      → find_stream {Event = Event} (after role tag before) id ≡ some ref
      → get_elem? (after {Event = Event} role tag before).heap ref ≡ some s
      → Mirrors ref (run (after role tag before) is) (replay ref is s)
  unfolding find_stream
  run-Mirrors role tag before is id ref s fresh fresh' found there =
      let x = after {Event = Event} role tag before in
      let good : Good {Event = Event} x =
        run-Good (new_session role tag) before fresh (new_session-Good role tag) in
      let (t, at_ref, i, _) = IsOpen-some id _ (good.open_streams id ref found) in
      let both : some t ≡ some s = sym at_ref ∙ there in
      let same : s.id ≡ id = ground arith in
      Follows-Mirrors ref _ _ (
        run-Follows ref x is s fresh' (record {
          good = good;
          there = there;
          listed = inr (ap (λ j. lookup j x.streams) same ∙ found);
        }))
