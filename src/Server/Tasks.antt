-- ===== src/Server/Tasks.antt =====
-- The task group of src/task_group.hpp, and the loop of Server::Impl::~Impl() (src/server.cpp) that
-- runs the scheduler until no tracked coroutine is left.
use nghttp2_corosio.Base.{
  ℕ, ◌+◌, ◌-◌, ◌≡◌, refl, sym, ap, ◌∙◌, Bool, true, false, ◌||◌, List, [], ◌∷◌, ◌++◌, is_empty,
  arith, length, ltb, ◌==◌, Bool-cases, inl, inr, if◌then◌else◌,
}

pub record TaskGroup : Type 0 where
  pub count : ℕ
  pub stop_requested : Bool

unfoldable pub new_group : TaskGroup
new_group = record { count = 0; stop_requested = false }

-- spawn() counts a coroutine, and both of its completion handlers count it off. A completion without
-- its spawn would wrap the size_t; here it leaves 0.
unfoldable pub spawn : TaskGroup → TaskGroup
spawn g = record g { count = g.count + 1 }

unfoldable pub complete : TaskGroup → TaskGroup
complete g = record g { count = g.count - 1 }

unfoldable pub request_stop : TaskGroup → TaskGroup
request_stop g = record g { stop_requested = true }

-- What the io_context calls when it is destroyed.
unfoldable pub shutdown : TaskGroup → TaskGroup
unfolding request_stop
shutdown g = request_stop g

-- A tracked coroutine starts or ends.
pub data TaskEvent : Type 0 where
  started ended : ℕ → TaskEvent

unfoldable pub on_event : TaskGroup → TaskEvent → TaskGroup
unfolding spawn complete
on_event g (started id) = spawn g
on_event g (ended id) = complete g

unfoldable pub on_events : TaskGroup → List TaskEvent → TaskGroup
unfolding on_event
on_events g [] = g
on_events g (e ∷ events) = on_events (on_event g e) events

-- The scheduler's answers in one round of the drain loop: how many handlers poll() ran, and what
-- happened to tracked coroutines in it and in run_one().
pub record Round : Type 0 where
  pub polled : ℕ
  pub in_poll : List TaskEvent
  pub in_run_one : List TaskEvent

unfoldable pub drain_round : Round → TaskGroup → TaskGroup
unfolding on_events
drain_round r g =
    let g' = on_events g r.in_poll in if r.polled == 0 then on_events g' r.in_run_one else g'

pub record Drained : Type 0 where
  pub group : TaskGroup
  pub done : Bool

-- The loop, for the rounds that are given; `done` says that it has ended.
unfoldable pub drain : List Round → TaskGroup → Drained
unfolding drain_round
drain [] g = record { group = g; done = g.count == 0 }
drain (r ∷ rounds) g =
    let next = drain rounds (drain_round r g) in
    if ltb 0 g.count then next else record { group = g; done = true }

-- `~Impl()`
unfoldable pub destroy : List Round → TaskGroup → Drained
unfolding drain request_stop
destroy rounds g = drain rounds (request_stop g)

abbrev pub contains : ℕ → List ℕ → Bool
contains id [] = false
contains id (k ∷ ks) = k == id || contains id ks

abbrev pub remove : ℕ → List ℕ → List ℕ
remove id [] = []
remove id (k ∷ ks) = if k == id then ks else k ∷ remove id ks

-- The coroutines that have started and not ended.
abbrev pub outstanding : List ℕ → List TaskEvent → List ℕ
outstanding running [] = running
outstanding running (started id ∷ events) = outstanding (id ∷ running) events
outstanding running (ended id ∷ events) = outstanding (remove id running) events

-- A coroutine ends only if it runs.
abbrev pub IsPossible : List ℕ → List TaskEvent → Type 0
IsPossible running [] = Unit {0}
IsPossible running (started id ∷ events) = IsPossible (id ∷ running) events
IsPossible running (ended id ∷ events) =
    (contains id running ≡ true) × IsPossible (remove id running) events

length-remove :
    (id : ℕ) (ks : List ℕ) → contains id ks ≡ true → length (remove id ks) + 1 ≡ length ks
length-remove id [] h = absurd (cc)
length-remove id (k ∷ ks) h = ground (arith, length-remove id ks)

count-outstanding_from :
    (running : List ℕ) (events : List TaskEvent) (g : TaskGroup)
    → IsPossible running events
    → g.count ≡ length running
    → (on_events g events).count ≡ length (outstanding running events)
unfolding on_events
count-outstanding_from running [] g p e = e
count-outstanding_from running (started id ∷ events) g p e =
    count-outstanding_from (id ∷ running) events (spawn g) p (unfold spawn in omega arith)
count-outstanding_from running (ended id ∷ events) g p e =
    count-outstanding_from (remove id running) events (complete g) p.1
      (unfold complete in omega (arith, length-remove id running p.0))

-- The count of a group is the number of its coroutines that have started and not ended, whatever the
-- order in which they start and end.
pub count-outstanding :
    (events : List TaskEvent)
    → IsPossible [] events
    → (on_events new_group events).count ≡ length (outstanding [] events)
unfolding new_group
count-outstanding events p = count-outstanding_from [] events new_group p refl

on_events-stop :
    (events : List TaskEvent) (g : TaskGroup)
    → (on_events g events).stop_requested ≡ g.stop_requested
unfolding on_events
on_events-stop [] g = refl
on_events-stop (started id ∷ events) g = on_events-stop events (spawn g)
on_events-stop (ended id ∷ events) g = on_events-stop events (complete g)

drain_round-stop : (r : Round) (g : TaskGroup) → (drain_round r g).stop_requested ≡ g.stop_requested
unfolding drain_round
drain_round-stop r g = elim (Bool-cases (r.polled == 0)) [
  | inl h ↦ simp (h, on_events-stop)
  | inr h ↦ simp (h, on_events-stop)
]

-- What happens to tracked coroutines in a round: in poll(), and, if that ran no handler, in run_one().
abbrev pub happening : Round → List TaskEvent
happening r = r.in_poll ++ (if r.polled == 0 then r.in_run_one else [])

-- The coroutines that are left when none is left, or when the rounds are over.
abbrev pub left : List ℕ → List Round → List ℕ
left [] rounds = []
left (k ∷ ks) [] = k ∷ ks
left (k ∷ ks) (r ∷ rounds) = left (outstanding (k ∷ ks) (happening r)) rounds

-- As long as coroutines are left, one ends in a round only if it runs.
abbrev pub ArePossible : List ℕ → List Round → Type 0
ArePossible [] rounds = Unit {0}
ArePossible (k ∷ ks) [] = Unit {0}
ArePossible (k ∷ ks) (r ∷ rounds) =
    IsPossible (k ∷ ks) (happening r) × ArePossible (outstanding (k ∷ ks) (happening r)) rounds

on_events-append :
    (es fs : List TaskEvent) (g : TaskGroup)
    → on_events g (es ++ fs) ≡ on_events (on_events g es) fs
unfolding on_events
on_events-append [] fs g = refl
on_events-append (e ∷ es) fs g = on_events-append es fs (on_event g e)

drain_round-happening : (r : Round) (g : TaskGroup) → drain_round r g ≡ on_events g (happening r)
unfolding drain_round on_events
drain_round-happening r g = elim (Bool-cases (r.polled == 0)) [
  | inl h ↦ rw h (sym (on_events-append r.in_poll r.in_run_one g))
  | inr h ↦ rw h (sym (on_events-append r.in_poll [] g))
]

-- What the drain loop comes to, when `running` are the coroutines at its start.
pub record IsDrained (running : List ℕ) (rounds : List Round) (d : Drained) : Type 0 where
  pub counted : d.group.count ≡ length (left running rounds)
  pub over : d.done ≡ is_empty (left running rounds)

drain-IsDrained :
    (running : List ℕ) (rounds : List Round) (g : TaskGroup)
    → g.count ≡ length running
    → ArePossible running rounds
    → IsDrained running rounds (drain rounds g)
unfolding drain
drain-IsDrained [] [] g e p = record { counted = e; over = ground (arith, e) }
drain-IsDrained (k ∷ ks) [] g e p = record { counted = e; over = ground (arith, e) }
drain-IsDrained [] (r ∷ rounds) g e p = rw (none_left e) (record { counted = e; over = refl })
  where
    none_left : g.count ≡ 0 → ltb 0 g.count ≡ false
    none_left e = ground arith
drain-IsDrained (k ∷ ks) (r ∷ rounds) g e p =
    let d =
      drain-IsDrained (outstanding (k ∷ ks) (happening r)) rounds (drain_round r g)
        (ap (λ (h : TaskGroup). h.count) (drain_round-happening r g)
          ∙ count-outstanding_from (k ∷ ks) (happening r) g p.0 e)
        p.1 in
    rw some_left (record { counted = d.counted; over = d.over })
  where
    some_left : ltb 0 g.count ≡ true
    some_left = ground (arith, e)

drain-stop :
    (rounds : List Round) (g : TaskGroup) → (drain rounds g).group.stop_requested ≡ g.stop_requested
unfolding drain
drain-stop [] g = refl
drain-stop (r ∷ rounds) g =
    let after = drain-stop rounds (drain_round r g) in
    let round = drain_round-stop r g in
    elim (Bool-cases (ltb 0 g.count)) [ inl h ↦ simp (h, after, round) | inr h ↦ simp h ]

-- The destructor of a server, when the count of the group is the number of its coroutines, and in each
-- round a coroutine ends only if it runs: it asks all to stop; it goes on while any of them runs, and has
-- ended with the first round after which none is left, those started meanwhile included, and not before;
-- and the count is the number of those that are left.
pub destroy_lem :
    (running : List ℕ) (rounds : List Round) (g : TaskGroup)
    → g.count ≡ length running
    → ArePossible running rounds
    → IsDrained running rounds (destroy rounds g) × ((destroy rounds g).group.stop_requested ≡ true)
unfolding destroy request_stop
destroy_lem running rounds g e p =
    (drain-IsDrained running rounds (request_stop g) e p, drain-stop rounds (request_stop g))
