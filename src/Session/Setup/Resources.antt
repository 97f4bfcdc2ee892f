-- ===== src/Session/Setup/Resources.antt =====
-- Whether the objects that nghttp2 makes for a session (src/session.cpp) are used and freed rightly.
use nghttp2_corosio.Base.{
  ℕ, ◌≡◌, refl, Bool, true, false, ◌+◌, ◌&&◌, Option, none, some, List, [], ◌∷◌, if◌then◌else◌,
}
use nghttp2_corosio.Session.{Role, server, client}
use nghttp2_corosio.Session.Setup.{
  Call, option_new, callbacks_new, session_new, no_auto_window_update, register, submit_settings,
  set_local_window_size, drive, option_del, callbacks_del, session_del, Answers, completed, thrown,
  Outcome, run_all, life,
}

-- An object before it is made, while it lives, and after it was freed.
pub data Object : Type 0 where
  unmade live freed : Object

pub record Objects : Type 0 where
  pub option : Object
  pub callbacks : Object
  pub session : Object

-- An object is made at most once,
abbrev make : Bool → Object → Option Object
make true unmade = some live
make false unmade = some unmade
make made live = none
make made freed = none

-- used only while it lives,
abbrev is_live : Object → Bool
is_live live = true
is_live unmade = false
is_live freed = false

-- and freed once.
abbrev free : Object → Option Object
free live = some freed
free unmade = none
free freed = none

-- The objects after a call, or `none` if the call may not be made: a session is made from live
-- options and callbacks.
abbrev pub perform : Call → Objects → Option Objects
perform (option_new made) o = elim (make made o.option) [
  | none ↦ none
  | some x ↦ some (record o { option = x })
]
perform (callbacks_new made) o = elim (make made o.callbacks) [
  | none ↦ none
  | some x ↦ some (record o { callbacks = x })
]
perform (session_new role made) o =
    if is_live o.option && is_live o.callbacks
    then elim (make made o.session) [ none ↦ none | some x ↦ some (record o { session = x }) ]
    else none
perform no_auto_window_update o = if is_live o.option then some o else none
perform (register c) o = if is_live o.callbacks then some o else none
perform (submit_settings entries) o = if is_live o.session then some o else none
perform (set_local_window_size n) o = if is_live o.session then some o else none
perform drive o = if is_live o.session then some o else none
perform option_del o = elim (free o.option) [
  | none ↦ none
  | some x ↦ some (record o { option = x })
]
perform callbacks_del o = elim (free o.callbacks) [
  | none ↦ none
  | some x ↦ some (record o { callbacks = x })
]
perform session_del o = elim (free o.session) [
  | none ↦ none
  | some x ↦ some (record o { session = x })
]

abbrev pub perform_all : List Call → Objects → Option Objects
perform_all [] o = some o
perform_all (c ∷ cs) o = elim (perform c o) [ none ↦ none | some o' ↦ perform_all cs o' ]

abbrev pub nothing_made : Objects
nothing_made = record { option = unmade; callbacks = unmade; session = unmade }

-- What was made is freed.
abbrev pub freed_if : Bool → Object
freed_if true = freed
freed_if false = unmade

abbrev pub is_completed : Outcome → Bool
is_completed completed = true
is_completed (thrown message) = false

abbrev pub drives : List Call → ℕ
drives [] = 0
drives (drive ∷ cs) = 1 + drives cs
drives (option_new made ∷ cs) = drives cs
drives (callbacks_new made ∷ cs) = drives cs
drives (session_new role made ∷ cs) = drives cs
drives (no_auto_window_update ∷ cs) = drives cs
drives (register c ∷ cs) = drives cs
drives (submit_settings entries ∷ cs) = drives cs
drives (set_local_window_size n ∷ cs) = drives cs
drives (option_del ∷ cs) = drives cs
drives (callbacks_del ∷ cs) = drives cs
drives (session_del ∷ cs) = drives cs

pub record IsClean (role : Role) (a : Answers) : Type 0 where
  pub objects :
      perform_all (life role a) nothing_made
      ≡ some (record {
        option = freed_if a.option_made;
        callbacks = freed_if (a.option_made && a.callbacks_made);
        session = freed_if (a.option_made && (a.callbacks_made && a.session_made));
      })
  pub completes :
      is_completed (run_all role a).outcome ≡ a.option_made && (a.callbacks_made && a.session_made)
  pub driven : drives (life role a) ≡ (if is_completed (run_all role a).outcome then 1 else 0)

life_cases :
    (role : Role) (o c s : Bool)
    → IsClean role (record { option_made = o; callbacks_made = c; session_made = s })
unfolding life
life_cases server false c s = record { objects = refl; completes = refl; driven = refl }
life_cases server true false s = record { objects = refl; completes = refl; driven = refl }
life_cases server true true false = record { objects = refl; completes = refl; driven = refl }
life_cases server true true true = record { objects = refl; completes = refl; driven = refl }
life_cases client false c s = record { objects = refl; completes = refl; driven = refl }
life_cases client true false s = record { objects = refl; completes = refl; driven = refl }
life_cases client true true false = record { objects = refl; completes = refl; driven = refl }
life_cases client true true true = record { objects = refl; completes = refl; driven = refl }

-- Whichever of its objects nghttp2 fails to make, for a session that is run and then destroyed: every
-- call finds the objects that it uses alive, no object is made or freed twice, and in the end every
-- object that was made has been freed; run() completes exactly if all three were made, and throws
-- otherwise; and the loops run once if it completes, and never if not.
pub life-IsClean : (role : Role) (a : Answers) → IsClean role a
life-IsClean role a = life_cases role a.option_made a.callbacks_made a.session_made
