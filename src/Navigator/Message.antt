-- ===== src/Navigator/Message.antt =====
-- The message that `find_path_to_state` returns: the one of the path's first transition.
use mathlib.Core.List.{Memᴰ}
use fuzzing_framework.Prelude.{
  String, ◌≡◌, ◌≢◌, refl, sym, ◌∙◌, Option, none, some, List, [], ◌∷◌, ◌++◌, arith, eq_iff,
}
use fuzzing_framework.Stateful.Session.{Transition}
use fuzzing_framework.Navigator.{Node, find_path, first_message, find_path_to_state}
use fuzzing_framework.Navigator.Routes.{Route, stay, onward, find_path_sound}

-- How a route begins.
abbrev Begins : List Transition → Node → List Transition → Node → Type 0
Begins ts from [] x = x ≡ from
Begins ts from (t ∷ p) x = Memᴰ t ts × (t.from_state ≡ from)

Route-Begins :
    (ts : List Transition) (from : Node) {p : List Transition} {x : Node}
    → Route ts from p x
    → Begins ts from p x
Route-Begins ts from stay = refl
Route-Begins ts from (onward p t r m) = by_path p (Route-Begins ts from r)
  where
    by_path :
        (p : List Transition)
        → Begins ts from p t.from_state
        → Begins ts from (p ++ t ∷ []) t.to_state
    by_path [] same = (m, same)
    by_path (u ∷ p) begins = begins

find_path_to_state-elsewhere :
    (here : Option String) (ts : List Transition) (current target : String)
    → current ≢ target
    → find_path_to_state here ts current target ≡ first_message (find_path ts current target)
unfolding find_path_to_state
find_path_to_state-elsewhere here ts current target elsewhere =
    ground (arith, eq_iff current target)

-- Away from the target, the message that is returned is the `message_type` of a declared transition
-- that leaves the current state and begins a route to the target.
pub find_path_to_state_sound :
    (here : Option String) (ts : List Transition) (current target m : String)
    → current ≢ target
    → find_path_to_state here ts current target ≡ some m
    → (t : Transition) × (p : List Transition) × Route ts (some current) (t ∷ p) (some target)
      × Memᴰ t ts
      × (t.from_state ≡ some current)
      × (t.message_type ≡ some m)
find_path_to_state_sound here ts current target m elsewhere e =
    by_path (find_path ts current target) refl
      (sym (find_path_to_state-elsewhere here ts current target elsewhere) ∙ e)
  where
    by_path :
        (o : Option (List Transition))
        → find_path ts current target ≡ o
        → first_message o ≡ some m
        → (t : Transition) × (p : List Transition) × Route ts (some current) (t ∷ p) (some target)
          × Memᴰ t ts
          × (t.from_state ≡ some current)
          × (t.message_type ≡ some m)
    by_path none e message = absurd (unfold first_message in cc message)
    by_path (some []) e message = absurd (unfold first_message in cc message)
    by_path (some (t ∷ p)) e message =
        let r = find_path_sound ts current target e in
        let (declared, leaves) = Route-Begins ts (some current) r in
        (t, p, r, declared, leaves, unfold first_message in message)
