-- ===== src/Navigator.antt =====
-- core/engine/state_navigator.py: `find_path_to_state`, a breadth-first search over the transitions.
pub mod Routes
pub mod Reach
pub mod Complete
pub mod Drive
pub mod Deferred
pub mod Select
pub mod Message
use text.Mathlib.Text.{◌==◌}
use fuzzing_framework.Prelude.{
  ℕ, zero, suc, String, Bool, true, false, ◌||◌, Option, none, some, List, [], ◌∷◌, ◌++◌, length,
  if◌then◌else◌,
}
use fuzzing_framework.Stateful.Session.{Transition}

-- What `transition.get("from")` and `transition.get("to")` give; `none` is `None`.
abbrev pub Node : Type 0
Node = Option String

unfoldable pub same_node : Node → Node → Bool
same_node none none = true
same_node (some a) (some b) = a == b
same_node _ _ = false

-- `to_state in visited`
unfoldable pub is_visited : Node → List Node → Bool
unfolding same_node
is_visited x [] = false
is_visited x (y ∷ visited) = same_node y x || is_visited x visited

-- What a round of the inner loop does with a transition: `continue`, `return`, or `queue.append`.
pub data Visit : Type 0 where
  passed goal entered : Visit

unfoldable pub visit : Node → Node → List Node → Transition → Visit
unfolding same_node is_visited
visit target state visited t =
    if same_node t.from_state state
    then (if is_visited t.to_state visited
        then passed
        else if same_node t.to_state target
        then goal
        else entered)
    else passed

-- An entry of the queue: a state and the path to it.
abbrev pub Entry : Type 0
Entry = Node × List Transition

-- The inner loop ends with a path, or with the new `visited` and `queue`.
pub data Scan : Type 0 where
  found : List Transition → Scan
  scanned : List Node → List Entry → Scan

-- `for transition in transitions: …`
unfoldable pub scan :
    Node → Node → List Transition → List Transition → List Node → List Entry → Scan
unfolding visit
scan target state path [] visited queue = scanned visited queue
scan target state path (t ∷ ts) visited queue = elim (visit target state visited t) [
  | passed ↦ scan target state path ts visited queue
  | goal ↦ found (path ++ t ∷ [])
  | entered ↦
      scan target state path ts (t.to_state ∷ visited) (queue ++ (t.to_state, path ++ t ∷ []) ∷ [])
]

-- `while queue: …`, with fuel.
unfoldable pub search :
    ℕ → Node → List Transition → List Entry → List Node → Option (List Transition)
unfolding scan
search zero target ts queue visited = none
search (suc fuel) target ts [] visited = none
search (suc fuel) target ts ((state, path) ∷ queue) visited =
    elim (scan target state path ts visited queue) [
      | found p ↦ some p
      | scanned v q ↦ search fuel target ts q v
    ]

-- The search from a state: each round takes an entry from the queue, and each transition enters one
-- state at most.
unfoldable pub find_path : List Transition → String → String → Option (List Transition)
unfolding search
find_path ts current target =
    search (suc (length ts)) (some target) ts ((some current, []) ∷ []) (some current ∷ [])

-- `new_path[0].get("message_type")`
unfoldable pub first_message : Option (List Transition) → Option String
first_message none = none
first_message (some []) = none
first_message (some (t ∷ p)) = t.message_type

-- `find_path_to_state`; `here` is what `get_message_type_for_state` gives, which draws at random.
unfoldable pub find_path_to_state :
    Option String → List Transition → String → String → Option String
unfolding find_path first_message
find_path_to_state here ts current target =
    if current == target then here else first_message (find_path ts current target)
