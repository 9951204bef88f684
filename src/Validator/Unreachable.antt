-- ===== src/Validator/Unreachable.antt =====
-- The warning on unreachable states.
use text.Mathlib.Text.{◌==◌}
use fuzzing_framework.Prelude.{
  suc, String, ◌≡◌, ◌≢◌, refl, ap, ◌∙◌, subst, Bool, true, false, not, ◌&&◌, ◌||◌, Option, none,
  some, List, if◌then◌else◌, [], ◌∷◌, arith, eq_iff, length, is_in, Bool-cases, Option-cases,
  is_some, inl, inr,
}
use fuzzing_framework.Result.{ok, >>=-eq-ok}
use fuzzing_framework.Stateful.Session.{Transition}
use fuzzing_framework.Navigator.{Node, same_node, is_visited, find_path}
use fuzzing_framework.Navigator.Routes.{
  Route, stay, find_path_sound, same_node_refl, same_node_sound,
}
use fuzzing_framework.Navigator.Reach.{fresh-length, visited-cons}
use fuzzing_framework.Navigator.Complete.{find_path_complete}
use fuzzing_framework.Validator.States.{
  reach, unreached, unreachable_states, initial_nodes, unreachable_issue, all_dicts, is_empty,
  or_nothing, check_unreachable_states,
}
use fuzzing_framework.Validator.Data.{RawStateModel, Issue, unreachable}
use fuzzing_framework.Validator.Reachable.{reach-IsClosed, reach-Routed, Route-is_visited, Routed}

-- One state of the list.
unreached-seen :
    (r : String) (states : List String) (v : List Node)
    → is_visited (some r) v ≡ true
    → unreached (r ∷ states) v ≡ unreached states v
unfolding unreached
unreached-seen r states v seen = ground arith

unreached-unseen :
    (r : String) (states : List String) (v : List Node)
    → is_visited (some r) v ≡ false
    → unreached (r ∷ states) v ≡ r ∷ unreached states v
unfolding unreached
unreached-unseen r states v unseen = ground arith

same_visited :
    (r s : String) (v : List Node) → (r == s) ≡ true → is_visited (some r) v ≡ is_visited (some s) v
same_visited r s v same = ap (λ (x : String). is_visited (some x) v) ((eq_iff r s).0 same)

visited_unreached :
    (s : String) (states : List String) (v : List Node)
    → is_visited (some s) v ≡ true
    → is_in s (unreached states v) ≡ false
unfolding is_in
visited_unreached s [] v h = unfold unreached in refl
visited_unreached s (r ∷ states) v h = elim (Bool-cases (is_visited (some r) v)) [
  | inl seen ↦ cc (unreached-seen r states v seen, visited_unreached s states v h)
  | inr unseen ↦ elim (Bool-cases (r == s)) [
    | inl same ↦ cc (same_visited r s v same)
    | inr other ↦
        rw (unreached-unseen r states v unseen) (ground (arith, visited_unreached s states v h))
  ]
]

is_in-unreached :
    (s : String) (states : List String) (v : List Node)
    → is_in s states ≡ true
    → is_visited (some s) v ≡ false
    → is_in s (unreached states v) ≡ true
unfolding is_in
is_in-unreached s [] v h u = cc
is_in-unreached s (r ∷ states) v h u = elim (Bool-cases (is_visited (some r) v)) [
  | inl seen ↦ elim (Bool-cases (r == s)) [
    | inl same ↦ cc (same_visited r s v same)
    | inr other ↦ rw (unreached-seen r states v seen) (is_in-unreached s states v (ground arith) u)
  ]
  | inr unseen ↦ elim (Bool-cases (r == s)) [
    | inl same ↦ rw (unreached-unseen r states v unseen) (ground arith)
    | inr other ↦
        rw (unreached-unseen r states v unseen)
          (ground (arith, is_in-unreached s states v (ground arith) u))
  ]
]

-- The issue names the state as one that cannot be reached.
abbrev pub is_reported : String → List Issue → Bool
is_reported s [] = false
is_reported s (unreachable names ∷ issues) = is_in s names || is_reported s issues
is_reported s (_ ∷ issues) = is_reported s issues

reported_lem :
    (s : String) (names : List String) → is_reported s (unreachable_issue names) ≡ is_in s names
unfolding is_in
reported_lem s [] = refl
reported_lem s (r ∷ names) = ground arith

all_dicts-is_empty :
    (xs : List (Option Transition)) (ts : List Transition)
    → all_dicts xs ≡ ok ts
    → is_empty xs ≡ is_empty ts
unfolding all_dicts
all_dicts-is_empty [] ts e = ground arith
all_dicts-is_empty (none ∷ xs) ts e = absurd (cc e)
all_dicts-is_empty (some t ∷ xs) ts e =
    let (rest, _, same) = >>=-eq-ok (all_dicts xs) (λ rest. ok (t ∷ rest)) e in ground arith

check_lem :
    (m : RawStateModel) (states : List String) (ts : List Transition)
    → or_nothing m.states ≡ states
    → is_empty states ≡ false
    → all_dicts (or_nothing m.transitions) ≡ ok ts
    → check_unreachable_states m
      ≡ ok (
          if is_empty ts
          then []
          else unreachable_issue (unreachable_states m.initial_state states ts))
unfolding check_unreachable_states
check_lem m states ts same some_state e =
    rw (same, some_state, all_dicts-is_empty (or_nothing m.transitions) ts e) (ground arith)

initial_lem : (s : String) → s ≢ "" → initial_nodes (some s) ≡ some s ∷ []
initial_lem s named = ground (arith, eq_iff s "")

declared_some :
    (s : String) (states : List String) → is_in s states ≡ true → is_empty states ≡ false
unfolding is_in
declared_some s [] h = absurd (cc h)
declared_some s (r ∷ states) h = refl

module _ (initial : String) (named : initial ≢ "") (ts : List Transition) where
  abbrev last_reachable : List Node
  last_reachable = reach (suc (length ts)) ts (some initial ∷ [])

  start_visited : is_visited (some initial) (some initial ∷ []) ≡ true
  unfolding is_visited
  start_visited = ground (arith, same_node_refl (some initial))

  reached :
      {p : List Transition} {s : String}
      → Route ts (some initial) p (some s)
      → is_visited (some s) last_reachable ≡ true
  reached r =
      Route-is_visited ts (some initial) (some initial ∷ []) last_reachable
        (reach-IsClosed ts (suc (length ts)) (some initial ∷ [])
          (omega (arith, fresh-length (some initial ∷ []) ts)))
        start_visited r

  start-Routed : Routed ts (some initial) (some initial ∷ [])
  start-Routed x h =
      let here : same_node (some initial) x ≡ true =
        unfold is_visited in ground (arith, visited-cons x (some initial) []) in
      ([], subst (λ y. Route ts (some initial) [] y) (same_node_sound (some initial) x here) stay)

  routed :
      (s : String)
      → is_visited (some s) last_reachable ≡ true
      → (p : List Transition) × Route ts (some initial) p (some s)
  routed s =
      reach-Routed ts (some initial) (suc (length ts)) (some initial ∷ []) start-Routed (some s)

  unreachable_lem :
      (states : List String)
      → unreachable_states (some initial) states ts ≡ unreached states last_reachable
  unreachable_lem states =
      unfold unreachable_states in
      ap (λ v. unreached states (reach (suc (length ts)) ts v)) (initial_lem initial named)

  -- A declared state that the warning does not name has a route from the initial state.
  pub unreachable_states_complete :
      (s : String) (states : List String)
      → is_in s states ≡ true
      → is_in s (unreachable_states (some initial) states ts) ≡ false
      → (p : List Transition) × Route ts (some initial) p (some s)
  unreachable_states_complete s states declared quiet =
      elim (Bool-cases (is_visited (some s) last_reachable)) [
        | inl seen ↦ routed s seen
        | inr unseen ↦
            absurd
              (cc (is_in-unreached s states last_reachable declared unseen, unreachable_lem states))
      ]

  -- A state that the warning names has no route from the initial state.
  pub unreachable_states_sound :
      (s : String) (states : List String)
      → is_in s (unreachable_states (some initial) states ts) ≡ true
      → (p : List Transition) → ¬ Route ts (some initial) p (some s)
  unreachable_states_sound s states warned p r =
      cc (visited_unreached s states last_reachable (reached r), unreachable_lem states)

  -- The states left over are those to which the search finds no path.
  unreachable_states-find_path :
      (s : String) (states : List String)
      → is_in s states ≡ true
      → initial ≢ s
      → is_in s (unreachable_states (some initial) states ts)
        ≡ not (is_some (find_path ts initial s))
  unreachable_states-find_path s states declared other =
      elim (Bool-cases (is_visited (some s) last_reachable)) [
        | inl seen ↦
            let (path, found) = find_path_complete ts initial s other (routed s seen).1 in
            let quiet = visited_unreached s states last_reachable seen in
            unfold is_some in cc (unreachable_lem states)
        | inr unseen ↦
            let warned = is_in-unreached s states last_reachable declared unseen in
            elim (Option-cases (find_path ts initial s)) [
              | inl none_found ↦ unfold is_some in cc (unreachable_lem states)
              | inr (p, path) ↦
                  let contradiction = reached (find_path_sound ts initial s path) in
                  absurd (cc contradiction)
            ]
      ]

  -- Where the initial state is given and not empty and every transition is a dict, the check of the
  -- unreachable states returns, and it reports of a declared state apart from the initial one just this:
  -- it names the state if there are transitions and the navigator's search finds no path to it from the
  -- initial state. Without transitions it names none.
  pub check_unreachable_states-find_path :
      (m : RawStateModel) (s : String) (states : List String)
      → m.initial_state ≡ some initial
      → m.states ≡ some states
      → all_dicts (or_nothing m.transitions) ≡ ok ts
      → is_in s states ≡ true
      → initial ≢ s
      → (issues : List Issue) × (check_unreachable_states m ≡ ok issues)
        × (is_reported s issues ≡ not (is_empty ts) && not (is_some (find_path ts initial s)))
  check_unreachable_states-find_path m s states start given dicts declared other = (
    _,
    check_lem m states ts (ap or_nothing given) (declared_some s states declared) dicts,
    elim (Bool-cases (is_empty ts)) [
      | inl none_left ↦ ground (arith, none_left)
      | inr left ↦
          let named = reported_lem s (unreachable_states m.initial_state states ts) in
          let lost = unreachable_states-find_path s states declared other in
          let from = ap (λ (o : Option String). is_in s (unreachable_states o states ts)) start in
          rw left (named ∙ from ∙ lost)
    ],
  )
