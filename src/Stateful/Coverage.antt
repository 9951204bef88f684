-- ===== src/Stateful/Coverage.antt =====
-- `get_state_coverage` and `get_transition_coverage`.
use Prim.Native.String.{◌++◌ as concat}
use text.Mathlib.Text.{◌==◌}
use fuzzing_framework.Prelude.{
  ℕ, ◌+◌, String, Bool, not, ◌&&◌, Option, none, some, List, [], ◌∷◌, if◌then◌else◌,
}
use fuzzing_framework.Dict.{Dict, get, put}
use fuzzing_framework.Stateful.Session.{HistoryRecord, Session}

-- `counts.get(k, 0)`
abbrev pub or_zero : Option ℕ → ℕ
or_zero none = 0
or_zero (some n) = n

unfoldable pub count_of : String → Dict ℕ → ℕ
count_of k d = or_zero (get k d)

-- `counts[k] = counts.get(k, 0) + n`
unfoldable pub add_count : String → ℕ → Dict ℕ → Dict ℕ
unfolding count_of
add_count k n d = put k (count_of k d + n) d

-- `record.get("success") and record.get("to")`
abbrev pub arrival : HistoryRecord → Option String
arrival r =
    if r.success
    then elim r.to_state [ none ↦ none | some s ↦ if s == "" then none else some s ]
    else none

abbrev pub count_arrival : Option String → Dict ℕ → Dict ℕ
count_arrival none d = d
count_arrival (some s) d = add_count s 1 d

-- `Counter` over the successful records of the history
unfoldable pub count_visits : List HistoryRecord → Dict ℕ → Dict ℕ
unfolding add_count
count_visits [] d = d
count_visits (r ∷ rs) d = count_visits rs (count_arrival (arrival r) d)

-- `for state, count in offset.items(): …`
unfoldable pub add_counts : Dict ℕ → Dict ℕ → Dict ℕ
unfolding add_count
add_counts [] d = d
add_counts ((k, n) ∷ offset) d = add_counts offset (add_count k n d)

abbrev pub or_put : String → Option ℕ → Dict ℕ → Dict ℕ
or_put s none d = put s 0 d
or_put s (some n) d = d

-- `if state not in visits: visits[state] = 0`
unfoldable pub add_zeros : List String → Dict ℕ → Dict ℕ
add_zeros [] d = d
add_zeros (s ∷ ss) d = add_zeros ss (or_put s (get s d) d)

-- The test by which the current state is counted.
unfoldable pub counts_current : Session → Bool
counts_current s =
    not (s.current_state == "") && not (s.resumed_from_offsets && not s.has_new_activity)

unfoldable pub get_state_coverage : Session → Dict ℕ
unfolding count_visits add_counts add_zeros counts_current add_count
get_state_coverage s =
    let visits = count_visits s.state_history [] in
    let with_current = if counts_current s then add_count s.current_state 1 visits else visits in
    add_zeros s.state_model.states (add_counts s.coverage_offset with_current)

-- `f"{record['from']}->{record.get('to', '?')}"`
abbrev pub transition_key : HistoryRecord → String
transition_key r = concat r.from_state (concat "->" (elim r.to_state [ none ↦ "?" | some s ↦ s ]))

unfoldable pub count_transitions : List HistoryRecord → Dict ℕ → Dict ℕ
unfolding add_count
count_transitions [] d = d
count_transitions (r ∷ rs) d =
    count_transitions rs (if r.success then add_count (transition_key r) 1 d else d)

unfoldable pub get_transition_coverage : Session → Dict ℕ
unfolding count_transitions add_counts
get_transition_coverage s = add_counts s.transition_offset (count_transitions s.state_history [])
