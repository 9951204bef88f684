-- ===== src/Stateful/Counting.antt =====
-- What the coverage counts.
use text.Mathlib.Text.{◌==◌}
use fuzzing_framework.Prelude.{
  ℕ, ◌+◌, String, ◌≡◌, refl, ap, ◌∙◌, Bool, true, false, Option, none, some, List, [], ◌∷◌, not,
  ◌&&◌, ◌||◌, arith, eq_iff, if◌then◌else◌,
}
use fuzzing_framework.Dict.{Dict, get, get-put}
use fuzzing_framework.Stateful.Session.{HistoryRecord, Session}
use fuzzing_framework.Stateful.Coverage.{
  or_zero, count_of, add_count, arrival, count_visits, add_counts, add_zeros, counts_current,
  or_put, count_arrival, get_state_coverage,
}

abbrev pub one_if : Bool → ℕ
one_if b = if b then 1 else 0

-- The count of a state that one successful arrival, or none, adds.
abbrev pub arrived_at : String → Option String → ℕ
arrived_at k none = 0
arrived_at k (some s) = one_if (s == k)

-- The record is a success and goes to the state, whose name is not empty.
abbrev pub goes_to : String → Option String → Bool
goes_to k none = false
goes_to k (some s) = not (s == "") && s == k

abbrev pub arrives : String → HistoryRecord → Bool
arrives k r = r.success && goes_to k r.to_state

-- The state is the current one, its name is not empty, and the session was not resumed or has done
-- something since.
abbrev pub is_there : String → Session → Bool
is_there k s =
    not (s.current_state == "")
    && (not s.resumed_from_offsets || s.has_new_activity)
    && s.current_state == k

-- The successful arrivals at a state in a history.
unfoldable pub arrivals : String → List HistoryRecord → ℕ
arrivals k [] = 0
arrivals k (r ∷ rs) = one_if (arrives k r) + arrivals k rs

-- The visits of a state in coverage that an earlier run left.
unfoldable pub offset_of : String → Dict ℕ → ℕ
offset_of k [] = 0
offset_of k ((s, n) ∷ d) = (if s == k then n else 0) + offset_of k d

count_of-add_count :
    (k s : String) (n : ℕ) (d : Dict ℕ)
    → count_of k (add_count s n d) ≡ (if s == k then n else 0) + count_of k d
unfolding add_count
count_of-add_count k s n d = ground (arith, get-put s k (or_zero (get s d) + n) d, eq_iff s k)

count_of-count_arrival :
    (k : String) (o : Option String) (d : Dict ℕ)
    → count_of k (count_arrival o d) ≡ arrived_at k o + count_of k d
count_of-count_arrival k none d = omega arith
count_of-count_arrival k (some s) d = count_of-add_count k s 1 d

arrival_lem : (k : String) (r : HistoryRecord) → arrived_at k (arrival r) ≡ one_if (arrives k r)
arrival_lem k r = by_record r.success r.to_state
  where
    by_record :
        (won : Bool) (to : Option String)
        → arrived_at k (
            if won
            then elim to [ none ↦ none | some s ↦ if s == "" then none else some s ]
            else none)
          ≡ one_if (won && goes_to k to)
    by_record false to = refl
    by_record true none = refl
    by_record true (some s) = ground arith

is_there_lem : (k : String) (s : Session) → counts_current s && s.current_state == k ≡ is_there k s
unfolding counts_current
is_there_lem k s = ground arith

visits_step :
    (k : String) (r : HistoryRecord) (rs : List HistoryRecord) (d : Dict ℕ)
    → (count_of k (count_visits (r ∷ rs) d)
        ≡ count_of k (count_visits rs (count_arrival (arrival r) d)))
      × (arrivals k (r ∷ rs) ≡ one_if (arrives k r) + arrivals k rs)
unfolding count_visits arrivals
visits_step k r rs d = (refl, refl)

no_visits :
    (k : String) (d : Dict ℕ) → count_of k (count_visits [] d) ≡ arrivals k [] + count_of k d
unfolding count_visits arrivals
no_visits k d = omega arith

count_of-count_visits :
    (k : String) (rs : List HistoryRecord) (d : Dict ℕ)
    → count_of k (count_visits rs d) ≡ arrivals k rs + count_of k d
count_of-count_visits k [] d = no_visits k d
count_of-count_visits k (r ∷ rs) d = omega (
  arith,
  visits_step k r rs d,
  count_of-count_visits k rs (count_arrival (arrival r) d),
  count_of-count_arrival k (arrival r) d,
  arrival_lem k r,
)

counts_step :
    (k s : String) (n : ℕ) (o d : Dict ℕ)
    → (count_of k (add_counts ((s, n) ∷ o) d) ≡ count_of k (add_counts o (add_count s n d)))
      × (offset_of k ((s, n) ∷ o) ≡ (if s == k then n else 0) + offset_of k o)
unfolding add_counts offset_of
counts_step k s n o d = (refl, refl)

no_counts : (k : String) (d : Dict ℕ) → count_of k (add_counts [] d) ≡ offset_of k [] + count_of k d
unfolding add_counts offset_of
no_counts k d = omega arith

count_of-add_counts :
    (k : String) (o d : Dict ℕ) → count_of k (add_counts o d) ≡ offset_of k o + count_of k d
count_of-add_counts k [] d = no_counts k d
count_of-add_counts k ((s, n) ∷ o) d = omega (
  arith,
  counts_step k s n o d,
  count_of-add_counts k o (add_count s n d),
  count_of-add_count k s n d,
)

count_of-or_put : (k s : String) (d : Dict ℕ) → count_of k (or_put s (get s d) d) ≡ count_of k d
unfolding count_of
count_of-or_put k s d = ground (arith, get-put s k 0 d, eq_iff s k)

zeros_step :
    (s : String) (ss : List String) (d : Dict ℕ)
    → (add_zeros [] d ≡ d) × (add_zeros (s ∷ ss) d ≡ add_zeros ss (or_put s (get s d) d))
unfolding add_zeros
zeros_step s ss d = (refl, refl)

count_of-add_zeros :
    (k : String) (ss : List String) (d : Dict ℕ) → count_of k (add_zeros ss d) ≡ count_of k d
count_of-add_zeros k [] d = ap (count_of k) (zeros_step k [] d).0
count_of-add_zeros k (s ∷ ss) d =
    ap (count_of k) (zeros_step s ss d).1
    ∙ count_of-add_zeros k ss (or_put s (get s d) d)
    ∙ count_of-or_put k s d

count_of-if :
    (b : Bool) (k s : String) (d : Dict ℕ)
    → count_of k (if b then add_count s 1 d else d) ≡ one_if (b && s == k) + count_of k d
count_of-if true k s d = count_of-add_count k s 1 d
count_of-if false k s d = omega arith

nothing : (k : String) → count_of k [] ≡ 0
unfolding count_of get
nothing k = refl

coverage_lem :
    (s : Session)
    → get_state_coverage s
      ≡ add_zeros s.state_model.states (
          add_counts s.coverage_offset (
            if counts_current s
            then add_count s.current_state 1 (count_visits s.state_history [])
            else count_visits s.state_history []))
unfolding get_state_coverage
coverage_lem s = refl

-- The coverage counts for each state its successful arrivals in the history, one more while it is the
-- current state (unless the session was resumed and has done nothing since), and what an earlier run
-- left. An empty name of a state counts neither as an arrival nor as the current state.
pub get_state_coverage-count :
    (s : Session) (k : String)
    → count_of k (get_state_coverage s)
      ≡ arrivals k s.state_history + one_if (is_there k s) + offset_of k s.coverage_offset
get_state_coverage-count s k =
    let visits = count_visits s.state_history [] in
    let current = if counts_current s then add_count s.current_state 1 visits else visits in
    ap (count_of k) (coverage_lem s)
    ∙ count_of-add_zeros k s.state_model.states (add_counts s.coverage_offset current)
    ∙ omega (
      arith,
      count_of-add_counts k s.coverage_offset current,
      count_of-if (counts_current s) k s.current_state visits,
      count_of-count_visits k s.state_history [],
      nothing k,
      ap one_if (is_there_lem k s),
    )
