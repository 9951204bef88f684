-- ===== src/Stateful/Departure.antt =====
-- The coverage of a new session just behind its first move.
use text.Mathlib.Text.{◌==◌}
use fuzzing_framework.Prelude.{
  ℕ, ◌+◌, String, ◌≡◌, ◌≢◌, ap, ◌∙◌, true, Option, some, List, [], ◌∷◌, ◌++◌, arith, eq_iff, inl,
  inr, Bool-cases,
}
use fuzzing_framework.Protocol.Parse.{Codec}
use fuzzing_framework.Stateful.Session.{HistoryRecord, Session, update_state}
use fuzzing_framework.Stateful.Coverage.{count_of, get_state_coverage}
use fuzzing_framework.Stateful.Counting.{
  one_if, arrivals, is_there, offset_of, get_state_coverage-count,
}
use fuzzing_framework.Stateful.Justified.{IsRecorded, update_state-IsRecorded}

there_active :
    (k : String) (s : Session)
    → s.has_new_activity ≡ true
    → s.current_state ≢ ""
    → is_there k s ≡ s.current_state == k
there_active k s active named = ground (arith, eq_iff s.current_state "")

one_arrival :
    (k u : String) (r : HistoryRecord)
    → r.success ≡ true
    → r.to_state ≡ some u
    → u ≢ ""
    → arrivals k (r ∷ []) ≡ one_if (u == k)
unfolding arrivals
one_arrival k u r won to named = ground (arith, eq_iff u "")

module _ (codec : Codec) (s : Session) (message : List ℕ) (response : Option (List ℕ))
    (result : String) (fresh : s.state_history ≡ []) where
  abbrev after : Session
  after = update_state codec s message response result

  counted :
      (r : HistoryRecord)
      → IsRecorded s after r
      → after.current_state ≢ s.current_state
      → after.current_state ≢ ""
      → (k : String)
      → count_of k (get_state_coverage after)
        ≡ one_if (after.current_state == k)
          + one_if (after.current_state == k)
          + offset_of k s.coverage_offset
  counted r h moved named k =
      let won : r.success ≡ true = elim (Bool-cases r.success) [
        | inl e ↦ e
        | inr e ↦ absurd (moved (h.stayed e).1)
      ] in
      let one = one_arrival k after.current_state r won (h.moved won).0 named in
      let history : after.state_history ≡ r ∷ [] = h.history ∙ ap (λ l. l ++ r ∷ []) fresh in
      get_state_coverage-count after k
      ∙ omega (
        arith,
        ap (arrivals k) history,
        one,
        ap one_if (there_active k after h.active named),
        ap (offset_of k) h.same_offset,
      )

  -- A session without history whose first message moves it to another state, whose name is not empty:
  -- beyond what an earlier run left, the coverage counts the state that it has left 0 times and the state
  -- that it has entered 2 times.
  pub first_move-coverage :
      after.current_state ≢ s.current_state
      → after.current_state ≢ ""
      → (count_of s.current_state (get_state_coverage after)
          ≡ offset_of s.current_state s.coverage_offset)
        × (count_of after.current_state (get_state_coverage after)
            ≡ 2 + offset_of after.current_state s.coverage_offset)
  first_move-coverage moved named = elim (update_state-IsRecorded codec s message response result) [
    | inl same ↦ absurd (moved (ap (λ (u : Session). u.current_state) same))
    | inr (r, h) ↦ (
      counted r h moved named s.current_state
          ∙ ground (arith, eq_iff after.current_state s.current_state),
      counted r h moved named after.current_state
          ∙ ground (arith, eq_iff after.current_state after.current_state),
    )
  ]
