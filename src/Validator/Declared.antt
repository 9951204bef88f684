-- ===== src/Validator/Declared.antt =====
-- What holds of the transitions and the size fields of a plugin that the validator accepts.
use mathlib.Core.List.{Memᴰ}
use text.Mathlib.Text.{◌==◌}
use fuzzing_framework.Prelude.{
  ℕ, ◌+◌, String, ◌≡◌, ◌≢◌, refl, true, false, not, Option, none, some, List, [], ◌∷◌, ◌++◌, arith,
  eq_iff, is_in, Bool-cases, inl, inr,
}
use fuzzing_framework.Stateful.Session.{Transition}
use fuzzing_framework.Validator.Data.{
  Issue, is_valid, is_error, missing_from, missing_to, undefined_from, undefined_to,
}
use fuzzing_framework.Validator.States.{
  state_issues, type_issues, transition_issues, validate_transitions,
}
use fuzzing_framework.Validator.Accepted.{valid_left, valid_right, not_reported}

-- A name that is given, not empty, and one of the states.
abbrev pub IsDeclared : List String → Option String → Type 0
IsDeclared states state = (s : String) × (state ≡ some s) × (s ≢ "") × (is_in s states ≡ true)

state_issues-IsDeclared :
    (state : Option String) (states : List String) (missing : Issue) (undefined : String → Issue)
    → is_error missing ≡ true
    → ((s : String) → is_error (undefined s) ≡ true)
    → is_valid (state_issues state states missing undefined) ≡ true
    → IsDeclared states state
unfolding state_issues
state_issues-IsDeclared none states missing undefined m u h =
    absurd (unfold is_valid in ground arith)
state_issues-IsDeclared (some s) states missing undefined m u h = elim (Bool-cases (s == "")) [
  | inl empty ↦ absurd (unfold is_valid in ground arith)
  | inr named ↦
      let in_states : not (is_in s states) ≡ false =
        not_reported (not (is_in s states)) (undefined s) (u s) (ground arith) in
      (s, refl, λ e. ground (arith, eq_iff s ""), ground arith)
]

-- Both ends of a transition are declared.
abbrev pub IsJoining : List String → Transition → Type 0
IsJoining states t = IsDeclared states t.from_state × IsDeclared states t.to_state

transition_issues-IsJoining :
    (states types : List String) (i : ℕ) (t : Transition)
    → is_valid (transition_issues states types i (some t)) ≡ true
    → IsJoining states t
unfolding transition_issues
transition_issues-IsJoining states types i t h =
    let of_from = state_issues t.from_state states (missing_from i) (undefined_from i) in
    let of_to = state_issues t.to_state states (missing_to i) (undefined_to i) in
    let both = valid_left (of_from ++ of_to) (type_issues t.message_type types i) h in
    (
      state_issues-IsDeclared t.from_state states (missing_from i) (undefined_from i)
          (unfold is_error in refl) (λ s. unfold is_error in refl) (valid_left of_from of_to both),
      state_issues-IsDeclared t.to_state states (missing_to i) (undefined_to i)
          (unfold is_error in refl) (λ s. unfold is_error in refl) (valid_right of_from of_to both),
    )

pub validate_transitions-IsJoining :
    (states types : List String) (i : ℕ) (ts : List (Option Transition))
    → is_valid (validate_transitions states types i ts) ≡ true
    → (o : Option Transition) → Memᴰ o ts
    → (t : Transition) × (o ≡ some t) × IsJoining states t
unfolding validate_transitions
validate_transitions-IsJoining states types i [] h o k = elim k [ ]
validate_transitions-IsJoining states types i (none ∷ ts) h o k =
    absurd (unfold transition_issues is_valid is_error in ground arith)
validate_transitions-IsJoining states types i (some t ∷ ts) h o (Memᴰ.head same) = (
  t,
  same,
  transition_issues-IsJoining states types i t (
      valid_left (transition_issues states types i (some t))
        (validate_transitions states types (i + 1) ts) h),
)
validate_transitions-IsJoining states types i (some t ∷ ts) h o (Memᴰ.tail k) =
    validate_transitions-IsJoining states types (i + 1) ts
      (valid_right (transition_issues states types i (some t))
        (validate_transitions states types (i + 1) ts) h)
      o k
