-- ===== src/Stateful/Justified.antt =====
-- The history of a session, against the transitions of its state model.
use mathlib.Core.List.{Memᴰ}
use text.Mathlib.Text.{◌==◌}
use fuzzing_framework.Prelude.{
  ℕ, String, ◌≡◌, refl, sym, ap, ◌∙◌, subst, ◌⊎◌, inl, inr, Bool, true, false, ◌&&◌, Option, none,
  some, List, [], ◌∷◌, ◌++◌, All, All-append, arith, Bool-cases, if◌then◌else◌, append-nil,
  append_assoc,
}
use fuzzing_framework.Protocol.Parse.{Codec}
use fuzzing_framework.Stateful.Session.{
  Transition, StateModel, HistoryRecord, Session, get_message_type, is_text, leaves,
  find_transition, target_of, identify_message_type, response_matches, attempt, apply_transition,
  update_state, reset_to_initial_state,
}

-- What a driver of the session does: it sends messages, or it resets.
pub data Step (codec : Codec) (s : Session) : Session → Type 0 where
  sent :
      (message : List ℕ) (response : Option (List ℕ)) (result : String)
      → Step codec s (update_state codec s message response result)
  reset : Step codec s (reset_to_initial_state s)

pub data Run (codec : Codec) (s : Session) : Session → Type 0 where
  start : Run codec s s
  step : {t u : Session} → Run codec s t → Step codec t u → Run codec s u

-- A successful record has a transition of the model that leaves its state by its message type and
-- goes to its target, and the test of that step passed.
pub record IsJustified (model : StateModel) (r : HistoryRecord) : Type 0 where
  pub transition : Transition
  pub declared : Memᴰ transition model.transitions
  pub from_here : leaves transition r.from_state ≡ true
  pub by_message : is_text (get_message_type transition) r.message_type ≡ true
  pub arrived : r.to_state ≡ some (target_of transition r.from_state)
  pub passed : (r.execution_result == "pass") ≡ true

abbrev pub AreJustified : StateModel → List HistoryRecord → Type 0
AreJustified model = All (λ r. r.success ≡ true → IsJustified model r)

found_here :
    (u : Transition) (ts : List Transition) (state k : String) {t : Transition}
    → leaves u state && is_text (get_message_type u) k ≡ true
    → find_transition (u ∷ ts) state k ≡ some t
    → u ≡ t
unfolding find_transition
found_here u ts state k fits e = ground arith

found_later :
    (u : Transition) (ts : List Transition) (state k : String) {t : Transition}
    → leaves u state && is_text (get_message_type u) k ≡ false
    → find_transition (u ∷ ts) state k ≡ some t
    → find_transition ts state k ≡ some t
unfolding find_transition
found_later u ts state k other e = ground arith

-- `update_state` behind the identification of the message.
abbrev with_type : Codec → Session → Option (List ℕ) → String → Option String → Session
with_type codec s response result none = s
with_type codec s response result (some k) =
    if k == "" then s else elim (find_transition s.state_model.transitions s.current_state k) [
      | none ↦ s
      | some t ↦ apply_transition codec s t k response result
    ]

-- What `_find_transition` returns is declared, and fits the state and the message type.
pub find_transition_sound :
    (ts : List Transition) (state message_type : String) {t : Transition}
    → find_transition ts state message_type ≡ some t
    → Memᴰ t ts × (leaves t state ≡ true) × (is_text (get_message_type t) message_type ≡ true)
find_transition_sound [] state k e = absurd (unfold find_transition in cc e)
find_transition_sound (u ∷ ts) state k {t} e =
    elim (Bool-cases (leaves u state && is_text (get_message_type u) k)) [
      | inl fits ↦
          let same : u ≡ t = found_here u ts state k fits e in
          subst
            (λ v.
              Memᴰ v (u ∷ ts) × (leaves v state ≡ true) × (is_text (get_message_type v) k ≡ true))
            same (Memᴰ.head refl, ground arith, ground arith)
      | inr other ↦
          let (declared, from_here, by_message) =
            find_transition_sound ts state k (found_later u ts state k other e) in
          (Memᴰ.tail declared, from_here, by_message)
    ]

-- The outcomes of `update_state`.
update_lem :
    (codec : Codec) (s : Session) (message : List ℕ) (response : Option (List ℕ)) (result : String)
    → update_state codec s message response result
      ≡ with_type codec s response result (identify_message_type codec s message)
unfolding update_state
update_lem codec s message response result = ground arith

-- A step that recorded an attempt: one record more, which starts at the state before and agrees with
-- the move of the state.
pub record IsRecorded (s s' : Session) (r : HistoryRecord) : Type 0 where
  pub same_model : s'.state_model ≡ s.state_model
  pub history : s'.state_history ≡ s.state_history ++ r ∷ []
  pub same_offset : s'.coverage_offset ≡ s.coverage_offset
  pub active : s'.has_new_activity ≡ true
  pub from_state : r.from_state ≡ s.current_state
  pub moved : r.success ≡ true → (r.to_state ≡ some s'.current_state) × IsJustified s.state_model r
  pub stayed : r.success ≡ false → (r.to_state ≡ none) × (s'.current_state ≡ s.current_state)

apply_if :
    (codec : Codec) (s : Session) (t : Transition) (k : String) (response : Option (List ℕ))
    (result : String)
    → apply_transition codec s t k response result ≡ (
        if result == "pass"
        then (if response_matches codec s t response
            then attempt s k result (some (target_of t s.current_state)) true none
            else attempt s k result none false (some "unexpected_response"))
        else attempt s k result none false (some result))
unfolding apply_transition
apply_if codec s t k response result = refl

-- `apply_transition` behind its two tests.
abbrev outcome : Session → Transition → String → String → Bool → Bool → Session
outcome s t k result true true = attempt s k result (some (target_of t s.current_state)) true none
outcome s t k result true false = attempt s k result none false (some "unexpected_response")
outcome s t k result false c = attempt s k result none false (some result)

apply_lem :
    (codec : Codec) (s : Session) (t : Transition) (k : String) (response : Option (List ℕ))
    (result : String)
    → apply_transition codec s t k response result
      ≡ outcome s t k result (result == "pass") (response_matches codec s t response)
apply_lem codec s t k response result =
    apply_if codec s t k response result
    ∙ by_tests (result == "pass") (response_matches codec s t response)
  where
    by_tests :
        (b c : Bool)
        → (if b
            then (if c
                then attempt s k result (some (target_of t s.current_state)) true none
                else attempt s k result none false (some "unexpected_response"))
            else attempt s k result none false (some result))
          ≡ outcome s t k result b c
    by_tests true true = refl
    by_tests true false = refl
    by_tests false c = refl

-- an attempt that failed
failed-IsRecorded :
    (s : Session) (k result why : String)
    → (r : HistoryRecord) × IsRecorded s (attempt s k result none false (some why)) r
failed-IsRecorded s k result why = (
  _,
  record {
    same_model = refl;
    history = refl;
    same_offset = refl;
    active = refl;
    from_state = refl;
    moved = λ e. cc;
    stayed = λ e. (refl, refl);
  },
)

module _ (s : Session) (t : Transition) (k : String) (result : String)
    (e : find_transition s.state_model.transitions s.current_state k ≡ some t) where
  outcome-IsRecorded :
      (b c : Bool)
      → (result == "pass") ≡ b
      → (r : HistoryRecord) × IsRecorded s (outcome s t k result b c) r
  outcome-IsRecorded true true p =
      let (declared, from_here, by_message) =
        find_transition_sound s.state_model.transitions s.current_state k e in
      (
        _,
        record {
          same_model = refl;
          history = refl;
          same_offset = refl;
          active = refl;
          from_state = refl;
          moved = λ _. (
            refl,
            record {
              transition = t;
              declared = declared;
              from_here = from_here;
              by_message = by_message;
              arrived = refl;
              passed = p;
            },
          );
          stayed = λ h. cc;
        },
      )
  outcome-IsRecorded true false p = failed-IsRecorded s k result "unexpected_response"
  outcome-IsRecorded false c p = failed-IsRecorded s k result result

apply-IsRecorded :
    (codec : Codec) (s : Session) (t : Transition) (k : String) (response : Option (List ℕ))
    (result : String)
    → find_transition s.state_model.transitions s.current_state k ≡ some t
    → (r : HistoryRecord) × IsRecorded s (apply_transition codec s t k response result) r
apply-IsRecorded codec s t k response result e =
    subst (λ s'. (r : HistoryRecord) × IsRecorded s s' r)
      (sym (apply_lem codec s t k response result))
      (outcome-IsRecorded s t k result e (result == "pass") (response_matches codec s t response)
        refl)

-- `update_state` changes nothing, or it appends one record of an attempt from the current state. A
-- successful record is justified by a declared transition and its target is the new state; after any
-- other record the state is the one before.
pub update_state-IsRecorded :
    (codec : Codec) (s : Session) (message : List ℕ) (response : Option (List ℕ)) (result : String)
    → (update_state codec s message response result ≡ s)
      ⊎ ((r : HistoryRecord) × IsRecorded s (update_state codec s message response result) r)
update_state-IsRecorded codec s message response result =
    subst (λ s'. (s' ≡ s) ⊎ ((r : HistoryRecord) × IsRecorded s s' r))
      (sym (update_lem codec s message response result))
      (by_type (identify_message_type codec s message))
  where
    by_transition :
        (k : String) (o : Option Transition)
        → find_transition s.state_model.transitions s.current_state k ≡ o
        → let s' : Session = elim o [
          | none ↦ s
          | some t ↦ apply_transition codec s t k response result
        ] in
          (s' ≡ s) ⊎ ((r : HistoryRecord) × IsRecorded s s' r)
    by_transition k none e = inl refl
    by_transition k (some t) e = inr (apply-IsRecorded codec s t k response result e)

    by_name :
        (k : String) (b : Bool)
        → let s' : Session =
            if b then s else elim (find_transition s.state_model.transitions s.current_state k) [
              | none ↦ s
              | some t ↦ apply_transition codec s t k response result
            ] in
          (s' ≡ s) ⊎ ((r : HistoryRecord) × IsRecorded s s' r)
    by_name k true = inl refl
    by_name k false =
        by_transition k (find_transition s.state_model.transitions s.current_state k) refl

    by_type :
        (o : Option String)
        → (with_type codec s response result o ≡ s)
          ⊎ ((r : HistoryRecord) × IsRecorded s (with_type codec s response result o) r)
    by_type none = inl refl
    by_type (some k) = by_name k (k == "")

-- What a run leaves of the session: the model, and the history as the beginning of a longer one whose
-- successful records are justified.
pub record IsExtension (s t : Session) : Type 0 where
  pub same_model : t.state_model ≡ s.state_model
  pub added : List HistoryRecord
  pub history : t.state_history ≡ s.state_history ++ added
  pub justified : AreJustified s.state_model added

Step-IsExtension : (codec : Codec) {s t : Session} → Step codec s t → IsExtension s t
Step-IsExtension codec {s} (sent message response result) =
    elim (update_state-IsRecorded codec s message response result) [
      | inl same ↦ subst (IsExtension s) (sym same) (record {
        same_model = refl;
        added = [];
        history = sym (append-nil s.state_history);
        justified = tt;
      })
      | inr (r, h) ↦ record {
        same_model = h.same_model;
        added = r ∷ [];
        history = h.history;
        justified = (λ e. (h.moved e).1, tt);
      }
    ]
Step-IsExtension codec {s} reset = record {
  same_model = unfold reset_to_initial_state in refl;
  added = [];
  history = unfold reset_to_initial_state in sym (append-nil s.state_history);
  justified = tt;
}

-- Whatever is sent, answered and reset, the history only grows, and each successful record that a run
-- has added goes along a transition of the state model by a message of its type after a passed test.
pub Run-IsExtension : (codec : Codec) {s t : Session} → Run codec s t → IsExtension s t
Run-IsExtension codec {s} start = record {
  same_model = refl;
  added = [];
  history = sym (append-nil s.state_history);
  justified = tt;
}
Run-IsExtension codec {s} (step run st) =
    let before = Run-IsExtension codec run in
    let after = Step-IsExtension codec st in
    record {
      same_model = after.same_model ∙ before.same_model;
      added = before.added ++ after.added;
      history =
          after.history
          ∙ ap (λ l. l ++ after.added) before.history
          ∙ append_assoc s.state_history before.added after.added;
      justified =
          All-append _ before.added after.added before.justified
            (subst (λ m. AreJustified m after.added) before.same_model after.justified);
    }
