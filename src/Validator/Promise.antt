-- ===== src/Validator/Promise.antt =====
-- What the validator's verdict promises to the parser and to the session.
use mathlib.Core.List.{Memᴰ}
use fuzzing_framework.Prelude.{
  ℕ, ◌+◌, String, ◌≡◌, ◌≢◌, refl, sym, subst, true, false, Option, none, some, List, [], ◌∷◌, ◌++◌,
  arith, Bool-cases, inl, inr,
}
use fuzzing_framework.Result.{Result, ok, err, ◌>>=◌, >>=-eq-ok}
use fuzzing_framework.Protocol.Model.{Block, Fields, Error}
use fuzzing_framework.Protocol.Parse.{Codec, parse}
use fuzzing_framework.Stateful.Session.{Transition}
use fuzzing_framework.Validator.Data.{
  RawBlock, RawDataModel, RawStateModel, Issue, is_valid, is_error, report_if, Raised,
  attribute_error, seed_unparsed, missing_initial, missing_states,
}
use fuzzing_framework.Validator.States.{
  all_dicts, or_nothing, validate_states, validate_transitions, check_unreachable_states,
  is_missing,
}
use fuzzing_framework.Validator.Blocks.{validate_blocks}
use fuzzing_framework.Validator.Plugin.{
  validate_plugin, validate_state_model, validate_message_type_seeds, declared_types,
  validate_seeds, seed_issues, of_blocks, validate_data_model_structure,
}
use fuzzing_framework.Validator.Accepted.{
  AreAccepted, none_left, accepted, valid_left, valid_right, block_issues-AreAccepted,
}
use fuzzing_framework.Validator.Parsable.{
  IsDenormalized, denormalized_parsable, parse_blocks-IsDataResult,
}
use fuzzing_framework.Validator.DataErrors.{is_model_error}
use fuzzing_framework.Validator.Parts.{accepted_parts}
use fuzzing_framework.Validator.Declared.{IsJoining, validate_transitions-IsJoining}

accepted_block_list :
    (bs : List (Option RawBlock))
    → is_valid (validate_blocks bs) ≡ true
    → (bs ≢ []) × AreAccepted [] bs
unfolding validate_blocks
accepted_block_list [] h = absurd (unfold is_valid is_error in ground arith)
accepted_block_list (b ∷ bs) h = (λ e. cc, block_issues-AreAccepted 0 [] (b ∷ bs) h)

blocks_needed :
    (m : RawDataModel) → is_valid (validate_data_model_structure m) ≡ true → m.blocks ≡ none → ⊥
unfolding validate_data_model_structure is_valid is_error
blocks_needed m h absent = absurd (ground arith)

no_entry_missing :
    {names : List String} {bs : List (Option RawBlock)} → AreAccepted names bs → Memᴰ none bs → ⊥
no_entry_missing none_left k = elim k [ ]
no_entry_missing (accepted name type n new t known width later) (Memᴰ.head same) = absurd (cc same)
no_entry_missing (accepted name type n new t known width later) (Memᴰ.tail k) =
    no_entry_missing later k

still_valid :
    {is js : List Issue}
    → ◌≡◌ {A = Result Raised (List Issue)} (ok is) (ok js)
    → is_valid js ≡ true
    → is_valid is ≡ true
still_valid same h = cc

-- An entry that is no dict.
all_dicts-raises :
    {A : Type 0} (xs : List (Option A)) → Memᴰ none xs → all_dicts xs ≡ err attribute_error
unfolding all_dicts
all_dicts-raises [] k = elim k [ ]
all_dicts-raises (none ∷ xs) k = refl
all_dicts-raises (some x ∷ xs) (Memᴰ.head same) = absurd (cc same)
all_dicts-raises (some x ∷ xs) (Memᴰ.tail k) = rw (all_dicts-raises xs k) refl

raises_then :
    {A B : Type 0} (p : Result Raised A) (f : A → Result Raised B)
    → ((a : A) → f a ≡ err attribute_error)
    → (p >>= f) ≡ err attribute_error
raises_then (ok a) f h = h a
raises_then (err attribute_error) f h = refl

module _ (codec : Codec) (denormalized : List Block) where
  -- A seed that is `bytes` and can be parsed.
  abbrev IsParsed : Option (List ℕ) → Type 0
  IsParsed seed =
      (data' : List ℕ) × (seed ≡ some data')
      × (fields : Fields) × (parse codec denormalized data' ≡ ok fields)

  seed_issues-IsParsed :
      (idx : ℕ) (seed : Option (List ℕ))
      → is_valid (seed_issues codec denormalized idx seed) ≡ true
      → IsParsed seed
  unfolding seed_issues
  seed_issues-IsParsed idx none h = absurd (unfold is_valid is_error in ground arith)
  seed_issues-IsParsed idx (some data') h = by_result (parse codec denormalized data') refl h
    where
      by_result :
          (r : Result Error Fields)
          → parse codec denormalized data' ≡ r
          → is_valid (elim r [ ok parsed ↦ [] | err e ↦ seed_unparsed (idx + 1) ∷ [] ]) ≡ true
          → IsParsed (some data')
      by_result (ok fields) e h = (data', refl, fields, e)
      by_result (err raised) e h = absurd (unfold is_valid is_error in ground arith)

  validate_seeds-IsParsed :
      (idx : ℕ) (seeds : List (Option (List ℕ)))
      → is_valid (validate_seeds codec denormalized idx seeds) ≡ true
      → (seed : Option (List ℕ)) → Memᴰ seed seeds
      → IsParsed seed
  unfolding validate_seeds
  validate_seeds-IsParsed idx [] h seed k = elim k [ ]
  validate_seeds-IsParsed idx (s ∷ seeds) h seed (Memᴰ.head same) = subst IsParsed (sym same) (
      seed_issues-IsParsed idx s (
        valid_left (seed_issues codec denormalized idx s)
          (validate_seeds codec denormalized (idx + 1) seeds) h))
  validate_seeds-IsParsed idx (s ∷ seeds) h seed (Memᴰ.tail k) =
      validate_seeds-IsParsed (idx + 1) seeds
        (valid_right (seed_issues codec denormalized idx s)
          (validate_seeds codec denormalized (idx + 1) seeds) h)
        seed k

  accepted_states :
      (types : List String) (s : RawStateModel) (issues : List Issue)
      → validate_states types s ≡ ok issues
      → is_valid issues ≡ true
      → is_valid (validate_transitions (or_nothing s.states) types 0 (or_nothing s.transitions))
        ≡ true
  unfolding validate_states
  accepted_states types s issues e h =
      let (unreached, _, result) = >>=-eq-ok (check_unreachable_states s) _ e in
      let first =
        report_if (is_missing s.initial_state) missing_initial
        ++ report_if (is_missing s.states) missing_states in
      let transitions =
        validate_transitions (or_nothing s.states) types 0 (or_nothing s.transitions) in
      valid_right first transitions
        (valid_left (first ++ transitions) unreached (still_valid result h))

  module _ (m : RawDataModel) (s : RawStateModel) where
    accepted_transitions :
        (issues : List Issue)
        → validate_state_model codec denormalized m s ≡ ok issues
        → is_valid issues ≡ true
        → (o : Option Transition) → Memᴰ o (or_nothing s.transitions)
        → (t : Transition) × (o ≡ some t) × IsJoining (or_nothing s.states) t
    unfolding validate_state_model
    accepted_transitions issues e h =
        let (types, _, next) = >>=-eq-ok (declared_types m s) _ e in
        let (of_states, states, last) = >>=-eq-ok (validate_states types s) _ next in
        let (of_seeds, _, result) =
          >>=-eq-ok (validate_message_type_seeds codec denormalized m s) _ last in
        validate_transitions-IsJoining (or_nothing s.states) types 0 (or_nothing s.transitions) (
          accepted_states types s of_states states
            (valid_left of_states of_seeds (still_valid result h)))

    accepted_blocks :
        is_valid (validate_data_model_structure m) ≡ true
        → is_valid (of_blocks m.blocks) ≡ true
        → (bs : List (Option RawBlock)) × (m.blocks ≡ some bs) × (bs ≢ []) × AreAccepted [] bs
    accepted_blocks structure valid = by_key m.blocks refl
      where
        by_key :
            (o : Option (List (Option RawBlock)))
            → m.blocks ≡ o
            → (bs : List (Option RawBlock)) × (m.blocks ≡ some bs) × (bs ≢ []) × AreAccepted [] bs
        by_key none e = absurd (blocks_needed m structure e)
        by_key (some bs) e =
            let (filled, each) =
              accepted_block_list bs (subst (λ o. is_valid (of_blocks o) ≡ true) e valid) in
            (bs, e, filled, each)

    -- What the verdict promises: there are blocks, at least one, and they are dicts with pairwise different names, types that the parser
    -- knows and bit fields from 1 to 64 bits, every seed can be parsed, and every transition goes from a
    -- declared state to a declared state.
    pub record IsSound : Type 0 where
      pub blocks :
          (bs : List (Option RawBlock)) × (m.blocks ≡ some bs) × (bs ≢ []) × AreAccepted [] bs
      pub seeds : (seed : Option (List ℕ)) → Memᴰ seed m.seeds → IsParsed seed
      pub transitions :
          (o : Option Transition)
          → Memᴰ o (or_nothing s.transitions)
          → (t : Transition) × (o ≡ some t) × IsJoining (or_nothing s.states) t

    -- A plugin in whose report there is no error has the key `blocks`, and the blocks are dicts, at least
    -- one, with pairwise different names, valid types and bit fields of 1 to 64 bits; its seeds are all bytes that the parser
    -- parses; and its transitions are dicts that go from a declared state to a declared state.
    pub validate_plugin-IsSound :
        (issues : List Issue)
        → validate_plugin codec denormalized m s ≡ ok issues
        → is_valid issues ≡ true
        → IsSound
    validate_plugin-IsSound issues e h =
        let parts = accepted_parts codec denormalized m s issues e h in
        record {
          blocks = accepted_blocks parts.structure parts.blocks;
          seeds = validate_seeds-IsParsed 0 m.seeds parts.seeds;
          transitions = accepted_transitions parts.state_issues parts.states parts.state_model;
        }

    accepted_list :
        (issues : List Issue) (bs : List (Option RawBlock))
        → validate_plugin codec denormalized m s ≡ ok issues
        → is_valid issues ≡ true
        → m.blocks ≡ some bs
        → AreAccepted [] bs
    accepted_list issues bs e h given =
        let (cs, key, _, each) = (validate_plugin-IsSound issues e h).blocks in
        let same : cs ≡ bs = cc (key, given) in subst (λ x. AreAccepted [] x) same each

    -- The parser never blames the data model of an accepted plugin: on any message it returns, or it
    -- raises an error that is neither an unsupported type nor a missing key. (The parser's blocks have the
    -- names, the types and the sizes of the plugin's.)
    pub accepted-parse :
        (issues : List Issue) (bs : List (Option RawBlock))
        → validate_plugin codec denormalized m s ≡ ok issues
        → is_valid issues ≡ true
        → m.blocks ≡ some bs
        → IsDenormalized bs denormalized
        → (data' : List ℕ) (e : Error) → parse codec denormalized data' ≡ err e
        → is_model_error e ≡ false
    accepted-parse issues bs e h given d data' =
        unfold parse in
        parse_blocks-IsDataResult codec denormalized data' denormalized 0 []
          (denormalized_parsable [] bs denormalized (accepted_list issues bs e h given) d)

    -- A block that is no dict is an error for `_validate_blocks`, and yet no report is returned: another
    -- method takes the entry for a dict, and its exception ends the validation.
    pub validate_plugin-raises :
        (bs : List (Option RawBlock))
        → m.blocks ≡ some bs
        → Memᴰ none bs
        → (is_valid (validate_blocks bs) ≡ false)
          × (validate_plugin codec denormalized m s ≡ err attribute_error)
    validate_plugin-raises bs given k =
        let raised : all_dicts (or_nothing m.blocks) ≡ err attribute_error =
          subst (λ o. all_dicts (or_nothing o) ≡ err attribute_error) (sym given)
            (all_dicts-raises bs k) in
        (
          elim (Bool-cases (is_valid (validate_blocks bs))) [
            | inl valid ↦ absurd (no_entry_missing (accepted_block_list bs valid).1 k)
            | inr invalid ↦ invalid
          ],
          unfold validate_plugin in
              raises_then (validate_state_model codec denormalized m s) _ (λ i. rw raised refl),
        )
