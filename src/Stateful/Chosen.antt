-- ===== src/Stateful/Chosen.antt =====
-- What `select_transition` returns.
use mathlib.Core.List.{Memᴰ}
use fuzzing_framework.Prelude.{
  ℕ, zero, suc, ◌<◌, ◌≡◌, ◌≢◌, refl, subst, String, Bool, true, false, Option, none, some, List, [],
  ◌∷◌, arith, length, All, Bool-cases, inl, inr, if◌then◌else◌,
}
use fuzzing_framework.Dict.{Dict}
use fuzzing_framework.Stateful.Session.{
  Transition, Session, leaves, valid_from, get_valid_transitions,
}
use fuzzing_framework.Stateful.Coverage.{get_state_coverage}
use fuzzing_framework.Stateful.Choice.{
  leads_into, is_unvisited, Suggests, Chances, entry, choice, filter_into, filter_unvisited,
  get_termination_states, find_to_unvisited, find_to_terminal, or_else, select_among, select_from,
  select_transition,
}

-- What is documented of `random.choice`.
pub record IsChoosing (c : Chances) : Type 0 where
  pub inside : (size : ℕ) → 0 < size → c.index size < size

-- Nothing, or something with the property.
abbrev Either : {A : Type 0} → (A → Type 0) → Option A → Type 0
Either P o = (a : _) → o ≡ some a → P a

entry-All : {A : Type 0} (P : A → Type 0) (i : ℕ) (xs : List A) → All P xs → Either P (entry i xs)
unfolding entry
entry-All P i [] all a e = absurd (cc e)
entry-All P zero (x ∷ xs) all a e = let same : x ≡ a = cc in subst P same all.0
entry-All P (suc i) (x ∷ xs) all a e = entry-All P i xs all.1 a e

entry_total : {A : Type 0} (i : ℕ) (xs : List A) → i < length xs → (a : A) × (entry i xs ≡ some a)
unfolding entry
entry_total i [] h = absurd (omega arith)
entry_total zero (x ∷ xs) h = (x, refl)
entry_total (suc i) (x ∷ xs) h = entry_total i xs (omega arith)

filter_into-All :
    (P : Transition → Type 0) (states : List String) (ts : List Transition)
    → All P ts
    → All P (filter_into states ts)
unfolding filter_into
filter_into-All P states [] all = tt
filter_into-All P states (t ∷ ts) all = elim (Bool-cases (leads_into states t)) [
  | inl into ↦ rw into (all.0, filter_into-All P states ts all.1)
  | inr other ↦ rw other (filter_into-All P states ts all.1)
]

filter_unvisited-All :
    (P : Transition → Type 0) (coverage : Dict ℕ) (ts : List Transition)
    → All P ts
    → All P (filter_unvisited coverage ts)
unfolding filter_unvisited
filter_unvisited-All P coverage [] all = tt
filter_unvisited-All P coverage (t ∷ ts) all = elim (Bool-cases (is_unvisited coverage t)) [
  | inl unvisited ↦ rw unvisited (all.0, filter_unvisited-All P coverage ts all.1)
  | inr visited ↦ rw visited (filter_unvisited-All P coverage ts all.1)
]

-- A transition of the state model that leaves the state.
abbrev pub IsLeaving : Session → Transition → Type 0
IsLeaving s t = Memᴰ t s.state_model.transitions × (leaves t s.current_state ≡ true)

valid_from-All :
    (s : Session) (ts : List Transition)
    → ((t : Transition) → Memᴰ t ts → Memᴰ t s.state_model.transitions)
    → All (IsLeaving s) (valid_from s.current_state ts)
unfolding valid_from
valid_from-All s [] sub = tt
valid_from-All s (t ∷ ts) sub = elim (Bool-cases (leaves t s.current_state)) [
  | inl here ↦
      rw here ((sub t (Memᴰ.head refl), here), valid_from-All s ts (λ u m. sub u (Memᴰ.tail m)))
  | inr away ↦ rw away (valid_from-All s ts (λ u m. sub u (Memᴰ.tail m)))
]

or_else-Either :
    {A : Type 0} (P : A → Type 0) (o p : Option A)
    → Either P o
    → ((a : A) × (p ≡ some a) × P a)
    → (a : A) × (or_else o p ≡ some a) × P a
or_else-Either P none p h k = k
or_else-Either P (some a) p h k = (a, refl, h a refl)

if-Either :
    {A : Type 0} (P : A → Type 0) (b : Bool) (o : Option A)
    → Either P o
    → Either P (if b then o else none)
if-Either P true o h a e = h a e
if-Either P false o h a e = absurd (cc e)

chosen :
    {A : Type 0} (P : A → Type 0) (c : Chances) (xs : List A)
    → IsChoosing c
    → 0 < length xs
    → All P xs
    → (a : A) × (choice c xs ≡ some a) × P a
chosen P c xs choosing h all =
    let (a, e) = entry_total (c.index (length xs)) xs (choosing.inside (length xs) h) in
    (a, e, entry-All P (c.index (length xs)) xs all a e)

select_among-IsLeaving :
    (suggests : Suggests) (c : Chances) (s : Session) (valid : List Transition)
    → IsChoosing c
    → 0 < length valid
    → All (IsLeaving s) valid
    → (t : Transition) × (select_among suggests c s valid ≡ some t) × IsLeaving s t
unfolding select_among find_to_unvisited find_to_terminal
select_among-IsLeaving suggests c s valid choosing h all =
    or_else-Either (IsLeaving s) _ _
      (if-Either (IsLeaving s) c.explores _ (
        entry-All (IsLeaving s) _ _
          (filter_unvisited-All (IsLeaving s) (get_state_coverage s) valid all)))
      (or_else-Either (IsLeaving s) _ _
        (if-Either (IsLeaving s) c.exits _ (
          entry-All (IsLeaving s) _ _
            (filter_into-All (IsLeaving s) (get_termination_states suggests s) valid all)))
        (last c.progresses))
  where
    last :
        (b : Bool)
        → (t : Transition) × ((if b then entry 0 valid else choice c valid) ≡ some t)
          × IsLeaving s t
    last true =
        let (t, e) = entry_total 0 valid h in (t, e, entry-All (IsLeaving s) 0 valid all t e)
    last false = chosen (IsLeaving s) c valid choosing h all

-- Whatever is drawn, where a transition leaves the current state, `select_transition` returns a transition of
-- the state model that leaves it, by its name or by the wildcard.
pub select_transition-IsLeaving :
    (suggests : Suggests) (c : Chances) (s : Session)
    → IsChoosing c
    → get_valid_transitions s ≢ []
    → (t : Transition) × (select_transition suggests c s ≡ some t) × IsLeaving s t
unfolding select_transition get_valid_transitions
select_transition-IsLeaving suggests c s choosing h =
    by_list (valid_from s.current_state s.state_model.transitions) h
      (valid_from-All s s.state_model.transitions (λ t m. m))
  where
    by_list :
        (valid : List Transition)
        → valid ≢ []
        → All (IsLeaving s) valid
        → (t : Transition) × (select_from suggests c s valid ≡ some t) × IsLeaving s t
    by_list [] h all = absurd (h refl)
    by_list (t ∷ []) h all = (t, refl, all.0)
    by_list (t ∷ u ∷ ts) h all =
        select_among-IsLeaving suggests c s (t ∷ u ∷ ts) choosing (omega arith) all
