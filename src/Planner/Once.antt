-- ===== src/Planner/Once.antt =====
-- The follow-ups of handlers with `once_per_reset`, counted.
use text.Mathlib.Text.{◌==◌ as same_text}
use fuzzing_framework.Prelude.{
  ℕ, ◌+◌, ◌≤◌, String, ◌≡◌, refl, sym, subst, Bool, true, false, ◌&&◌, Option, none, some, List, [],
  ◌∷◌, All, arith, eq_iff, is_in, if◌then◌else◌,
}
use fuzzing_framework.Result.{Result, ok, err}
use fuzzing_framework.Protocol.Model.{Fields, Error}
use fuzzing_framework.Protocol.Parse.{parse}
use fuzzing_framework.Protocol.Resolve.{Counters}
use fuzzing_framework.Planner.{
  Setting, Planner, Handler, Followup, Round, skipped, raised, tried, handler_name, followup,
  consider, fire, plan_handlers, plan,
}

-- The follow-ups by the handlers of a name; an exception delivers none.
unfoldable pub count_by : String → List Followup → ℕ
count_by k [] = 0
count_by k (f ∷ fs) = (if same_text f.handler k then 1 else 0) + count_by k fs

abbrev pub delivered : String → Result Error (List Followup) → ℕ
delivered k (ok fs) = count_by k fs
delivered k (err e) = 0

abbrev pub has_fired : String → Planner → ℕ
has_fired k p = if is_in k p.fired_handlers then 1 else 0

-- Every handler of that name fires once.
abbrev pub FireOnce : String → List Handler → Type 0
FireOnce k = All (λ h. handler_name h ≡ k → h.once_per_reset ≡ true)

-- A round that builds a payload belongs to a handler that may fire.
tried-may_fire :
    (s : Setting) (h : Handler) (parsed : Fields) (p : Planner) {o : Option (List ℕ)} {c : Counters}
    → consider s h parsed p ≡ tried o c
    → h.once_per_reset && is_in (handler_name h) p.fired_handlers ≡ false
unfolding consider
tried-may_fire s h parsed p e = ground arith

-- The loop behind a round.
abbrev plan_on :
    Setting
    → Handler
    → List Handler
    → Fields
    → Planner
    → Round
    → Result Error (List Followup) × Planner
plan_on s h hs parsed p skipped = plan_handlers s hs parsed p
plan_on s h hs parsed p (raised e) = (err e, p)
plan_on s h hs parsed p (tried none c) = plan_handlers s hs parsed (record p { counters = c })
plan_on s h hs parsed p (tried (some payload) c) =
    let (rest, p') = plan_handlers s hs parsed (fire h c p) in (followup payload h rest, p')

plan_handlers-cons :
    (s : Setting) (h : Handler) (hs : List Handler) (parsed : Fields) (p : Planner)
    → plan_handlers s (h ∷ hs) parsed p ≡ plan_on s h hs parsed p (consider s h parsed p)
unfolding plan_handlers
plan_handlers-cons s h hs parsed p = by_round (consider s h parsed p)
  where
    by_round :
        (r : Round)
        → let planned : Result Error (List Followup) × Planner = elim r [
          | skipped ↦ plan_handlers s hs parsed p
          | raised e ↦ (err e, p)
          | tried o c ↦ elim o [
            | none ↦ plan_handlers s hs parsed (record p { counters = c })
            | some payload ↦
                let (rest, p') = plan_handlers s hs parsed (fire h c p) in
                (followup payload h rest, p')
          ]
        ] in
          planned ≡ plan_on s h hs parsed p r
    by_round skipped = refl
    by_round (raised e) = refl
    by_round (tried none c) = refl
    by_round (tried (some payload) c) = refl

-- What a loop from a planner delivers, against the mark that it leaves.
abbrev IsCounted : String → Planner → Result Error (List Followup) × Planner → Type 0
IsCounted k p (r, p') = delivered k r + has_fired k p ≤ has_fired k p'

module _ (k : String) (s : Setting) where
  fired-IsCounted :
      (h : Handler) (payload : List ℕ) (c : Counters) (p : Planner)
      (r : Result Error (List Followup) × Planner)
      → (handler_name h ≡ k → h.once_per_reset ≡ true)
      → h.once_per_reset && is_in (handler_name h) p.fired_handlers ≡ false
      → IsCounted k (fire h c p) r
      → IsCounted k p (followup payload h r.0, r.1)
  unfolding fire is_in count_by
  fired-IsCounted h payload c p (ok fs, p') once may rest =
      ground (arith, eq_iff (handler_name h) k, once)
  fired-IsCounted h payload c p (err e, p') once may rest =
      ground (arith, eq_iff (handler_name h) k, once)

  plan_handlers-IsCounted :
      (hs : List Handler) (parsed : Fields) (p : Planner)
      → FireOnce k hs
      → IsCounted k p (plan_handlers s hs parsed p)
  plan_handlers-IsCounted [] parsed p once = unfold plan_handlers count_by in omega arith
  plan_handlers-IsCounted (h ∷ hs) parsed p once =
      subst (IsCounted k p) (sym (plan_handlers-cons s h hs parsed p))
        (by_round (λ q. plan_handlers-IsCounted hs parsed q once.1) (consider s h parsed p) refl)
    where
      by_round :
          ((q : Planner) → IsCounted k q (plan_handlers s hs parsed q))
          → (r : Round) → consider s h parsed p ≡ r
          → IsCounted k p (plan_on s h hs parsed p r)
      by_round later skipped e = later p
      by_round later (raised x) e = omega arith
      by_round later (tried none c) e = later (record p { counters = c })
      by_round later (tried (some payload) c) e =
          fired-IsCounted h payload c p (plan_handlers s hs parsed (fire h c p)) once.0
            (tried-may_fire s h parsed p e) (later (fire h c p))

-- The planner through a sequence of responses; a caller may go on behind an exception.
unfoldable pub plan_all :
    Setting → List (Option (List ℕ)) → Planner → List (Result Error (List Followup)) × Planner
plan_all s [] p = ([], p)
plan_all s (response ∷ responses) p =
    let (first, p₁) = plan s response p in
    let (rest, p₂) = plan_all s responses p₁ in (first ∷ rest, p₂)

unfoldable pub count_all : String → List (Result Error (List Followup)) → ℕ
count_all k [] = 0
count_all k (r ∷ rs) = delivered k r + count_all k rs

module _ (k : String) (s : Setting) (once : FireOnce k s.handlers) where
  unplanned : (p : Planner) → IsCounted k p (ok [], p)
  unfolding count_by
  unplanned p = omega arith

  plan-IsCounted : (response : Option (List ℕ)) (p : Planner) → IsCounted k p (plan s response p)
  unfolding plan
  plan-IsCounted none p = unplanned p
  plan-IsCounted (some []) p = unplanned p
  plan-IsCounted (some (b ∷ bs)) p = by_parse (parse s.codec s.response_model (b ∷ bs))
    where
      by_parse :
          (r : Result Error Fields)
          → let planned : Result Error (List Followup) × Planner = elim r [
            | err e ↦ (ok [], p)
            | ok parsed ↦ plan_handlers s s.handlers parsed p
          ] in
            IsCounted k p planned
      by_parse (err e) = unplanned p
      by_parse (ok parsed) = plan_handlers-IsCounted k s s.handlers parsed p once

  plan_all-count :
      (responses : List (Option (List ℕ))) (p : Planner)
      → count_all k (plan_all s responses p).0 + has_fired k p
        ≤ has_fired k (plan_all s responses p).1
  unfolding plan_all count_all
  plan_all-count [] p = omega arith
  plan_all-count (response ∷ responses) p =
      omega (arith, plan-IsCounted response p, plan_all-count responses (plan s response p).1)

  at_most_one : (b : Bool) → (if b then 1 else 0) ≤ 1
  at_most_one true = omega arith
  at_most_one false = omega arith

  -- Where every handler of a name fires once, the planner delivers at most one follow-up of that name
  -- for any sequence of responses without a reset, whatever is in it, and none if the name has fired
  -- before.
  pub plan_all_once :
      (responses : List (Option (List ℕ))) (p : Planner)
      → count_all k (plan_all s responses p).0 + has_fired k p ≤ 1
  plan_all_once responses p = omega (
    arith,
    plan_all-count responses p,
    at_most_one (is_in k (plan_all s responses p).1.fired_handlers),
  )
