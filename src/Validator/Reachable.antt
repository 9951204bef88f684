-- ===== src/Validator/Reachable.antt =====
-- The states that the validator calls unreachable, against the routes of the state model.
use mathlib.Core.List.{Memᴰ}
use fuzzing_framework.Prelude.{
  ℕ, zero, suc, ◌≤◌, ◌<◌, ◌≡◌, refl, sym, subst, Bool, true, false, not, ◌&&◌, List, [], ◌∷◌, ◌++◌,
  arith, Bool-cases, inl, inr,
}
use fuzzing_framework.Stateful.Session.{Transition}
use fuzzing_framework.Navigator.{Node, same_node, is_visited}
use fuzzing_framework.Navigator.Routes.{Route, stay, onward, same_node_sound}
use fuzzing_framework.Navigator.Reach.{fresh, fresh-lt, visited-cons}
use fuzzing_framework.Validator.States.{reach_once, reach}

abbrev enters : Transition → List Node → Bool
enters t v = is_visited t.from_state v && not (is_visited t.to_state v)

-- A pass behind the test on its first transition.
abbrev pass_on : Bool → Transition → List Transition → List Node → List Node × Bool
pass_on true t ts v = ((reach_once ts (t.to_state ∷ v)).0, true)
pass_on false t ts v = reach_once ts v

reach_once-cons :
    (t : Transition) (ts : List Transition) (v : List Node)
    → reach_once (t ∷ ts) v ≡ pass_on (enters t v) t ts v
unfolding reach_once
reach_once-cons t ts v = by_test (enters t v)
  where
    by_test :
        (b : Bool)
        → (elim b [ true ↦ ((reach_once ts (t.to_state ∷ v)).0, true) | false ↦ reach_once ts v ])
          ≡ pass_on b t ts v
    by_test true = refl
    by_test false = refl

-- What a pass makes of the visited states.
record IsPass (all : List Transition) (ts : List Transition) (v : List Node) (r : List Node × Bool)
    : Type 0 where
  grows : (x : Node) → is_visited x v ≡ true → is_visited x r.0 ≡ true
  less : fresh r.0 all ≤ fresh v all
  changed : r.1 ≡ true → fresh r.0 all < fresh v all
  same : r.1 ≡ false → r.0 ≡ v
  closed :
      r.1 ≡ false
      → (t : Transition) → Memᴰ t ts
      → is_visited t.from_state v ≡ true
      → is_visited t.to_state v ≡ true

module _ (all : List Transition) where
  visited_grows : (x y : Node) (v : List Node) → is_visited x v ≡ true → is_visited x (y ∷ v) ≡ true
  visited_grows x y v h = ground (arith, visited-cons x y v)

  pass_on-IsPass :
      (t : Transition) (ts : List Transition) (v : List Node) (b : Bool)
      → Memᴰ t all
      → enters t v ≡ b
      → ((w : List Node) → IsPass all ts w (reach_once ts w))
      → IsPass all (t ∷ ts) v (pass_on b t ts v)
  pass_on-IsPass t ts v true m e later =
      let rest = later (t.to_state ∷ v) in
      let smaller = fresh-lt t v all m (ground arith) in
      record {
        grows = λ x h. rest.grows x (visited_grows x t.to_state v h);
        less = omega (arith, smaller, rest.less);
        changed = λ _. omega (arith, smaller, rest.less);
        same = λ h. cc;
        closed = λ h. cc;
      }
  pass_on-IsPass t ts v false m e later =
      let rest = later v in
      record {
        grows = rest.grows;
        less = rest.less;
        changed = rest.changed;
        same = rest.same;
        closed = λ h u n from. elim n [
          | Memᴰ.head i ↦
              let from_t : is_visited t.from_state v ≡ true =
                subst (λ (x : Transition). is_visited x.from_state v ≡ true) i from in
              subst (λ (x : Transition). is_visited x.to_state v ≡ true) (sym i) (ground arith)
          | Memᴰ.tail k ↦ rest.closed h u k from
        ];
      }

  reach_once-IsPass :
      (ts : List Transition) (v : List Node)
      → ((t : Transition) → Memᴰ t ts → Memᴰ t all)
      → IsPass all ts v (reach_once ts v)
  reach_once-IsPass [] v sub =
      unfold reach_once in
      record {
        grows = λ x h. h;
        less = omega arith;
        changed = λ h. cc;
        same = λ h. refl;
        closed = λ h t m. elim m [ ];
      }
  reach_once-IsPass (t ∷ ts) v sub = subst (IsPass all (t ∷ ts) v) (sym (reach_once-cons t ts v)) (
      pass_on-IsPass t ts v (enters t v) (sub t (Memᴰ.head refl)) refl
        (λ w. reach_once-IsPass ts w (λ u m. sub u (Memᴰ.tail m))))

  -- The loop behind a pass.
  abbrev loop_on : ℕ → List Node × Bool → List Node
  loop_on fuel (next, true) = reach fuel all next
  loop_on fuel (next, false) = next

  reach_lem : (fuel : ℕ) (v : List Node) → reach (suc fuel) all v ≡ loop_on fuel (reach_once all v)
  unfolding reach
  reach_lem fuel v = by_pass (reach_once all v)
    where
      by_pass :
          (r : List Node × Bool)
          → (let (next, changed) = r in elim changed [ true ↦ reach fuel all next | false ↦ next ])
            ≡ loop_on fuel r
      by_pass (next, true) = refl
      by_pass (next, false) = refl

  -- Where the loop ends, no transition leads out of the visited states.
  pub record IsClosed (v w : List Node) : Type 0 where
    pub grows : (x : Node) → is_visited x v ≡ true → is_visited x w ≡ true
    pub closed :
        (t : Transition)
        → Memᴰ t all
        → is_visited t.from_state w ≡ true
        → is_visited t.to_state w ≡ true

  pub reach-IsClosed :
      (fuel : ℕ) (v : List Node) → fresh v all < fuel → IsClosed v (reach fuel all v)
  reach-IsClosed zero v enough = absurd (omega arith)
  reach-IsClosed (suc fuel) v enough = subst (IsClosed v) (sym (reach_lem fuel v)) (
      by_pass (λ w h. reach-IsClosed fuel w h) (reach_once all v)
        (reach_once-IsPass all v (λ t m. m)))
    where
      by_pass :
          ((w : List Node) → fresh w all < fuel → IsClosed w (reach fuel all w))
          → (r : List Node × Bool) → IsPass all all v r
          → IsClosed v (loop_on fuel r)
      by_pass later (w, true) p =
          let rest = later w (omega (arith, p.changed refl)) in
          record { grows = λ x h. rest.grows x (p.grows x h); closed = rest.closed }
      by_pass later (w, false) p =
          subst (IsClosed v) (sym (p.same refl))
            (record { grows = λ x h. h; closed = λ t m h. p.closed refl t m h })

  module _ (start : Node) where
    abbrev pub Routed : List Node → Type 0
    Routed v = (x : Node) → is_visited x v ≡ true → (p : List Transition) × Route all start p x

    entered-Routed :
        (t : Transition) (v : List Node)
        → Memᴰ t all
        → is_visited t.from_state v ≡ true
        → Routed v
        → Routed (t.to_state ∷ v)
    entered-Routed t v m from r x h = elim (Bool-cases (same_node t.to_state x)) [
      | inl here ↦
          let (p, route) = r t.from_state from in
          (
            p ++ t ∷ [],
            subst (λ y. Route all start (p ++ t ∷ []) y) (same_node_sound t.to_state x here)
                (onward p t route m),
          )
      | inr other ↦ r x (ground (arith, visited-cons x t.to_state v))
    ]

    reach_once-Routed :
        (ts : List Transition) (v : List Node)
        → ((t : Transition) → Memᴰ t ts → Memᴰ t all)
        → Routed v
        → Routed (reach_once ts v).0
    reach_once-Routed [] v sub r = unfold reach_once in r
    reach_once-Routed (t ∷ ts) v sub r =
        subst (λ (w : List Node × Bool). Routed w.0) (sym (reach_once-cons t ts v))
          (by_test (λ w k. reach_once-Routed ts w (λ u m. sub u (Memᴰ.tail m)) k) (enters t v) refl)
      where
        by_test :
            ((w : List Node) → Routed w → Routed (reach_once ts w).0)
            → (b : Bool) → enters t v ≡ b
            → Routed (pass_on b t ts v).0
        by_test later true e =
            later (t.to_state ∷ v) (entered-Routed t v (sub t (Memᴰ.head refl)) (ground arith) r)
        by_test later false e = later v r

    pub reach-Routed : (fuel : ℕ) (v : List Node) → Routed v → Routed (reach fuel all v)
    reach-Routed zero v r = unfold reach in r
    reach-Routed (suc fuel) v r = subst Routed (sym (reach_lem fuel v)) (
        by_pass (λ w k. reach-Routed fuel w k) (reach_once all v)
          (reach_once-Routed all v (λ t m. m) r))
      where
        by_pass :
            ((w : List Node) → Routed w → Routed (reach fuel all w))
            → (p : List Node × Bool) → Routed p.0
            → Routed (loop_on fuel p)
        by_pass later (w, true) k = later w k
        by_pass later (w, false) k = k

    pub Route-is_visited :
        {p : List Transition} {x : Node} (v w : List Node)
        → IsClosed v w
        → is_visited start v ≡ true
        → Route all start p x
        → is_visited x w ≡ true
    Route-is_visited v w c h stay = c.grows start h
    Route-is_visited v w c h (onward p t r m) = c.closed t m (Route-is_visited v w c h r)
