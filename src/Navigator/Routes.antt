-- ===== src/Navigator/Routes.antt =====
-- Routes of the state model, and the paths that the search returns.
use mathlib.Core.List.{Memᴰ}
use fuzzing_framework.Prelude.{
  ℕ, zero, suc, String, ◌≡◌, refl, sym, ap, ◌∙◌, subst, true, false, Option, none, some, List, [],
  ◌∷◌, ◌++◌, All, All-append, arith, eq_iff, length,
}
use fuzzing_framework.Stateful.Session.{Transition}
use fuzzing_framework.Navigator.{
  Node, same_node, is_visited, Visit, passed, goal, entered, visit, Entry, Scan, found, scanned,
  scan, search, find_path,
}

-- A route: each transition leaves the state that the route has reached.
pub data Route (ts : List Transition) (from : Node) : List Transition → Node → Type 0 where
  stay : Route ts from [] from
  onward :
      (p : List Transition) (t : Transition)
      → Route ts from p t.from_state
      → Memᴰ t ts
      → Route ts from (p ++ t ∷ []) t.to_state

pub same_node_sound : (a b : Node) → same_node a b ≡ true → a ≡ b
unfolding same_node
same_node_sound none none e = refl
same_node_sound (some a) (some b) e = ap (λ s. some s) (ground (arith, eq_iff a b))
same_node_sound none (some b) e = cc
same_node_sound (some a) none e = cc

pub same_node_refl : (a : Node) → same_node a a ≡ true
unfolding same_node
same_node_refl none = refl
same_node_refl (some a) = ground (arith, eq_iff a a)

-- The scan behind the decision on its first transition.
abbrev pub scan_on :
    Visit
    → Node
    → Node
    → List Transition
    → Transition
    → List Transition
    → List Node
    → List Entry
    → Scan
scan_on passed target state path t ts visited queue = scan target state path ts visited queue
scan_on goal target state path t ts visited queue = found (path ++ t ∷ [])
scan_on entered target state path t ts visited queue =
    scan target state path ts (t.to_state ∷ visited) (queue ++ (t.to_state, path ++ t ∷ []) ∷ [])

pub scan_lem :
    (target state : Node) (path : List Transition) (t : Transition) (ts : List Transition)
    (visited : List Node) (queue : List Entry)
    → scan target state path (t ∷ ts) visited queue
      ≡ scan_on (visit target state visited t) target state path t ts visited queue
unfolding scan
scan_lem target state path t ts visited queue = by_visit (visit target state visited t)
  where
    by_visit :
        (d : Visit)
        → (elim d [
          | passed ↦ scan target state path ts visited queue
          | goal ↦ found (path ++ t ∷ [])
          | entered ↦
              scan target state path ts
                (t.to_state ∷ visited)
                (queue ++ (t.to_state, path ++ t ∷ []) ∷ [])
        ])
          ≡ scan_on d target state path t ts visited queue
    by_visit passed = refl
    by_visit goal = refl
    by_visit entered = refl

pub visit-goal :
    (target state : Node) (visited : List Node) (t : Transition)
    → visit target state visited t ≡ goal
    → (same_node t.from_state state ≡ true) × (same_node t.to_state target ≡ true)
unfolding visit
visit-goal target state visited t e = ground arith

pub visit-entered :
    (target state : Node) (visited : List Node) (t : Transition)
    → visit target state visited t ≡ entered
    → (same_node t.from_state state ≡ true)
      × (is_visited t.to_state visited ≡ false)
      × (same_node t.to_state target ≡ false)
unfolding visit
visit-entered target state visited t e = ground arith

pub visit-passed :
    (target state : Node) (visited : List Node) (t : Transition)
    → visit target state visited t ≡ passed
    → same_node t.from_state state ≡ true
    → is_visited t.to_state visited ≡ true
unfolding visit
visit-passed target state visited t e h = ground arith

module _ (all : List Transition) (from target : Node) where
  abbrev AreRoutes : List Entry → Type 0
  AreRoutes = All (λ entry. Route all from entry.1 entry.0)

  -- A scan of routes finds a route, or queues routes.
  abbrev IsRouted : Scan → Type 0
  IsRouted (found p) = Route all from p target
  IsRouted (scanned v q) = AreRoutes q

  go :
      (state : Node) (path : List Transition) (t : Transition)
      → Route all from path state
      → Memᴰ t all
      → same_node t.from_state state ≡ true
      → Route all from (path ++ t ∷ []) t.to_state
  go state path t r m e =
      onward path t (subst (Route all from path) (sym (same_node_sound t.from_state state e)) r) m

  scan-IsRouted :
      (state : Node) (path ts : List Transition) (visited : List Node) (queue : List Entry)
      → ((t : Transition) → Memᴰ t ts → Memᴰ t all)
      → Route all from path state
      → AreRoutes queue
      → IsRouted (scan target state path ts visited queue)
  scan-IsRouted state path [] visited queue sub r h = unfold scan in h
  scan-IsRouted state path (t ∷ ts) visited queue sub r h =
      subst IsRouted (sym (scan_lem target state path t ts visited queue)) (
        by_visit (λ v q k. scan-IsRouted state path ts v q (λ u m. sub u (Memᴰ.tail m)) r k)
          (visit target state visited t) refl)
    where
      by_visit :
          ((v : List Node) (q : List Entry)
            → AreRoutes q
            → IsRouted (scan target state path ts v q))
          → (d : Visit) → visit target state visited t ≡ d
          → IsRouted (scan_on d target state path t ts visited queue)
      by_visit later passed e = later visited queue h
      by_visit later goal e =
          let (leaves, arrives) = visit-goal target state visited t e in
          subst (Route all from (path ++ t ∷ [])) (same_node_sound t.to_state target arrives)
            (go state path t r (sub t (Memᴰ.head refl)) leaves)
      by_visit later entered e =
          let (leaves, unseen, other) = visit-entered target state visited t e in
          later (t.to_state ∷ visited) (queue ++ (t.to_state, path ++ t ∷ []) ∷ []) (
            All-append _ queue ((t.to_state, path ++ t ∷ []) ∷ []) h
              (go state path t r (sub t (Memᴰ.head refl)) leaves, tt))

  -- the search behind a scan
  abbrev pub search_on : ℕ → Scan → Option (List Transition)
  search_on fuel (found p) = some p
  search_on fuel (scanned v q) = search fuel target all q v

  pub search_lem :
      (fuel : ℕ) (state : Node) (path : List Transition) (queue : List Entry) (visited : List Node)
      → search (suc fuel) target all ((state, path) ∷ queue) visited
        ≡ search_on fuel (scan target state path all visited queue)
  unfolding search
  search_lem fuel state path queue visited = by_scan (scan target state path all visited queue)
    where
      by_scan :
          (s : Scan)
          → (elim s [ found p ↦ some p | scanned v q ↦ search fuel target all q v ])
            ≡ search_on fuel s
      by_scan (found p) = refl
      by_scan (scanned v q) = refl

  search_sound :
      (fuel : ℕ) (queue : List Entry) (visited : List Node) {p : List Transition}
      → AreRoutes queue
      → search fuel target all queue visited ≡ some p
      → Route all from p target
  search_sound zero queue visited h e = absurd (unfold search in cc e)
  search_sound (suc fuel) [] visited h e = absurd (unfold search in cc e)
  search_sound (suc fuel) ((state, path) ∷ queue) visited {p} h e =
      by_scan (λ q v k g. search_sound fuel q v k g) (scan target state path all visited queue)
        (scan-IsRouted state path all visited queue (λ t m. m) h.0 h.1)
        (sym (search_lem fuel state path queue visited) ∙ e)
    where
      by_scan :
          ((q : List Entry) (v : List Node)
            → AreRoutes q
            → search fuel target all q v ≡ some p
            → Route all from p target)
          → (s : Scan) → IsRouted s
          → search_on fuel s ≡ some p
          → Route all from p target
      by_scan later (found q) r g = subst (λ x. Route all from x target) (cc g) r
      by_scan later (scanned v q) r g = later q v r g

-- A path that the search returns is a route from the current state to the target.
pub find_path_sound :
    (ts : List Transition) (current target : String) {p : List Transition}
    → find_path ts current target ≡ some p
    → Route ts (some current) p (some target)
unfolding find_path
find_path_sound ts current target e =
    search_sound ts (some current) (some target) (suc (length ts)) ((some current, []) ∷ [])
      (some current ∷ []) (stay, tt) e
