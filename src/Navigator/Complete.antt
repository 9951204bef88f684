-- ===== src/Navigator/Complete.antt =====
-- The whole search, and what it has visited when it fails.
use mathlib.Core.List.{Memᴰ}
use fuzzing_framework.Prelude.{
  ℕ, zero, suc, ◌+◌, ◌≤◌, String, ◌≡◌, ◌≢◌, refl, sym, ◌∙◌, subst, ◌⊎◌, inl, inr, true, false, none,
  some, List, [], ◌∷◌, ◌++◌, arith, eq_iff, length, Bool-cases, Option-cases,
}
use fuzzing_framework.Stateful.Session.{Transition}
use fuzzing_framework.Navigator.{
  Node, same_node, is_visited, Visit, passed, goal, entered, visit, Entry, Scan, found, scanned,
  scan, search, find_path,
}
use fuzzing_framework.Navigator.Routes.{
  Route, stay, onward, same_node_sound, same_node_refl, scan_on, scan_lem, search_on, search_lem,
}
use fuzzing_framework.Navigator.Reach.{
  queued, fresh, fresh-length, IsScanned, nothing-IsScanned, after_passed, after_entered,
}

same_node_sym : (a b : Node) → same_node a b ≡ true → same_node b a ≡ true
same_node_sym a b e = subst (λ x. same_node x a ≡ true) (same_node_sound a b e) (same_node_refl a)

module _ (all : List Transition) (target : Node) where
  -- A scan that found no path leaves what the search goes on with.
  abbrev LeavesOpen : Node → List Transition → List Node → List Entry → Scan → Type 0
  LeavesOpen state ts visited queue (found p) = Unit
  LeavesOpen state ts visited queue (scanned v q) = IsScanned all target state ts visited queue v q

  scan-LeavesOpen :
      (state : Node) (path ts : List Transition) (visited : List Node) (queue : List Entry)
      → ((t : Transition) → Memᴰ t ts → Memᴰ t all)
      → LeavesOpen state ts visited queue (scan target state path ts visited queue)
  scan-LeavesOpen state path [] visited queue sub =
      unfold scan in nothing-IsScanned all target state visited queue
  scan-LeavesOpen state path (t ∷ ts) visited queue sub =
      subst (LeavesOpen state (t ∷ ts) visited queue)
        (sym (scan_lem target state path t ts visited queue))
        (by_visit (λ v q. scan-LeavesOpen state path ts v q (λ u m. sub u (Memᴰ.tail m)))
          (visit target state visited t) refl)
    where
      passed_on :
          (s : Scan)
          → visit target state visited t ≡ passed
          → LeavesOpen state ts visited queue s
          → LeavesOpen state (t ∷ ts) visited queue s
      passed_on (found p) e h = tt
      passed_on (scanned v q) e h = after_passed all target state t ts visited queue v q e h

      entered_on :
          (s : Scan)
          → visit target state visited t ≡ entered
          → LeavesOpen state ts
              (t.to_state ∷ visited)
              (queue ++ (t.to_state, path ++ t ∷ []) ∷ [])
              s
          → LeavesOpen state (t ∷ ts) visited queue s
      entered_on (found p) e h = tt
      entered_on (scanned v q) e h =
          after_entered all target state t ts visited queue v q (path ++ t ∷ [])
            (sub t (Memᴰ.head refl)) e h

      by_visit :
          ((v : List Node) (q : List Entry)
            → LeavesOpen state ts v q (scan target state path ts v q))
          → (d : Visit) → visit target state visited t ≡ d
          → LeavesOpen state (t ∷ ts) visited queue (scan_on d target state path t ts visited queue)
      by_visit later passed e =
          passed_on (scan target state path ts visited queue) e (later visited queue)
      by_visit later goal e = tt
      by_visit later entered e =
          entered_on
            (scan target state path ts (t.to_state ∷ visited)
              (queue ++ (t.to_state, path ++ t ∷ []) ∷ []))
            e (later (t.to_state ∷ visited) (queue ++ (t.to_state, path ++ t ∷ []) ∷ []))

  -- Visited states whose transitions stay among them, and the target is elsewhere.
  record IsClosed (visited v : List Node) : Type 0 where
    grows : (x : Node) → is_visited x visited ≡ true → is_visited x v ≡ true
    closed :
        (t : Transition)
        → Memᴰ t all
        → is_visited t.from_state v ≡ true
        → is_visited t.to_state v ≡ true
    apart : is_visited target v ≡ false

  -- Between two rounds: what leads out of the visited states starts in the queue.
  record IsPending (visited : List Node) (queue : List Entry) : Type 0 where
    open_at :
        (t : Transition)
        → Memᴰ t all
        → is_visited t.from_state visited ≡ true
        → (is_visited t.to_state visited ≡ true) ⊎ (queued t.from_state queue ≡ true)
    apart : is_visited target visited ≡ false

  not_queued : (x : Node) → queued x [] ≢ true
  unfolding queued
  not_queued x e = absurd cc

  pending-IsClosed : (visited : List Node) → IsPending visited [] → IsClosed visited visited
  pending-IsClosed visited h = record {
    grows = λ x v. v;
    closed = λ t m from. elim (h.open_at t m from) [
      | inl to ↦ to
      | inr queue ↦ absurd (not_queued t.from_state queue)
    ];
    apart = h.apart;
  }

  queued-cons :
      (x state : Node) (path : List Transition) (queue : List Entry)
      → queued x ((state, path) ∷ queue) ≡ true
      → (same_node state x ≡ true) ⊎ (queued x queue ≡ true)
  unfolding queued
  queued-cons x state path queue e = elim (Bool-cases (same_node state x)) [
    | inl here ↦ inl here
    | inr other ↦ inr (ground arith)
  ]

  scanned-IsPending :
      (state : Node) (path : List Transition) (visited : List Node) (queue : List Entry)
      (v : List Node) (q : List Entry)
      → IsPending visited ((state, path) ∷ queue)
      → IsScanned all target state all visited queue v q
      → IsPending v q
  scanned-IsPending state path visited queue v q h s = record {
    open_at = λ t m from. elim (s.covers t.from_state from) [
      | inr new ↦ inr new
      | inl old ↦ elim (h.open_at t m old) [
        | inl to ↦ inl (s.grows t.to_state to)
        | inr waits ↦ elim (queued-cons t.from_state state path queue waits) [
          | inl here ↦ inl (s.outgoing t m (same_node_sym state t.from_state here))
          | inr later ↦ inr (s.kept t.from_state later)
        ]
      ]
    ];
    apart = s.apart h.apart;
  }

  search_fails :
      (fuel : ℕ) (queue : List Entry) (visited : List Node)
      → IsPending visited queue
      → length queue + fresh visited all ≤ fuel
      → search fuel target all queue visited ≡ none
      → (v : List Node) × IsClosed visited v
  search_fails zero [] visited h enough e = (visited, pending-IsClosed visited h)
  search_fails (suc fuel) [] visited h enough e = (visited, pending-IsClosed visited h)
  search_fails zero (entry ∷ queue) visited h enough e = absurd (omega arith)
  search_fails (suc fuel) ((state, path) ∷ queue) visited h enough e =
      by_scan (λ q v k. search_fails fuel q v k) (scan target state path all visited queue)
        (scan-LeavesOpen state path all visited queue (λ t m. m))
        (sym (search_lem all (some "") target fuel state path queue visited) ∙ e)
    where
      by_scan :
          ((q : List Entry) (v : List Node)
            → IsPending v q
            → length q + fresh v all ≤ fuel
            → search fuel target all q v ≡ none
            → (w : List Node) × IsClosed v w)
          → (s : Scan) → LeavesOpen state all visited queue s
          → search_on all (some "") target fuel s ≡ none
          → (v : List Node) × IsClosed visited v
      by_scan later (found p) s g = absurd cc
      by_scan later (scanned v q) s g =
          let (w, c) =
            later q v (scanned-IsPending state path visited queue v q h s)
              (omega (arith, s.measure)) g in
          (w, record { grows = λ x i. c.grows x (s.grows x i); closed = c.closed; apart = c.apart })

  -- A route stays within closed states.
  Route-is_visited :
      (from : Node) {p : List Transition} {x : Node} (visited v : List Node)
      → IsClosed visited v
      → is_visited from v ≡ true
      → Route all from p x
      → is_visited x v ≡ true
  Route-is_visited from visited v c h stay = h
  Route-is_visited from visited v c h (onward p t r m) =
      c.closed t m (Route-is_visited from visited v c h r)

start-IsPending :
    (ts : List Transition) (current target : String)
    → current ≢ target
    → IsPending ts (some target) (some current ∷ []) ((some current, []) ∷ [])
unfolding is_visited queued same_node
start-IsPending ts current target elsewhere = record {
  open_at = λ t m from. inr from;
  apart = ground (arith, eq_iff current target);
}

start_visited : (current : String) → is_visited (some current) (some current ∷ []) ≡ true
unfolding is_visited
start_visited current = ground (arith, same_node_refl (some current))

-- Where a route leads from the current state to another state, the search returns a path: it neither
-- misses the target nor runs out of fuel.
pub find_path_complete :
    (ts : List Transition) (current target : String) {p : List Transition}
    → current ≢ target
    → Route ts (some current) p (some target)
    → (q : List Transition) × (find_path ts current target ≡ some q)
find_path_complete ts current target elsewhere r =
    elim (Option-cases (find_path ts current target)) [
      | inr path ↦ path
      | inl fails ↦
          let start = start-IsPending ts current target elsewhere in
          let (v, c) =
            search_fails ts (some target) (suc (length ts)) ((some current, []) ∷ [])
              (some current ∷ []) start (omega (arith, fresh-length (some current ∷ []) ts))
              (unfold find_path in fails) in
          let reached =
            Route-is_visited ts (some target) (some current) (some current ∷ []) v c
              (c.grows (some current) (start_visited current)) r in
          let contradiction : true ≡ false = sym reached ∙ c.apart in absurd (cc contradiction)
    ]
