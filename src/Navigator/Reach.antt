-- ===== src/Navigator/Reach.antt =====
-- What one scan of the transitions leaves behind.
use mathlib.Core.List.{Memᴰ}
use fuzzing_framework.Prelude.{
  ℕ, ◌+◌, ◌≤◌, ◌<◌, ◌≡◌, refl, sym, subst, ◌⊎◌, inl, inr, Bool, true, false, ◌||◌, List, [], ◌∷◌,
  ◌++◌, arith, length, length-append, Bool-cases, if◌then◌else◌,
}
use fuzzing_framework.Stateful.Session.{Transition}
use fuzzing_framework.Navigator.{Node, same_node, is_visited, passed, entered, visit, Entry}
use fuzzing_framework.Navigator.Routes.{same_node_refl, visit-passed, visit-entered}

-- An entry of the queue is at a state.
unfoldable pub queued : Node → List Entry → Bool
queued x [] = false
queued x (entry ∷ queue) = same_node entry.0 x || queued x queue

queued-append : (x : Node) (q r : List Entry) → queued x (q ++ r) ≡ (queued x q || queued x r)
unfolding queued
queued-append x [] r = refl
queued-append x (entry ∷ q) r = ground (arith, queued-append x q r)

-- The transitions to states that are not visited.
unfoldable pub fresh : List Node → List Transition → ℕ
fresh visited [] = 0
fresh visited (t ∷ ts) = (if is_visited t.to_state visited then 0 else 1) + fresh visited ts

pub visited-cons :
    (x y : Node) (v : List Node) → is_visited x (y ∷ v) ≡ (same_node y x || is_visited x v)
unfolding is_visited
visited-cons x y v = refl

pub fresh-le : (x : Node) (v : List Node) (ts : List Transition) → fresh (x ∷ v) ts ≤ fresh v ts
unfolding fresh
fresh-le x v [] = omega arith
fresh-le x v (t ∷ ts) = ground (arith, visited-cons t.to_state x v, fresh-le x v ts)

pub fresh-lt :
    (t : Transition) (v : List Node) (ts : List Transition)
    → Memᴰ t ts
    → is_visited t.to_state v ≡ false
    → fresh (t.to_state ∷ v) ts < fresh v ts
unfolding fresh
fresh-lt t v [] m e = elim m [ ]
fresh-lt t v (u ∷ ts) (Memᴰ.head same) e =
    subst (λ u. fresh (t.to_state ∷ v) (u ∷ ts) < fresh v (u ∷ ts)) same
      (ground (
        arith,
        visited-cons t.to_state t.to_state v,
        same_node_refl t.to_state,
        fresh-le t.to_state v ts,
      ))
fresh-lt t v (u ∷ ts) (Memᴰ.tail m) e =
    ground (arith, visited-cons u.to_state t.to_state v, fresh-lt t v ts m e)

pub fresh-length : (v : List Node) (ts : List Transition) → fresh v ts ≤ length ts
unfolding fresh
fresh-length v [] = omega arith
fresh-length v (t ∷ ts) = ground (arith, fresh-length v ts)

-- What a scan leaves behind: no state is forgotten, each new one is queued, every transition from the
-- state of the scan leads to a visited state, and the target is not visited.
pub record IsScanned (all : List Transition) (target state : Node) (ts : List Transition)
    (visited : List Node) (queue : List Entry) (v : List Node) (q : List Entry) : Type 0 where
  pub grows : (x : Node) → is_visited x visited ≡ true → is_visited x v ≡ true
  pub kept : (x : Node) → queued x queue ≡ true → queued x q ≡ true
  pub covers :
      (x : Node) → is_visited x v ≡ true → (is_visited x visited ≡ true) ⊎ (queued x q ≡ true)
  pub outgoing :
      (t : Transition)
      → Memᴰ t ts
      → same_node t.from_state state ≡ true
      → is_visited t.to_state v ≡ true
  pub apart : is_visited target visited ≡ false → is_visited target v ≡ false
  pub measure : length q + fresh v all ≤ length queue + fresh visited all

module _ (all : List Transition) (target : Node) where
  pub nothing-IsScanned :
      (state : Node) (visited : List Node) (queue : List Entry)
      → IsScanned all target state [] visited queue visited queue
  nothing-IsScanned state visited queue = record {
    grows = λ x h. h;
    kept = λ x h. h;
    covers = λ x h. inl h;
    outgoing = λ t m. elim m [ ];
    apart = λ h. h;
    measure = omega arith;
  }

  module _ (state : Node) (t : Transition) (ts : List Transition) (visited : List Node)
      (queue : List Entry) (v : List Node) (q : List Entry) where
    pub after_passed :
        visit target state visited t ≡ passed
        → IsScanned all target state ts visited queue v q
        → IsScanned all target state (t ∷ ts) visited queue v q
    after_passed e s = record {
      grows = s.grows;
      kept = s.kept;
      covers = s.covers;
      outgoing = λ u m from. elim m [
        | Memᴰ.head same ↦ s.grows u.to_state (
            subst (λ (x : Transition). is_visited x.to_state visited ≡ true) (sym same)
              (visit-passed target state visited t e
                (subst (λ (x : Transition). same_node x.from_state state ≡ true) same from)))
        | Memᴰ.tail n ↦ s.outgoing u n from
      ];
      apart = s.apart;
      measure = s.measure;
    }

    pub after_entered :
        (path : List Transition)
        → Memᴰ t all
        → visit target state visited t ≡ entered
        → IsScanned all target state ts
            (t.to_state ∷ visited)
            (queue ++ (t.to_state, path) ∷ [])
            v
            q
        → IsScanned all target state (t ∷ ts) visited queue v q
    after_entered path m e s =
        let (from_here, unseen, other) = visit-entered target state visited t e in
        let now : is_visited t.to_state (t.to_state ∷ visited) ≡ true =
          ground (arith, visited-cons t.to_state t.to_state visited, same_node_refl t.to_state) in
        record {
          grows = λ x h. s.grows x (ground (arith, visited-cons x t.to_state visited));
          kept = λ x h. s.kept x (ground (arith, queued-append x queue ((t.to_state, path) ∷ [])));
          covers = λ x h. elim (s.covers x h) [
            | inr later ↦ inr later
            | inl before ↦ elim (Bool-cases (is_visited x visited)) [
              | inl old ↦ inl old
              | inr new ↦ inr (
                  s.kept x (
                    unfold queued in
                    ground (
                      arith,
                      visited-cons x t.to_state visited,
                      queued-append x queue ((t.to_state, path) ∷ []),
                    )))
            ]
          ];
          outgoing = λ u n from. elim n [
            | Memᴰ.head same ↦
                subst (λ (x : Transition). is_visited x.to_state v ≡ true) (sym same)
                  (s.grows t.to_state now)
            | Memᴰ.tail n ↦ s.outgoing u n from
          ];
          apart = λ h. s.apart (ground (arith, visited-cons target t.to_state visited));
          measure = omega (
            arith,
            s.measure,
            fresh-lt t visited all m unseen,
            length-append queue ((t.to_state, path) ∷ []),
          );
        }
