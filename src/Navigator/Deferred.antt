-- ===== src/Navigator/Deferred.antt =====
-- A termination reset that is pending puts off every other reset.
use fuzzing_framework.Prelude.{
  ℕ, zero, suc, ◌+◌, ◌≡◌, ◌≢◌, refl, sym, subst, ◌∙◌, String, Bool, true, false, Option, List, [],
  ◌∷◌, arith, is_in, length,
}
use fuzzing_framework.Prelude.Int.{ℤ, pos, negsuc}
use fuzzing_framework.Result.{Result, ok, err, ◌>>=◌}
use fuzzing_framework.Protocol.Parse.{Codec}
use fuzzing_framework.Stateful.Session.{Session, update_state}
use fuzzing_framework.Stateful.Choice.{
  Suggests, get_termination_states, DivisionError, should_reset,
}
use fuzzing_framework.Navigator.Drive.{
  FuzzSession, Settings, get_reset_interval, settle, counted, after_test, navigator_update_state,
}

-- What is sent, what is answered, the result and the iteration.
pub record Test : Type 0 where
  pub data' : List ℕ
  pub response : Option (List ℕ)
  pub result : String
  pub iteration : ℕ

settle_put :
    (ended : Bool) (m : Result DivisionError Bool) (waits due : Bool) (s : Session)
    (f : FuzzSession)
    → ended ≡ false
    → m ≡ ok due
    → waits ≡ true
    → settle ended m waits s f ≡ ok (s, f)
settle_put true m waits due s f e d w = absurd (cc e)
settle_put false (err raised) waits due s f e d w = absurd (cc d)
settle_put false (ok d) false due s f e h w = absurd (cc w)
settle_put false (ok true) true due s f e h w = refl
settle_put false (ok false) true due s f e h w = refl

module _ (suggests : Suggests) (settings : Settings) (codec : Codec) where
  -- The navigator over several tests.
  unfoldable pub navigate :
      Session → FuzzSession → List Test → Result DivisionError (Session × FuzzSession)
  unfolding navigator_update_state
  navigate s f [] = ok (s, f)
  navigate s f (t ∷ ts) = do
    (s', f') ←
        navigator_update_state suggests settings codec s f t.data' t.response t.result t.iteration
    navigate s' f' ts

  -- The session alone over the same tests, without the navigator's resets.
  unfoldable pub send_all : Session → List Test → Session
  unfolding update_state
  send_all s [] = s
  send_all s (t ∷ ts) = send_all (update_state codec s t.data' t.response t.result) ts

  -- No test leads the session into a termination state.
  abbrev pub AvoidsEnd : Session → List Test → Type 0
  AvoidsEnd s [] = Unit
  AvoidsEnd s (t ∷ ts) =
      let s' = update_state codec s t.data' t.response t.result in
      (is_in s'.current_state (get_termination_states suggests s') ≡ false) × AvoidsEnd s' ts

  -- One test with the reset pending.
  abbrev IsPut : Session → FuzzSession → Result DivisionError (Session × FuzzSession) → Type 0
  IsPut s f m =
      (f' : FuzzSession) × (m ≡ ok (s, f'))
      × (f'.termination_reset_pending ≡ true)
      × (f'.session_resets ≡ f.session_resets)
      × (f'.tests_since_last_reset ≡ f.tests_since_last_reset + 1)
      × (get_reset_interval settings f' ≡ get_reset_interval settings f)

  should_reset_returns :
      (s : Session) (iteration : ℕ) (interval : ℤ)
      → interval ≢ pos 0
      → (b : Bool) × (should_reset s iteration interval ≡ ok b)
  unfolding should_reset
  should_reset_returns s zero interval h = (_, refl)
  should_reset_returns s (suc n) (pos zero) h = absurd (h refl)
  should_reset_returns s (suc n) (pos (suc m)) h = (_, refl)
  should_reset_returns s (suc n) (negsuc m) h = (_, refl)

  after_test-IsPut :
      (s : Session) (f : FuzzSession) (iteration : ℕ)
      → get_reset_interval settings f ≢ pos 0
      → f.termination_reset_pending ≡ true
      → is_in s.current_state (get_termination_states suggests s) ≡ false
      → IsPut s f (after_test suggests settings s f iteration)
  unfolding after_test
  after_test-IsPut s f iteration nonzero waits avoids =
      let (due, e) = should_reset_returns s iteration (get_reset_interval settings f) nonzero in
      (
        counted s f,
        settle_put _ _ _ due s (counted s f) (ground (arith, avoids)) e waits,
        unfold counted in waits,
        unfold counted in refl,
        unfold counted in refl,
        unfold counted get_reset_interval in refl,
      )

  navigate_then :
      (s : Session) (f f' : FuzzSession) (ts : List Test)
      (m : Result DivisionError (Session × FuzzSession))
      → m ≡ ok (s, f)
      → navigate s f ts ≡ ok (send_all s ts, f')
      → (m >>= λ (v : Session × FuzzSession). navigate v.0 v.1 ts) ≡ ok (send_all s ts, f')
  navigate_then s f f' ts (err e) h k = absurd (cc h)
  navigate_then s f f' ts (ok v) h k =
      let same : (s, f) ≡ v = cc in
      subst (λ (w : Session × FuzzSession). navigate w.0 w.1 ts ≡ ok (send_all s ts, f')) same k

  -- While a termination reset is pending and no test leads into a termination state, the navigator never
  -- resets the session, at whatever reset interval but 0 and even where no transition is left: the session
  -- ends where the tests alone lead it, the reset is still pending, and only the tests since the last reset
  -- are counted on.
  pub navigate-send_all :
      (s : Session) (f : FuzzSession) (ts : List Test)
      → get_reset_interval settings f ≢ pos 0
      → f.termination_reset_pending ≡ true
      → AvoidsEnd s ts
      → (f' : FuzzSession) × (navigate s f ts ≡ ok (send_all s ts, f'))
        × (f'.termination_reset_pending ≡ true)
        × (f'.session_resets ≡ f.session_resets)
        × (f'.tests_since_last_reset ≡ f.tests_since_last_reset + length ts)
  unfolding navigate send_all
  navigate-send_all s f [] nonzero waits avoids = (f, refl, waits, refl, omega arith)
  navigate-send_all s f (t ∷ ts) nonzero waits avoids =
      let s' = update_state codec s t.data' t.response t.result in
      let (f', e, waits', resets, tests, interval) =
        after_test-IsPut s' f t.iteration nonzero waits avoids.0 in
      let (f'', e', waits'', resets'', tests'') =
        navigate-send_all s' f' ts (subst (λ (n : ℤ). n ≢ pos 0) (sym interval) nonzero) waits'
          avoids.1 in
      (
        f'',
        unfold navigator_update_state in navigate_then s' f' f'' ts _ e e',
        waits'',
        resets'' ∙ resets,
        omega (arith, tests, tests''),
      )
