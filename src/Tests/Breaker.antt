-- ===== src/Tests/Breaker.antt =====
-- Runs of the circuit breaker.
use async_payment_processing.Prelude.{
  ℕ, ◌≡◌, refl, ◌≢◌, ◌↔◌, ◌⊎◌, true, false, none, some, List, [], ◌∷◌, arith, if◌then◌else◌, leb,
  ok, err, breaker_open, provider_unavailable, runtime_error, unexpected,
}
use async_payment_processing.Breaker.{Breaker, State, init, before_call, after_call, call}
use async_payment_processing.Breaker.Step.{
  System, admit, end_call, Reach, here, next, IsSafe, refuse,
}
use async_payment_processing.Breaker.Safety.{
  idle, Reach-IsSafe, IsCooling, before_call-refuses, call-passes, answered, after_call-probe,
}
use async_payment_processing.Breaker.Abandoned.{
  AnyReach, further, stay, recorded, escaped_probe, abandoned_probe,
}
use async_payment_processing.Breaker.Streak.{
  Outcome, longest_streak, end_calls, outcomes, opens_at_threshold,
}

abbrev fresh : Breaker
fresh = record {
  failure_threshold = 2;
  recovery_timeout = 15;
  state = State.closed;
  failure_count = 0;
  opened_at = none;
}

abbrev tripped : Breaker
tripped = record fresh { state = State.opened; failure_count = 2; opened_at = some 10 }

abbrev probing : Breaker
probing = record tripped { state = State.half_open }

abbrev failure : Outcome
failure = err provider_unavailable

abbrev awaiting : System
awaiting = record { breaker = probing; calls = 0; probes = 1 }

fresh-init : init 2 15 ≡ ok fresh
unfolding init
fresh-init = refl

-- Two failures open the breaker, and after the timeout a probe is admitted.
awaiting-Reach : Reach (idle fresh) awaiting
unfolding before_call after_call
awaiting-Reach =
    next
      (next
        (next (next (next here (admit 1 false refl)) (end_call 2 failure (λ h. cc) (omega arith)))
          (admit 9 false refl))
        (end_call 10 failure (λ h. cc) (omega arith)))
      (admit 25 true refl)

Reach-IsSafe_example : IsSafe awaiting
Reach-IsSafe_example = Reach-IsSafe 2 15 fresh-init awaiting-Reach

before_call-refuses_example :
    ((before_call 26 probing).0 ≢ err runtime_error)
    × (((before_call 26 probing).0 ≡ err breaker_open)
        ↔ ((awaiting.probes ≡ 1) ⊎ ((probing.state ≡ State.opened) × IsCooling 26 probing)))
before_call-refuses_example =
    before_call-refuses awaiting 26 (Reach-IsSafe 2 15 fresh-init awaiting-Reach)

call-passes_example :
    ((probing.state ≡ State.half_open)
      → call 26 failure (λ b. b) 27 probing ≡ (err breaker_open, probing))
    × ((probing.state ≡ State.opened)
        → IsCooling 26 probing
        → call 26 failure (λ b. b) 27 probing ≡ (err breaker_open, probing))
    × ((probing.state ≡ State.closed) → (call 26 failure (λ b. b) 27 probing).0 ≡ failure)
call-passes_example = call-passes 26 27 failure (λ b. b) probing

after_call-probe_example : after_call failure true 30 probing ≡ (
    if answered failure
    then record probing { state = State.closed; failure_count = 0; opened_at = none }
    else record probing { state = State.opened; opened_at = some 30 })
after_call-probe_example = after_call-probe 30 failure probing refl (λ h. cc)

-- After the probe has escaped, a call at the time 90 is refused.
refused_forever : AnyReach (escaped_probe 30 awaiting) (escaped_probe 30 awaiting)
unfolding before_call after_call
refused_forever = further stay (recorded (refuse 90 breaker_open refl))

abandoned_probe_example :
    let t : System = escaped_probe 30 awaiting in
    (t.breaker ≡ probing)
    × (t.probes ≡ 0)
    × ((later : ℕ) → before_call later t.breaker ≡ (err breaker_open, t.breaker))
abandoned_probe_example = abandoned_probe 2 15 30 fresh-init awaiting-Reach refl refused_forever

abbrev ends : List (ℕ × Outcome)
ends = (1, failure) ∷ (2, err unexpected) ∷ (3, failure) ∷ []

opens_at_threshold_example :
    (end_calls ends fresh).state
    ≡ (if leb 2 (longest_streak 0 (outcomes ends)) then State.opened else State.closed)
opens_at_threshold_example = opens_at_threshold 2 15 ends fresh-init

-- The inconclusive call between them does not end the row of failures.
opens_despite_inconclusive : (end_calls ends fresh).state ≡ State.opened
unfolding end_calls after_call
opens_despite_inconclusive = refl
