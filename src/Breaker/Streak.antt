-- ===== src/Breaker/Streak.antt =====
-- Histories of ordinary calls and their streaks of failures: app/resilience/circuit_breaker.py.
use Prim.Native.Nat.{max}
use async_payment_processing.Prelude.{
  ℕ, List, ◌∷◌, map, ◌≡◌, ◌≤◌, arith, ◌<◌, ◌+◌, refl, ◌⊎◌, inl, inr, [], if◌then◌else◌, leb,
  provider_unavailable, provider_ambiguous_outcome,
}
use async_payment_processing.Breaker.{
  Breaker, State, init, after_call, Result, ok, err, provider_permanent, false,
}

abbrev pub Outcome : Type 0
Outcome = Result (Unit {0})

-- The failures in a row after one more call: an answer of the provider ends the row, an
-- unavailable provider or an unknown outcome lengthens it, any other exception leaves it.
abbrev pub streak : ℕ → Outcome → ℕ
streak n (ok a) = 0
streak n (err (provider_permanent status_code)) = 0
streak n (err provider_unavailable) = n + 1
streak n (err provider_ambiguous_outcome) = n + 1
streak n (err e) = n

-- The longest row that starts from `n` failures.
pub longest_streak : ℕ → List Outcome → ℕ
longest_streak n [] = n
longest_streak n (r ∷ rs) = max n (longest_streak (streak n r) rs)

-- Calls that were admitted while the breaker was closed end one after another, each at its time.
unfoldable pub end_calls : List (ℕ × Outcome) → Breaker → Breaker
end_calls [] b = b
end_calls ((now, r) ∷ rs) b = end_calls rs (after_call r false now b)

abbrev pub outcomes : List (ℕ × Outcome) → List Outcome
outcomes = map (λ p. p.1)

end_calls-opened :
    (rs : List (ℕ × Outcome)) (b : Breaker) → b.state ≡ State.opened → end_calls rs b ≡ b
unfolding end_calls after_call
end_calls-opened [] b h = refl
end_calls-opened ((now, r) ∷ rs) b h = ground (arith, end_calls-opened rs b h)

longest_streak-ge : (n : ℕ) (rs : List Outcome) → n ≤ longest_streak n rs
unfolding longest_streak
longest_streak-ge n [] = omega arith
longest_streak-ge n (r ∷ rs) = omega arith

-- One more end of a call either keeps the breaker closed, with the row as its count, or opens it.
after_call-closed :
    (now : ℕ) (r : Outcome) (b : Breaker)
    → b.state ≡ State.closed
    → b.failure_count < b.failure_threshold
    → let b' = after_call r false now b in
      ((b'.state ≡ State.opened) × (b.failure_threshold ≤ streak b.failure_count r))
      ⊎ ((b'.state ≡ State.closed)
          × (b'.failure_count ≡ streak b.failure_count r)
          × (b'.failure_threshold ≡ b.failure_threshold)
          × (streak b.failure_count r < b.failure_threshold))
unfolding after_call
after_call-closed now r b h lt = ground arith

end_calls-state :
    (rs : List (ℕ × Outcome)) (b : Breaker)
    → b.state ≡ State.closed
    → b.failure_count < b.failure_threshold
    → (end_calls rs b).state ≡ (
        if leb b.failure_threshold (longest_streak b.failure_count (outcomes rs))
        then State.opened
        else State.closed)
unfolding end_calls longest_streak
end_calls-state [] b h lt = ground arith
end_calls-state ((now, r) ∷ rs) b h lt = elim (after_call-closed now r b h lt) [
  | inl (o, t) ↦ ground (
    arith,
    end_calls-opened rs (after_call r false now b) o,
    longest_streak-ge (streak b.failure_count r) (outcomes rs),
  )
  | inr (c, n, t, u) ↦ ground (arith, end_calls-state rs (after_call r false now b) c (omega arith))
]

-- When calls that a new breaker admitted while closed end one after another, it is open afterwards
-- exactly if some row of failures with no answer of the provider between them reached the threshold,
-- whatever other exceptions came in between; otherwise it is closed.
pub opens_at_threshold :
    (threshold timeout : ℕ) {b : Breaker} (rs : List (ℕ × Outcome))
    → init threshold timeout ≡ ok b
    → (end_calls rs b).state
      ≡ (if leb threshold (longest_streak 0 (outcomes rs)) then State.opened else State.closed)
unfolding init
opens_at_threshold threshold timeout {b} rs e = ground (arith, end_calls-state rs b)
