-- ===== src/Gretry/Retry/Turn.antt =====
-- What one turn of the loop of `Do` does.
use gk.Common.{
  ℕ, suc, ◌+◌, ◌≤◌, ◌<◌, ◌≡◌, inl, inr, refl, Bool, true, false, ◌||◌, not, List, Option, none,
  some, Bool-cases, Option-cases, arith,
}
use gk.Common.Int64.{ℤ, pos, negsuc, eq64, lt64}
use gk.Gretry.Options.{Floats, Err, ErrorHandlingOptions}
use gk.Gretry.Delay.{calculate_delay}
use gk.Gretry.Retry.{
  Run, RetryResult, Event, settled, rounds_of, tell_retry, fail_with, succeed, final_error, finish,
  log_first, retry_loop,
}

-- The condition of the loop holds for the attempts below the number of rounds, and for no other.
pub lt64-rounds_of : (limit : ℤ) (k : ℕ) → k < rounds_of limit → lt64 limit (pos k) ≡ false
unfolding rounds_of
lt64-rounds_of (pos n) k lt = ground arith
lt64-rounds_of (negsuc n) k lt = absurd (omega (arith, lt))

pub rounds_of-lt64 : (limit : ℤ) (k : ℕ) → rounds_of limit ≤ k → lt64 limit (pos k) ≡ true
unfolding rounds_of
rounds_of-lt64 (pos n) k le = ground arith
rounds_of-lt64 (negsuc n) k le = refl

module _ (f : Floats) (Callback : Type 0) where
  open f use {Source}

  module _ (options : ErrorHandlingOptions f Callback) (test : Err → Bool) (run : Run) where
    -- The attempt fails, and the loop waits for the next one.
    abbrev pub Continues : ℕ → Type 0
    Continues k =
        ((run.rounds k).ended_before ≡ none)
        × ((e : Err) × (settled (run.rounds k) ≡ some e)
            × ((eq64 (pos k) options.max_retries || not (test e)) ≡ false))
        × ((run.rounds k).ended_waiting ≡ none)

    -- The attempt is made, and succeeds.
    abbrev pub Succeeds : ℕ → Type 0
    Succeeds k = ((run.rounds k).ended_before ≡ none) × (settled (run.rounds k) ≡ none)

    -- The ways in which one turn of the loop ends.
    pub data Turn (left attempt attempts : ℕ) (last : Option Err) (s : Source)
        (out : List (Event Callback) × RetryResult) : Type 0 where
      failed :
          (n : ℕ) (e : Err)
          → attempt ≤ n
          → n ≤ attempts + 1
          → ¬ Succeeds attempt
          → ¬ Continues attempt
          → out ≡ fail_with f Callback options n run.elapsed e
          → Turn left attempt attempts last s out
      worked :
          Succeeds attempt
          → out ≡ succeed f Callback options (attempts + 1) run.elapsed
          → Turn left attempt attempts last s out
      cancelled :
          (e ended : Err) (delay : ℤ)
          → ¬ Succeeds attempt
          → ¬ Continues attempt
          → out
            ≡ log_first f Callback
                (tell_retry f Callback options (attempts + 1) delay e)
                (fail_with f Callback options (attempts + 1) run.elapsed ended)
          → Turn left attempt attempts last s out
      again :
          (e : Err) (delay : ℤ) (s' : Source)
          → Continues attempt
          → out
            ≡ log_first f Callback (tell_retry f Callback options (attempts + 1) delay e) (
                retry_loop f Callback options test run left
                  (attempt + 1)
                  (attempts + 1)
                  (some e)
                  s')
          → Turn left attempt attempts last s out

    pub turn :
        (left attempt attempts : ℕ) (last : Option Err) (s : Source)
        → attempt ≤ attempts
        → lt64 options.max_retries (pos attempt) ≡ false
        → Turn left attempt attempts last s
            (retry_loop f Callback options test run (suc left) attempt attempts last s)
    unfolding retry_loop finish
    turn left attempt attempts last s le cond =
        elim (Option-cases (run.rounds attempt).ended_before) [
          | inr (ended, before) ↦
              failed attempt ended (omega arith) (omega arith) (λ h. ground (arith, before, h))
                (λ h. ground (arith, before, h)) (rw (cond, before, retry_loop) refl)
          | inl open_still ↦ elim (Option-cases (settled (run.rounds attempt))) [
            | inl fine ↦ worked (open_still, fine) (rw (cond, open_still, fine, retry_loop) refl)
            | inr (e, bad) ↦
                elim (Bool-cases (eq64 (pos attempt) options.max_retries || not (test e))) [
                  | inl stop ↦
                      failed (attempts + 1) (final_error run.ended_last (some e)) (omega arith)
                        (omega arith) (λ h. ground (arith, bad, h))
                        (λ (_, (e', bad', go), _). ground (arith, bad, bad', stop, go))
                        (rw (cond, open_still, bad, stop, retry_loop) refl)
                  | inr go ↦ elim (Option-cases (run.rounds attempt).ended_waiting) [
                    | inr (ended, waiting) ↦
                        cancelled e ended (calculate_delay f Callback attempt options s).1
                          (λ h. ground (arith, bad, h)) (λ h. ground (arith, waiting, h))
                          (rw (cond, open_still, bad, go, waiting, retry_loop) refl)
                    | inl waited ↦
                        again e (calculate_delay f Callback attempt options s).1
                          (calculate_delay f Callback attempt options s).0
                          (open_still, (e, bad, go), waited)
                          (rw (cond, open_still, bad, go, waited, retry_loop) refl)
                  ]
                ]
          ]
        ]

    abbrev pub loop : (left n : ℕ) → Option Err → Source → List (Event Callback) × RetryResult
    loop left n last s = retry_loop f Callback options test run left n n last s
