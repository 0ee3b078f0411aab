-- ===== src/Gretry/Retry/Success.antt =====
-- The attempt that ends `Do` with a success.
use gk.Common.{
  ℕ, zero, suc, ◌+◌, ◌≤◌, ◌<◌, ◌≡◌, refl, Bool, true, false, List, Option, none, some, arith,
  ℕ_discrete,
}
use gk.Gretry.Options.{Floats, Err, ErrorHandlingOptions}
use gk.Gretry.Retry.Turn.{
  lt64-rounds_of, Continues, Succeeds, turn, failed, worked, cancelled, again, loop,
}
use gk.Gretry.Retry.{
  Run, RetryResult, Event, Contexts, rounds_of, fail_with, succeed, finish, log_first, retry_loop,
  test_of, retry,
}
use gk.Gretry.Retry.Laws.{run_of}

module _ (f : Floats) (Callback : Type 0) where
  open f use {Source}

  module _ (options : ErrorHandlingOptions f Callback) (test : Err → Bool) (run : Run) where
    not_both :
        (k : ℕ)
        → Continues f Callback options test run k
        → Succeeds f Callback options test run k
        → ⊥
    not_both k (_, (e, bad, _), _) (_, good) = cc

    -- The result is a success of attempt `k + 1`.
    abbrev pub WorkedAt : ℕ → List (Event Callback) × RetryResult → Type 0
    WorkedAt k out = (out.1.success ≡ true) × (out.1.attempts ≡ k + 1)

    loop-WorkedAt :
        (left n k : ℕ) (last : Option Err) (s : Source)
        → n ≤ k
        → k < n + left
        → n + left ≤ rounds_of options.max_retries
        → ((j : ℕ) → n ≤ j → j < k → Continues f Callback options test run j)
        → Succeeds f Callback options test run k
        → WorkedAt k (loop f Callback options test run left n last s)
    unfolding retry_loop succeed log_first
    loop-WorkedAt zero n k last s le lt fits before good = absurd (omega arith)
    loop-WorkedAt (suc left) n k last s le lt fits before good = elim (ℕ_discrete n k) [
      | yes same ↦
          elim (turn f Callback options test run left n n last s (omega arith)
            (lt64-rounds_of options.max_retries n (omega (arith, fits)))) [
              | failed m e ge top bad halted out ↦ absurd (bad (rw same good))
              | worked _ out ↦ rw out (refl, omega arith)
              | cancelled e ended delay bad halted out ↦ absurd (bad (rw same good))
              | again e delay s' more out ↦ absurd (not_both n more (rw same good))
            ]
      | no other ↦
          let more = before n (omega arith) (omega arith) in
          elim (turn f Callback options test run left n n last s (omega arith)
            (lt64-rounds_of options.max_retries n (omega (arith, fits)))) [
              | failed m e ge top bad halted out ↦ absurd (halted more)
              | worked fine out ↦ absurd (not_both n more fine)
              | cancelled e ended delay bad halted out ↦ absurd (halted more)
              | again e delay s' _ out ↦ rw out (
                  loop-WorkedAt left (n + 1) k (some e) s' (omega arith) (omega arith)
                    (omega (arith, fits)) (λ j ge. before j (omega arith)) good)
            ]
    ]

    impossible : ¬ (false ≡ true)
    impossible h = cc

    abbrev Succeeded : ℕ → ℕ → List (Event Callback) × RetryResult → Type 0
    Succeeded n limit out =
        (k : ℕ) × (n ≤ k)
        × (k < limit)
        × (out.1.attempts ≡ k + 1)
        × ((j : ℕ) → n ≤ j → j < k → Continues f Callback options test run j)
        × Succeeds f Callback options test run k

    loop-Succeeded :
        (left n : ℕ) (last : Option Err) (s : Source)
        → n + left ≤ rounds_of options.max_retries
        → (loop f Callback options test run left n last s).1.success ≡ true
        → Succeeded n (n + left) (loop f Callback options test run left n last s)
    unfolding retry_loop finish fail_with succeed log_first
    loop-Succeeded zero n last s fits h = cc
    loop-Succeeded (suc left) n last s fits h =
        elim (turn f Callback options test run left n n last s (omega arith)
          (lt64-rounds_of options.max_retries n (omega (arith, fits)))) [
            | failed k e ge le _ _ out ↦ absurd (impossible (rw out at h))
            | worked good out ↦
                rw out (n, omega arith, omega arith, refl, (λ j ge lt. absurd (omega arith)), good)
            | cancelled e ended delay _ _ out ↦ absurd (impossible (rw out at h))
            | again e delay s' more out ↦
                let (k, ge, lt, count, before, good) =
                  loop-Succeeded left (n + 1) (some e) s' (omega (arith, fits)) (rw out at h) in
                rw out (
                  k,
                  omega arith,
                  omega arith,
                  count,
                  (λ j from lt. elim (ℕ_discrete n j) [
                    | yes same ↦ rw⁻¹ same more
                    | no other ↦ before j (omega arith) lt
                  ]),
                  good,
                )
          ]

    -- Every attempt before the one with this number fails, is to be retried and is waited for.
    abbrev pub Before : ℕ → Type 0
    Before zero = Unit
    Before (suc k) = Before k × Continues f Callback options test run k

    Before-Continues : (k j : ℕ) → j < k → Before k → Continues f Callback options test run j
    Before-Continues zero j lt b = absurd (omega arith)
    Before-Continues (suc k) j lt (b, last) = elim (ℕ_discrete k j) [
      | yes same ↦ rw⁻¹ same last
      | no other ↦ Before-Continues k j (omega arith) b
    ]

    Continues-Before :
        (k : ℕ) → ((j : ℕ) → j < k → Continues f Callback options test run j) → Before k
    Continues-Before zero all = tt
    Continues-Before (suc k) all =
        (Continues-Before k (λ j lt. all j (omega arith)), all k (omega arith))

    -- The result is the success of an attempt within the limit, which comes after failed ones only.
    abbrev pub SucceededWithin : ℕ → List (Event Callback) × RetryResult → Type 0
    SucceededWithin limit out =
        (k : ℕ) × (k < limit)
        × (out.1.attempts ≡ k + 1)
        × Before k
        × Succeeds f Callback options test run k

  module _ (c : Contexts) (ctx : c.Context) (options : ErrorHandlingOptions f Callback)
      (s : Source) where
    -- Where an attempt within the limit succeeds, and every one before it fails, is to be retried and is
    -- waited for, the call succeeds with that attempt.
    pub retry-WorkedAt :
        (k : ℕ)
        → k < rounds_of options.max_retries
        → Before options (test_of f Callback options) (run_of f Callback c ctx options s) k
        → Succeeds f Callback options
            (test_of f Callback options)
            (run_of f Callback c ctx options s)
            k
        → WorkedAt options
            (test_of f Callback options)
            (run_of f Callback c ctx options s)
            k
            (retry f Callback c ctx options s)
    unfolding retry
    retry-WorkedAt k lt before good =
        loop-WorkedAt options (test_of f Callback options) (run_of f Callback c ctx options s)
          (rounds_of options.max_retries) 0 k none s (omega arith) (omega (arith, lt)) (omega arith)
          (λ j ge lt'.
            Before-Continues options (test_of f Callback options)
              (run_of f Callback c ctx options s) k j lt' before)
          good

    -- A call that reports a success has made an attempt within the limit that succeeded, as its last, and
    -- every attempt before it failed, was to be retried and was waited for.
    pub retry-Succeeded :
        (retry f Callback c ctx options s).1.success ≡ true
        → SucceededWithin options
            (test_of f Callback options)
            (run_of f Callback c ctx options s)
            (rounds_of options.max_retries)
            (retry f Callback c ctx options s)
    unfolding retry
    retry-Succeeded h =
        let (k, ge, lt, count, before, good) =
          loop-Succeeded options (test_of f Callback options) (run_of f Callback c ctx options s)
            (rounds_of options.max_retries) 0 none s (omega arith) h in
        (
          k,
          omega (arith, lt),
          count,
          Continues-Before options (test_of f Callback options) (run_of f Callback c ctx options s)
              k (λ j lt'. before j (omega arith) lt'),
          good,
        )
