-- ===== src/Gretry/Retry/Laws.antt =====
-- What `Do` promises, in every run.
use gk.Common.{
  Bool-cases, Option-cases, inl, inr, ◌||◌, not, ℕ, zero, suc, ◌+◌, ◌≤◌, ◌≡◌, refl, sym, ap, ◌∙◌,
  Bool, true, false, List, [], ◌∷◌, ◌++◌, Option, none, some, arith, length, length-append, All,
}
use mathlib.Core.List.{append_assoc}
use gk.Common.Int64.{ℤ, pos, negsuc, lt64, eq64}
use gk.Gretry.Options.{Floats, Err, ErrorHandlingOptions}
use gk.Gretry.Delay.{calculate_delay}
use gk.Gretry.Retry.Turn.{rounds_of-lt64, turn, failed, worked, cancelled, again, loop}
use gk.Gretry.Retry.{
  settled, Run, RetryResult, Event, Contexts, rounds_of, tell_failed, tell_succeeded, tell_retry,
  fail_with, succeed, final_error, finish, log_first, retry_loop, test_of, bounded_context, retry,
  retried, succeeded, gave_up,
}

abbrev is_none : Option Err → Bool
is_none none = true
is_none (some e) = false

abbrev pub IsRetry : {Callback : Type 0} → Event Callback → Type 0
IsRetry (retried c n d e) = Unit
IsRetry (succeeded c n d) = ⊥
IsRetry (gave_up c n d e) = ⊥

-- At most one attempt more than the retries that are allowed, and none where the limit is negative.
abbrev pub AttemptsWithin : ℤ → ℕ → Type 0
AttemptsWithin (pos n) attempts = attempts ≤ n + 1
AttemptsWithin (negsuc n) attempts = attempts ≡ 0

Within-next :
    (limit : ℤ) (n k : ℕ) → lt64 limit (pos n) ≡ false → k ≤ n + 1 → AttemptsWithin limit k
Within-next (pos m) n k cond le = ground arith
Within-next (negsuc m) n k cond le = cc

Within-zero : (limit : ℤ) → AttemptsWithin limit 0
Within-zero (pos m) = omega arith
Within-zero (negsuc m) = refl

All-append : {A : Type 0} (P : A → Type 0) (xs ys : List A) → All P xs → All P ys → All P (xs ++ ys)
All-append P [] ys _ h = h
All-append P (x ∷ xs) ys (p, ps) h = (p, All-append P xs ys ps h)

module _ (f : Floats) (Callback : Type 0) where
  open f use {Source}

  module _ (options : ErrorHandlingOptions f Callback) (test : Err → Bool) (run : Run) where
    loop-attempts :
        (left n : ℕ) (last : Option Err) (s : Source)
        → AttemptsWithin options.max_retries n
        → AttemptsWithin options.max_retries
            (loop f Callback options test run left n last s).1.attempts
    unfolding retry_loop finish fail_with succeed log_first
    loop-attempts zero n last s h = h
    loop-attempts (suc left) n last s h = elim (Bool-cases (lt64 options.max_retries (pos n))) [
      | inl over ↦ rw (over, retry_loop) h
      | inr cond ↦ elim (turn f Callback options test run left n n last s (omega arith) cond) [
        | failed k e ge le _ _ out ↦ rw out (Within-next options.max_retries n k cond le)
        | worked _ out ↦ rw out (Within-next options.max_retries n (n + 1) cond (omega arith))
        | cancelled e ended delay _ _ out ↦
            rw out (Within-next options.max_retries n (n + 1) cond (omega arith))
        | again e delay s' _ out ↦ rw out (
            loop-attempts left (n + 1) (some e) s'
              (Within-next options.max_retries n (n + 1) cond (omega arith)))
      ]
    ]

    -- Any numbers of turns that are enough give the same.
    loop-enough :
        (left left' n : ℕ) (last : Option Err) (s : Source)
        → rounds_of options.max_retries ≤ n + left
        → rounds_of options.max_retries ≤ n + left'
        → loop f Callback options test run left n last s
          ≡ loop f Callback options test run left' n last s
    unfolding retry_loop finish
    loop-enough zero zero n last s le le' = refl
    loop-enough zero (suc left') n last s le le' =
        rw (rounds_of-lt64 options.max_retries n (omega (arith, le)), retry_loop) refl
    loop-enough (suc left) zero n last s le le' =
        rw (rounds_of-lt64 options.max_retries n (omega (arith, le')), retry_loop) refl
    loop-enough (suc left) (suc left') n last s le le' =
        let s' = (calculate_delay f Callback n options s).0 in
        let later = λ (e : Err).
          loop-enough left left' (n + 1) (some e) s' (omega (arith, le)) (omega (arith, le')) in
        elim (Bool-cases (lt64 options.max_retries (pos n))) [
          | inl over ↦ rw (over, retry_loop) refl
          | inr cond ↦ elim (Option-cases (run.rounds n).ended_before) [
            | inr (ended, before) ↦ rw (cond, before, retry_loop) refl
            | inl before ↦ elim (Option-cases (settled (run.rounds n))) [
              | inl fine ↦ rw (cond, before, fine, retry_loop) refl
              | inr (e, bad) ↦
                  elim (Bool-cases (eq64 (pos n) options.max_retries || not (test e))) [
                    | inl stop ↦ rw (cond, before, bad, stop, retry_loop) refl
                    | inr go ↦ elim (Option-cases (run.rounds n).ended_waiting) [
                      | inr (ended, waiting) ↦ rw (cond, before, bad, go, waiting, retry_loop) refl
                      | inl waited ↦
                          rw (cond, before, bad, go, waited, retry_loop)
                            (ap
                              (log_first f Callback (
                                tell_retry f Callback options (n + 1)
                                  (calculate_delay f Callback n options s).1 e))
                              (later e))
                    ]
                  ]
            ]
          ]
        ]

    -- The one call that reports a result: of `OnSuccess` or of `OnFailed`, where that is set.
    abbrev pub report : RetryResult → List (Event Callback)
    report r = elim r.error [
      | none ↦ elim options.on_success [
        | none ↦ []
        | some callback ↦ succeeded callback r.attempts r.elapsed ∷ []
      ]
      | some e ↦ elim options.on_failed [
        | none ↦ []
        | some callback ↦ gave_up callback r.attempts r.elapsed e ∷ []
      ]
    ]

    abbrev pub Reports : ℕ → List (Event Callback) × RetryResult → Type 0
    Reports n out =
        (retries : List (Event Callback)) × (out.0 ≡ retries ++ report out.1)
        × All IsRetry retries
        × (n + length retries ≤ out.1.attempts)
        × (out.1.success ≡ is_none out.1.error)

    tell_retry-retries :
        (n : ℕ) (delay : ℤ) (e : Err)
        → All IsRetry (tell_retry f Callback options n delay e)
          × (length (tell_retry f Callback options n delay e) ≤ 1)
    unfolding tell_retry
    tell_retry-retries n delay e =
        elim options.on_retry
          as (λ o.
            All IsRetry (elim o [ some c ↦ retried c n delay e ∷ [] | none ↦ [] ])
            × (length (elim o [ some c ↦ retried c n delay e ∷ [] | none ↦ [] ]) ≤ 1)) [
              | none ↦ (tt, omega arith)
              | some callback ↦ ((tt, tt), omega arith)
            ]

    Reports-first :
        (n : ℕ) (delay : ℤ) (e : Err) (out : List (Event Callback) × RetryResult)
        → Reports (n + 1) out
        → Reports n (log_first f Callback (tell_retry f Callback options (n + 1) delay e) out)
    unfolding log_first
    Reports-first n delay e out (retries, told, all, le, same) =
        let first = tell_retry f Callback options (n + 1) delay e in
        let (firsts, short) = tell_retry-retries (n + 1) delay e in
        let lengths : length (first ++ retries) ≡ length first + length retries =
          length-append first retries in
        (
          first ++ retries,
          ap (◌++◌ first) told ∙ sym (append_assoc first retries (report out.1)),
          All-append IsRetry first retries firsts all,
          omega arith,
          same,
        )

    loop-Reports :
        (left n : ℕ) (last : Option Err) (s : Source)
        → Reports n (loop f Callback options test run left n last s)
    unfolding retry_loop tell_failed tell_succeeded finish fail_with succeed log_first
    loop-Reports zero n last s = ([], refl, tt, omega arith, refl)
    loop-Reports (suc left) n last s = elim (Bool-cases (lt64 options.max_retries (pos n))) [
      | inl over ↦ rw (over, retry_loop) ([], refl, tt, omega arith, refl)
      | inr cond ↦ elim (turn f Callback options test run left n n last s (omega arith) cond) [
        | failed k e ge le _ _ out ↦ rw out ([], refl, tt, omega arith, refl)
        | worked _ out ↦ rw out ([], refl, tt, omega arith, refl)
        | cancelled e ended delay _ _ out ↦ rw out (
            Reports-first n delay e (fail_with f Callback options (n + 1) run.elapsed ended)
              ([], refl, tt, omega arith, refl))
        | again e delay s' _ out ↦ rw out (
            Reports-first n delay e (loop f Callback options test run left (n + 1) (some e) s')
              (loop-Reports left (n + 1) (some e) s'))
      ]
    ]

  module _ (c : Contexts) (ctx : c.Context) (options : ErrorHandlingOptions f Callback)
      (s : Source) where
    -- The run that a call meets, under the context with its timeout.
    abbrev pub run_of : Run
    run_of = c.run_under (bounded_context f Callback c options ctx)

    -- A call makes at most one attempt more than the limit of retries, and none if the limit is negative.
    -- The turns that the loop is given are no bound of their own: with any number that is not smaller, the
    -- call does the same.
    pub retry-attempts :
        (turns : ℕ)
        → rounds_of options.max_retries ≤ turns
        → AttemptsWithin options.max_retries (retry f Callback c ctx options s).1.attempts
          × (retry_loop f Callback options (test_of f Callback options) run_of turns 0 0 none s
              ≡ retry f Callback c ctx options s)
    unfolding retry
    retry-attempts turns le = (
      loop-attempts options (test_of f Callback options) run_of (rounds_of options.max_retries) 0
          none s (Within-zero options.max_retries),
      loop-enough options (test_of f Callback options) run_of turns (rounds_of options.max_retries)
          0 none s (omega (arith, le)) (omega arith),
    )

    -- Every run ends with one call of the callback for its result, if that is set, with the attempts, the
    -- time and the error of the result. Before it are calls of the retry callback only, which are at most
    -- the attempts. The result has an error unless it is a success.
    pub retry-Reports :
        Reports options (test_of f Callback options) run_of 0 (retry f Callback c ctx options s)
    unfolding retry
    retry-Reports =
        loop-Reports options (test_of f Callback options) run_of (rounds_of options.max_retries) 0
          none s

    -- Where the limit is negative, the function is never called: the call fails with the context's error
    -- or with "retry failed".
    pub retry-negative :
        (n : ℕ)
        → options.max_retries ≡ negsuc n
        → retry f Callback c ctx options s ≡ (
          tell_failed f Callback options 0 run_of.elapsed (final_error run_of.ended_last none),
          record {
            attempts = 0;
            elapsed = run_of.elapsed;
            error = some (final_error run_of.ended_last none);
            success = false;
          },
        )
    unfolding retry retry_loop finish fail_with rounds_of
    retry-negative n h =
        ap
          (λ left.
            retry_loop f Callback options (test_of f Callback options) run_of left 0 0 none s)
          (ap rounds_of h)
