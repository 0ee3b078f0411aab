-- ===== src/Gretry/Tests.antt =====
-- Runs of `Do`, and its theorems at concrete inputs. The floats of the tests are integers.
use gk.Common.{ℕ, not, zero, suc, ◌≡◌, refl, [], ◌∷◌, arith, none, some, true, false}
use gk.Common.Str.{str}
use gk.Common.Int64.{ℤ, pos, negsuc, add64, sub64, mul64, neg64, lt64, to_bits, from_bits}
use gk.Gretry.Options.{
  Floats, default_options, new_options, apply_options, with_max_retries, with_retry_delay,
  with_jitter, with_on_failed, decorrelated_jitter, ErrorHandlingOptions,
}
use gk.Gretry.Delay.{
  is_steady, calculate_delay, apply_jitter, jittered, between, capped, strategy_delay,
  calculate_delay_limit,
}
use gk.Gretry.Retry.{
  Round, Contexts, function_returned, run_attempt, settled, rounds_of, retry, retry_loop, succeed,
  fail_with, finish, final_error, log_first, tell_failed, tell_retry, tell_succeeded, test_of,
  bounded_context, gave_up,
}
use gk.Gretry.Retry.Laws.{AttemptsWithin, Reports, run_of, retry-attempts, retry-Reports}
use gk.Gretry.Retry.Success.{WorkedAt, SucceededWithin, retry-WorkedAt, retry-Succeeded}

-- Every random number is 1.
abbrev integers : Floats
integers = record {
  Float = ℤ;
  of_int64 = λ n. n;
  to_int64 = λ n. n;
  add = add64;
  sub = sub64;
  mul = mul64;
  div = λ a b. a;
  pow = λ a b. pos 1;
  le = λ a b. not (lt64 b a);
  Source = Unit {0};
  float64 = λ s. (s, pos 1);
}

abbrev Name : Type 0
Name = ℕ

retries : Unit {0}
unfolding default_options new_options apply_options with_max_retries with_retry_delay with_jitter
    with_on_failed is_steady calculate_delay apply_jitter jittered between capped strategy_delay
    run_attempt settled rounds_of retry retry_loop succeed fail_with finish log_first tell_failed
    tell_retry tell_succeeded test_of bounded_context add64 sub64 neg64 mul64 to_bits from_bits
    final_error
retries = tt

abbrev bad : Round
bad = record {
  ended_before = none;
  ran = function_returned (some (str "refused"));
  ended_after = none;
  ended_waiting = none;
}

abbrev good : Round
good = record {
  ended_before = none;
  ran = function_returned none;
  ended_after = none;
  ended_waiting = none;
}

-- The second attempt succeeds.
abbrev second_works : ℕ → Round
second_works zero = bad
second_works (suc n) = good

-- One context, under which the second attempt succeeds.
abbrev contexts : Contexts
contexts = record {
  Context = Unit {0};
  with_timeout = λ c t. c;
  run_under = λ c. record { rounds = second_works; ended_last = none; elapsed = pos 9 };
}

abbrev opts : ErrorHandlingOptions integers Name
opts = new_options integers Name (some (with_on_failed integers Name (some 4)) ∷ none ∷ [])

abbrev no_opts : ErrorHandlingOptions integers Name
no_opts = with_max_retries integers Name (negsuc 0) opts

runs :
    (retry integers Name contexts tt opts tt
      ≡ ([], record { attempts = 2; elapsed = pos 9; error = none; success = true }))
    × (retry integers Name contexts tt no_opts tt ≡ (
      gave_up 4 0 (pos 9) (str "retry failed") ∷ [],
      record { attempts = 0; elapsed = pos 9; error = some (str "retry failed"); success = false },
    ))
unfolding retries
runs = (refl, refl)

-- The decorrelated jitter is added after the limit, so that a delay can be above the limit.
above_limit :
    lt64
      (pos 30000000000)
      (calculate_delay integers Name 0
        (with_jitter integers Name decorrelated_jitter
          (pos 1)
          (with_retry_delay integers Name (pos 30000000000) opts))
        tt).1
    ≡ true
unfolding retries
above_limit = refl

calculate_delay_limit_example :
    lt64 (pos 30000000000) (calculate_delay integers Name 2 opts tt).1 ≡ false
unfolding retries
calculate_delay_limit_example = calculate_delay_limit integers Name 2 opts tt refl refl

retry-attempts_example :
    AttemptsWithin (pos 3) (retry integers Name contexts tt opts tt).1.attempts
    × (retry_loop integers Name opts
          (test_of integers Name opts)
          (run_of integers Name contexts tt opts tt)
          7
          0
          0
          none
          tt
        ≡ retry integers Name contexts tt opts tt)
unfolding retries
retry-attempts_example = retry-attempts integers Name contexts tt opts tt 7 (omega arith)

retry-Reports_example :
    Reports integers Name opts
      (test_of integers Name opts)
      (run_of integers Name contexts tt opts tt)
      0
      (retry integers Name contexts tt opts tt)
retry-Reports_example = retry-Reports integers Name contexts tt opts tt

retry-WorkedAt_example :
    WorkedAt integers Name opts
      (test_of integers Name opts)
      (run_of integers Name contexts tt opts tt)
      1
      (retry integers Name contexts tt opts tt)
unfolding retries
retry-WorkedAt_example =
    retry-WorkedAt integers Name contexts tt opts tt 1 (omega arith)
      (tt, (refl, (str "refused", refl, refl), refl)) (refl, refl)

retry-Succeeded_example :
    SucceededWithin integers Name opts
      (test_of integers Name opts)
      (run_of integers Name contexts tt opts tt)
      4
      (retry integers Name contexts tt opts tt)
unfolding retries
retry-Succeeded_example = retry-Succeeded integers Name contexts tt opts tt refl
