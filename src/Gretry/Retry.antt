-- ===== src/Gretry/Retry.antt =====
-- `Do`, `DoWithDefault` and `runAttempt`: retry.go. What the context and the retried function do in a
-- run is a `Round` for each attempt, which may be any: an interleaving is a sequence of rounds. Callbacks
-- are the events of a log.
pub mod Turn
pub mod Laws
pub mod Success
use gk.Common.{
  ℕ, zero, suc, ◌+◌, ◌≡◌, refl, Bool, true, false, ◌||◌, not, List, [], ◌∷◌, ◌++◌, Option, none,
  some, if◌then◌else◌,
}
use gk.Common.Str.{Str, str}
use gk.Common.Int64.{ℤ, pos, negsuc, eq64, lt64}
use gk.Gretry.Options.{Floats, Err, default_should_retry, ErrorHandlingOptions, default_options}
use gk.Gretry.Delay.{calculate_delay}

-- The branch that the select of `runAttempt` takes: the context's error, or the function's result.
pub data Ran : Type 0 where
  context_done : Err → Ran
  function_returned : Option Err → Ran

-- What one attempt finds: the context's error before the call if it has ended, the call, the context's
-- error after the call if any, and the context's error if it ends before the timer.
pub record Round : Type 0 where
  pub ended_before : Option Err
  pub ran : Ran
  pub ended_after : Option Err
  pub ended_waiting : Option Err

-- A run: its rounds, the context's error after the loop, and the time that it takes.
pub record Run : Type 0 where
  pub rounds : ℕ → Round
  pub ended_last : Option Err
  pub elapsed : ℤ

-- The contexts of the language, with `context.WithTimeout`, and the run that happens under a context.
pub record Contexts : Type 1 where
  pub Context : Type 0
  pub with_timeout : Context → ℤ → Context
  pub run_under : Context → Run

pub record RetryResult : Type 0 where
  pub attempts : ℕ
  pub elapsed : ℤ
  pub error : Option Err
  pub success : Bool

pub data Event (Callback : Type 0) : Type 0 where
  retried : Callback → ℕ → ℤ → Err → Event Callback
  succeeded : Callback → ℕ → ℤ → Event Callback
  gave_up : Callback → ℕ → ℤ → Err → Event Callback

unfoldable pub run_attempt : Ran → Option Err
run_attempt (context_done e) = some e
run_attempt (function_returned r) = r

-- The error of an attempt: a success counts only while the context has not ended.
unfoldable pub settled : Round → Option Err
settled round = elim (run_attempt round.ran) [ some e ↦ some e | none ↦ round.ended_after ]

-- The number of turns that are enough for the loop: its condition fails after as many.
unfoldable pub rounds_of : ℤ → ℕ
rounds_of (pos n) = suc n
rounds_of (negsuc n) = zero

unfoldable pub final_error : Option Err → Option Err → Err
final_error (some ended) last = ended
final_error none (some e) = e
final_error none none = str "retry failed"

module _ (f : Floats) (Callback : Type 0) where
  open f use {Source}

  unfoldable pub tell_failed : ErrorHandlingOptions f Callback → ℕ → ℤ → Err → List (Event Callback)
  tell_failed options attempts elapsed e = elim options.on_failed [
    | some callback ↦ gave_up callback attempts elapsed e ∷ []
    | none ↦ []
  ]

  unfoldable pub tell_succeeded : ErrorHandlingOptions f Callback → ℕ → ℤ → List (Event Callback)
  tell_succeeded options attempts elapsed = elim options.on_success [
    | some callback ↦ succeeded callback attempts elapsed ∷ []
    | none ↦ []
  ]

  unfoldable pub tell_retry : ErrorHandlingOptions f Callback → ℕ → ℤ → Err → List (Event Callback)
  tell_retry options attempts delay e = elim options.on_retry [
    | some callback ↦ retried callback attempts delay e ∷ []
    | none ↦ []
  ]

  -- The three places that return a failure differ in the attempts and the error.
  unfoldable pub fail_with :
      ErrorHandlingOptions f Callback → ℕ → ℤ → Err → List (Event Callback) × RetryResult
  fail_with options n elapsed e = (
    tell_failed options n elapsed e,
    record { attempts = n; elapsed = elapsed; error = some e; success = false },
  )

  unfoldable pub succeed :
      ErrorHandlingOptions f Callback → ℕ → ℤ → List (Event Callback) × RetryResult
  succeed options n elapsed = (
    tell_succeeded options n elapsed,
    record { attempts = n; elapsed = elapsed; error = none; success = true },
  )

  -- What follows the loop.
  unfoldable pub finish :
      ErrorHandlingOptions f Callback → Run → ℕ → Option Err → List (Event Callback) × RetryResult
  finish options run attempts last =
      fail_with options attempts run.elapsed (final_error run.ended_last last)

  unfoldable pub log_first :
      List (Event Callback)
      → List (Event Callback) × RetryResult
      → List (Event Callback) × RetryResult
  log_first events (later, r) = (events ++ later, r)

  -- The loop, which tests its condition at each turn. `left` is the number of turns that it may take at
  -- most, `attempt` the loop's variable, `attempts` the counter and `last` the last error.
  unfoldable pub retry_loop :
      ErrorHandlingOptions f Callback
      → (Err → Bool)
      → Run
      → (left attempt attempts : ℕ) → Option Err
      → Source
      → List (Event Callback) × RetryResult
  retry_loop options test run zero attempt attempts last s = finish options run attempts last
  retry_loop options test run (suc left) attempt attempts last s =
      elim (lt64 options.max_retries (pos attempt)) [
        | true ↦ finish options run attempts last
        | false ↦
            let round = run.rounds attempt in
            elim round.ended_before [
              | some ended ↦ fail_with options attempt run.elapsed ended
              | none ↦ elim (settled round) [
                | none ↦ succeed options (attempts + 1) run.elapsed
                | some e ↦
                    let stop = eq64 (pos attempt) options.max_retries || not (test e) in
                    elim stop [
                      | true ↦ finish options run (attempts + 1) (some e)
                      | false ↦
                          let (s', delay) = calculate_delay f Callback attempt options s in
                          log_first (tell_retry options (attempts + 1) delay e)
                            (elim round.ended_waiting [
                              | some ended ↦ fail_with options (attempts + 1) run.elapsed ended
                              | none ↦
                                  retry_loop options test run left (attempt + 1) (attempts + 1)
                                    (some e) s'
                            ])
                    ]
              ]
            ]
      ]

  unfoldable pub test_of : ErrorHandlingOptions f Callback → Err → Bool
  test_of options = elim options.should_retry [ some test ↦ test | none ↦ default_should_retry ]

  unfoldable pub bounded_context :
      (c : Contexts) → ErrorHandlingOptions f Callback → c.Context → c.Context
  bounded_context c options ctx =
      if lt64 (pos 0) options.timeout then c.with_timeout ctx options.timeout else ctx

  unfoldable pub retry :
      (c : Contexts)
      → c.Context
      → ErrorHandlingOptions f Callback
      → Source
      → List (Event Callback) × RetryResult
  retry c ctx options s =
      retry_loop options (test_of options) (c.run_under (bounded_context c options ctx))
        (rounds_of options.max_retries) 0 0 none s

  unfoldable pub retry_with_default :
      (c : Contexts) → c.Context → Source → List (Event Callback) × RetryResult
  retry_with_default c ctx s = retry c ctx (default_options f Callback) s
