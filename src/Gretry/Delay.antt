-- ===== src/Gretry/Delay.antt =====
-- `calculateDelay` and `applyJitter`: retry.go.
use gk.Common.{
  ℕ, ◌+◌, ◌≡◌, inl, inr, Bool, true, false, ◌&&◌, ◌||◌, Bool-cases, arith, if◌then◌else◌,
}
use gk.Common.Int64.{ℤ, pos, negsuc, mul64, lt64}
use gk.Gretry.Options.{
  Floats, exponential, linear, fixed, random, unknown_strategy, JitterType, no_jitter, full_jitter,
  equal_jitter, decorrelated_jitter, unknown_jitter, ErrorHandlingOptions,
}

lt64_irrefl : (a : ℤ) → lt64 a a ≡ false
lt64_irrefl (pos n) = ground arith
lt64_irrefl (negsuc n) = ground arith

module _ (f : Floats) (Callback : Type 0) where
  open f use {Float, of_int64, to_int64, add, sub, mul, div, pow, le, Source, float64}

  -- A random number between two.
  unfoldable pub between : Float → Float → Source → Source × ℤ
  between low high s = let (s', r) = float64 s in (s', to_int64 (add low (mul r (sub high low))))

  -- The case of `RetryStrategyRandom`.
  unfoldable pub random_delay : ErrorHandlingOptions f Callback → Source → Source × ℤ
  random_delay options s =
      let low = of_int64 options.retry_delay in
      let high = of_int64 options.max_retry_delay in
      between low (if le high low then mul low (of_int64 (pos 5)) else high) s

  unfoldable pub strategy_delay : ℕ → ErrorHandlingOptions f Callback → Source → Source × ℤ
  strategy_delay attempt options s = elim options.retry_strategy [
    | exponential ↦ (
      s,
      to_int64 (
          mul (of_int64 options.retry_delay)
            (pow options.backoff_multiplier (of_int64 (pos attempt)))),
    )
    | linear ↦ (s, mul64 options.retry_delay (pos (attempt + 1)))
    | fixed ↦ (s, options.retry_delay)
    | random ↦ random_delay options s
    | unknown_strategy name ↦ (s, options.retry_delay)
  ]

  unfoldable pub capped : ErrorHandlingOptions f Callback → ℤ → ℤ
  capped options delay =
      if lt64 options.max_retry_delay delay && lt64 (pos 0) options.max_retry_delay
      then options.max_retry_delay
      else delay

  is_none : JitterType → Bool
  is_none no_jitter = true
  is_none full_jitter = false
  is_none equal_jitter = false
  is_none decorrelated_jitter = false
  is_none (unknown_jitter name) = false

  -- The jitter is off.
  unfoldable pub is_steady : ErrorHandlingOptions f Callback → Bool
  unfolding is_none
  is_steady options = is_none options.jitter_type || le options.jitter_factor (of_int64 (pos 0))

  unfoldable pub jittered : JitterType → ℤ → Source → Source × ℤ
  jittered full_jitter delay s = let (s', r) = float64 s in (s', to_int64 (mul r (of_int64 delay)))
  jittered equal_jitter delay s =
      between (div (of_int64 delay) (of_int64 (pos 2))) (of_int64 delay) s
  jittered decorrelated_jitter delay s =
      between (of_int64 delay) (mul (of_int64 delay) (of_int64 (pos 3))) s
  jittered no_jitter delay s = (s, delay)
  jittered (unknown_jitter name) delay s = (s, delay)

  unfoldable pub apply_jitter : ErrorHandlingOptions f Callback → ℤ → Source → Source × ℤ
  apply_jitter options delay s =
      if is_steady options then (s, delay) else jittered options.jitter_type delay s

  unfoldable pub calculate_delay : ℕ → ErrorHandlingOptions f Callback → Source → Source × ℤ
  calculate_delay attempt options s =
      let (s', delay) = strategy_delay attempt options s in
      apply_jitter options (capped options delay) s'

  capped-le :
      (options : ErrorHandlingOptions f Callback) (delay : ℤ)
      → lt64 (pos 0) options.max_retry_delay ≡ true
      → lt64 options.max_retry_delay (capped options delay) ≡ false
  unfolding capped
  capped-le options delay h = elim (Bool-cases (lt64 options.max_retry_delay delay)) [
    | inl above ↦ rw (above, h) (lt64_irrefl options.max_retry_delay)
    | inr below ↦ rw below below
  ]

  -- Where the jitter is off and the limit is positive, no delay is above the limit, whatever the
  -- strategy, the attempt and the random numbers are.
  pub calculate_delay_limit :
      (attempt : ℕ) (options : ErrorHandlingOptions f Callback) (s : Source)
      → is_steady options ≡ true
      → lt64 (pos 0) options.max_retry_delay ≡ true
      → lt64 options.max_retry_delay (calculate_delay attempt options s).1 ≡ false
  unfolding calculate_delay apply_jitter
  calculate_delay_limit attempt options s steady h =
      rw steady (capped-le options (strategy_delay attempt options s).1 h)
