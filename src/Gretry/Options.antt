-- ===== src/Gretry/Options.antt =====
-- `ErrorHandlingOptions`, its setters and `NewErrorHandlingOptions`: retry.go.
use gk.Common.{◌≡◌, refl, sym, ◌∙◌, Bool, true, List, [], ◌∷◌, ◌++◌, Option, none, some}
use gk.Common.Str.{Str, str}
use gk.Common.Int64.{ℤ, pos}

-- The float64 arithmetic of the language, and `rand.Float64` with the state of its source.
pub record Floats : Type 1 where
  pub Float : Type 0
  pub of_int64 : ℤ → Float
  pub to_int64 : Float → ℤ
  pub add : Float → Float → Float
  pub sub : Float → Float → Float
  pub mul : Float → Float → Float
  pub div : Float → Float → Float
  pub pow : Float → Float → Float
  pub le : Float → Float → Bool
  pub Source : Type 0
  pub float64 : Source → Source × Float

-- The strategies by name; any other text stands for itself.
pub data RetryStrategy : Type 0 where
  exponential linear fixed random : RetryStrategy
  unknown_strategy : Str → RetryStrategy

pub data JitterType : Type 0 where
  no_jitter full_jitter equal_jitter decorrelated_jitter : JitterType
  unknown_jitter : Str → JitterType

-- An error, by its text.
abbrev pub Err : Type 0
Err = Str

-- The default test for a retry. It is called with errors only, never with nil.
abbrev pub default_should_retry : Err → Bool
default_should_retry e = true

abbrev pub second : ℤ
second = pos 1000000000

module _ (f : Floats) (Callback : Type 0) where
  open f use {Float, of_int64}

  -- Callbacks are names of the caller's functions; a nil function is `none`.
  pub record ErrorHandlingOptions : Type 0 where
    pub max_retries : ℤ
    pub retry_delay : ℤ
    pub max_retry_delay : ℤ
    pub retry_strategy : RetryStrategy
    pub backoff_multiplier : Float
    pub jitter_type : JitterType
    pub jitter_factor : Float
    pub transient_errors : List Str
    pub should_retry : Option (Err → Bool)
    pub timeout : ℤ
    pub health_check_interval : ℤ
    pub on_retry : Option Callback
    pub on_success : Option Callback
    pub on_failed : Option Callback

  unfoldable pub default_options : ErrorHandlingOptions
  default_options = record {
    max_retries = pos 3;
    retry_delay = second;
    max_retry_delay = pos 30000000000;
    retry_strategy = exponential;
    backoff_multiplier = of_int64 (pos 2);
    jitter_type = no_jitter;
    jitter_factor = of_int64 (pos 0);
    transient_errors =
        str "connection refused"
        ∷ str "timeout"
        ∷ str "unavailable"
        ∷ str "etcdserver: leader changed"
        ∷ [];
    should_retry = some default_should_retry;
    timeout = pos 0;
    health_check_interval = pos 30000000000;
    on_retry = none;
    on_success = none;
    on_failed = none;
  }

  -- The type `Option`.
  abbrev pub Setter : Type 0
  Setter = ErrorHandlingOptions → ErrorHandlingOptions

  unfoldable pub with_max_retries : ℤ → Setter
  with_max_retries n o = record o { max_retries = n }

  unfoldable pub with_retry_delay : ℤ → Setter
  with_retry_delay delay o = record o { retry_delay = delay }

  unfoldable pub with_max_retry_delay : ℤ → Setter
  with_max_retry_delay delay o = record o { max_retry_delay = delay }

  unfoldable pub with_retry_strategy : RetryStrategy → Setter
  with_retry_strategy strategy o = record o { retry_strategy = strategy }

  unfoldable pub with_backoff_multiplier : Float → Setter
  with_backoff_multiplier multiplier o = record o { backoff_multiplier = multiplier }

  unfoldable pub with_jitter : JitterType → Float → Setter
  with_jitter jitter factor o = record o { jitter_type = jitter; jitter_factor = factor }

  unfoldable pub with_transient_errors : List Str → Setter
  with_transient_errors errors o = record o { transient_errors = errors }

  unfoldable pub with_should_retry : Option (Err → Bool) → Setter
  with_should_retry test o = record o { should_retry = test }

  unfoldable pub with_timeout : ℤ → Setter
  with_timeout timeout o = record o { timeout = timeout }

  unfoldable pub with_on_retry : Option Callback → Setter
  with_on_retry callback o = record o { on_retry = callback }

  unfoldable pub with_on_success : Option Callback → Setter
  with_on_success callback o = record o { on_success = callback }

  unfoldable pub with_on_failed : Option Callback → Setter
  with_on_failed callback o = record o { on_failed = callback }

  -- The loop, which skips nil options.
  unfoldable pub apply_options : List (Option Setter) → ErrorHandlingOptions → ErrorHandlingOptions
  apply_options [] options = options
  apply_options (none ∷ opts) options = apply_options opts options
  apply_options (some opt ∷ opts) options = apply_options opts (opt options)

  unfoldable pub new_options : List (Option Setter) → ErrorHandlingOptions
  new_options opts = apply_options opts default_options

  apply_options-append :
      (before after : List (Option Setter)) (o : ErrorHandlingOptions)
      → apply_options (before ++ after) o ≡ apply_options after (apply_options before o)
  unfolding apply_options
  apply_options-append [] after o = refl
  apply_options-append (none ∷ before) after o = apply_options-append before after o
  apply_options-append (some opt ∷ before) after o = apply_options-append before after (opt o)

  -- The options are applied in their order, the last one over all earlier ones, and a nil option
  -- anywhere makes no difference.
  pub new_options-append :
      (before after : List (Option Setter)) (last : Setter)
      → (new_options (before ++ some last ∷ []) ≡ last (new_options before))
        × (new_options (before ++ none ∷ after) ≡ new_options (before ++ after))
  unfolding new_options apply_options
  new_options-append before after last = (
    apply_options-append before (some last ∷ []) default_options,
    apply_options-append before (none ∷ after) default_options
        ∙ sym (apply_options-append before after default_options),
  )
