-- ===== src/Gcache/Timed/Loop.antt =====
-- `cleanupLoop` of timed.go beside the callers of the cache, as steps. Each pass of the loop reads the
-- field `stop` again, which `Close` has set to nil.
use gk.Common.{ℕ, ◌≡◌, refl, Bool, true, false}
use mathlib.Core.Path.{subst}
use gk.Common.Str.{Str}
use gk.Common.Int64.{ℤ}
use gk.Gcache.Timed.{TimedCache, timed_set, timed_delete, timed_close, evict_expired}

-- Where the goroutine is: in the select, with the channel or with nil for it, or between two selects, or
-- at its end.
pub data Place : Type 0 where
  selecting : Bool → Place
  evicting ended : Place

-- The goroutine has no channel to end by.
abbrev Leaked : Bool → Place → Type 0
Leaked running (selecting channel) = (running ≡ false) × (channel ≡ false)
Leaked running evicting = running ≡ false
Leaked running ended = ⊥

Leaked-closed : (running : Bool) (p : Place) → Leaked running p → Leaked false p
Leaked-closed running (selecting channel) l = (refl, l.1)
Leaked-closed running evicting l = refl
Leaked-closed running ended l = l

module _ {V : Type 0} where
  -- Reading calls change nothing.
  pub data Step : TimedCache V → Place → TimedCache V → Place → Type 0 where
    ticked : (c : TimedCache V) (channel : Bool) → Step c (selecting channel) c evicting
    evicted :
        (now : ℕ) (c : TimedCache V) → Step c evicting (evict_expired now c) (selecting c.running)
    stopped : (c : TimedCache V) → c.running ≡ false → Step c (selecting true) c ended
    closed : (c : TimedCache V) (p : Place) → Step c p (timed_close c) p
    stored :
        (now : ℕ) (key : Str) (v : V) (ttl : ℤ) (c : TimedCache V) (p : Place)
        → Step c p (timed_set now key v ttl c) p
    deleted : (key : Str) (c : TimedCache V) (p : Place) → Step c p (timed_delete key c) p

  pub data Steps : TimedCache V → Place → TimedCache V → Place → Type 0 where
    done : (c : TimedCache V) (p : Place) → Steps c p c p
    next : {c d e : TimedCache V} {p q r : Place} → Step c p d q → Steps d q e r → Steps c p e r

  step-Leaked :
      {c d : TimedCache V} {p q : Place} → Step c p d q → Leaked c.running p → Leaked d.running q
  unfolding timed_set timed_delete timed_close evict_expired
  step-Leaked (ticked c channel) l = l.0
  step-Leaked (evicted now c) l = (l, l)
  step-Leaked (stopped c h) l = cc
  step-Leaked (closed c p) l = Leaked-closed c.running p l
  step-Leaked (stored now key v ttl c p) l = l
  step-Leaked (deleted key c p) l = l

  Steps-Leaked :
      {c d : TimedCache V} {p q : Place} → Steps c p d q → Leaked c.running p → Leaked d.running q
  Steps-Leaked (done c p) l = l
  Steps-Leaked (next s rest) l = Steps-Leaked rest (step-Leaked s l)

  -- If `Close` is called while the goroutine is between two selects, the goroutine never ends, whatever
  -- happens next.
  pub timed_close-never_ends :
      (c d : TimedCache V) (p : Place) → Steps (timed_close c) evicting d p → ¬ (p ≡ ended)
  unfolding timed_close
  timed_close-never_ends c d p s h = subst (Leaked d.running) h (Steps-Leaked s refl)
