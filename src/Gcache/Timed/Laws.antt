-- ===== src/Gcache/Timed/Laws.antt =====
-- What a timed cache promises.
use gk.Common.{
  ℕ, zero, suc, ◌+◌, ◌≤◌, ◌≡◌, refl, Bool, true, false, [], ◌∷◌, none, some, if◌then◌else◌, arith,
  ite, ltb, Bool-cases, inl, inr, Option-cases,
}
use gk.Common.Maps.{Map, lookup, Distinct, lookup-insert, lookup-delete}
use gk.Common.Str.{Str, Str_discrete}
use gk.Common.Int64.{ℤ, pos, negsuc}
use gk.Gcache.Clock.{expiry, is_past}
use gk.Gcache.Timed.{
  TimedEntry, TimedCache, timed_get, timed_set, timed_delete, unexpired, evict_expired,
}

-- A lifetime that is over at a time: it is positive, and so much time has gone by.
abbrev pub is_over : ℕ → ℤ → ℕ → Bool
is_over set_at (pos zero) now = false
is_over set_at (pos (suc n)) now = ltb (set_at + suc n) now
is_over set_at (negsuc n) now = false

pub is_past-expiry :
    (now set_at : ℕ) (ttl : ℤ) → is_past now (expiry set_at ttl) ≡ is_over set_at ttl now
unfolding is_past expiry
is_past-expiry now set_at (pos zero) = ground arith
is_past-expiry now set_at (pos (suc n)) = ground arith
is_past-expiry now set_at (negsuc n) = ground arith

pub is_past_mono :
    (before now expires_at : ℕ)
    → before ≤ now
    → is_past before expires_at ≡ true
    → is_past now expires_at ≡ true
unfolding is_past
is_past_mono before now expires_at le h = ground arith

module _ {V : Type 0} where
  -- After a write, the key holds the value until its lifetime is over, and for ever if the lifetime
  -- is not positive; every other key holds what it held.
  pub timed_get-timed_set :
      (key q : Str) (value : V) (ttl : ℤ) (set_at now : ℕ) (c : TimedCache V)
      → timed_get now q (timed_set set_at key value ttl c)
        ≡ ite
            (Str_discrete key q)
            (if is_over set_at ttl now then none else some value)
            (timed_get now q c)
  unfolding timed_get timed_set
  timed_get-timed_set key q value ttl set_at now c = ground (
    arith,
    lookup-insert Str_discrete key q (record { value = value; expires_at = expiry set_at ttl })
        c.cache,
    is_past-expiry now set_at ttl,
  )

  pub timed_get-timed_delete :
      (key q : Str) (now : ℕ) (c : TimedCache V)
      → timed_get now q (timed_delete key c) ≡ ite (Str_discrete key q) none (timed_get now q c)
  unfolding timed_get timed_delete
  timed_get-timed_delete key q now c = ground (arith, lookup-delete Str_discrete key q c.cache)

  lookup-unexpired :
      (before : ℕ) (q : Str) (m : Map Str (TimedEntry V))
      → Distinct Str_discrete m
      → lookup Str_discrete q (unexpired before m) ≡ elim (lookup Str_discrete q m) [
        | none ↦ none
        | some e ↦ if is_past before e.expires_at then none else some e
      ]
  unfolding lookup unexpired
  lookup-unexpired before q [] d = refl
  lookup-unexpired before q ((k, e) ∷ m) (new, d) = ground (arith, lookup-unexpired before q m d)

  -- A cleanup of a map with distinct keys changes no read at its time or later.
  pub timed_get-evict_expired :
      (before now : ℕ) (q : Str) (c : TimedCache V)
      → before ≤ now
      → Distinct Str_discrete c.cache
      → timed_get now q (evict_expired before c) ≡ timed_get now q c
  unfolding timed_get evict_expired
  timed_get-evict_expired before now q c le d =
      elim (Option-cases (lookup Str_discrete q c.cache)) [
        | inl missing ↦ ground (arith, lookup-unexpired before q c.cache d)
        | inr (e, found) ↦ ground (
          arith,
          lookup-unexpired before q c.cache d,
          λ (h : is_past before e.expires_at ≡ true). is_past_mono before now e.expires_at le h,
        )
      ]

  unexpired-Distinct :
      (now : ℕ) (m : Map Str (TimedEntry V))
      → Distinct Str_discrete m
      → Distinct Str_discrete (unexpired now m)
  unfolding unexpired
  unexpired-Distinct now [] d = tt
  unexpired-Distinct now ((k, e) ∷ m) (new, d) = elim (Bool-cases (is_past now e.expires_at)) [
    | inl past ↦ rw past (unexpired-Distinct now m d)
    | inr live ↦ rw live (ground (arith, lookup-unexpired now k m d), unexpired-Distinct now m d)
  ]
