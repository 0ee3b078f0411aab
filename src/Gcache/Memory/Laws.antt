-- ===== src/Gcache/Memory/Laws.antt =====
-- What a memory cache promises.

use gk.Common.{
  ℕ, suc, ◌≤◌, ◌≡◌, refl, sym, ap, ◌∙◌, true, false, [], ◌∷◌, Option, none, some, if◌then◌else◌,
  arith, ite, Bool-cases, inl, inr, Option-cases,
}
use gk.Common.Maps.{Map, lookup, insert, Distinct, lookup-insert, lookup-delete, insert-insert}
use gk.Common.Str.{Str, Str_discrete}
use gk.Common.Int64.{
  ℤ, pos, InRange, add64, add64_assoc, add64-InRange, format_int, parse_int, parse_int-format_int,
}
use gk.Gcache.Clock.{expiry, is_past}
use gk.Gcache.Timed.Laws.{is_over, is_past-expiry, is_past_mono}
use gk.Gcache.Memory.{
  MemoryItem, MemoryCache, CacheError, Reply, ok, err, fresh, memory_get, memory_set, memory_delete,
  memory_add, counter, unexpired, cleanup_expired, memory_expire,
}

-- The answer of a read.
abbrev pub read : ℕ → Str → MemoryCache → Reply Str
read now key m = (memory_get now key m).1

abbrev reply_of : Option MemoryItem → Reply Str
reply_of none = err CacheError.cache_miss
reply_of (some it) = ok it.value

pub read-fresh :
    (now : ℕ) (key : Str) (m : MemoryCache)
    → read now key m ≡ reply_of (fresh now (lookup Str_discrete key m.items))
unfolding memory_get
read-fresh now key m = ground arith

-- After a write, the key reads as the value until its lifetime is over, and for ever if the lifetime
-- is not positive; every other key reads as before.
pub memory_get-memory_set :
    (key q value : Str) (ttl : ℤ) (set_at now : ℕ) (m : MemoryCache)
    → read now q (memory_set set_at key value ttl m)
      ≡ ite
          (Str_discrete key q)
          (if is_over set_at ttl now then err CacheError.cache_miss else ok value)
          (read now q m)
unfolding memory_get memory_set fresh
memory_get-memory_set key q value ttl set_at now m = ground (
  arith,
  lookup-insert Str_discrete key q (record { value = value; expires_at = expiry set_at ttl })
      m.items,
  is_past-expiry now set_at ttl,
)

-- A read, which may delete its key, changes no read of any key at its time or later.
pub memory_get-memory_get :
    (key q : Str) (before now : ℕ) (m : MemoryCache)
    → before ≤ now
    → read now q (memory_get before key m).0 ≡ read now q m
unfolding memory_get memory_delete fresh is_past
memory_get-memory_get key q before now m le =
    ground (arith, lookup-delete Str_discrete key q m.items)

lookup-unexpired :
    (before : ℕ) (q : Str) (m : Map Str MemoryItem)
    → Distinct Str_discrete m
    → lookup Str_discrete q (unexpired before m) ≡ fresh before (lookup Str_discrete q m)
unfolding lookup unexpired fresh
lookup-unexpired before q [] d = refl
lookup-unexpired before q ((k, e) ∷ m) (new, d) = ground (arith, lookup-unexpired before q m d)

fresh-fresh :
    (before now : ℕ) (o : Option MemoryItem)
    → before ≤ now
    → fresh now (fresh before o) ≡ fresh now o
unfolding fresh
fresh-fresh before now none le = refl
fresh-fresh before now (some it) le =
    ground (
      arith,
      λ (h : is_past before it.expires_at ≡ true). is_past_mono before now it.expires_at le h,
    )

-- A cleanup of a map with distinct keys changes no read at its time or later.
pub memory_get-cleanup_expired :
    (before now : ℕ) (q : Str) (m : MemoryCache)
    → before ≤ now
    → Distinct Str_discrete m.items
    → read now q (cleanup_expired before m) ≡ read now q m
unfolding cleanup_expired
memory_get-cleanup_expired before now q m le d =
    read-fresh now q (cleanup_expired before m)
    ∙ ap (λ o. reply_of (fresh now o)) (lookup-unexpired before q m.items d)
    ∙ ap reply_of (fresh-fresh before now (lookup Str_discrete q m.items) le)
    ∙ sym (read-fresh now q m)

counter-InRange :
    (now : ℕ) (it : MemoryItem) (sum : ℤ) (expires : ℕ)
    → InRange sum
    → is_past now expires ≡ false
    → counter (fresh now (some (record { value = format_int sum; expires_at = expires })))
      ≡ some (sum, expires)
unfolding counter fresh
counter-InRange now it sum expires h live = rw (live, parse_int-format_int sum h) refl

counter-live :
    (now : ℕ) (o : Option MemoryItem) (current : ℤ) (expires : ℕ)
    → counter (fresh now o) ≡ some (current, expires)
    → is_past now expires ≡ false
unfolding counter fresh
counter-live now none current expires h = unfold is_past in ground arith
counter-live now (some it) current expires h = elim (Bool-cases (is_past now it.expires_at)) [
  | inl past ↦
      let zero_time : 0 ≡ expires = ground arith in
      rw (← zero_time) (unfold is_past in ground arith)
  | inr live ↦ elim (Option-cases (parse_int it.value)) [
    | inl bad ↦ absurd (ground arith)
    | inr (n, good) ↦ let same : it.expires_at ≡ expires = ground arith in rw (← same) live
  ]
]

-- What `memory_add` does where the bytes are a number, or there is no fresh item.
abbrev pub added : ℕ → Str → ℤ → MemoryCache → MemoryCache
added expires key sum m = record m {
  items = insert Str_discrete key (record { value = format_int sum; expires_at = expires }) m.items;
}

memory_add-added :
    (now : ℕ) (key : Str) (d : ℤ) (m : MemoryCache) (current : ℤ) (expires : ℕ)
    → counter (fresh now (lookup Str_discrete key m.items)) ≡ some (current, expires)
    → memory_add now key d m ≡ (added expires key (add64 current d) m, ok (add64 current d))
unfolding memory_add
memory_add-added now key d m current expires h = rw (h, memory_add) refl

-- Two additions at one time, the first of which succeeds, act as one by the sum of the two, on the
-- cache and in the answer, also where they wrap around.
pub memory_add-memory_add :
    (now : ℕ) (key : Str) (d d' s : ℤ) (m : MemoryCache)
    → (memory_add now key d m).1 ≡ ok s
    → memory_add now key d' (memory_add now key d m).0 ≡ memory_add now key (add64 d d') m
memory_add-memory_add now key d d' s m h =
    elim (Option-cases (counter (fresh now (lookup Str_discrete key m.items)))) [
      | inl bad ↦ absurd (unfold memory_add in ground arith)
      | inr ((current, expires), good) ↦
          let m' = added expires key (add64 current d) m in
          let stored : lookup Str_discrete key m'.items
              ≡ some (record { value = format_int (add64 current d); expires_at = expires }) =
            ground (
              arith,
              lookup-insert Str_discrete key key
                  (record { value = format_int (add64 current d); expires_at = expires }) m.items,
            ) in
          let again : counter (fresh now (lookup Str_discrete key m'.items))
              ≡ some (add64 current d, expires) =
            rw stored (
              counter-InRange now
                (record { value = format_int (add64 current d); expires_at = expires })
                (add64 current d) expires (add64-InRange current d)
                (counter-live now (lookup Str_discrete key m.items) current expires good)) in
          rw
            (
              memory_add-added now key d m current expires good,
              memory_add-added now key d' m' (add64 current d) expires again,
              memory_add-added now key (add64 d d') m current expires good,
            )
            (rw (insert-insert, add64_assoc) refl)
    ]

-- After `Expire` with a positive lifetime, the key reads as a miss if it had no fresh item then; else it
-- reads as its item's value until the new lifetime is over. Every other key reads as before.
pub memory_get-memory_expire :
    (key q : Str) (life set_at now : ℕ) (m : MemoryCache)
    → set_at ≤ now
    → read now q (memory_expire set_at key (pos (suc life)) m).0
      ≡ ite
          (Str_discrete key q)
          (elim (fresh set_at (lookup Str_discrete key m.items)) [
            | none ↦ err CacheError.cache_miss
            | some it ↦
                if is_over set_at (pos (suc life)) now
                then err CacheError.cache_miss
                else ok it.value
          ])
          (read now q m)
unfolding memory_expire memory_get memory_delete
memory_get-memory_expire key q life set_at now m le =
    elim (Option-cases (fresh set_at (lookup Str_discrete key m.items))) [
      | inl missing ↦
          unfold fresh in ground (arith, missing, lookup-delete Str_discrete key q m.items)
      | inr (it, found) ↦
          unfold fresh in
          ground (
            arith,
            found,
            lookup-insert Str_discrete key q
                (record it { expires_at = expiry set_at (pos (suc life)) }) m.items,
            is_past-expiry now set_at (pos (suc life)),
          )
    ]
