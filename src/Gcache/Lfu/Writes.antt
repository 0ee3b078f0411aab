-- ===== src/Gcache/Lfu/Writes.antt =====
-- Reads and writes of the cache of lfu.go on a cache that satisfies the invariant.
use mathlib.Core.Path.{subst}
use gk.Common.{
  ℕ, ◌≡◌, inl, inr, refl, sym, ap, ◌∙◌, false, ◌==◌, Option, none, some, ℕ_discrete, if_pos, if_neg,
  length, leb, Bool-cases, Option-cases,
}
use gk.Common.Maps.{lookup, insert, delete, lookup-insert}
use gk.Common.Str.{Str, Str_discrete}
use gk.Gcache.Linked.{remove, back}
use gk.Gcache.Lru.{◌>>=◌}
use gk.Gcache.Lfu.{
  LfuEntry, LfuCache, increment_frequency, entry_of, get_hit, lfu_get, evict, evict_back, make_room,
  push_new, set_hit, set_miss, lfu_set,
}
use gk.Gcache.Lfu.Laws.{Holds, lfu_get-Holds, lfu_set-Holds, bind_some}
use gk.Gcache.Lfu.Invariant.{back-Among, delete_found, PointsBy, Points, IsWf}
use gk.Gcache.Lfu.Wf.{some_inj, pushed_entry, push_new-IsWf}
use gk.Gcache.Lfu.Moves.{shrunk-IsWf, increment_frequency-IsWf}

module _ {V : Type 0} where
  -- A write into an entry.
  rewritten :
      (id : ℕ) (e : LfuEntry V) (value : V) (key : Str) (elem : ℕ) (c : LfuCache V)
      → lookup ℕ_discrete id c.entries ≡ some e
      → Points key elem c
      → PointsBy key elem c.elements
          (insert ℕ_discrete id (record e { value = value }) c.entries)
          c.freq_to_list
  rewritten id e value key elem c found p = elim (ℕ_discrete id p.id) [
    | yes same ↦
        let it : e ≡ p.e = some_inj (sym found ∙ rw same p.stored) in
        record {
          id = p.id;
          e = record e { value = value };
          pointed = p.pointed;
          stored =
              lookup-insert ℕ_discrete id p.id (record e { value = value }) c.entries
              ∙ if_pos (ℕ_discrete id p.id) same _ _;
          keyed = ap (λ x. x.key) it ∙ p.keyed;
          l = p.l;
          listed = ap (λ x. lookup ℕ_discrete x.freq c.freq_to_list) it ∙ p.listed;
        }
    | no other ↦ record {
      id = p.id;
      e = p.e;
      pointed = p.pointed;
      stored =
          lookup-insert ℕ_discrete id p.id (record e { value = value }) c.entries
          ∙ if_neg (ℕ_discrete id p.id) other _ _
          ∙ p.stored;
      keyed = p.keyed;
      l = p.l;
      listed = p.listed;
    }
  ]

  written-IsWf :
      (id : ℕ) (e : LfuEntry V) (value : V) (c : LfuCache V)
      → IsWf c
      → lookup ℕ_discrete id c.entries ≡ some e
      → IsWf (record c { entries = insert ℕ_discrete id (record e { value = value }) c.entries })
  written-IsWf id e value c wf found = record {
    mapped = λ key x h. rewritten id e value key x c found (wf.mapped key x h);
    in_lists = λ freq l x h there.
        let (key, p) = wf.in_lists freq l x h there in (key, rewritten id e value key x c found p);
    new_element = wf.new_element;
    new_entry = λ i e1 h. pushed_entry id e (record e { value = value }) c wf found i e1 h;
  }

  abbrev pub Goes : Option (LfuCache V) → Type 0
  Goes out = (c' : LfuCache V) × (out ≡ some c') × IsWf c'

  set_hit-IsWf :
      (key : Str) (elem : ℕ) (value : V) (c : LfuCache V)
      → IsWf c
      → Points key elem c
      → Goes (set_hit elem value c)
  unfolding set_hit
  set_hit-IsWf key elem value c wf p =
      let c1 = record c {
        entries = insert ℕ_discrete p.id (record p.e { value = value }) c.entries;
      } in
      let (c', out, wf') =
        increment_frequency-IsWf key elem c1 (written-IsWf p.id p.e value c wf p.stored)
          (rewritten p.id p.e value key elem c p.stored p) in
      let step = λ (id : ℕ) (e : LfuEntry V).
        increment_frequency elem
          (record c { entries = insert ℕ_discrete id (record e { value = value }) c.entries }) in
      (
        c',
        ap (λ o. o >>= λ id. lookup ℕ_discrete id c.entries >>= step id) p.pointed
            ∙ ap (λ o. o >>= step p.id) p.stored
            ∙ out,
        wf',
      )

  evict-IsWf : (c : LfuCache V) → IsWf c → Goes (evict c)
  unfolding evict evict_back entry_of
  evict-IsWf c wf = elim (Option-cases (lookup ℕ_discrete c.min_freq c.freq_to_list)) [
    | inl missing ↦ (c, rw (missing, evict) refl, wf)
    | inr (l, found) ↦ elim (Option-cases (back l)) [
      | inl empty ↦ (c, rw (found, evict, empty) refl, wf)
      | inr (elem, last) ↦
          let (key, p) = wf.in_lists c.min_freq l elem found (back-Among l elem last) in
          (
            record c {
              freq_to_list = insert ℕ_discrete c.min_freq (remove elem l) c.freq_to_list;
              cache = delete Str_discrete p.e.key c.cache;
            },
            rw (found, evict, last, p.pointed, p.stored) refl,
            shrunk-IsWf elem c.min_freq c.min_freq l (delete Str_discrete p.e.key c.cache) c wf
                found (λ q x h. delete_found Str_discrete p.e.key q x c.cache h),
          )
    ]
  ]

  set_miss-IsWf : (key : Str) (value : V) (c : LfuCache V) → IsWf c → Goes (set_miss key value c)
  unfolding set_miss make_room
  set_miss-IsWf key value c wf = elim (Bool-cases (leb c.capacity (length c.cache))) [
    | inl full ↦
        let (c1, out, wf1) = evict-IsWf c wf in
        (push_new key value c1, rw (full, set_miss, out) refl, push_new-IsWf key value c1 wf1)
    | inr room ↦ (push_new key value c, rw (room, set_miss) refl, push_new-IsWf key value c wf)
  ]

  -- A write goes through, and keeps the invariant.
  pub lfu_set-IsWf : (key : Str) (value : V) (c : LfuCache V) → IsWf c → Goes (lfu_set key value c)
  unfolding lfu_set
  lfu_set-IsWf key value c wf = elim (Bool-cases (c.capacity == 0)) [
    | inl none_held ↦ (c, rw (none_held, lfu_set) refl, wf)
    | inr roomy ↦ elim (Option-cases (lookup Str_discrete key c.cache)) [
      | inl absent ↦
          let (c', out, wf') = set_miss-IsWf key value c wf in
          (c', rw (roomy, lfu_set, absent) out, wf')
      | inr (elem, found) ↦
          let (c', out, wf') = set_hit-IsWf key elem value c wf (wf.mapped key elem found) in
          (c', rw (roomy, lfu_set, found) out, wf')
    ]
  ]

  entry_of-Points :
      (key : Str) (elem : ℕ) (c : LfuCache V) (p : Points key elem c) → entry_of elem c ≡ some p.e
  unfolding entry_of
  entry_of-Points key elem c p =
      ap (λ o. o >>= λ id. lookup ℕ_discrete id c.entries) p.pointed ∙ p.stored

  holds :
      (key : Str) (elem : ℕ) (c : LfuCache V)
      → lookup Str_discrete key c.cache ≡ some elem
      → (p : Points key elem c) → Holds key p.e.value c
  holds key elem c found p = record {
    elem = elem;
    id = p.id;
    freq = p.e.freq;
    l = p.l;
    mapped = found;
    pointed = p.pointed;
    stored = p.stored ∙ ap (λ k. some (record p.e { key = k })) p.keyed;
    listed = p.listed;
  }

  -- A read goes through, and keeps the invariant.
  pub lfu_get-IsWf :
      (key : Str) (c : LfuCache V)
      → IsWf c
      → (c' : LfuCache V) × (found : Option V) × (lfu_get key c ≡ some (c', found)) × IsWf c'
  unfolding lfu_get get_hit
  lfu_get-IsWf key c wf = elim (Option-cases (lookup Str_discrete key c.cache)) [
    | inl absent ↦ (c, none, rw (absent, lfu_get) refl, wf)
    | inr (elem, found) ↦
        let p = wf.mapped key elem found in
        let (c', up, wf') = increment_frequency-IsWf key elem c wf p in
        let (c'', out) = lfu_get-Holds key p.e.value c (holds key elem c found p) in
        let (e, at, same) =
          bind_some (entry_of elem c') (λ e. some (c', some e.value)) (c'', some p.e.value)
            (rw (found, lfu_get, get_hit, up) at out) in
        (c'', some p.e.value, out, subst IsWf (ap (λ r. r.0) (some_inj same)) wf')
  ]

  -- On a cache that satisfies the invariant and has room for an entry, a write goes through, on every path
  -- of it, and keeps the invariant, and a read of the key that follows goes through, gives the value and
  -- keeps the invariant.
  pub lfu_get-lfu_set :
      (key : Str) (value : V) (c : LfuCache V)
      → IsWf c
      → (c.capacity == 0) ≡ false
      → (c' : LfuCache V) × (lfu_set key value c ≡ some c')
        × IsWf c'
        × (c'' : LfuCache V) × (lfu_get key c' ≡ some (c'', some value))
        × IsWf c''
  lfu_get-lfu_set key value c wf roomy =
      let (c', set, wf') = lfu_set-IsWf key value c wf in
      let keyed : (elem : ℕ) (e : LfuEntry V)
          → lookup Str_discrete key c.cache ≡ some elem
          → entry_of elem c ≡ some e
          → e.key ≡ key =
        λ elem e found at.
          ap (λ x. x.key)
            (some_inj (sym at ∙ entry_of-Points key elem c (wf.mapped key elem found)))
          ∙ (wf.mapped key elem found).keyed in
      let (c'', got) = lfu_get-Holds key value c' (lfu_set-Holds key value c c' roomy keyed set) in
      let (c3, out, got', wf'') = lfu_get-IsWf key c' wf' in
      (c', set, wf', c'', got, subst IsWf (ap (λ r. r.0) (some_inj (sym got' ∙ got))) wf'')
