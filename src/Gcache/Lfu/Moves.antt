-- ===== src/Gcache/Lfu/Moves.antt =====
-- An element that leaves its list, in the cache of lfu.go, and a frequency that goes up.
use mathlib.Core.Path.{subst}
use gk.Common.{ℕ, ◌+◌, ◌≡◌, inl, inr, refl, sym, List, some, ℕ_discrete}
use gk.Common.Maps.{Map, lookup, insert}
use gk.Common.Str.{Str, Str_discrete}
use gk.Gcache.Linked.{remove}
use gk.Gcache.Lfu.{LfuEntry, LfuCache, push_entry, taken_out, increment_frequency}
use gk.Gcache.Lfu.Invariant.{Among, Among-remove, insert_found, insert_kept, PointsBy, Points, IsWf}
use gk.Gcache.Lfu.Wf.{push_old-IsWf}

module _ {V : Type 0} where
  relisted :
      (freq : ℕ) (l : List ℕ) (key : Str) (elem : ℕ) (elements : Map ℕ ℕ)
      (entries : Map ℕ (LfuEntry V)) (lists : Map ℕ (List ℕ))
      → PointsBy key elem elements entries lists
      → PointsBy key elem elements entries (insert ℕ_discrete freq l lists)
  relisted freq l key elem elements entries lists p =
      let (m, listed) = insert_kept ℕ_discrete freq p.e.freq l p.l lists p.listed in
      record {
        id = p.id;
        e = p.e;
        pointed = p.pointed;
        stored = p.stored;
        keyed = p.keyed;
        l = m;
        listed = listed;
      }

  -- An element goes from a list, and keys may go from the map.
  pub shrunk-IsWf :
      (elem freq min : ℕ) (l : List ℕ) (cache : Map Str ℕ) (c : LfuCache V)
      → IsWf c
      → lookup ℕ_discrete freq c.freq_to_list ≡ some l
      → ((key : Str) (x : ℕ)
          → lookup Str_discrete key cache ≡ some x
          → lookup Str_discrete key c.cache ≡ some x)
      → IsWf (record c {
        cache = cache;
        min_freq = min;
        freq_to_list = insert ℕ_discrete freq (remove elem l) c.freq_to_list;
      })
  shrunk-IsWf elem freq min l cache c wf found sub =
      let keep = λ (key : Str) (x : ℕ) (p : Points key x c).
        relisted freq (remove elem l) key x c.elements c.entries c.freq_to_list p in
      record {
        mapped = λ key x h. keep key x (wf.mapped key x (sub key x h));
        in_lists = λ freq' l' x h there.
            elim (insert_found ℕ_discrete freq freq' (remove elem l) l' c.freq_to_list h) [
              | inl (same, it) ↦
                  let (key, p) =
                    wf.in_lists freq l x found
                      (Among-remove x elem l (subst (Among x) (sym it) there)) in
                  (key, keep key x p)
              | inr before ↦
                  let (key, p) = wf.in_lists freq' l' x before there in (key, keep key x p)
            ];
        new_element = wf.new_element;
        new_entry = wf.new_entry;
      }

  taken_out-IsWf :
      (elem freq : ℕ) (l : List ℕ) (c : LfuCache V)
      → IsWf c
      → lookup ℕ_discrete freq c.freq_to_list ≡ some l
      → IsWf (taken_out elem freq l c)
  unfolding taken_out
  taken_out-IsWf elem freq l c wf found =
      shrunk-IsWf elem freq _ l c.cache c wf found (λ key x h. h)

  -- The frequency of an element that a key leads to goes up without a nil dereference.
  pub increment_frequency-IsWf :
      (key : Str) (elem : ℕ) (c : LfuCache V)
      → IsWf c
      → Points key elem c
      → (c' : LfuCache V) × (increment_frequency elem c ≡ some c') × IsWf c'
  unfolding increment_frequency
  increment_frequency-IsWf key elem c wf p =
      let c1 = taken_out elem p.e.freq p.l c in
      let e : LfuEntry V = record p.e { freq = p.e.freq + 1 } in
      (
        push_entry p.id e c1,
        rw (p.pointed, increment_frequency, p.stored, p.listed) refl,
        push_old-IsWf p.id p.e e c1 (taken_out-IsWf elem p.e.freq p.l c wf p.listed)
            (unfold taken_out in p.stored) refl,
      )
