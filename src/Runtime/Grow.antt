-- ===== src/Runtime/Grow.antt =====
-- runtime/c_rt/src/balmap.c: growing a table, and `bal_map_insert` on every branch.
use nballerina_cpp.Base.{
  ℕ, suc, ◌+◌, ◌≤◌, ◌<◌, ◌≡◌, refl, sym, ap, ◌∙◌, inl, inr, none, some, List, [], ◌∷◌, arith,
  if◌then◌else◌, length,
}
use native.Mathlib.Decide.{dec_lt}
use nballerina_cpp.Run.{ok}
use nballerina_cpp.Runtime.Table.{
  BalString, BalValue, BalHashEntry, BalMap, bal_string_equals, bal_map_create, write, Stop, vacant,
  matched, probe, home, insert_all, grow_hashtable, grow_if_full, insert_at, bal_map_insert,
}
use nballerina_cpp.Runtime.Probe.{length-write, probe_vacant}
use nballerina_cpp.Runtime.View.{
  find_value, occupied, occupied-write_vacant, occupied-overwrite, find_value-write_vacant,
  find_value-overwrite, last_value, or_value-none, last_value-find_value,
}
use nballerina_cpp.Runtime.Insert.{
  home-lt, IsReachable, IsValid, view, IsReachable-IsDistinct, vacant-find_value,
  matched-find_value, locate-probe, probe_ends, Puts, overwrite-IsReachable, write-IsReachable,
}
use nballerina_cpp.Runtime.Size.{max_capacity, init_hashtable_lem}

-- `bal_map_create` ends without a failure in a valid table with no entry.
pub create-IsValid :
    (m : BalMap) × (bal_map_create ≡ ok m)
    × IsValid m
    × (m.used ≡ 0)
    × ((q : BalString) → view m q ≡ none)
unfolding bal_map_create
create-IsValid =
    let (m, e, v, u, c, r) = init_hashtable_lem 8 (omega arith) (omega arith) in (m, e, v, u, r)

-- What an insertion does to a table with an empty slot: it overwrites the value of a stored key, or
-- it writes the entry into an empty slot and then sees to the capacity.
pub data Insertion (m : BalMap) (key : BalString) (value : BalValue) (depth : ℕ) : Type 0 where
  overwrites :
      (m' : BalMap)
      → bal_map_insert (suc depth) m key value ≡ ok m'
      → IsReachable m'.entries
      → m'.used ≡ occupied m'.entries
      → m'.used ≡ m.used
      → m'.capacity ≡ m.capacity
      → length m'.entries ≡ length m.entries
      → ((q : BalString) → view m' q ≡ (if bal_string_equals q key then some value else view m q))
      → Insertion m key value depth
  adds :
      (m' : BalMap)
      → bal_map_insert (suc depth) m key value ≡ grow_if_full (bal_map_insert depth) m'
      → IsReachable m'.entries
      → m'.used ≡ occupied m'.entries
      → m'.used ≡ m.used + 1
      → m'.capacity ≡ m.capacity
      → length m'.entries ≡ length m.entries
      → ((q : BalString) → view m' q ≡ (if bal_string_equals q key then some value else view m q))
      → Insertion m key value depth

module _ (m : BalMap) (key : BalString) (value : BalValue) (reachable : IsReachable m.entries)
    (counted : m.used ≡ occupied m.entries) where
  insert-locate :
      (depth : ℕ) (s : Stop)
      → 0 < length m.entries
      → probe m.entries key (length m.entries) (home (length m.entries) key) ≡ s
      → bal_map_insert (suc depth) m key value ≡ insert_at (bal_map_insert depth) m key value s
  unfolding bal_map_insert
  insert-locate depth s p e = rw (locate-probe m.entries key p, e)

  insertion : (depth : ℕ) → m.used < length m.entries → Insertion m key value depth
  unfolding view insert_at
  insertion depth room = elim (probe_ends m.entries key (omega arith)) [
    | inl (i, h) ↦
        let (e, l) =
          probe_vacant m.entries key (length m.entries) (home (length m.entries) key) i
            (home-lt _ key (omega arith)) h in
        adds (record m { used = m.used + 1; entries = write m.entries i (some (key, value)) })
          (insert-locate depth (vacant i) (omega arith) h)
          (write-IsReachable m.entries reachable key i value l e h)
          (omega (arith, occupied-write_vacant m.entries i (key, value) l e)) refl refl
          (length-write m.entries i _)
          (λ q.
            find_value-write_vacant m.entries i key value q l e
              (vacant-find_value m.entries reachable key i h))
    | inr (i, h) ↦
        let (old, e, f) = matched-find_value m.entries reachable key i h in
        overwrites (record m { entries = write m.entries i (some (key, value)) })
          (insert-locate depth (matched i) (omega arith) h)
          (overwrite-IsReachable m.entries reachable key i old value e)
          (counted ∙ sym (occupied-overwrite m.entries i (key, old) (key, value) e)) refl refl
          (length-write m.entries i _)
          (λ q.
            find_value-overwrite m.entries i key value old q
              (IsReachable-IsDistinct m.entries reachable) e)
  ]

-- With room for one more entry nothing grows.
insert_roomy :
    {m : BalMap} (key : BalString) (value : BalValue) (depth : ℕ)
    → IsValid m
    → m.used + 1 < m.capacity
    → (m' : BalMap) × (bal_map_insert (suc depth) m key value ≡ ok m')
      × Puts m key value m'
      × (m'.used ≤ m.used + 1)
      × (m'.capacity ≡ m.capacity)
insert_roomy {m} key value depth valid room = go (
    insertion m key value valid.reachable valid.counted depth
      (omega (arith, valid.below, valid.roomy)))
  where
    go :
        Insertion m key value depth
        → (m' : BalMap) × (bal_map_insert (suc depth) m key value ≡ ok m')
          × Puts m key value m'
          × (m'.used ≤ m.used + 1)
          × (m'.capacity ≡ m.capacity)
    go (overwrites m' e r c u k l reads) = (
      m',
      e,
      record {
        valid = record {
          reachable = r;
          counted = c;
          below = omega (arith, valid.below);
          roomy = omega (arith, valid.roomy);
        };
        reads = reads;
        grows = omega arith;
      },
      omega arith,
      k,
    )
    go (adds m' e r c u k l reads) = (
      m',
      e ∙ stays m' (omega arith),
      record {
        valid = record {
          reachable = r;
          counted = c;
          below = omega arith;
          roomy = omega (arith, valid.roomy);
        };
        reads = reads;
        grows = omega arith;
      },
      omega arith,
      k,
    )
      where
        stays : (t : BalMap) → t.used < t.capacity → grow_if_full (bal_map_insert depth) t ≡ ok t
        stays t h = unfold grow_if_full in ground arith

-- Copying entries into a table that has room for them all.
insert_all_lem :
    (es : List BalHashEntry) {m : BalMap} (depth : ℕ)
    → IsValid m
    → m.used + occupied es < m.capacity
    → (m' : BalMap) × (insert_all (bal_map_insert (suc depth)) es m ≡ ok m')
      × IsValid m'
      × ((q : BalString) → view m' q ≡ last_value es q (view m q))
      × (m'.used ≤ m.used + occupied es)
      × (m'.capacity ≡ m.capacity)
unfolding insert_all last_value occupied
insert_all_lem [] {m} depth valid room = (m, refl, valid, λ q. refl, omega arith, refl)
insert_all_lem (none ∷ es) depth valid room = insert_all_lem es depth valid room
insert_all_lem (some (k, v) ∷ es) {m} depth valid room =
    let (m₁, e₁, p₁, u₁, c₁) = insert_roomy k v depth valid (omega arith) in
    let (m₂, e₂, v₂, r₂, u₂, k₂) = insert_all_lem es {m = m₁} depth p₁.valid (omega arith) in
    (m₂, rw e₁ e₂, v₂, λ q. r₂ q ∙ ap (last_value es q) (p₁.reads q), omega arith, omega arith)

-- `bal_map_grow_hashtable` on a table with a reachable key in each slot in use and the right count of
-- them, to a size above this count and at most the largest capacity, with one nested insertion at
-- least: it ends without a failure in a valid table with the same meaning, no more entries in use, and
-- at least the capacity asked for.
pub grow-view :
    (m : BalMap) (new_size depth : ℕ)
    → IsReachable m.entries
    → m.used ≡ occupied m.entries
    → m.used < new_size
    → new_size ≤ max_capacity
    → (m' : BalMap) × (grow_hashtable (bal_map_insert (suc depth)) m new_size ≡ ok m')
      × IsValid m'
      × ((q : BalString) → view m' q ≡ view m q)
      × (m'.used ≤ m.used)
      × (new_size ≤ m'.capacity)
unfolding grow_hashtable view
grow-view m new_size depth reachable counted above fits =
    let (m₁, e₁, v₁, u₁, c₁, r₁) = init_hashtable_lem new_size (omega arith) fits in
    let (m₂, e₂, v₂, r₂, u₂, k₂) = insert_all_lem m.entries {m = m₁} depth v₁ (omega arith) in
    (
      m₂,
      ground (arith, e₁, e₂),
      v₂,
      λ q. r₂ q ∙ ap (last_value m.entries q) (r₁ q) ∙ whole q,
      omega arith,
      omega arith,
    )
  where
    whole : (q : BalString) → last_value m.entries q none ≡ view m q
    whole q =
        last_value-find_value m.entries q none (IsReachable-IsDistinct m.entries reachable)
        ∙ or_value-none (find_value m.entries q)

-- `bal_map_insert` on a valid table with less than the largest number of entries: it ends without a
-- failure, in a valid table that means the old map with the key set to the value. It never needs more
-- than two nested calls.
pub insert-Puts :
    {m : BalMap} (key : BalString) (value : BalValue) (depth : ℕ)
    → IsValid m
    → m.used + 2 ≤ max_capacity
    → (m' : BalMap) × (bal_map_insert (suc (suc depth)) m key value ≡ ok m') × Puts m key value m'
insert-Puts {m} key value depth valid fits = go (
    insertion m key value valid.reachable valid.counted (suc depth)
      (omega (arith, valid.below, valid.roomy)))
  where
    stays : (t : BalMap) → t.used < t.capacity → grow_if_full (bal_map_insert (suc depth)) t ≡ ok t
    stays t h = unfold grow_if_full in ground arith

    grows :
        (t : BalMap)
        → ¬ (t.used < t.capacity)
        → grow_if_full (bal_map_insert (suc depth)) t
          ≡ grow_hashtable (bal_map_insert (suc depth)) t (t.used + 1)
    grows t h = unfold grow_if_full in ground arith

    go :
        Insertion m key value (suc depth)
        → (m' : BalMap) × (bal_map_insert (suc (suc depth)) m key value ≡ ok m')
          × Puts m key value m'
    go (overwrites m' e r c u k l reads) = (
      m',
      e,
      record {
        valid = record {
          reachable = r;
          counted = c;
          below = omega (arith, valid.below);
          roomy = omega (arith, valid.roomy);
        };
        reads = reads;
        grows = omega arith;
      },
    )
    go (adds m' e r c u k l reads) = elim (dec_lt m'.used m'.capacity) [
      | yes room ↦ (
        m',
        e ∙ stays m' room,
        record {
          valid = record {
            reachable = r;
            counted = c;
            below = room;
            roomy = omega (arith, valid.roomy);
          };
          reads = reads;
          grows = omega arith;
        },
      )
      | no full ↦
          let (t, e', v', r', u', c') =
            grow-view m' (m'.used + 1) depth r c (omega arith) (omega arith) in
          (
            t,
            e ∙ grows m' full ∙ e',
            record { valid = v'; reads = λ q. r' q ∙ reads q; grows = omega arith },
          )
    ]
