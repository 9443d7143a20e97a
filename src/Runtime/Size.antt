-- ===== src/Runtime/Size.antt =====
-- runtime/c_rt/src/balmap.c: `bal_map_init_hashtable`, and how large a table can be.
use nballerina_cpp.Base.{
  ℕ, zero, suc, ◌*◌, ◌/◌, ◌%◌, ◌^◌, ◌≤◌, ◌<◌, ◌≡◌, refl, sym, none, arith, replicate,
  length-replicate,
}
use native.Mathlib.Decide.{dec_lt}
use nballerina_cpp.Run.{ok}
use nballerina_cpp.Runtime.Table.{BalString, BalMap, load_capacity, table_size, init_hashtable}
use nballerina_cpp.Runtime.View.{occupied-replicate, slot-replicate, find_value-replicate}
use nballerina_cpp.Runtime.Insert.{IsValid, view}

-- `n` doubled `g` times.
unfoldable pub doubled : ℕ → ℕ → ℕ
doubled zero n = n
doubled (suc g) n = doubled g (n * 2)

doubled-le : (g n : ℕ) → n ≤ doubled g n
unfolding doubled
doubled-le zero n = omega arith
doubled-le (suc g) n = omega (arith, doubled-le g (n * 2))

-- The largest table that the size of 64 bits allows has 2 ^ 63 slots.
abbrev pub max_capacity : ℕ
max_capacity = 2 ^ 63 * 10066330 / 2 ^ 24

table_size_reaches :
    (fuel g n min_capacity : ℕ)
    → g < fuel
    → 0 < n
    → doubled g n < 2 ^ 64
    → min_capacity ≤ load_capacity (doubled g n)
    → (r : ℕ) × (table_size fuel n min_capacity ≡ ok r) × (min_capacity ≤ load_capacity r) × (0 < r)
unfolding table_size doubled
table_size_reaches zero g n m f p w c = absurd (omega arith)
table_size_reaches (suc fuel) zero n m f p w c = (n, ground arith, c, p)
table_size_reaches (suc fuel) (suc g) n m f p w c = elim (dec_lt (load_capacity n) m) [
  | no enough ↦ (n, ground arith, omega arith, p)
  | yes small ↦
      let (r, e, c', p') = table_size_reaches fuel g (n * 2) m (omega arith) (omega arith) w c in
      let fits : n * 2 % 2 ^ 64 ≡ n * 2 = omega (arith, doubled-le g (n * 2)) in
      (r, ground arith, c', p')
]

pub load_capacity_le : (n : ℕ) → load_capacity n ≤ n
unfolding load_capacity
load_capacity_le n = omega arith

abbrev fresh : ℕ → BalMap
fresh n = record { used = 0; capacity = load_capacity n; entries = replicate n none }

pub init_hashtable_lem :
    (min_capacity : ℕ)
    → 0 < min_capacity
    → min_capacity ≤ max_capacity
    → (m : BalMap) × (init_hashtable min_capacity ≡ ok m)
      × IsValid m
      × (m.used ≡ 0)
      × (min_capacity ≤ m.capacity)
      × ((q : BalString) → view m q ≡ none)
unfolding init_hashtable view
init_hashtable_lem min_capacity p h =
    let (n, e, c, q) =
      table_size_reaches 62 60 8 min_capacity (omega arith) (omega arith)
        (unfold doubled in omega arith) (unfold doubled load_capacity in h) in
    (
      fresh n,
      rw e,
      record {
        reachable = λ j k v f. ground (arith, slot-replicate n j);
        counted = sym (occupied-replicate n);
        below = omega arith;
        roomy = rw length-replicate (load_capacity_le n);
      },
      refl,
      c,
      find_value-replicate n,
    )
