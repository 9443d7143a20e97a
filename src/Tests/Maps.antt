-- ===== src/Tests/Maps.antt =====
-- The C runtime's map at concrete keys and values.
use nballerina_cpp.Base.{ℕ, ◌≤◌, ◌<◌, ◌≡◌, refl, ◌∙◌, Option, none, some, arith, bytes_eq, codes}
use nballerina_cpp.Run.{map_shrinking, Run, ok, fault, ◌>>=◌}
use nballerina_cpp.Runtime.Table.{
  BalString, BalValue, BalMap, n_entries, bal_string_equals, bal_string_hash, load_capacity,
  table_size, init_hashtable, bal_map_create, slot, write, previous, probe, home, locate,
  bal_map_lookup, insert_all, grow_hashtable, grow_if_full, insert_at, bal_map_insert, take,
  map_spread_field_init,
}
use nballerina_cpp.Runtime.View.{find_value, or_value, occupied_pos}
use nballerina_cpp.Runtime.Insert.{IsValid, view, lookup-view, Puts}
use nballerina_cpp.Runtime.Grow.{create-IsValid, grow-view, insert-Puts}
use nballerina_cpp.Runtime.Spread.{spread-view, spread_empty}

abbrev key_a : BalString
key_a = codes "a"

abbrev key_b : BalString
key_b = codes "b"

program : Unit {0}
unfolding bal_map_create init_hashtable table_size load_capacity bal_map_insert locate home
    bal_string_hash bal_string_equals bytes_eq probe slot write previous insert_at grow_if_full
    grow_hashtable insert_all bal_map_lookup map_spread_field_init take
program = tt

-- Nine insertions grow the first table of 16 slots, and every value is found afterwards.
abbrev session : Run (Option BalValue × Option BalValue × ℕ)
session = do
  m₀ ← bal_map_create
  m₁ ← bal_map_insert 2 m₀ (codes "k1") 1
  m₂ ← bal_map_insert 2 m₁ (codes "k2") 2
  m₃ ← bal_map_insert 2 m₂ (codes "k3") 3
  m₄ ← bal_map_insert 2 m₃ (codes "k4") 4
  m₅ ← bal_map_insert 2 m₄ (codes "k5") 5
  m₆ ← bal_map_insert 2 m₅ (codes "k6") 6
  m₇ ← bal_map_insert 2 m₆ (codes "k7") 7
  m₈ ← bal_map_insert 2 m₇ (codes "k8") 8
  m₉ ← bal_map_insert 2 m₈ (codes "k9") 9
  first ← bal_map_lookup m₉ (codes "k1")
  last ← bal_map_lookup m₉ (codes "k10")
  ok (first, last, n_entries m₉)

session_grows : session ≡ ok (some 1, none, 32)
unfolding program
session_grows = refl

-- Spreading a map with one entry into an empty one loses the entry.
abbrev spread_session : Run (Option BalValue × Option BalValue)
spread_session = do
  target ← bal_map_create
  empty ← bal_map_create
  src ← bal_map_insert 2 empty key_a 7
  merged ← map_spread_field_init 2 target src
  before ← bal_map_lookup src key_a
  after ← bal_map_lookup merged key_a
  ok (before, after)

spread_session_loses : spread_session ≡ ok (some 7, none)
unfolding program
spread_session_loses = refl

abbrev created : BalMap
created = create-IsValid.0

insert-Puts_example :
    (m' : BalMap) × (bal_map_insert 2 created key_a 7 ≡ ok m') × Puts created key_a 7 m'
insert-Puts_example =
    insert-Puts {m = created} key_a 7 0 create-IsValid.2 (omega (arith, create-IsValid.3))

abbrev one_entry : BalMap
one_entry =
    (insert-Puts {m = created} key_a 7 0 create-IsValid.2 (omega (arith, create-IsValid.3))).0

one_entry-Puts : Puts created key_a 7 one_entry
one_entry-Puts =
    (insert-Puts {m = created} key_a 7 0 create-IsValid.2 (omega (arith, create-IsValid.3))).2

lookup-view_example : bal_map_lookup one_entry key_a ≡ ok (view one_entry key_a)
lookup-view_example = lookup-view {m = one_entry} one_entry-Puts.valid key_a

one_entry_pos : 0 < one_entry.used
unfolding view bal_string_equals bytes_eq
one_entry_pos =
    rw one_entry-Puts.valid.counted
      (occupied_pos one_entry.entries key_a 7 (one_entry-Puts.reads key_a ∙ refl))

spread-view_example :
    (m : BalMap) × (map_spread_field_init 2 created one_entry ≡ ok m)
    × IsValid m
    × ((q : BalString)
        → view m q
          ≡ or_value (find_value (take one_entry.used one_entry.entries) q) (view created q))
spread-view_example =
    spread-view created one_entry 0 create-IsValid.2 one_entry-Puts.valid one_entry_pos
      (omega (arith, one_entry-Puts.grows, create-IsValid.3))

spread_empty_example : map_spread_field_init 2 one_entry created ≡ fault map_shrinking
spread_empty_example = spread_empty one_entry created 2 create-IsValid.3

grow-view_example :
    (m' : BalMap) × (grow_hashtable (bal_map_insert 1) one_entry 100 ≡ ok m')
    × IsValid m'
    × ((q : BalString) → view m' q ≡ view one_entry q)
    × (m'.used ≤ one_entry.used)
    × (100 ≤ m'.capacity)
grow-view_example =
    grow-view one_entry 100 0 one_entry-Puts.valid.reachable one_entry-Puts.valid.counted
      (omega (arith, one_entry-Puts.grows, create-IsValid.3)) (omega arith)
