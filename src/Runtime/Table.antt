-- ===== src/Runtime/Table.antt =====
-- runtime/c_rt/src/balmap.c and runtime/c_rt/include/common.h: the open-addressing table.
use nballerina_cpp.Base.{
  ℕ, zero, suc, ◌+◌, ◌-◌, ◌*◌, ◌/◌, ◌%◌, ◌^◌, Bool, Option, none, some, List, [], ◌∷◌, ltb, leb,
  ◌==◌, if◌then◌else◌, bytes_eq, length, replicate,
}
use Prim.Native.Nat.{bit_and}
use nballerina_cpp.Run.{
  capacity_overflow, map_shrinking, hashing_failure, endless, too_deep, Run, ok, fault, ◌>>=◌,
}

-- A `BalString` is its bytes: it never changes, and equal pointers have equal bytes.
abbrev pub BalString : Type 0
BalString = List ℕ

-- A `uint64_t`.
abbrev pub BalValue : Type 0
BalValue = ℕ

-- A slot whose key is null is `none`.
abbrev pub BalHashEntry : Type 0
BalHashEntry = Option (BalString × BalValue)

-- `n_entries` is the length of the array.
pub record BalMap : Type 0 where
  pub used : ℕ
  pub capacity : ℕ
  pub entries : List BalHashEntry

abbrev pub n_entries : BalMap → ℕ
n_entries m = length m.entries

unfoldable pub bal_string_equals : BalString → BalString → Bool
bal_string_equals str1 str2 = bytes_eq str1 str2

hash_from : ℕ → BalString → ℕ
hash_from hash [] = hash
hash_from hash (c ∷ cs) = hash_from ((hash * 33 + c % 256) % 2 ^ 64) cs

-- DJB2 on 64 bits.
unfoldable pub bal_string_hash : BalString → ℕ
unfolding hash_from
bal_string_hash s = hash_from 5381 s

-- `(size_t)(n * 0.6f)` at a power of two: `0.6f` is 10066330 / 2^24, and the product is exact.
unfoldable pub load_capacity : ℕ → ℕ
load_capacity n = n * 10066330 / 2 ^ 24

-- The `while` loop of `bal_map_init_hashtable`: `n` is doubled on 64 bits until it is large enough.
unfoldable pub table_size : ℕ → ℕ → ℕ → Run ℕ
table_size zero n min_capacity = fault too_deep
table_size (suc fuel) n min_capacity =
    let doubled = n * 2 % 2 ^ 64 in
    let more = table_size fuel doubled min_capacity in
    if ltb (load_capacity n) min_capacity
    then if doubled == 0 then fault capacity_overflow else more
    else ok n

-- From 8 the doubling overflows in the 61st round. Memory for the table is taken to be there.
unfoldable pub init_hashtable : ℕ → Run BalMap
init_hashtable min_capacity = do
  n ← table_size 62 8 min_capacity
  ok (record { used = 0; capacity = load_capacity n; entries = replicate n none })

unfoldable pub bal_map_create : Run BalMap
unfolding init_hashtable
bal_map_create = init_hashtable 8

-- `entries[i]`, below the length.
unfoldable pub slot : List BalHashEntry → ℕ → BalHashEntry
slot [] i = none
slot (e ∷ es) zero = e
slot (e ∷ es) (suc i) = slot es i

-- A write to `entries[i]`.
unfoldable pub write : List BalHashEntry → ℕ → BalHashEntry → List BalHashEntry
write [] i e = []
write (x ∷ es) zero e = e ∷ es
write (x ∷ es) (suc i) e = x ∷ write es i e

-- The slot before, around the start of the array.
unfoldable pub previous : ℕ → ℕ → ℕ
previous n zero = n - 1
previous n (suc i) = i

-- Where the `for (;;)` loops of insert and lookup stop: at an empty slot, or at the key's. After
-- `n_entries` rounds every slot has been seen, and the loop goes round for ever.
pub data Stop : Type 0 where
  vacant : ℕ → Stop
  matched : ℕ → Stop
  cycling : Stop

unfoldable pub probe : List BalHashEntry → BalString → ℕ → ℕ → Stop
probe es key zero i = cycling
probe es key (suc rounds) i =
    let next = probe es key rounds (previous (length es) i) in
    elim (slot es i) [
      | none ↦ vacant i
      | some (k, v) ↦ if bal_string_equals key k then matched i else next
    ]

-- `hash & (n_entries - 1)`
unfoldable pub home : ℕ → BalString → ℕ
home n key = bit_and (bal_string_hash key) (n - 1)

-- The common head of insert and lookup, with its guard.
unfoldable pub locate : List BalHashEntry → BalString → Run Stop
unfolding home
locate es key =
    if leb (length es) (home (length es) key)
    then fault hashing_failure
    else ok (probe es key (length es) (home (length es) key))

value_at : BalHashEntry → Run (Option BalValue)
value_at none = ok none
value_at (some (k, v)) = ok (some v)

-- The result `false` is `none`; `true` with a value in `outValue` is that value.
lookup_at : List BalHashEntry → Stop → Run (Option BalValue)
unfolding value_at
lookup_at es (vacant i) = ok none
lookup_at es (matched i) = value_at (slot es i)
lookup_at es cycling = fault endless

unfoldable pub bal_map_lookup : BalMap → BalString → Run (Option BalValue)
unfolding lookup_at
bal_map_lookup m key = locate m.entries key >>= lookup_at m.entries

-- `bal_map_insert` as the type of what `bal_map_grow_hashtable` calls.
abbrev pub Insert : Type 0
Insert = BalMap → BalString → BalValue → Run BalMap

-- The loop over the entries that copies what is stored.
unfoldable pub insert_all : Insert → List BalHashEntry → BalMap → Run BalMap
insert_all insert [] m = ok m
insert_all insert (none ∷ es) m = insert_all insert es m
insert_all insert (some (k, v) ∷ es) m = insert m k v >>= insert_all insert es

unfoldable pub grow_hashtable : Insert → BalMap → ℕ → Run BalMap
grow_hashtable insert m new_size =
    if leb new_size m.used
    then fault map_shrinking
    else (init_hashtable new_size >>= insert_all insert m.entries)

-- The end of an insertion at an empty slot.
unfoldable pub grow_if_full : Insert → BalMap → Run BalMap
grow_if_full insert m = if leb m.capacity m.used then grow_hashtable insert m (m.used + 1) else ok m

unfoldable pub insert_at : Insert → BalMap → BalString → BalValue → Stop → Run BalMap
unfolding grow_if_full
insert_at insert m key value (matched i) =
    ok (record m { entries = write m.entries i (some (key, value)) })
insert_at insert m key value (vacant i) =
    grow_if_full insert
      (record m { used = m.used + 1; entries = write m.entries i (some (key, value)) })
insert_at insert m key value cycling = fault endless

-- `bal_map_insert`, which may grow the table, which inserts; the number bounds how deep.
unfoldable pub bal_map_insert : ℕ → Insert
unfolding insert_at
bal_map_insert zero m key value = fault too_deep
bal_map_insert (suc depth) m key value =
    locate m.entries key >>= insert_at (bal_map_insert depth) m key value

-- The first entries of an array.
unfoldable pub take : ℕ → List BalHashEntry → List BalHashEntry
take zero es = []
take (suc n) [] = []
take (suc n) (e ∷ es) = e ∷ take n es

-- `map_spread_field_init` on two maps that are not the same object. The loop runs over the first
-- `srcUsed` slots of the source.
unfoldable pub map_spread_field_init : ℕ → BalMap → BalMap → Run BalMap
unfolding take
map_spread_field_init depth target src =
    if ltb (2 ^ 64 - 1 - target.used) src.used
    then fault capacity_overflow
    else (grow_hashtable (bal_map_insert depth) target (src.used + target.used)
        >>= insert_all (bal_map_insert depth) (take src.used src.entries))
