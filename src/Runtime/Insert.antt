-- ===== src/Runtime/Insert.antt =====
-- runtime/c_rt/src/balmap.c: the invariant of a table, lookups, and insertions that do not grow it.
use nballerina_cpp.Base.{
  ℕ, zero, suc, ◌+◌, ◌-◌, ◌/◌, ◌≤◌, ◌<◌, ◌≡◌, refl, ◌≢◌, ◌⊎◌, inl, inr, Option, none, some, List,
  arith, if◌then◌else◌, length,
}
use Prim.Native.Nat.{bit_and-bitwise, digits, min}
use native.Mathlib.Decide.{ℕ_discrete as dec_eq}
use nballerina_cpp.Run.{ok}
use nballerina_cpp.Runtime.Table.{
  BalString, BalValue, BalHashEntry, BalMap, bal_string_equals, bal_string_hash, slot, write, Stop,
  vacant, matched, cycling, probe, home, locate, bal_map_lookup,
}
use nballerina_cpp.Runtime.Probe.{
  length-write, slot-write, slot-lt, probe_match, probe-write_match, probe-write_vacant,
  probe-overwrite, probe-ne-cycling,
}
use nballerina_cpp.Runtime.View.{
  slot_value-cases, find_value, occupied, IsDistinct, empty_slot, find_value-some, find_value-slot,
}

-- A mask bounds what it is applied to.
masked_le : (fuel a b : ℕ) → digits (λ c. zero) min fuel a b ≤ b
masked_le zero zero b = omega arith
masked_le zero (suc a) b = omega arith
masked_le (suc fuel) zero b = omega arith
masked_le (suc fuel) (suc a) b = omega (arith, masked_le fuel (suc a / 2) (b / 2))

pub home-lt : (n : ℕ) (key : BalString) → 0 < n → home n key < n
unfolding home
home-lt n key h = omega (
  arith,
  bit_and-bitwise (bal_string_hash key) (n - 1),
  masked_le (bal_string_hash key) (bal_string_hash key) (n - 1),
)

-- Every stored key is found where it stands.
abbrev pub IsReachable : List BalHashEntry → Type 0
IsReachable es =
    (j : ℕ) (k : BalString) (v : BalValue)
    → slot es j ≡ some (k, v)
    → probe es k (length es) (home (length es) k) ≡ matched j

-- The comments of `BalMap`: the entries in use are counted, and fewer than the capacity, which the
-- array has room for; and every key can be found.
pub record IsValid (m : BalMap) : Type 0 where
  pub reachable : IsReachable m.entries
  pub counted : m.used ≡ occupied m.entries
  pub below : m.used < m.capacity
  pub roomy : m.capacity ≤ length m.entries

-- What a table means: a finite map from strings to values.
unfoldable pub view : BalMap → BalString → Option BalValue
view m q = find_value m.entries q

pub IsReachable-IsDistinct : (es : List BalHashEntry) → IsReachable es → IsDistinct es
IsReachable-IsDistinct es r i j k v w e f = ground (arith, r i k v e, r j k w f)

module _ (es : List BalHashEntry) (reachable : IsReachable es) (q : BalString) where
  pub vacant-find_value :
      (i : ℕ) → probe es q (length es) (home (length es) q) ≡ vacant i → find_value es q ≡ none
  vacant-find_value i h = elim (slot_value-cases (find_value es q)) [
    | inl n ↦ n
    | inr (v, f) ↦
        let (j, e) = find_value-some es q v f in absurd (ground (arith, reachable j q v e))
  ]

  pub matched-find_value :
      (i : ℕ)
      → probe es q (length es) (home (length es) q) ≡ matched i
      → (v : BalValue) × (slot es i ≡ some (q, v)) × (find_value es q ≡ some v)
  matched-find_value i h =
      let (v, e) = probe_match es q (length es) (home (length es) q) i h in
      (v, e, find_value-slot es q i v (IsReachable-IsDistinct es reachable) e)

pub locate-probe :
    (es : List BalHashEntry) (q : BalString)
    → 0 < length es
    → locate es q ≡ ok (probe es q (length es) (home (length es) q))
unfolding locate
locate-probe es q h = ground (arith, home-lt (length es) q h)

-- The loop of a valid table ends at an empty slot or at the key.
pub Stop-cases : (s : Stop) → s ≢ cycling → ((i : ℕ) × (s ≡ vacant i)) ⊎ ((i : ℕ) × (s ≡ matched i))
Stop-cases (vacant i) h = inl (i, refl)
Stop-cases (matched i) h = inr (i, refl)
Stop-cases cycling h = absurd (h refl)

pub probe_ends :
    (es : List BalHashEntry) (q : BalString)
    → occupied es < length es
    → ((i : ℕ) × (probe es q (length es) (home (length es) q) ≡ vacant i))
      ⊎ ((i : ℕ) × (probe es q (length es) (home (length es) q) ≡ matched i))
probe_ends es q h =
    let (i, l, e) = empty_slot es h in
    Stop-cases _
      (probe-ne-cycling es q (home (length es) q) i (home-lt (length es) q (omega arith)) l e)

-- On a valid table `bal_map_lookup` ends without a failure, and answers as the finite map does.
pub lookup-view : {m : BalMap} → IsValid m → (q : BalString) → bal_map_lookup m q ≡ ok (view m q)
unfolding bal_map_lookup view
lookup-view {m} valid q =
    elim (probe_ends m.entries q (omega (arith, valid.below, valid.roomy, valid.counted))) [
      | inl (i, h) ↦ rw (
        locate-probe m.entries q (omega (arith, valid.below, valid.roomy)),
        h,
        vacant-find_value m.entries valid.reachable q i h,
      )
      | inr (i, h) ↦
          let (v, e, f) = matched-find_value m.entries valid.reachable q i h in
          rw (locate-probe m.entries q (omega (arith, valid.below, valid.roomy)), h, e, f)
    ]

-- The table means the map of `m` with one more or one other entry.
pub record Puts (m : BalMap) (key : BalString) (value : BalValue) (m' : BalMap) : Type 0 where
  pub valid : IsValid m'
  pub reads :
      (q : BalString) → view m' q ≡ (if bal_string_equals q key then some value else view m q)
  pub grows : m'.used ≤ m.used + 1

module _ (es : List BalHashEntry) (reachable : IsReachable es) (key : BalString) (i : ℕ) where
  -- The invariant of the array after an overwrite, and after a write to the empty slot found.
  pub overwrite-IsReachable :
      (old value : BalValue)
      → slot es i ≡ some (key, old)
      → IsReachable (write es i (some (key, value)))
  overwrite-IsReachable old value e j k v f =
      rw (length-write, probe-overwrite es k i key old value e)
        (ground (
          arith,
          slot-lt es i key old e,
          slot-write es i j (some (key, value)),
          reachable j k v,
          reachable i key old e,
        ))

  pub write-IsReachable :
      (value : BalValue)
      → i < length es
      → slot es i ≡ none
      → probe es key (length es) (home (length es) key) ≡ vacant i
      → IsReachable (write es i (some (key, value)))
  write-IsReachable value l e h j k v f = rw length-write (elim (dec_eq i j) [
    | yes same ↦ ground (
      arith,
      slot-write es i j (some (key, value)) l,
      probe-write_vacant es key i value l e (length es) (home (length es) key) h,
    )
    | no other ↦
        probe-write_match es k i (some (key, value)) l e (length es) (home (length es) k) j
          (reachable j k v (ground (arith, slot-write es i j (some (key, value)) l)))
  ])
