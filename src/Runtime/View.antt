-- ===== src/Runtime/View.antt =====
-- The abstract view of a table, which knows nothing of hashes, and how it follows the array.
use nballerina_cpp.Base.{
  ℕ, zero, suc, ◌<◌, ◌≡◌, refl, ap, subst, ◌≢◌, ◌⊎◌, inl, inr, false, Option, none, some, List, [],
  ◌∷◌, arith, if◌then◌else◌, Bool-cases, length, replicate,
}
use nballerina_cpp.Runtime.Table.{BalString, BalValue, BalHashEntry, bal_string_equals, slot, write}
use nballerina_cpp.Runtime.Probe.{equals_sound, equals_refl}

pub slot_value-cases : (o : Option BalValue) → (o ≡ none) ⊎ ((v : BalValue) × (o ≡ some v))
slot_value-cases none = inl refl
slot_value-cases (some v) = inr (v, refl)

-- The value of the first slot with the key.
unfoldable pub find_value : List BalHashEntry → BalString → Option BalValue
find_value [] q = none
find_value (none ∷ es) q = find_value es q
find_value (some (k, v) ∷ es) q = if bal_string_equals q k then some v else find_value es q

-- The slots that hold a key.
unfoldable pub occupied : List BalHashEntry → ℕ
occupied [] = 0
occupied (none ∷ es) = occupied es
occupied (some p ∷ es) = suc (occupied es)

-- No key stands in two slots.
abbrev pub IsDistinct : List BalHashEntry → Type 0
IsDistinct es =
    (i j : ℕ) (k : BalString) (v w : BalValue)
    → slot es i ≡ some (k, v)
    → slot es j ≡ some (k, w)
    → i ≡ j

pub occupied-write_vacant :
    (es : List BalHashEntry) (i : ℕ) (p : BalString × BalValue)
    → i < length es
    → slot es i ≡ none
    → occupied (write es i (some p)) ≡ suc (occupied es)
unfolding occupied slot write
occupied-write_vacant [] i p h e = absurd (omega arith)
occupied-write_vacant (none ∷ es) zero p h e = refl
occupied-write_vacant (some o ∷ es) zero p h e = cc
occupied-write_vacant (none ∷ es) (suc i) p h e = occupied-write_vacant es i p (omega arith) e
occupied-write_vacant (some o ∷ es) (suc i) p h e =
    ap suc (occupied-write_vacant es i p (omega arith) e)

pub occupied-overwrite :
    (es : List BalHashEntry) (i : ℕ) (o p : BalString × BalValue)
    → slot es i ≡ some o
    → occupied (write es i (some p)) ≡ occupied es
unfolding occupied slot write
occupied-overwrite [] i o p e = refl
occupied-overwrite (none ∷ es) zero o p e = cc
occupied-overwrite (some x ∷ es) zero o p e = refl
occupied-overwrite (none ∷ es) (suc i) o p e = occupied-overwrite es i o p e
occupied-overwrite (some x ∷ es) (suc i) o p e = ap suc (occupied-overwrite es i o p e)

-- Fewer keys than slots leave one empty.
pub empty_slot :
    (es : List BalHashEntry)
    → occupied es < length es
    → (i : ℕ) × (i < length es) × (slot es i ≡ none)
unfolding occupied slot
empty_slot [] h = absurd (omega arith)
empty_slot (none ∷ es) h = (0, omega arith, refl)
empty_slot (some p ∷ es) h = let (i, l, e) = empty_slot es (omega arith) in (suc i, omega arith, e)

pub occupied-replicate : (n : ℕ) → occupied (replicate n none) ≡ 0
unfolding occupied
occupied-replicate zero = refl
occupied-replicate (suc n) = occupied-replicate n

pub slot-replicate : (n i : ℕ) → slot (replicate n none) i ≡ none
unfolding slot
slot-replicate zero i = refl
slot-replicate (suc n) zero = refl
slot-replicate (suc n) (suc i) = slot-replicate n i

pub find_value-replicate : (n : ℕ) (q : BalString) → find_value (replicate n none) q ≡ none
unfolding find_value
find_value-replicate zero q = refl
find_value-replicate (suc n) q = find_value-replicate n q

pub find_value-some :
    (es : List BalHashEntry) (q : BalString) (v : BalValue)
    → find_value es q ≡ some v
    → (j : ℕ) × (slot es j ≡ some (q, v))
unfolding find_value slot
find_value-some [] q v h = cc
find_value-some (none ∷ es) q v h = let (j, e) = find_value-some es q v h in (suc j, e)
find_value-some (some (k, w) ∷ es) q v h = elim (Bool-cases (bal_string_equals q k)) [
  | inl t ↦ (0, ground (arith, equals_sound q k))
  | inr f ↦ let (j, e) = find_value-some es q v (ground arith) in (suc j, e)
]

pub find_value-none :
    (es : List BalHashEntry) (q : BalString)
    → find_value es q ≡ none
    → (j : ℕ) (v : BalValue) → slot es j ≢ some (q, v)
unfolding find_value slot
find_value-none [] q h j v e = cc
find_value-none (none ∷ es) q h zero v e = cc
find_value-none (none ∷ es) q h (suc j) v e = find_value-none es q h j v e
find_value-none (some (k, w) ∷ es) q h zero v e = ground (arith, equals_refl q)
find_value-none (some (k, w) ∷ es) q h (suc j) v e = find_value-none es q (ground arith) j v e

-- The key of a slot finds the slot's value, if no other slot has the key.
pub find_value-slot :
    (es : List BalHashEntry) (q : BalString) (j : ℕ) (v : BalValue)
    → IsDistinct es
    → slot es j ≡ some (q, v)
    → find_value es q ≡ some v
find_value-slot es q j v d e = go (find_value es q) refl
  where
    go : (o : Option BalValue) → find_value es q ≡ o → find_value es q ≡ some v
    go none h = absurd (find_value-none es q h j v e)
    go (some w) h =
        let (i, f) = find_value-some es q w h in
        let same : i ≡ j = d i j q w v f e in
        let f' : slot es j ≡ some (q, w) = subst (λ x. slot es x ≡ some (q, w)) same f in
        ground arith

pub find_value-write_vacant :
    (es : List BalHashEntry) (i : ℕ) (k : BalString) (v : BalValue) (q : BalString)
    → i < length es
    → slot es i ≡ none
    → find_value es k ≡ none
    → find_value (write es i (some (k, v))) q
      ≡ (if bal_string_equals q k then some v else find_value es q)
unfolding find_value slot write
find_value-write_vacant [] i k v q l e n = absurd (omega arith)
find_value-write_vacant (none ∷ es) zero k v q l e n = refl
find_value-write_vacant (some o ∷ es) zero k v q l e n = cc
find_value-write_vacant (none ∷ es) (suc i) k v q l e n =
    find_value-write_vacant es i k v q (omega arith) e n
find_value-write_vacant (some (j, w) ∷ es) (suc i) k v q l e n =
    ground
      (arith, find_value-write_vacant es i k v q, equals_sound q k, equals_sound q j, equals_refl k)

pub IsDistinct-tail :
    (x : BalHashEntry) (es : List BalHashEntry) → IsDistinct (x ∷ es) → IsDistinct es
unfolding slot
IsDistinct-tail x es d i j k v w e f =
    let same : suc i ≡ suc j = d (suc i) (suc j) k v w e f in omega arith

pub IsDistinct-head :
    (j : BalString) (u : BalValue) (es : List BalHashEntry)
    → IsDistinct (some (j, u) ∷ es)
    → (i : ℕ) (k : BalString) (w : BalValue) → slot es i ≡ some (k, w)
    → bal_string_equals k j ≡ false
unfolding slot
IsDistinct-head j u es d i k w e = elim (Bool-cases (bal_string_equals k j)) [
  | inl t ↦
      let same : 0 ≡ suc i = d 0 (suc i) k u w (ground (arith, equals_sound k j)) e in
      absurd (omega arith)
  | inr f ↦ f
]

pub find_value-overwrite :
    (es : List BalHashEntry) (i : ℕ) (k : BalString) (v w : BalValue) (q : BalString)
    → IsDistinct es
    → slot es i ≡ some (k, w)
    → find_value (write es i (some (k, v))) q
      ≡ (if bal_string_equals q k then some v else find_value es q)
unfolding find_value slot write
find_value-overwrite [] i k v w q d e = cc
find_value-overwrite (none ∷ es) zero k v w q d e = cc
find_value-overwrite (some (j, u) ∷ es) zero k v w q d e = ground arith
find_value-overwrite (none ∷ es) (suc i) k v w q d e =
    find_value-overwrite es i k v w q (IsDistinct-tail none es d) e
find_value-overwrite (some (j, u) ∷ es) (suc i) k v w q d e = ground (
  arith,
  find_value-overwrite es i k v w q (IsDistinct-tail _ es d) e,
  IsDistinct-head j u es d i k w e,
  equals_sound q k,
  equals_sound q j,
)

-- The value that the last write to the key leaves, when the slots are written in their order over `old`.
unfoldable pub last_value : List BalHashEntry → BalString → Option BalValue → Option BalValue
last_value [] q old = old
last_value (none ∷ es) q old = last_value es q old
last_value (some (k, v) ∷ es) q old =
    last_value es q (if bal_string_equals q k then some v else old)

pub or_value : Option BalValue → Option BalValue → Option BalValue
or_value none old = old
or_value (some v) old = some v

pub or_value-none : (o : Option BalValue) → or_value o none ≡ o
unfolding or_value
or_value-none none = refl
or_value-none (some v) = refl

pub last_value-find_value :
    (es : List BalHashEntry) (q : BalString) (old : Option BalValue)
    → IsDistinct es
    → last_value es q old ≡ or_value (find_value es q) old
unfolding last_value find_value or_value
last_value-find_value [] q old d = refl
last_value-find_value (none ∷ es) q old d =
    last_value-find_value es q old (IsDistinct-tail none es d)
last_value-find_value (some (k, v) ∷ es) q old d = elim (slot_value-cases (find_value es q)) [
  | inl n ↦ ground (
    arith,
    last_value-find_value es q (if bal_string_equals q k then some v else old)
        (IsDistinct-tail _ es d),
  )
  | inr (u, f) ↦
      let (i, e) = find_value-some es q u f in
      ground (
        arith,
        last_value-find_value es q (if bal_string_equals q k then some v else old)
            (IsDistinct-tail _ es d),
        IsDistinct-head k v es d i q u e,
      )
]

pub occupied_pos :
    (es : List BalHashEntry) (q : BalString) (v : BalValue)
    → find_value es q ≡ some v
    → 0 < occupied es
unfolding occupied find_value
occupied_pos [] q v h = cc
occupied_pos (none ∷ es) q v h = occupied_pos es q v h
occupied_pos (some p ∷ es) q v h = omega arith
