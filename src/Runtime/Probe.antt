-- ===== src/Runtime/Probe.antt =====
-- runtime/c_rt/src/balmap.c: what the probing loop finds, and how writes to the array change it.
use nballerina_cpp.Base.{
  ℕ, zero, suc, ◌+◌, ◌-◌, ◌≤◌, ◌<◌, ◌≡◌, refl, ap, ◌≢◌, ◌⊎◌, inl, inr, true, none, some, List, [],
  ◌∷◌, arith, ◌==◌, if◌then◌else◌, bytes_eq_sound, bytes_eq_refl, Bool-cases, length,
}
use native.Mathlib.Decide.{dec_lt}
use nballerina_cpp.Runtime.Table.{
  BalString, BalValue, BalHashEntry, bal_string_equals, slot, write, previous, vacant, matched,
  cycling, probe,
}

pub equals_sound : (a b : BalString) → bal_string_equals a b ≡ true → a ≡ b
unfolding bal_string_equals
equals_sound a b h = bytes_eq_sound a b h

pub equals_refl : (a : BalString) → bal_string_equals a a ≡ true
unfolding bal_string_equals
equals_refl a = bytes_eq_refl a

pub length-write :
    (es : List BalHashEntry) (i : ℕ) (e : BalHashEntry) → length (write es i e) ≡ length es
unfolding write
length-write [] i e = refl
length-write (x ∷ es) zero e = refl
length-write (x ∷ es) (suc i) e = ap suc (length-write es i e)

pub slot-write :
    (es : List BalHashEntry) (i j : ℕ) (e : BalHashEntry)
    → i < length es
    → slot (write es i e) j ≡ (if i == j then e else slot es j)
unfolding slot write
slot-write [] i j e h = absurd (omega arith)
slot-write (x ∷ es) zero zero e h = refl
slot-write (x ∷ es) zero (suc j) e h = ground arith
slot-write (x ∷ es) (suc i) zero e h = ground arith
slot-write (x ∷ es) (suc i) (suc j) e h = ground (arith, slot-write es i j e)

pub slot-lt :
    (es : List BalHashEntry) (i : ℕ) (k : BalString) (v : BalValue)
    → slot es i ≡ some (k, v)
    → i < length es
unfolding slot
slot-lt [] i k v h = cc
slot-lt (x ∷ es) zero k v h = omega arith
slot-lt (x ∷ es) (suc i) k v h = omega (arith, slot-lt es i k v h)

pub slot-cases : (e : BalHashEntry) → (e ≡ none) ⊎ ((p : BalString × BalValue) × (e ≡ some p))
slot-cases none = inl refl
slot-cases (some p) = inr (p, refl)

module _ (es : List BalHashEntry) (q : BalString) where
  pub probe_match :
      (rounds a j : ℕ)
      → probe es q rounds a ≡ matched j
      → (v : BalValue) × (slot es j ≡ some (q, v))
  unfolding probe
  probe_match zero a j h = cc
  probe_match (suc rounds) a j h = elim (slot-cases (slot es a)) [
    | inl e ↦ absurd (ground arith)
    | inr ((k, v), e) ↦ elim (Bool-cases (bal_string_equals q k)) [
      | inl t ↦ (v, ground (arith, equals_sound q k))
      | inr f ↦ probe_match rounds (previous (length es) a) j (ground arith)
    ]
  ]

  pub probe_vacant :
      (rounds a j : ℕ)
      → a < length es
      → probe es q rounds a ≡ vacant j
      → (slot es j ≡ none) × (j < length es)
  unfolding probe previous
  probe_vacant zero a j l h = cc
  probe_vacant (suc rounds) zero j l h = ground (arith, probe_vacant rounds (length es - 1) j)
  probe_vacant (suc rounds) (suc a) j l h = ground (arith, probe_vacant rounds a j)

  -- A write to a slot that was empty is not on the way to a key that is found.
  pub probe-write_match :
      (i : ℕ) (e : BalHashEntry)
      → i < length es
      → slot es i ≡ none
      → (rounds a j : ℕ) → probe es q rounds a ≡ matched j
      → probe (write es i e) q rounds a ≡ matched j
  unfolding probe
  probe-write_match i e l n zero a j h = cc
  probe-write_match i e l n (suc rounds) a j h = ground (
    arith,
    slot-write es i a e,
    length-write es i e,
    probe-write_match i e l n rounds (previous (length es) a) j,
  )

  pub probe-write_vacant :
      (i : ℕ) (v : BalValue)
      → i < length es
      → slot es i ≡ none
      → (rounds a : ℕ) → probe es q rounds a ≡ vacant i
      → probe (write es i (some (q, v))) q rounds a ≡ matched i
  unfolding probe
  probe-write_vacant i v l n zero a h = cc
  probe-write_vacant i v l n (suc rounds) a h = ground (
    arith,
    equals_refl q,
    slot-write es i a (some (q, v)),
    length-write es i (some (q, v)),
    probe-write_vacant i v l n rounds (previous (length es) a),
  )

  -- An overwritten value changes no probe.
  pub probe-overwrite :
      (i : ℕ) (k : BalString) (v w : BalValue)
      → slot es i ≡ some (k, v)
      → (rounds a : ℕ) → probe (write es i (some (k, w))) q rounds a ≡ probe es q rounds a
  unfolding probe
  probe-overwrite i k v w n zero a = refl
  probe-overwrite i k v w n (suc rounds) a = ground (
    arith,
    slot-lt es i k v n,
    slot-write es i a (some (k, w)),
    length-write es i (some (k, w)),
    probe-overwrite i k v w n rounds (previous (length es) a),
  )

  -- A probe that goes round for ever has passed every slot down from where it started.
  probe_cycling :
      (rounds a i : ℕ) → probe es q rounds a ≡ cycling → i ≤ a → a < i + rounds → slot es i ≢ none
  unfolding probe previous
  probe_cycling zero a i h p r = absurd (omega arith)
  probe_cycling (suc rounds) zero i h p r = ground arith
  probe_cycling (suc rounds) (suc a) i h p r = ground (arith, probe_cycling rounds a i)

  probe_wraps :
      (rounds a left : ℕ)
      → rounds ≡ a + left + 1
      → probe es q rounds a ≡ cycling
      → probe es q left (length es - 1) ≡ cycling
  unfolding probe previous
  probe_wraps zero a left r h = absurd (omega arith)
  probe_wraps (suc rounds) zero left r h =
      let same : rounds ≡ left = omega arith in rw (← same) (ground arith)
  probe_wraps (suc rounds) (suc a) left r h = ground (arith, probe_wraps rounds a left)

  -- With an empty slot anywhere in the array the loop ends.
  pub probe-ne-cycling :
      (a i : ℕ)
      → a < length es
      → i < length es
      → slot es i ≡ none
      → probe es q (length es) a ≢ cycling
  probe-ne-cycling a i la li e h = elim (dec_lt a i) [
    | yes after ↦
        probe_cycling (length es - a - 1) (length es - 1) i
          (probe_wraps (length es) a (length es - a - 1) (omega arith) h) (omega arith)
          (omega arith) e
    | no before ↦ probe_cycling (length es) a i h (omega arith) (omega arith) e
  ]
