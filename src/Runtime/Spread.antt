-- ===== src/Runtime/Spread.antt =====
-- runtime/c_rt/src/balmap.c: `map_spread_field_init`, as it is written.
use nballerina_cpp.Base.{
  ℕ, zero, suc, ◌+◌, ◌≤◌, ◌<◌, ◌≡◌, refl, ap, ◌∙◌, none, some, List, [], ◌∷◌, arith,
}
use nballerina_cpp.Run.{map_shrinking, ok, fault}
use nballerina_cpp.Runtime.Table.{
  BalString, BalValue, BalHashEntry, BalMap, slot, insert_all, grow_hashtable, bal_map_insert, take,
  map_spread_field_init,
}
use nballerina_cpp.Runtime.View.{
  find_value, occupied, IsDistinct, last_value, or_value, last_value-find_value,
}
use nballerina_cpp.Runtime.Insert.{IsValid, view, IsReachable-IsDistinct}
use nballerina_cpp.Runtime.Size.{max_capacity}
use nballerina_cpp.Runtime.Grow.{grow-view, insert-Puts}

insert_all_grows :
    (es : List BalHashEntry) {m : BalMap} (depth : ℕ)
    → IsValid m
    → m.used + occupied es + 2 ≤ max_capacity
    → (m' : BalMap) × (insert_all (bal_map_insert (suc (suc depth))) es m ≡ ok m')
      × IsValid m'
      × ((q : BalString) → view m' q ≡ last_value es q (view m q))
unfolding insert_all last_value occupied
insert_all_grows [] {m} depth valid fits = (m, refl, valid, λ q. refl)
insert_all_grows (none ∷ es) depth valid fits = insert_all_grows es depth valid fits
insert_all_grows (some (k, v) ∷ es) {m} depth valid fits =
    let (m₁, e₁, p₁) = insert-Puts k v depth valid (omega arith) in
    let (m₂, e₂, v₂, r₂) = insert_all_grows es {m = m₁} depth p₁.valid (omega (arith, p₁.grows)) in
    (m₂, rw e₁ e₂, v₂, λ q. r₂ q ∙ ap (last_value es q) (p₁.reads q))

occupied-take : (n : ℕ) (es : List BalHashEntry) → occupied (take n es) ≤ n
unfolding occupied take
occupied-take zero es = omega arith
occupied-take (suc n) [] = omega arith
occupied-take (suc n) (none ∷ es) = omega (arith, occupied-take n es)
occupied-take (suc n) (some p ∷ es) = omega (arith, occupied-take n es)

slot-take :
    (n : ℕ) (es : List BalHashEntry) (i : ℕ) (p : BalString × BalValue)
    → slot (take n es) i ≡ some p
    → slot es i ≡ some p
unfolding slot take
slot-take zero es i p h = cc
slot-take (suc n) [] i p h = cc
slot-take (suc n) (e ∷ es) zero p h = h
slot-take (suc n) (e ∷ es) (suc i) p h = slot-take n es i p h

take-IsDistinct : (n : ℕ) (es : List BalHashEntry) → IsDistinct es → IsDistinct (take n es)
take-IsDistinct n es d i j k v w e f =
    d i j k v w (slot-take n es i (k, v) e) (slot-take n es j (k, w) f)

-- With a source that is not empty the target takes over the entries that stand in the first
-- `src.used` slots of the source's array, and no other entry. The target is valid afterwards.
pub spread-view :
    (target src : BalMap) (depth : ℕ)
    → IsValid target
    → IsValid src
    → 0 < src.used
    → src.used + src.used + target.used + 2 ≤ max_capacity
    → (m : BalMap) × (map_spread_field_init (suc (suc depth)) target src ≡ ok m)
      × IsValid m
      × ((q : BalString)
          → view m q ≡ or_value (find_value (take src.used src.entries) q) (view target q))
unfolding map_spread_field_init
spread-view target src depth valid source some_used fits =
    let (m₁, e₁, v₁, r₁, u₁, c₁) =
      grow-view target (src.used + target.used) (suc depth) valid.reachable valid.counted
        (omega arith) (omega arith) in
    let (m₂, e₂, v₂, r₂) =
      insert_all_grows (take src.used src.entries) {m = m₁} depth v₁
        (omega (arith, occupied-take src.used src.entries)) in
    (
      m₂,
      ground (arith, e₁, e₂),
      v₂,
      λ q.
          r₂ q
          ∙ last_value-find_value (take src.used src.entries) q (view m₁ q) (
              take-IsDistinct src.used src.entries
                (IsReachable-IsDistinct src.entries source.reachable))
          ∙ ap (or_value (find_value (take src.used src.entries) q)) (r₁ q),
    )

-- Spreading an empty map into any map ends the process: the table is asked to grow to the size that is
-- in use already.
pub spread_empty :
    (target src : BalMap) (depth : ℕ)
    → src.used ≡ 0
    → map_spread_field_init depth target src ≡ fault map_shrinking
unfolding map_spread_field_init grow_hashtable
spread_empty target src depth none_used = ground arith
