-- ===== src/Reader/Pool/Queries.antt =====
-- compiler/reader/ConstantPool.cpp: when the queries of the pool succeed, and what they return.
use nballerina_cpp.Base.{
  ℕ, ◌<◌, ◌≡◌, refl, ap, ◌∙◌, ◌↔◌, Option, none, some, List, arith, get_elem?, ℤ, pos, negsuc,
}
use nballerina_cpp.Run.{Run, ok, fault, ◌>>=◌}
use nballerina_cpp.Reader.Pool.Entry.{ConstantPoolEntry, string_cp_info, byte_cp_info}
use nballerina_cpp.Reader.Pool.Set.{ConstantPoolSet}
use nballerina_cpp.Reader.Pool.Lookup.{
  entry_at, get_entry, as_string, as_byte, get_string_cp, get_byte_cp,
}

entry_at_inversion :
    (o : Option ConstantPoolEntry) (e : ConstantPoolEntry) → entry_at o ≡ ok e → o ≡ some e
unfolding entry_at
entry_at_inversion none e h = cc
entry_at_inversion (some f) e h = ground arith

get_entry_inversion :
    (cp : ConstantPoolSet) (index : ℤ) (e : ConstantPoolEntry)
    → get_entry cp index ≡ ok e
    → (n : ℕ) × (index ≡ pos n) × (get_elem? cp n ≡ some e)
unfolding get_entry
get_entry_inversion cp (pos n) e h = (n, refl, entry_at_inversion (get_elem? cp n) e h)
get_entry_inversion cp (negsuc n) e h = cc

bind_inversion :
    {A B : Type 0} (r : Run A) (f : A → Run B) (b : B)
    → r >>= f ≡ ok b
    → (a : A) × (r ≡ ok a) × (f a ≡ ok b)
bind_inversion (ok a) f b h = (a, refl, h)
bind_inversion (fault e) f b h = cc

as_string_inversion :
    (e : ConstantPoolEntry) (s : List ℕ) → as_string e ≡ ok s → e ≡ string_cp_info s
unfolding as_string
as_string_inversion (string_cp_info t) s h = ground arith
as_string_inversion _ s h = cc

as_byte_inversion :
    (e : ConstantPoolEntry) (b : ℕ) → as_byte e ≡ ok b → (e ≡ byte_cp_info (pos b)) × (b < 256)
unfolding as_byte
as_byte_inversion (byte_cp_info (pos n)) b h = ground arith
as_byte_inversion (byte_cp_info (negsuc n)) b h = cc
as_byte_inversion _ b h = cc

as_byte_small : (b : ℕ) → b < 256 → as_byte (byte_cp_info (pos b)) ≡ ok b
unfolding as_byte
as_byte_small b h = ground arith

-- `getStringCp` returns a string exactly when the index is not negative, lies inside the pool, and
-- the entry there is that string.
pub get_string_cp_iff :
    (cp : ConstantPoolSet) (index : ℤ) (s : List ℕ)
    → (get_string_cp cp index ≡ ok s)
      ↔ ((n : ℕ) × (index ≡ pos n) × (get_elem? cp n ≡ some (string_cp_info s)))
unfolding get_string_cp get_entry as_string entry_at
get_string_cp_iff cp index s = (there, back)
  where
    there :
        get_string_cp cp index ≡ ok s
        → (n : ℕ) × (index ≡ pos n) × (get_elem? cp n ≡ some (string_cp_info s))
    there h =
        let (e, found, text) = bind_inversion (get_entry cp index) as_string s h in
        let (n, at, entry) = get_entry_inversion cp index e found in
        (n, at, entry ∙ ap some (as_string_inversion e s text))

    back :
        (n : ℕ) × (index ≡ pos n) × (get_elem? cp n ≡ some (string_cp_info s))
        → get_string_cp cp index ≡ ok s
    back (n, e, f) = rw (e, f)

-- `getByteCp` returns a number exactly when the index is not negative, lies inside the pool, and the
-- entry there is a byte entry with that number, which is less than 256.
pub get_byte_cp_iff :
    (cp : ConstantPoolSet) (index : ℤ) (b : ℕ)
    → (get_byte_cp cp index ≡ ok b)
      ↔ ((n : ℕ) × (index ≡ pos n) × (get_elem? cp n ≡ some (byte_cp_info (pos b))) × (b < 256))
unfolding get_byte_cp get_entry entry_at
get_byte_cp_iff cp index b = (there, back)
  where
    there :
        get_byte_cp cp index ≡ ok b
        → (n : ℕ) × (index ≡ pos n) × (get_elem? cp n ≡ some (byte_cp_info (pos b))) × (b < 256)
    there h =
        let (e, found, byte) = bind_inversion (get_entry cp index) as_byte b h in
        let (n, at, entry) = get_entry_inversion cp index e found in
        let (same, small) = as_byte_inversion e b byte in (n, at, entry ∙ ap some same, small)

    back :
        (n : ℕ) × (index ≡ pos n) × (get_elem? cp n ≡ some (byte_cp_info (pos b))) × (b < 256)
        → get_byte_cp cp index ≡ ok b
    back (n, e, f, small) = rw (e, f) (as_byte_small b small)
