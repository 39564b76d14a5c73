-- ===== src/Database/SolidIndex/Find/Records.antt =====
-- The search for a key in an index that createFixedSolidIndex has written.
use mathlib.Core.Option.{some-injective}
use dbstream.Common.{
  ℕ, zero, suc, ◌+◌, ◌*◌, ◌^◌, ◌≤◌, ◌<◌, ◌≡◌, refl, sym, ap, ◌∙◌, inl, inr, Bool, List, [], ◌∷◌,
  some, arith, ltb, Bool-cases, length, get_elem?, get_or, map, All,
}
use dbstream.Database.KeyChild.{KeyChild}
use dbstream.Database.KeyChild.Ids.{ids}
use dbstream.Database.SolidIndex.{
  SolidIndex, key_words, key_entries, extern_offset, create_fixed_solid_index,
  get_record_id_by_index,
}
use dbstream.Database.SolidIndex.Layout.{IsStorable, IsLaidOut}
use dbstream.Database.SolidIndex.Decode.{create_fixed_solid_index-roundtrip}
use dbstream.Database.SolidIndex.Find.{keys_of, find, find_records}
use dbstream.Database.SolidIndex.Find.Search.{
  IsAscending, IsPlace, answer, found-IsPlace, found-answer, find-IsPlace,
}

key_entries-keys :
    (offset : ℕ) (keys : List (ℕ × KeyChild))
    → map (λ e. e.0) (key_entries offset keys).0 ≡ map (λ e. e.0) keys
unfolding key_entries
key_entries-keys offset [] = refl
key_entries-keys offset ((k, c) ∷ keys) =
    ap (◌∷◌ k) (key_entries-keys (offset + 4 * length (key_words offset c).1) keys)

keys_of-create :
    (key_size : ℕ) (keys : List (ℕ × KeyChild))
    → keys_of (create_fixed_solid_index key_size keys) ≡ map (λ e. e.0) keys
unfolding create_fixed_solid_index
keys_of-create key_size keys = key_entries-keys (extern_offset key_size (length keys)) keys

key_at :
    (keys : List (ℕ × KeyChild)) (i k : ℕ) (c : KeyChild)
    → get_elem? keys i ≡ some (k, c)
    → (i < length (map (λ e. e.0) keys)) × (get_or (map (λ e. e.0) keys) i 0 ≡ k)
key_at [] i k c e = absurd (cc)
key_at ((l, d) ∷ keys) zero k c e = (omega arith, ap (λ y. y.0) (some-injective (l, d) (k, c) e))
key_at ((l, d) ∷ keys) (suc i) k c e = let (h, f) = key_at keys i k c e in (omega arith, f)

IsPlace-unique : (keys : List ℕ) (d i j : ℕ) → IsPlace keys d i → IsPlace keys d j → i ≤ j
IsPlace-unique keys d i j p q = elim (Bool-cases (ltb j i)) [
  | inr not_less ↦ ground (arith, not_less)
  | inl less ↦
      let before = p.before j (ground (arith, less)) in
      absurd (omega (arith, q.behind j (omega arith) (ground (arith, less, p.within)), before))
]

find-found :
    (x : SolidIndex) (i d : ℕ) (exact : Bool)
    → IsAscending (keys_of x)
    → i < length (keys_of x)
    → get_or (keys_of x) i 0 ≡ d
    → find x d exact ≡ some i
find-found x i d exact a h e =
    let (j, p, f) = find-IsPlace x d exact a in
    let q = found-IsPlace (keys_of x) d i a h e in
    let same : j ≡ i =
      omega (arith, IsPlace-unique (keys_of x) d i j q p, IsPlace-unique (keys_of x) d j i p q) in
    f ∙ ap (answer exact (keys_of x) d) same ∙ sym (found-answer exact (keys_of x) d i h e)

find_records-lem :
    (x : SolidIndex) (d i : ℕ) (exact : Bool)
    → find x d exact ≡ some i
    → find_records x d exact ≡ get_record_id_by_index x i
unfolding find_records
find_records-lem x d i exact e = rw (find_records, e) refl

-- For keys that ascend, in an index as create_fixed_solid_index-roundtrip asks for, a search for a key
-- of it finds the records of that key, all of them in order, with the flag or without.
pub find_records-ids :
    (key_size : ℕ) (keys : List (ℕ × KeyChild)) (i k : ℕ) (c : KeyChild) (exact : Bool)
    → All (λ e. IsStorable e.1) keys
    → IsAscending (map (λ e. e.0) keys)
    → extern_offset key_size (length keys)
        + 4 * length (create_fixed_solid_index key_size keys).extern_words
      < 2 ^ 24
    → get_elem? keys i ≡ some (k, c)
    → IsLaidOut key_size keys i k c (create_fixed_solid_index key_size keys)
      × (find (create_fixed_solid_index key_size keys) k exact ≡ some i)
      × (find_records (create_fixed_solid_index key_size keys) k exact ≡ some (ids c))
find_records-ids key_size keys i k c exact v a h g =
    let x = create_fixed_solid_index key_size keys in
    let e = keys_of-create key_size keys in
    let (inside, at) = key_at keys i k c g in
    let found : find x k exact ≡ some i = find-found x i k exact (rw e a) (rw e inside) (rw e at) in
    let (layout, reading) = create_fixed_solid_index-roundtrip key_size keys i k c v h g in
    (layout, found, find_records-lem x k i exact found ∙ reading)
