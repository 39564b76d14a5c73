-- ===== src/Database/SolidIndex/Layout.antt =====
-- Where createFixedSolidIndex of database/appendingIndex.h puts the words of a key, in the bytes of
-- the index: the packed head of solidIndex.h has 12 of them.
use mathlib.Core.Option.{some-injective}
use dbstream.Common.{
  ℕ, zero, suc, ◌+◌, ◌*◌, ◌%◌, ◌^◌, ◌≤◌, ◌<◌, ◌≡◌, refl, ap, ◌∙◌, ◌⊎◌, inl, inr, List, [], ◌∷◌,
  some, arith, ltb, ◌==◌, Bool-cases, if◌then◌else◌, length, length-append, get_elem?, get_or, All,
}
use dbstream.Database.KeyChild.{KeyChild}
use dbstream.Database.KeyChild.Ids.{IsValid, length-take}
use dbstream.Database.SolidIndex.{
  SolidIndex, key_words, key_entries, extern_offset, create_fixed_solid_index,
}
use dbstream.Database.SolidIndex.Word.{bit_or_parts}

-- A key with records, whose number fits in the place of an offset if it is the only one.
pub record IsStorable (c : KeyChild) : Type 0 where
  pub valid : IsValid c
  pub has_records : 0 < c.count
  pub fits : c.count ≡ 1 → get_or c.sub_array 0 0 < 2 ^ 24

-- How many words a key has in the second part: none for one record, one for each of less than 127
-- records, and one more, for their number, from 127 on.
abbrev pub extern_count : KeyChild → ℕ
extern_count c = if c.count == 1 then 0 else if ltb c.count 127 then c.count else c.count + 1

-- The words of the first keys.
abbrev pub words_before : List (ℕ × KeyChild) → ℕ → ℕ
words_before keys zero = 0
words_before [] (suc i) = 0
words_before ((k, c) ∷ keys) (suc i) = extern_count c + words_before keys i

-- The word of a key whose own words begin at `offset`.
abbrev pub WordOf : ℕ → KeyChild → ℕ → Type 0
WordOf offset c w =
    ((c.count ≡ 1) × (w ≡ get_or c.sub_array 0 0))
    ⊎ ((2 ≤ c.count) × (c.count < 127) × (w ≡ c.count * 2 ^ 24 + offset))
    ⊎ ((127 ≤ c.count) × (w ≡ 128 * 2 ^ 24 + offset))

-- The place of a key `i` in an index, and the index's size. The second part begins behind the 12 bytes
-- of the head and the places of the keys and of one more, in bytes from the head.
abbrev pub IsLaidOut : ℕ → List (ℕ × KeyChild) → ℕ → ℕ → KeyChild → SolidIndex → Type 0
IsLaidOut key_size keys i k c x =
    (w : ℕ) × (get_elem? x.entries i ≡ some (k, w))
    × WordOf (12 + (key_size + 4) * (length keys + 1) + 4 * words_before keys i) c w
    × (x.size ≡ 12 + (key_size + 4) * (length keys + 1) + 4 * words_before keys (length keys))

key_words-WordOf :
    (offset : ℕ) (c : KeyChild)
    → 0 < c.count
    → offset < 2 ^ 24
    → WordOf offset c (key_words offset c).0
unfolding key_words
key_words-WordOf offset c some_record h = elim (Bool-cases (c.count == 1)) [
  | inl one ↦ rw one (inl (ground (arith, one), refl))
  | inr more ↦ elim (Bool-cases (ltb c.count 127)) [
    | inl short ↦
        let n : c.count * 2 ^ 24 % 2 ^ 32 ≡ c.count * 2 ^ 24 = ground (arith, short) in
        let w = bit_or_parts c.count offset (ground (arith, short)) h in
        rw (more, short, n, w) (inr (inl (ground arith, ground arith, refl)))
    | inr long ↦
        rw (more, long, bit_or_parts 128 offset (omega arith) h) (inr (inr (ground arith, refl)))
  ]
]

key_words-extern_count :
    (offset : ℕ) (c : KeyChild) → IsValid c → length (key_words offset c).1 ≡ extern_count c
unfolding key_words
key_words-extern_count offset c v =
    let n = length-take c.count c.sub_array (omega (arith, v.sized, v.within)) in
    elim (Bool-cases (c.count == 1)) [
      | inl one ↦ rw one refl
      | inr more ↦ elim (Bool-cases (ltb c.count 127)) [
        | inl short ↦ rw (more, short) n
        | inr long ↦ rw (more, long) (omega (arith, n))
      ]
    ]

key_entries-words_before :
    (offset : ℕ) (keys : List (ℕ × KeyChild))
    → All (λ e. IsStorable e.1) keys
    → length (key_entries offset keys).1 ≡ words_before keys (length keys)
unfolding key_entries
key_entries-words_before offset [] v = refl
key_entries-words_before offset ((k, c) ∷ keys) v =
    let more : List ℕ = (key_words offset c).1 in
    length-append more (key_entries (offset + 4 * length more) keys).1
    ∙ rw (
      key_words-extern_count offset c v.0.valid,
      key_entries-words_before (offset + 4 * extern_count c) keys v.1,
    )

key_entries-WordOf :
    (offset : ℕ) (keys : List (ℕ × KeyChild)) (i k : ℕ) (c : KeyChild)
    → All (λ e. IsStorable e.1) keys
    → offset + 4 * length (key_entries offset keys).1 < 2 ^ 24
    → get_elem? keys i ≡ some (k, c)
    → (w : ℕ) × (get_elem? (key_entries offset keys).0 i ≡ some (k, w))
      × WordOf (offset + 4 * words_before keys i) c w
unfolding key_entries
key_entries-WordOf offset [] i k c v h g = absurd (cc)
key_entries-WordOf offset ((l, d) ∷ keys) zero k c v h g =
    let p : (l, d) ≡ (k, c) = some-injective (l, d) (k, c) g in
    let z : offset + 4 * 0 ≡ offset = omega arith in
    (
      (key_words offset d).0,
      ap (λ y. some (y, (key_words offset d).0)) (ap (λ y. y.0) p),
      rw (z, ← ap (λ y. y.1) p) (key_words-WordOf offset d v.0.has_records (omega arith)),
    )
key_entries-WordOf offset ((l, d) ∷ keys) (suc i) k c v h g =
    let more : List ℕ = (key_words offset d).1 in
    let size = key_words-extern_count offset d v.0.valid in
    let both = length-append more (key_entries (offset + 4 * length more) keys).1 in
    let (w, e, o) =
      key_entries-WordOf (offset + 4 * length more) keys i k c v.1 (omega (arith, both, h)) g in
    let at : offset + 4 * length more + 4 * words_before keys i
        ≡ offset + 4 * (extern_count d + words_before keys i) =
      omega (arith, size) in
    (w, e, rw at at o)

-- The index that is written has that layout.
pub create_fixed_solid_index-IsLaidOut :
    (key_size : ℕ) (keys : List (ℕ × KeyChild)) (i k : ℕ) (c : KeyChild)
    → All (λ e. IsStorable e.1) keys
    → extern_offset key_size (length keys)
        + 4 * length (create_fixed_solid_index key_size keys).extern_words
      < 2 ^ 24
    → get_elem? keys i ≡ some (k, c)
    → IsLaidOut key_size keys i k c (create_fixed_solid_index key_size keys)
unfolding create_fixed_solid_index
create_fixed_solid_index-IsLaidOut key_size keys i k c v h g =
    let offset : ℕ = extern_offset key_size (length keys) in
    let (w, e, o) = key_entries-WordOf offset keys i k c v h g in
    (w, e, o, omega (arith, h, key_entries-words_before offset keys v))
