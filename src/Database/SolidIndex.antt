-- ===== src/Database/SolidIndex.antt =====
-- database/appendingIndex.h, createFixedSolidIndex, and solidIndex.h, fixedSolidIndex: the index of a
-- complete block, with keys of a fixed size. After the head stand a key and a word for each key, one
-- unused place, and then the words that do not fit there, named by their distance in bytes from the
-- head. Keys are numbers; how the code compares and stores them is not modelled.
pub mod Word
pub mod Layout
pub mod Decode
pub mod Find
use dbstream.Common.{
  ℕ, zero, suc, ◌+◌, ◌-◌, ◌*◌, ◌/◌, ◌%◌, ◌^◌, Bool, true, false, ◌||◌, List, [], ◌∷◌, ◌++◌, Option,
  none, some, ltb, ◌==◌, if◌then◌else◌, length, get_elem?, get_or, take, drop,
}
use dbstream.Database.KeyChild.{KeyChild}

-- `|` of two numbers, digit by digit, of so many digits.
unfoldable pub bit_or : ℕ → ℕ → ℕ → ℕ
bit_or zero a b = 0
bit_or (suc n) a b = (if a % 2 == 1 || b % 2 == 1 then 1 else 0) + 2 * bit_or n (a / 2) (b / 2)

-- `sizeof(solidIndexHead)`: the struct is packed, two numbers of 32 bits, two of 8 and one of 16.
abbrev pub head_size : ℕ
head_size = 4 + 4 + 1 + 1 + 2

pub record SolidIndex : Type 0 where
  pub key_count : ℕ
  pub key_size : ℕ
  pub entries : List (ℕ × ℕ)
  pub extern_words : List ℕ
  pub size : ℕ

-- The word of a key, and its words in the second part, which begin at `offset`.
unfoldable pub key_words : ℕ → KeyChild → ℕ × List ℕ
key_words offset c =
    if c.count == 1
    then (get_or c.sub_array 0 0, [])
    else if ltb c.count 127
    then (bit_or 32 (c.count * 2 ^ 24 % 2 ^ 32) offset, take c.count c.sub_array)
    else (bit_or 32 (128 * 2 ^ 24) offset, c.count ∷ take c.count c.sub_array)

-- The loop over the keys, in their order.
unfoldable pub key_entries : ℕ → List (ℕ × KeyChild) → List (ℕ × ℕ) × List ℕ
key_entries offset [] = ([], [])
key_entries offset ((k, c) ∷ keys) =
    let (w, more) = key_words offset c in
    let (es, ws) = key_entries (offset + 4 * length more) keys in ((k, w) ∷ es, more ++ ws)

-- Where the second part begins.
abbrev pub extern_offset : ℕ → ℕ → ℕ
extern_offset key_size key_count = head_size + (key_size + 4) * (key_count + 1)

-- The code asks for a key at least; without one, this is the index of no key.
unfoldable pub create_fixed_solid_index : ℕ → List (ℕ × KeyChild) → SolidIndex
create_fixed_solid_index key_size keys =
    let (es, ws) = key_entries (extern_offset key_size (length keys)) keys in
    record {
      key_count = length keys;
      key_size = key_size;
      entries = es;
      extern_words = ws;
      size = (extern_offset key_size (length keys) + 4 * length ws) % 2 ^ 32;
    }

-- The words from an offset on.
abbrev pub words_at : SolidIndex → ℕ → List ℕ
words_at x offset = drop ((offset - extern_offset x.key_size x.key_count) / 4) x.extern_words

-- `getRecordIdByIndex`, of the word of a key.
unfoldable pub record_ids : SolidIndex → ℕ → List ℕ
record_ids x info =
    if info / 2 ^ 24 % 2 ^ 8 == 0
    then info ∷ []
    else if info / 2 ^ 31 % 2 == 0
    then take (info / 2 ^ 24) (words_at x (info % 2 ^ 24))
    else take (get_or (words_at x (info % 2 ^ 24)) 0 0) (words_at x (info % 2 ^ 24 + 4))

unfoldable pub get_record_id_by_index : SolidIndex → ℕ → Option (List ℕ)
get_record_id_by_index x i = elim (get_elem? x.entries i) [
  | none ↦ none
  | some e ↦ some (record_ids x e.1)
]
