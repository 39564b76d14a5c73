-- ===== src/Database/Tests.antt =====
-- Runs of a key's array and of an index of three keys.
use dbstream.Common.{
  true, false, none, zero, suc, ℕ, ◌+◌, ◌*◌, ◌^◌, ◌<◌, ◌≡◌, refl, List, [], ◌∷◌, some, arith,
  length,
}
use dbstream.Database.KeyChild.{KeyChild, zeros, new_child, append_id, store, grow}
use dbstream.Database.KeyChild.Ids.{ids, IsValid}
use dbstream.Database.SolidIndex.{
  SolidIndex, create_fixed_solid_index, key_entries, key_words, get_record_id_by_index, bit_or,
}
use dbstream.Database.SolidIndex.Find.{settle, find_loop, keys_of, find, find_records}
use dbstream.Database.SolidIndex.Find.Search.{IsAscending, IsPlace, answer, find-IsPlace}
use dbstream.Database.SolidIndex.Find.Records.{find_records-ids}
use dbstream.Database.SolidIndex.Layout.{IsStorable, IsLaidOut}
use dbstream.Database.SolidIndex.Decode.{create_fixed_solid_index-roundtrip}

abbrev full_child : KeyChild
full_child = record { sub_array = 4 ∷ 7 ∷ []; array_size = 2; count = 2 }

abbrev single_child : KeyChild
single_child = record { sub_array = 9 ∷ []; array_size = 1; count = 1 }

abbrev large_child : KeyChild
large_child = record { sub_array = zeros 128; array_size = 128; count = 127 }

full_child-IsValid : IsValid full_child
full_child-IsValid = record {
  sized = refl;
  some_room = omega arith;
  within = omega arith;
  narrow = omega arith;
}

new_child-append_id : ids (append_id (append_id (append_id new_child 1) 2) 3) ≡ 1 ∷ 2 ∷ 3 ∷ []
unfolding new_child append_id store grow
new_child-append_id = refl

abbrev three_keys : List (ℕ × KeyChild)
three_keys = (10, full_child) ∷ (20, large_child) ∷ (30, single_child) ∷ []

full_child-IsStorable : IsStorable full_child
full_child-IsStorable = record {
  valid = full_child-IsValid;
  has_records = omega arith;
  fits = λ e. absurd (omega arith);
}

large_child-IsStorable : IsStorable large_child
large_child-IsStorable = record {
  valid = record {
    sized = refl;
    some_room = omega arith;
    within = omega arith;
    narrow = omega arith;
  };
  has_records = omega arith;
  fits = λ e. absurd (omega arith);
}

single_child-IsStorable : IsStorable single_child
single_child-IsStorable = record {
  valid = record {
    sized = refl;
    some_room = omega arith;
    within = omega arith;
    narrow = omega arith;
  };
  has_records = omega arith;
  fits = λ e. omega arith;
}

three_keys-small :
    12 + (4 + 4) * (3 + 1) + 4 * length (create_fixed_solid_index 4 three_keys).extern_words
    < 2 ^ 24
unfolding create_fixed_solid_index key_entries key_words
three_keys-small = omega arith

-- The whole index of the three keys: behind the 12 bytes of the head and four places of 8 bytes each
-- stand the words of the first key, from byte 44 on, and those of the second, from byte 52 on.
three_keys-layout :
    ((create_fixed_solid_index 4 three_keys).size ≡ 12 + 32 + 8 + 512)
    × ((create_fixed_solid_index 4 three_keys).entries
        ≡ (10, 2 * 2 ^ 24 + 44) ∷ (20, 128 * 2 ^ 24 + 52) ∷ (30, 9) ∷ [])
unfolding create_fixed_solid_index key_entries key_words bit_or
three_keys-layout = (refl, refl)

create_fixed_solid_index-roundtrip_example :
    IsLaidOut 4 three_keys 1 20 large_child (create_fixed_solid_index 4 three_keys)
    × (get_record_id_by_index (create_fixed_solid_index 4 three_keys) 1 ≡ some (zeros 127))
create_fixed_solid_index-roundtrip_example =
    create_fixed_solid_index-roundtrip 4 three_keys 1 20 large_child
      (full_child-IsStorable, (large_child-IsStorable, (single_child-IsStorable, tt)))
      three_keys-small refl

three_keys-IsAscending : IsAscending (10 ∷ 20 ∷ 30 ∷ [])
three_keys-IsAscending i zero h b = absurd (omega arith)
three_keys-IsAscending zero (suc zero) h b = omega arith
three_keys-IsAscending (suc i) (suc zero) h b = absurd (omega arith)
three_keys-IsAscending zero (suc (suc zero)) h b = omega arith
three_keys-IsAscending (suc zero) (suc (suc zero)) h b = omega arith
three_keys-IsAscending (suc (suc i)) (suc (suc zero)) h b = absurd (omega arith)
three_keys-IsAscending i (suc (suc (suc j))) h b = absurd (omega arith)

find_records-ids_example :
    IsLaidOut 4 three_keys 1 20 large_child (create_fixed_solid_index 4 three_keys)
    × (find (create_fixed_solid_index 4 three_keys) 20 true ≡ some 1)
    × (find_records (create_fixed_solid_index 4 three_keys) 20 true ≡ some (zeros 127))
find_records-ids_example =
    find_records-ids 4 three_keys 1 20 large_child true
      (full_child-IsStorable, (large_child-IsStorable, (single_child-IsStorable, tt)))
      three_keys-IsAscending three_keys-small refl

abbrev plain_index : SolidIndex
plain_index = record {
  key_count = 3;
  key_size = 4;
  entries = (10, 1) ∷ (20, 2) ∷ (30, 3) ∷ [];
  extern_words = [];
  size = 48;
}

find-IsPlace_example :
    (i : ℕ) × IsPlace (keys_of plain_index) 15 i
    × (find plain_index 15 true ≡ answer true (keys_of plain_index) 15 i)
find-IsPlace_example = find-IsPlace plain_index 15 true three_keys-IsAscending

find-next : find plain_index 15 false ≡ some 1
unfolding find find_loop settle
find-next = refl

find-none : find plain_index 15 true ≡ none
unfolding find find_loop settle
find-none = refl

new_child-IsValid : IsValid new_child
unfolding new_child
new_child-IsValid = record {
  sized = refl;
  some_room = omega arith;
  within = omega arith;
  narrow = omega arith;
}
