-- ===== src/Database/KeyChild.antt =====
-- database/appendingIndex.h, struct keyChildInfo: the records of one key, in a growing array.
-- The skip list of the keys is leveldb's and not modelled; these are the parts of appendIndex and find
-- that deal with the key that it finds. Fresh memory is zero here.
pub mod Ids
use dbstream.Common.{
  ℕ, zero, suc, ◌+◌, ◌-◌, ◌*◌, ◌%◌, ◌^◌, Option, none, some, ltb, List, [], ◌∷◌, ◌++◌, leb,
  if◌then◌else◌, get_or, set, take,
}

pub record KeyChild : Type 0 where
  pub sub_array : List ℕ
  pub array_size : ℕ
  pub count : ℕ

abbrev pub zeros : ℕ → List ℕ
zeros zero = []
zeros (suc n) = 0 ∷ zeros n

-- A key that is new to the index.
unfoldable pub new_child : KeyChild
new_child = record { sub_array = zeros 1; array_size = 1; count = 0 }

-- A full array is copied to one of twice the size; the size is of 32 bits and wraps around.
unfoldable pub grow : KeyChild → KeyChild
grow c =
    let size = c.array_size * 2 % 2 ^ 32 in
    if leb c.array_size c.count
    then record c {
      sub_array = take size (take c.array_size c.sub_array ++ zeros c.array_size);
      array_size = size;
    }
    else c

unfoldable pub store : KeyChild → ℕ → KeyChild
store c id = record c { sub_array = set c.sub_array c.count id; count = (c.count + 1) % 2 ^ 32 }

unfoldable pub append_id : KeyChild → ℕ → KeyChild
append_id c id = store (grow c) id

-- Numbers with a sign: `negsuc n` is -1 - n.
pub data ℤ : Type 0 where
  pos : ℕ → ℤ
  negsuc : ℕ → ℤ

-- A number of 32 bits as one with a sign.
abbrev pub int32 : ℕ → ℤ
int32 w = if ltb w (2 ^ 31) then pos w else negsuc (2 ^ 32 - 1 - w)

-- What `find` returns for the key that it has found, or for a missing one: the record that was appended
-- last, or -1.
unfoldable pub find_last : Option KeyChild → ℤ
find_last none = negsuc 0
find_last (some c) = int32 (get_or c.sub_array (c.count - 1) 0)
