-- ===== src/Util/Json.antt =====
-- util/json.h and json.cpp: JSON values, their parser and their text.
-- A `std::map` is the list of its entries in the order of their keys. The list m_valueList, which
-- records the order in the text and which no function here reads, is left out,
-- and so is the reading of a field (get).
pub mod Chars
pub mod Parse
pub mod Print
pub mod Words
pub mod Body
pub mod Keys
pub mod Steps
pub mod Elements
pub mod Members
pub mod Weight
pub mod RoundTrip
pub mod Within
pub mod Ends
pub mod Cut
mod Tests
use dbstream.Common.{ℕ, Bool, true, false, List, [], ◌∷◌, Option, none, some, ltb, if◌then◌else◌}

-- A number is the 64 bits of a `long`, read as a number from 0 on.
mutual
  pub data Json : Type 0 where
    str : List ℕ → Json
    num : ℕ → Json
    obj : Fields → Json
    arr : Items → Json
    bool : Bool → Json

  pub data Items : Type 0 where
    nil : Items
    item : Json → Items → Items

  pub data Fields : Type 0 where
    end : Fields
    field : List ℕ → Json → Fields → Fields

-- The order of `std::string`.
unfoldable pub less : List ℕ → List ℕ → Bool
less xs [] = false
less [] (y ∷ ys) = true
less (x ∷ xs) (y ∷ ys) = if ltb x y then true else if ltb y x then false else less xs ys

-- `insert` of the map, and nothing if the key is there already.
unfoldable pub insert_key : List ℕ → Json → Fields → Option Fields
insert_key k v end = some (field k v end)
insert_key k v (field j w fs) =
    if less k j
    then some (field k v (field j w fs))
    else if less j k
    then elim (insert_key k v fs) [ none ↦ none | some gs ↦ some (field j w gs) ]
    else none
