-- ===== src/Util/Config.antt =====
-- util/config.h: the sections of a configuration, each with values by key, and the lines of a file of
-- them. A text is the list of its bytes, none of them 0. A hash table is a list of pairs in which the
-- first one of a key counts; its insert leaves a key alone that is there.
pub mod Numbers
pub mod Digits
pub mod Uint
pub mod Table
pub mod Assign
pub mod File
pub mod Long
mod Tests
use dbstream.Common.{
  ℕ, suc, Bool, true, false, ◌&&◌, ◌||◌, not, List, [], ◌∷◌, Option, none, some, ◌==◌,
  if◌then◌else◌,
}

-- StrHash and StrCompare compare texts byte by byte.
abbrev pub same_text : List ℕ → List ℕ → Bool
same_text [] [] = true
same_text [] (d ∷ t) = false
same_text (c ∷ s) [] = false
same_text (c ∷ s) (d ∷ t) = c == d && same_text s t

unfoldable pub lookup {ℓ} : {V : Type ℓ} → List (List ℕ × V) → List ℕ → Option V
lookup [] key = none
lookup ((k, v) ∷ rest) key = let more = lookup rest key in if same_text k key then some v else more

-- `insert` of the hash table.
unfoldable pub insert_new {ℓ} : {V : Type ℓ} → List (List ℕ × V) → List ℕ → V → List (List ℕ × V)
insert_new [] key v = (key, v) ∷ []
insert_new ((k, w) ∷ rest) key v =
    let more = insert_new rest key v in if same_text k key then (k, w) ∷ rest else (k, w) ∷ more

-- The table with the value at a key, which is there, replaced: the section that a pointer leads to.
unfoldable pub store {ℓ} : {V : Type ℓ} → List (List ℕ × V) → List ℕ → V → List (List ℕ × V)
store [] key v = []
store ((k, w) ∷ rest) key v =
    let more = store rest key v in if same_text k key then (k, v) ∷ rest else (k, w) ∷ more

abbrev pub Section : Type 0
Section = List (List ℕ × List ℕ)

abbrev pub Sections : Type 0
Sections = List (List ℕ × Section)

abbrev pub or_default : Option (List ℕ) → Option (List ℕ) → List ℕ
or_default (some v) default = v
or_default none (some d) = d
or_default none none = []

unfoldable pub get : Sections → List ℕ → List ℕ → Option (List ℕ) → List ℕ
get m section key default = elim (lookup m section) [
  | none ↦ or_default none default
  | some sec ↦ or_default (lookup sec key) default
]

unfoldable pub set : Sections → List ℕ → List ℕ → List ℕ → Sections
set m section key value = elim (lookup m section) [
  | none ↦ store (insert_new m section []) section (insert_new [] key value)
  | some sec ↦ store m section (insert_new sec key value)
]
