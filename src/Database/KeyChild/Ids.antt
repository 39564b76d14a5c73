-- ===== src/Database/KeyChild/Ids.antt =====
-- The array of a key holds the records that were appended, in order.
use dbstream.Common.{ℕ, zero, suc, ◌≤◌, ◌<◌, ◌≡◌, refl, ap, ◌^◌, List, [], ◌∷◌, arith, length, take}
use dbstream.Database.KeyChild.{KeyChild}

abbrev pub ids : KeyChild → List ℕ
ids c = take c.count c.sub_array

pub record IsValid (c : KeyChild) : Type 0 where
  pub sized : length c.sub_array ≡ c.array_size
  pub some_room : 0 < c.array_size
  pub within : c.count ≤ c.array_size
  pub narrow : c.array_size < 2 ^ 32

pub length-take : (n : ℕ) (xs : List ℕ) → n ≤ length xs → length (take n xs) ≡ n
length-take zero xs h = refl
length-take (suc n) [] h = absurd (omega arith)
length-take (suc n) (x ∷ xs) h = ap suc (length-take n xs (omega arith))

pub take-length : (xs : List ℕ) (n : ℕ) → length xs ≡ n → take n xs ≡ xs
take-length [] zero h = refl
take-length [] (suc n) h = refl
take-length (x ∷ xs) zero h = absurd (omega arith)
take-length (x ∷ xs) (suc n) h = ap (◌∷◌ x) (take-length xs n (omega arith))
