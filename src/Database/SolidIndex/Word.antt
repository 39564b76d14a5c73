-- ===== src/Database/SolidIndex/Word.antt =====
-- The two parts of a key's word: a number of 8 bits above an offset of 24 bits.
use native.Mathlib.Nat.{pow-suc, mul_comm, mul_left_comm}
use dbstream.Common.{
  ℕ, zero, suc, ◌+◌, ◌*◌, ◌/◌, ◌%◌, ◌^◌, ◌<◌, ◌≡◌, refl, ap, ◌∙◌, ◌||◌, arith, ◌==◌, if◌then◌else◌,
}
use dbstream.Database.SolidIndex.{bit_or}

or_digit : (a b : ℕ) → a % 2 ≡ 0 → (if a % 2 == 1 || b % 2 == 1 then 1 else 0) ≡ b % 2
or_digit a b h = ground arith

or_none : (a : ℕ) → (if a % 2 == 1 || 0 % 2 == 1 then 1 else 0) ≡ a % 2
or_none a = ground arith

bit_or_zero : (n a : ℕ) → a < 2 ^ n → bit_or n a 0 ≡ a
unfolding bit_or
bit_or_zero zero a h = omega arith
bit_or_zero (suc n) a h =
    let small : a / 2 < 2 ^ n = (let e = pow-suc 2 n in omega arith) in
    let e : bit_or n (a / 2) 0 ≡ a / 2 = bit_or_zero n (a / 2) small in
    let d : (if a % 2 == 1 || 0 % 2 == 1 then 1 else 0) ≡ a % 2 = or_none a in
    rw (e, d) (omega arith)

bit_or_even : (n m b : ℕ) → bit_or (suc n) (2 * m) b ≡ b % 2 + 2 * bit_or n m (b / 2)
unfolding bit_or
bit_or_even n m b =
    let e : 2 * m / 2 ≡ m = omega arith in
    let d = or_digit (2 * m) b (omega arith) in rw (e, d) refl

bit_or_above : (k n a b : ℕ) → b < 2 ^ k → bit_or (k + n) (a * 2 ^ k) b ≡ bit_or n a 0 * 2 ^ k + b
bit_or_above zero n a b h =
    let z : b ≡ 0 = omega arith in
    let i : a * 1 ≡ a = omega arith in let j : 0 + n ≡ n = omega arith in rw (z, i, j) (omega arith)
bit_or_above (suc k) n a b h =
    let p : a * 2 ^ suc k ≡ 2 * (a * 2 ^ k) =
      rw (pow-suc 2 k, mul_comm (2 ^ k) 2) (mul_left_comm a 2 (2 ^ k)) in
    let q : bit_or n a 0 * 2 ^ suc k ≡ 2 * (bit_or n a 0 * 2 ^ k) =
      rw (pow-suc 2 k, mul_comm (2 ^ k) 2) (mul_left_comm (bit_or n a 0) 2 (2 ^ k)) in
    let small : b / 2 < 2 ^ k = (let e = pow-suc 2 k in omega arith) in
    let l : suc k + n ≡ suc (k + n) = omega arith in
    rw (l, p, q, bit_or_even (k + n) (a * 2 ^ k) b, bit_or_above k n a (b / 2) small) (omega arith)

-- The two parts of a word that do not overlap are added.
pub bit_or_parts : (a b : ℕ) → a < 2 ^ 8 → b < 2 ^ 24 → bit_or 32 (a * 2 ^ 24) b ≡ a * 2 ^ 24 + b
bit_or_parts a b ha hb = bit_or_above 24 8 a b hb ∙ ap (λ m. m * 2 ^ 24 + b) (bit_or_zero 8 a ha)
