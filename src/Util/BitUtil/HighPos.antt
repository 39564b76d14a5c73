-- ===== src/Util/BitUtil/HighPos.antt =====
-- The high positions are the lengths of numbers in base 2.
use native.Mathlib.Decide.{dec_lt}
use native.Mathlib.Nat.{pow-suc, le-div_iff_mul-le, div-lt_iff_lt-mul, one-le-pow, mul_right_comm}
use dbstream.Common.{
  ℕ, zero, suc, ◌+◌, ◌*◌, ◌/◌, ◌%◌, ◌^◌, ◌≤◌, ◌<◌, ◌≡◌, refl, ◌≢◌, ◌⊎◌, inl, inr, true, false,
  arith, ◌==◌, Bool-cases,
}
use dbstream.Util.BitUtil.{
  bit, high_pos_of_uchar, high_pos_of_ushort, high_pos_of_uint, high_pos_of_ulong,
}

-- `n` has `p` digits in base 2.
abbrev pub IsHighPos : ℕ → ℕ → Type 0
IsHighPos n p = ((n ≡ 0) × (p ≡ 0)) ⊎ ((k : ℕ) × (p ≡ suc k) × (2 ^ k ≤ n) × (n < 2 ^ suc k))

at_0 : (c : ℕ) → 1 ≤ c → c < 2 → high_pos_of_uchar c ≡ 1
unfolding high_pos_of_uchar
at_0 c h k =
    let hi : (c / 16 % 16 == 0) ≡ true = ground arith in
    let some_bit : (c == 0) ≡ false = ground arith in
    let b3 : bit c 3 ≡ false = ground arith in
    let b2 : bit c 2 ≡ false = ground arith in
    let b1 : bit c 1 ≡ false = ground arith in
    let b0 : bit c 0 ≡ true = ground arith in rw (hi, some_bit, b3, b2, b1, b0) refl

at_1 : (c : ℕ) → 2 ≤ c → c < 4 → high_pos_of_uchar c ≡ 2
unfolding high_pos_of_uchar
at_1 c h k =
    let hi : (c / 16 % 16 == 0) ≡ true = ground arith in
    let some_bit : (c == 0) ≡ false = ground arith in
    let b3 : bit c 3 ≡ false = ground arith in
    let b2 : bit c 2 ≡ false = ground arith in
    let b1 : bit c 1 ≡ true = ground arith in rw (hi, some_bit, b3, b2, b1) refl

at_2 : (c : ℕ) → 4 ≤ c → c < 8 → high_pos_of_uchar c ≡ 3
unfolding high_pos_of_uchar
at_2 c h k =
    let hi : (c / 16 % 16 == 0) ≡ true = ground arith in
    let some_bit : (c == 0) ≡ false = ground arith in
    let b3 : bit c 3 ≡ false = ground arith in
    let b2 : bit c 2 ≡ true = ground arith in rw (hi, some_bit, b3, b2) refl

at_3 : (c : ℕ) → 8 ≤ c → c < 16 → high_pos_of_uchar c ≡ 4
unfolding high_pos_of_uchar
at_3 c h k =
    let hi : (c / 16 % 16 == 0) ≡ true = ground arith in
    let some_bit : (c == 0) ≡ false = ground arith in
    let b3 : bit c 3 ≡ true = ground arith in rw (hi, some_bit, b3) refl

at_4 : (c : ℕ) → 16 ≤ c → c < 32 → high_pos_of_uchar c ≡ 5
unfolding high_pos_of_uchar
at_4 c h k =
    let hi : (c / 16 % 16 == 0) ≡ false = ground arith in
    let b7 : bit c 7 ≡ false = ground arith in
    let b6 : bit c 6 ≡ false = ground arith in
    let b5 : bit c 5 ≡ false = ground arith in
    let b4 : bit c 4 ≡ true = ground arith in rw (hi, b7, b6, b5, b4) refl

at_5 : (c : ℕ) → 32 ≤ c → c < 64 → high_pos_of_uchar c ≡ 6
unfolding high_pos_of_uchar
at_5 c h k =
    let hi : (c / 16 % 16 == 0) ≡ false = ground arith in
    let b7 : bit c 7 ≡ false = ground arith in
    let b6 : bit c 6 ≡ false = ground arith in
    let b5 : bit c 5 ≡ true = ground arith in rw (hi, b7, b6, b5) refl

at_6 : (c : ℕ) → 64 ≤ c → c < 128 → high_pos_of_uchar c ≡ 7
unfolding high_pos_of_uchar
at_6 c h k =
    let hi : (c / 16 % 16 == 0) ≡ false = ground arith in
    let b7 : bit c 7 ≡ false = ground arith in
    let b6 : bit c 6 ≡ true = ground arith in rw (hi, b7, b6) refl

at_7 : (c : ℕ) → 128 ≤ c → c < 256 → high_pos_of_uchar c ≡ 8
unfolding high_pos_of_uchar
at_7 c h k =
    let hi : (c / 16 % 16 == 0) ≡ false = ground arith in
    let b7 : bit c 7 ≡ true = ground arith in rw (hi, b7) refl

digits : (n k p : ℕ) → p ≡ suc k → 2 ^ k ≤ n → n < 2 ^ suc k → IsHighPos n p
digits n k p e h l = inr (k, e, h, l)

upper : (c : ℕ) → 16 ≤ c → c < 256 → IsHighPos c (high_pos_of_uchar c)
upper c g h = elim (dec_lt c 32) [
  | yes a ↦ digits c 4 _ (at_4 c g a) g a
  | no a ↦ elim (dec_lt c 64) [
    | yes b ↦ digits c 5 _ (at_5 c (omega arith) b) (omega arith) b
    | no b ↦ elim (dec_lt c 128) [
      | yes d ↦ digits c 6 _ (at_6 c (omega arith) d) (omega arith) d
      | no d ↦ digits c 7 _ (at_7 c (omega arith) h) (omega arith) h
    ]
  ]
]

uchar-IsHighPos : (c : ℕ) → c < 2 ^ 8 → IsHighPos c (high_pos_of_uchar c)
uchar-IsHighPos c h = elim (dec_lt c 1) [
  | yes a ↦ let z : c ≡ 0 = omega arith in rw z (inl (refl, unfold high_pos_of_uchar in refl))
  | no a ↦ elim (dec_lt c 2) [
    | yes b ↦ digits c 0 _ (at_0 c (omega arith) b) (omega arith) b
    | no b ↦ elim (dec_lt c 4) [
      | yes d ↦ digits c 1 _ (at_1 c (omega arith) d) (omega arith) d
      | no d ↦ elim (dec_lt c 8) [
        | yes e ↦ digits c 2 _ (at_2 c (omega arith) e) (omega arith) e
        | no e ↦ elim (dec_lt c 16) [
          | yes f ↦ digits c 3 _ (at_3 c (omega arith) f) (omega arith) f
          | no f ↦ upper c (omega arith) h
        ]
      ]
    ]
  ]
]

-- A power of two shifted by `w` digits.
pow_shift : (w k : ℕ) → 2 ^ k * 2 ^ w ≡ 2 ^ (w + k)
pow_shift w zero = let e : w + 0 ≡ w = omega arith in rw e (omega arith)
pow_shift w (suc k) =
    let e : w + suc k ≡ suc (w + k) = omega arith in
    rw (e, pow-suc 2 (w + k), pow-suc 2 k, ← pow_shift w k) (mul_right_comm (2 ^ k) 2 (2 ^ w))

shifted : (w n p : ℕ) → n / 2 ^ w ≢ 0 → IsHighPos (n / 2 ^ w) p → IsHighPos n (w + p)
shifted w n p nz (inl (z, e)) = absurd (nz z)
shifted w n p nz (inr (k, e, lo, hi)) =
    let positive : 0 < 2 ^ w = one-le-pow w 2 (omega arith) in
    let above : 2 ^ k * 2 ^ w ≤ n = (le-div_iff_mul-le positive).0 lo in
    let below : n < 2 ^ suc k * 2 ^ w = (div-lt_iff_lt-mul positive).0 hi in
    inr (
      w + k,
      omega (arith, e),
      rw (pow_shift w k) at above,
      (let f : w + suc k ≡ suc (w + k) = omega arith in rw (pow_shift w (suc k), f) at below),
    )

ushort-IsHighPos : (s : ℕ) → s < 2 ^ 16 → IsHighPos s (high_pos_of_ushort s)
unfolding high_pos_of_ushort
ushort-IsHighPos s h = elim (Bool-cases (s / 2 ^ 8 == 0)) [
  | inl z ↦ let e : s % 2 ^ 8 ≡ s = ground arith in rw (z, e) (uchar-IsHighPos s (ground arith))
  | inr nz ↦ rw nz (
      shifted 8 s (high_pos_of_uchar (s / 2 ^ 8)) (λ q. absurd (ground arith))
        (uchar-IsHighPos (s / 2 ^ 8) (omega arith)))
]

uint-IsHighPos : (i : ℕ) → i < 2 ^ 32 → IsHighPos i (high_pos_of_uint i)
unfolding high_pos_of_uint
uint-IsHighPos i h = elim (Bool-cases (i / 2 ^ 16 == 0)) [
  | inl z ↦ let e : i % 2 ^ 16 ≡ i = ground arith in rw (z, e) (ushort-IsHighPos i (ground arith))
  | inr nz ↦ rw nz (
      shifted 16 i (high_pos_of_ushort (i / 2 ^ 16)) (λ q. absurd (ground arith))
        (ushort-IsHighPos (i / 2 ^ 16) (omega arith)))
]

ulong-IsHighPos : (l : ℕ) → l < 2 ^ 64 → IsHighPos l (high_pos_of_ulong l)
unfolding high_pos_of_ulong
ulong-IsHighPos l h = elim (Bool-cases (l / 2 ^ 32 == 0)) [
  | inl z ↦ let e : l % 2 ^ 32 ≡ l = ground arith in rw (z, e) (uint-IsHighPos l (ground arith))
  | inr nz ↦ rw nz (
      shifted 32 l (high_pos_of_uint (l / 2 ^ 32)) (λ q. absurd (ground arith))
        (uint-IsHighPos (l / 2 ^ 32) (omega arith)))
]

-- The four functions give the number of digits in base 2 of each number of 8, 16, 32 and 64 bits: 0
-- for 0, and else the `p` with 2^(p-1) <= n < 2^p.
pub high_pos_of_ulong-IsHighPos :
    (c s i l : ℕ)
    → c < 2 ^ 8
    → s < 2 ^ 16
    → i < 2 ^ 32
    → l < 2 ^ 64
    → IsHighPos c (high_pos_of_uchar c)
      × IsHighPos s (high_pos_of_ushort s)
      × IsHighPos i (high_pos_of_uint i)
      × IsHighPos l (high_pos_of_ulong l)
high_pos_of_ulong-IsHighPos c s i l hc hs hi hl =
    (uchar-IsHighPos c hc, ushort-IsHighPos s hs, uint-IsHighPos i hi, ulong-IsHighPos l hl)
