-- ===== src/Util/ArrayQueue/Volumn.antt =====
-- The number of places that a queue gets.
use native.Mathlib.Nat.{pow-suc, pow-le-pow_right}
use native.Mathlib.Decide.{dec_lt}
use dbstream.Common.{
  ℕ, zero, suc, ◌+◌, ◌*◌, ◌%◌, ◌^◌, ◌≤◌, ◌<◌, ◌≡◌, refl, ◌⊎◌, inl, inr, some, arith, ltb,
  Bool-cases,
}
use dbstream.Util.ArrayQueue.{volumn_from, cal_volumn}

-- `v` is the least power of two that is at least `size`, and at least 2.
abbrev pub Fits : ℕ → ℕ → Type 0
Fits size v = ((k : ℕ) × (v ≡ 2 ^ suc k)) × (size ≤ v) × ((v ≡ 2) ⊎ (v < size * 2))

pow_mono : (i j : ℕ) → i ≤ j → 2 ^ i ≤ 2 ^ j
pow_mono i j h = pow-le-pow_right {n = 2} (omega arith) {i = i} {j = j} h

volumn_from-Fits :
    (fuel j size : ℕ)
    → j + fuel ≡ 32
    → size ≤ 2 ^ 31
    → (j ≡ 0) ⊎ (2 ^ j < size)
    → (v : ℕ) × (volumn_from fuel (2 ^ j) size ≡ some v) × Fits size v
unfolding volumn_from
volumn_from-Fits zero j size e h below = elim below [
  | inl z ↦ absurd (omega arith)
  | inr b ↦
      let w : j ≡ 32 = omega arith in let c : 2 ^ 32 < size = rw w at b in absurd (omega arith)
]
volumn_from-Fits (suc fuel) j size e h below =
    let early : j < 31 = elim (dec_lt j 31) [
      | yes y ↦ y
      | no n ↦ elim below [
        | inl z ↦ absurd (omega arith)
        | inr b ↦ let p : 2 ^ 31 ≤ 2 ^ j = pow_mono 31 j (omega arith) in absurd (omega arith)
      ]
    ] in
    let power : 2 ^ suc j ≡ 2 ^ j * 2 = pow-suc 2 j in
    let bound : 2 ^ suc j ≤ 2 ^ 31 = pow_mono (suc j) 31 (omega arith) in
    let exact : (2 ^ j * 2) % 2 ^ 32 ≡ 2 ^ suc j = omega (arith, power, bound) in
    elim (Bool-cases (ltb (2 ^ suc j) size)) [
      | inl more ↦
          rw (exact, more) (volumn_from-Fits fuel (suc j) size (omega arith) h (inr (ground arith)))
      | inr stop ↦
          rw (exact, stop)
            (
              2 ^ suc j,
              refl,
              (
                (j, refl),
                ground arith,
                elim below [ inl z ↦ inl (rw z refl) | inr b ↦ inr (omega (arith, power)) ],
              ),
            )
    ]

-- For sizes up to 2^31, the loop ends, and gives the least power of two that is at least the size and
-- at least 2.
pub cal_volumn-Fits :
    (size : ℕ) → size ≤ 2 ^ 31 → (v : ℕ) × (cal_volumn size ≡ some v) × Fits size v
unfolding cal_volumn
cal_volumn-Fits size h = volumn_from-Fits 32 0 size (omega arith) h (inl refl)
