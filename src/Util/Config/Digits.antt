-- ===== src/Util/Config/Digits.antt =====
-- What the numbers' texts give.
use dbstream.Common.{
  ℕ, zero, suc, ◌+◌, ◌-◌, ◌*◌, ◌%◌, ◌^◌, ◌≤◌, ◌<◌, ◌≡◌, refl, subst, ◌∙◌, ◌⊎◌, inl, inr, Bool, true,
  false, ◌||◌, Option, none, some, List, [], ◌∷◌, ◌++◌, ltb, leb, ◌==◌, if◌then◌else◌, Bool-cases,
  arith,
}
use mathlib.Core.Option.{some-injective}
use native.Mathlib.Nat.{mod-eq_of_lt}
use dbstream.Util.Config.Numbers.{
  result, beyond, scan_num, char2num, value, is_not_number, is_digit, scaled, scaled_long, suffix,
  read_digits,
}

abbrev pub AllLow : List ℕ → Type 0
AllLow [] = Unit
AllLow (c ∷ s) = (c ≤ b'9') × AllLow s

scan_num-runs_on :
    (s : List ℕ) (n : ℕ)
    → (AllLow s × (scan_num n s ≡ beyond)) ⊎ ((k : ℕ) × (scan_num n s ≡ result false k))
unfolding scan_num
scan_num-runs_on [] n = inl (tt, refl)
scan_num-runs_on (c ∷ s) n = elim (Bool-cases (leb c b'9')) [
  | inl b ↦ elim (scan_num-runs_on s ((n * 10 + c + 2 ^ 64 - b'0') % 2 ^ 64)) [
    | inl (l, e) ↦ inl ((ground arith, l), rw (b, e) refl)
    | inr (k, e) ↦ inr (k, rw (b, e) refl)
  ]
  | inr b ↦ inr (n, rw (b) refl)
]

-- char2num never says that a text is a number: either all bytes of the text are '9' or less, as those of
-- a number are, and then it reads behind the text's end, or it says that the text is none.
pub char2num-runs_on :
    (s : List ℕ) → (AllLow s × (char2num s ≡ beyond)) ⊎ ((k : ℕ) × (char2num s ≡ result false k))
unfolding char2num
char2num-runs_on s = scan_num-runs_on s 0

abbrev pub AllDigits : List ℕ → Type 0
AllDigits [] = Unit
AllDigits (c ∷ s) = (b'0' ≤ c) × (c ≤ b'9') × AllDigits s

-- The number that digits stand for, behind `n`.
abbrev pub number : ℕ → List ℕ → ℕ
number n [] = n
number n (c ∷ s) = number (n * 10 + (c - b'0')) s

number-le : (n : ℕ) (s : List ℕ) → n ≤ number n s
number-le n [] = omega arith
number-le n (c ∷ s) = let h = number-le (n * 10 + (c - b'0')) s in omega arith

-- Digits are read as long as the number fits.
pub read_digits-number :
    (w tmp : ℕ) (s e : List ℕ)
    → AllDigits s
    → number tmp s < 2 ^ w
    → read_digits w tmp (s ++ e) ≡ read_digits w (number tmp s) e
unfolding read_digits
read_digits-number w tmp [] e a h = refl
read_digits-number w tmp (c ∷ s) e (lo, hi, a) h =
    let m = number-le (tmp * 10 + (c - b'0')) s in
    let small : tmp * 10 + c - b'0' < 2 ^ w = omega arith in
    let n : (tmp * 10 + c - b'0') % 2 ^ w ≡ tmp * 10 + (c - b'0') =
      mod-eq_of_lt small ∙ omega arith in
    let d : is_digit c ≡ true = ground arith in
    let l : ltb (tmp * 10 + (c - b'0')) tmp ≡ false = ground arith in
    rw (d, n, l) (read_digits-number w (tmp * 10 + (c - b'0')) s e a h)

-- The factor that an ending stands for: none, or one of the letters.
abbrev pub unit_of : ℕ → Option ℕ
unit_of c =
    if c == b'k' || c == b'K'
    then some (2 ^ 10)
    else if c == b'm' || c == b'M'
    then some (2 ^ 20)
    else if c == b'g' || c == b'G'
    then some (2 ^ 30)
    else if c == b't' || c == b'T'
    then some (2 ^ 40)
    else if c == b'p' || c == b'P'
    then some (2 ^ 50)
    else none

abbrev pub factor : List ℕ → Option ℕ
factor [] = some 1
factor (c ∷ []) = unit_of c
factor (c ∷ d ∷ s) = none

times-le : (n u : ℕ) → 1 ≤ u → n ≤ n * u
times-le n zero h = absurd (omega arith)
times-le n (suc u) h = grind arith

scaled_fits : (w n u : ℕ) → 1 ≤ u → n * u < 2 ^ w → scaled w n u ≡ value (n * u)
scaled_fits w n u one h =
    let e : n * u % 2 ^ w ≡ n * u = mod-eq_of_lt h in
    let m = times-le n u one in let l : ltb (n * u) n ≡ false = ground arith in rw (e, l) refl

scaled_long_fits :
    (w n u : ℕ) → (w ≡ 32) ⊎ (w ≡ 64) → 1 ≤ u → n * u < 2 ^ w → scaled_long w n u ≡ value (n * u)
scaled_long_fits w n u (inl a) one h =
    let small : n * u < 2 ^ 32 = subst (λ v. n * u < 2 ^ v) a h in
    let e : n * u % 2 ^ w ≡ n * u = mod-eq_of_lt h in
    let e' : n * u % 2 ^ 64 ≡ n * u = mod-eq_of_lt (omega arith) in
    let m = times-le n u one in
    let l : ltb (n * u) n ≡ false = ground arith in
    let l' : leb (2 ^ 63) (n * u) ≡ false = ground (arith, small) in
    let b : (w == 32) ≡ true = ground (arith, a) in rw (e', l, l', b, e) refl
scaled_long_fits w n u (inr a) one h =
    let e : n * u % 2 ^ w ≡ n * u = mod-eq_of_lt h in
    let e' : n * u % 2 ^ 64 ≡ n * u = mod-eq_of_lt (subst (λ v. n * u < 2 ^ v) a h) in
    let m = times-le n u one in
    let l : ltb (n * u) n ≡ false = ground arith in
    let b : (w == 32) ≡ false = ground (arith, a) in rw (e', l, b, e) refl

-- The letters, with the tests left open.
pick :
    (w n u : ℕ) (k m g t p : Bool)
    → (w ≡ 32) ⊎ (w ≡ 64)
    → (if k
        then some (2 ^ 10)
        else if m
        then some (2 ^ 20)
        else if g
        then some (2 ^ 30)
        else if t
        then some (2 ^ 40)
        else if p
        then some (2 ^ 50)
        else none)
      ≡ some u
    → n * u < 2 ^ w
    → (if k
        then scaled w n (2 ^ 10)
        else if m
        then scaled w n (2 ^ 20)
        else if g
        then scaled w n (2 ^ 30)
        else if t
        then scaled_long w n (2 ^ 40)
        else if p
        then scaled_long w n (2 ^ 50)
        else is_not_number)
      ≡ value (n * u)
pick w n u true m g t p a e h =
    subst (λ v. n * v < 2 ^ w → scaled w n (2 ^ 10) ≡ value (n * v)) (some-injective (2 ^ 10) u e)
      (scaled_fits w n (2 ^ 10) (omega arith)) h
pick w n u false true g t p a e h =
    subst (λ v. n * v < 2 ^ w → scaled w n (2 ^ 20) ≡ value (n * v)) (some-injective (2 ^ 20) u e)
      (scaled_fits w n (2 ^ 20) (omega arith)) h
pick w n u false false true t p a e h =
    subst (λ v. n * v < 2 ^ w → scaled w n (2 ^ 30) ≡ value (n * v)) (some-injective (2 ^ 30) u e)
      (scaled_fits w n (2 ^ 30) (omega arith)) h
pick w n u false false false true p a e h =
    subst (λ v. n * v < 2 ^ w → scaled_long w n (2 ^ 40) ≡ value (n * v))
      (some-injective (2 ^ 40) u e) (scaled_long_fits w n (2 ^ 40) a (omega arith)) h
pick w n u false false false false true a e h =
    subst (λ v. n * v < 2 ^ w → scaled_long w n (2 ^ 50) ≡ value (n * v))
      (some-injective (2 ^ 50) u e) (scaled_long_fits w n (2 ^ 50) a (omega arith)) h
pick w n u false false false false false a e h = absurd (ground arith)

unit-no_digit : (c u : ℕ) → unit_of c ≡ some u → is_digit c ≡ false
unit-no_digit c u e = elim (Bool-cases (is_digit c)) [ inl d ↦ absurd (ground arith) | inr d ↦ d ]

pub read_suffix :
    (w n c u : ℕ)
    → (w ≡ 32) ⊎ (w ≡ 64)
    → unit_of c ≡ some u
    → n * u < 2 ^ w
    → read_digits w n (c ∷ []) ≡ value (n * u)
unfolding read_digits suffix
read_suffix w n c u k e h =
    let d = unit-no_digit c u e in
    rw (d) (
      pick w n u (c == b'k' || c == b'K') (c == b'm' || c == b'M') (c == b'g' || c == b'G')
        (c == b't' || c == b'T') (c == b'p' || c == b'P') k e h)
