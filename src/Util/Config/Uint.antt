-- ===== src/Util/Config/Uint.antt =====
-- getUint32 and getUint64 on the texts of numbers.
use dbstream.Common.{
  ℕ, ◌+◌, ◌-◌, ◌*◌, ◌%◌, ◌^◌, ◌≤◌, ◌<◌, ◌≡◌, refl, sym, ap, subst, ◌≢◌, ◌⊎◌, inl, inr, true, false,
  some, List, [], ◌∷◌, ◌++◌, ltb, ◌==◌, arith,
}
use mathlib.Core.Option.{some-injective}
use dbstream.Util.Config.Numbers.{
  is_blank, trim_start, unless_blank, trim_end, trim, value, is_digit, read_digits, first,
  get_int_conf, accepted, greater, less, get_uint,
}
use dbstream.Util.Config.Digits.{AllDigits, number, read_digits-number, factor, read_suffix}

abbrev AllPlain : List ℕ → Type 0
AllPlain [] = Unit
AllPlain (c ∷ s) = (is_blank c ≡ false) × AllPlain s

trim_end-AllPlain : (s : List ℕ) → AllPlain s → trim_end s ≡ s
unfolding trim_end
trim_end-AllPlain [] p = refl
trim_end-AllPlain (c ∷ []) (b, p) = rw (b) refl
trim_end-AllPlain (c ∷ d ∷ s) (b, p) = ap (unless_blank c) (trim_end-AllPlain (d ∷ s) p)

trim-AllPlain : (s : List ℕ) → AllPlain s → trim s ≡ s
unfolding trim trim_start
trim-AllPlain [] p = trim_end-AllPlain [] p
trim-AllPlain (c ∷ s) (b, p) = rw (b) (trim_end-AllPlain (c ∷ s) (b, p))

factor-AllPlain : (e : List ℕ) (u : ℕ) → factor e ≡ some u → AllPlain e
factor-AllPlain [] u h = tt
factor-AllPlain (c ∷ []) u h = (ground arith, tt)
factor-AllPlain (c ∷ d ∷ e) u h = absurd (ground arith)

digits-AllPlain : (s e : List ℕ) → AllDigits s → AllPlain e → AllPlain (s ++ e)
digits-AllPlain [] e a p = p
digits-AllPlain (c ∷ s) e (lo, hi, a) p = (ground arith, digits-AllPlain s e a p)

no_minus :
    (s e : List ℕ) (u : ℕ) → AllDigits s → factor e ≡ some u → (first (s ++ e) == b'-') ≡ false
no_minus [] [] u a h = refl
no_minus [] (c ∷ []) u a h = ground arith
no_minus [] (c ∷ d ∷ e) u a h = absurd (ground arith)
no_minus (c ∷ s) e u (lo, hi, a) h = ground arith

read_end :
    (w n u : ℕ) (e : List ℕ)
    → (w ≡ 32) ⊎ (w ≡ 64)
    → factor e ≡ some u
    → n * u < 2 ^ w
    → read_digits w n e ≡ value (n * u)
unfolding read_digits
read_end w n u [] k h l =
    let one : 1 ≡ u = some-injective 1 u h in ap value (subst (λ v. n ≡ n * v) one (omega arith))
read_end w n u (c ∷ []) k h l = read_suffix w n c u k h l
read_end w n u (c ∷ d ∷ e) k h l = absurd (ground arith)

get_int_conf-number :
    (w : ℕ) (s e : List ℕ) (u : ℕ)
    → (w ≡ 32) ⊎ (w ≡ 64)
    → AllDigits s
    → factor e ≡ some u
    → number 0 s < 2 ^ w
    → number 0 s * u < 2 ^ w
    → get_int_conf w (s ++ e) ≡ value (number 0 s * u)
unfolding get_int_conf
get_int_conf-number w s e u k a h small l =
    let m = no_minus s e u a h in
    let t = trim-AllPlain (s ++ e) (digits-AllPlain s e a (factor-AllPlain e u h)) in
    rw (m, t, read_digits-number w 0 s e a small) (read_end w (number 0 s) u e k h l)

-- For a text of digits, with nothing or one of the letters k, m, g, t and p behind them, in either case,
-- whose number times the letter's power of 1024 fits into the type of 32 or 64 bits, getUint32 and
-- getUint64 accept exactly the numbers between the bounds, and give that number; of the others they say
-- on which side they are.
pub get_uint-number :
    (w : ℕ) (s e : List ℕ) (u min max : ℕ)
    → (w ≡ 32) ⊎ (w ≡ 64)
    → AllDigits s
    → factor e ≡ some u
    → number 0 s < 2 ^ w
    → number 0 s * u < 2 ^ w
    → let v = number 0 s * u in
      ((min ≤ v) → (v ≤ max) → get_uint w (s ++ e) min max ≡ accepted v)
      × ((max < v) → get_uint w (s ++ e) min max ≡ greater)
      × ((v ≤ max) → (v < min) → get_uint w (s ++ e) min max ≡ less)
unfolding get_uint
get_uint-number w s e u min max k a h small l =
    let c = get_int_conf-number w s e u k a h small l in
    (
      λ x y.
          let g : ltb max (number 0 s * u) ≡ false = ground (arith, y) in
          let o : ltb (number 0 s * u) min ≡ false = ground (arith, x) in
          rw (get_uint, c, g, o) refl,
      λ x. let g : ltb max (number 0 s * u) ≡ true = ground (arith, x) in rw (get_uint, c, g) refl,
      λ x y.
          let g : ltb max (number 0 s * u) ≡ false = ground (arith, x) in
          let o : ltb (number 0 s * u) min ≡ true = ground (arith, y) in
          rw (get_uint, c, g, o) refl,
    )

number-append : (n : ℕ) (s : List ℕ) (c : ℕ) → number n (s ++ c ∷ []) ≡ number n s * 10 + (c - b'0')
number-append n [] c = refl
number-append n (d ∷ s) c = number-append (n * 10 + (d - b'0')) s c

digit_no_minus :
    (s : List ℕ) (c : ℕ) → AllDigits s → b'0' ≤ c → (first (s ++ c ∷ []) == b'-') ≡ false
digit_no_minus [] c a lo = ground arith
digit_no_minus (d ∷ s) c (l, h, a) lo = ground arith

mod-lt_width : (w n : ℕ) → (w ≡ 32) ⊎ (w ≡ 64) → n % 2 ^ w < 2 ^ w
mod-lt_width w n (inl e) = subst (λ v. n % 2 ^ v < 2 ^ v) (sym e) (omega arith)
mod-lt_width w n (inr e) = subst (λ v. n % 2 ^ v < 2 ^ v) (sym e) (omega arith)

-- The test for an overflow compares with the number before the digit only: if a digit makes a number of
-- 32 or 64 bits wrap around to one that is not smaller, the wrapped number is the result. It is another
-- than the text's.
pub get_int_conf-wraps :
    (w : ℕ) (s : List ℕ) (c : ℕ)
    → (w ≡ 32) ⊎ (w ≡ 64)
    → AllDigits s
    → b'0' ≤ c
    → c ≤ b'9'
    → number 0 s < 2 ^ w
    → 2 ^ w ≤ number 0 (s ++ c ∷ [])
    → number 0 s ≤ number 0 (s ++ c ∷ []) % 2 ^ w
    → (get_int_conf w (s ++ c ∷ []) ≡ value (number 0 (s ++ c ∷ []) % 2 ^ w))
      × (number 0 (s ++ c ∷ []) % 2 ^ w ≢ number 0 (s ++ c ∷ []))
unfolding get_int_conf read_digits
get_int_conf-wraps w s c k a lo hi small big wrap =
    let m = digit_no_minus s c a lo in
    let t = trim-AllPlain (s ++ c ∷ []) (digits-AllPlain s (c ∷ []) a (ground arith, tt)) in
    let p = number-append 0 s c in
    let q : number 0 s * 10 + c - b'0' ≡ number 0 (s ++ c ∷ []) = omega (arith, p) in
    let d : is_digit c ≡ true = ground arith in
    let x = mod-lt_width w (number 0 (s ++ c ∷ [])) k in
    let g : ltb (number 0 (s ++ c ∷ []) % 2 ^ w) (number 0 s) ≡ false = ground (arith, wrap) in
    (rw (m, t, read_digits-number w 0 s (c ∷ []) a small, q, d, g) refl, λ e. omega (arith, e))
