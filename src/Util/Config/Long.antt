-- ===== src/Util/Config/Long.antt =====
-- util/config.h: checkNumberString and getLong. Numbers of 64 bits with a sign are words; `atol` of the C
-- library is a parameter.
use dbstream.Common.{
  ℕ, ◌+◌, ◌%◌, ◌^◌, ◌≡◌, ap, ◌∙◌, inl, inr, Bool, true, false, not, ◌&&◌, ◌||◌, List, [], ◌∷◌,
  Option, none, some, ltb, if◌then◌else◌, Bool-cases, arith,
}
use dbstream.Util.Config.{Sections, get}
use dbstream.Util.Config.Numbers.{is_digit}

abbrev pub less_signed : ℕ → ℕ → Bool
less_signed a b = ltb ((a + 2 ^ 63) % 2 ^ 64) ((b + 2 ^ 63) % 2 ^ 64)

abbrev pub within : ℕ → ℕ → ℕ → Bool
within v min max = not (less_signed v min) && not (less_signed max v)

unfoldable pub all_digits : List ℕ → Bool
all_digits [] = true
all_digits (c ∷ s) = all_digits s && is_digit c

unfoldable pub clamp : ℕ → ℕ → ℕ → ℕ
clamp v min max = if less_signed v min then min else if less_signed max v then max else v

module _ (atol : List ℕ → ℕ) where
  unfoldable pub check_number_string : List ℕ → ℕ → ℕ → Bool
  check_number_string num max min =
      if not (all_digits num)
      then false
      else if less_signed max (atol num) || less_signed (atol num) min
      then false
      else true

  abbrev long_or : List ℕ → ℕ → ℕ → ℕ → ℕ
  long_or [] default min max = default
  long_or (c ∷ s) default min max = clamp (atol (c ∷ s)) min max

  -- `none` is the assertion on the bounds and the default.
  unfoldable pub get_long : Sections → List ℕ → List ℕ → ℕ → ℕ → ℕ → Option ℕ
  get_long m section key default min max =
      if within default min max && not (less_signed max min)
      then some (long_or (get m section key none) default min max)
      else none

  -- The result lies between the bounds.
  clamp-within :
      (v min max : ℕ) → less_signed max min ≡ false → within (clamp v min max) min max ≡ true
  unfolding clamp
  clamp-within v min max b = elim (Bool-cases (less_signed v min)) [
    | inl l ↦ rw (l) (ground arith)
    | inr l ↦ elim (Bool-cases (less_signed max v)) [
      | inl g ↦ rw (l, g) (ground arith)
      | inr g ↦ rw (l, g) (ground arith)
    ]
  ]

  long_or-within :
      (s : List ℕ) (default min max : ℕ)
      → within default min max ≡ true
      → less_signed max min ≡ false
      → within (long_or s default min max) min max ≡ true
  long_or-within [] default min max d b = d
  long_or-within (c ∷ s) default min max d b = clamp-within (atol (c ∷ s)) min max b

  -- With bounds and a default that the assertion accepts, getLong gives a number between the bounds,
  -- whatever the configuration says.
  pub get_long-within :
      (m : Sections) (section key : List ℕ) (default min max : ℕ)
      → within default min max ≡ true
      → less_signed max min ≡ false
      → (v : ℕ) × (get_long m section key default min max ≡ some v) × (within v min max ≡ true)
  unfolding get_long
  get_long-within m section key default min max d b = (
    long_or (get m section key none) default min max,
    ap
          (λ x.
            if x && not (less_signed max min)
            then some (long_or (get m section key none) default min max)
            else none)
          d
        ∙ ap (λ x. if not x then some (long_or (get m section key none) default min max) else none)
            b,
    long_or-within (get m section key none) default min max d b,
  )
