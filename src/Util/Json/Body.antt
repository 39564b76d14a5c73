-- ===== src/Util/Json/Body.antt =====
-- The text of a value without the tabs before it, and the kind that it shows.
use mathlib.Core.List.{append_assoc}
use dbstream.Common.{
  ℕ, ◌+◌, ◌-◌, ◌^◌, ◌<◌, ◌≡◌, refl, ap, ◌∙◌, ◌≢◌, inl, inr, true, false, List, [], ◌∷◌, ◌++◌, arith,
  ltb, ◌==◌, if◌then◌else◌, Bool-cases, length, length-append,
}
use dbstream.Util.Json.{Json, str, num, obj, arr, bool, Items, nil, item, Fields, end, field, less}
use dbstream.Util.Json.Chars.{
  head, is_space, is_digit, skip_space, distance, same_word, true_word, false_word, Kind, j_string,
  j_num, j_object, j_array, j_bool, type_at, get_type,
}
use dbstream.Util.Json.Print.{
  tabs, digits, long_string, quoted, to_string, items_string, fields_string,
}
use dbstream.Util.Json.Words.{
  Spaces, IsPlain, tabs-Spaces, skip_space-Spaces, skip_space_none, digits_head,
}

abbrev pub indent : ℕ → Json → List ℕ
indent level (str s) = tabs level
indent level (num n) = tabs level
indent level (obj fs) = tabs level
indent level (arr xs) = tabs level
indent level (bool b) = []

-- The end of an object or an array, behind its parts.
abbrev pub close : ℕ → ℕ → List ℕ
close level c = 0x0a ∷ (tabs level ++ c ∷ [])

abbrev pub body : ℕ → Json → List ℕ
body level (str s) = quoted s
body level (num n) = long_string n
body level (obj fs) = b'{' ∷ 0x0a ∷ (fields_string level true fs ++ close level b'}')
body level (arr xs) = b'[' ∷ 0x0a ∷ (items_string level true xs ++ close level b']')
body level (bool b) = if b then true_word else false_word

pub to_string-body : (level : ℕ) (v : Json) → to_string level v ≡ indent level v ++ body level v
unfolding to_string
to_string-body level (str s) = refl
to_string-body level (num n) = refl
to_string-body level (obj fs) = refl
to_string-body level (arr xs) = refl
to_string-body level (bool b) = refl

pub indent-Spaces : (level : ℕ) (v : Json) → Spaces (indent level v)
indent-Spaces level (str s) = tabs-Spaces level
indent-Spaces level (num n) = tabs-Spaces level
indent-Spaces level (obj fs) = tabs-Spaces level
indent-Spaces level (arr xs) = tabs-Spaces level
indent-Spaces level (bool b) = tt

abbrev pub kind : Json → Kind
kind (str s) = j_string
kind (num n) = j_num
kind (obj fs) = j_object
kind (arr xs) = j_array
kind (bool b) = j_bool

abbrev pub AllAbove : List ℕ → Fields → Type 0
AllAbove k end = Unit
AllAbove k (field j v fs) = (less k j ≡ true) × AllAbove k fs

-- What a value is printed and parsed back from: strings without quotes, keys that are not empty and
-- ascend, as they do in a `std::map`, and numbers of 64 bits.
unfoldable mutual
  pub IsPrintable : Json → Type 0
  IsPrintable (str s) = IsPlain s
  IsPrintable (num n) = n < 2 ^ 64
  IsPrintable (obj fs) = ArePrintable fs
  IsPrintable (arr xs) = EachIsPrintable xs
  IsPrintable (bool b) = Unit

  pub EachIsPrintable : Items → Type 0
  EachIsPrintable nil = Unit
  EachIsPrintable (item v xs) = IsPrintable v × EachIsPrintable xs

  pub ArePrintable : Fields → Type 0
  ArePrintable end = Unit
  ArePrintable (field k v fs) =
      (k ≢ []) × IsPlain k × AllAbove k fs × IsPrintable v × ArePrintable fs

body_head :
    (level : ℕ) (v : Json) (p : List ℕ)
    → IsPrintable v
    → is_space (head (body level v ++ p)) ≡ false
unfolding IsPrintable long_string
body_head level (str s) p h = refl
body_head level (num n) p h = elim (Bool-cases (ltb n (2 ^ 63))) [
  | inl low ↦ let d = digits_head 19 n p (omega arith) in rw low (ground (arith, d))
  | inr high ↦ rw high refl
]
body_head level (obj fs) p h = refl
body_head level (arr xs) p h = refl
body_head level (bool true) p h = refl
body_head level (bool false) p h = refl

pub skip_space-body :
    (level : ℕ) (v : Json) (w p : List ℕ)
    → IsPrintable v
    → Spaces w
    → skip_space (w ++ (body level v ++ p)) ≡ body level v ++ p
skip_space-body level v w p h hw =
    skip_space-Spaces w (body level v ++ p) hw
    ∙ skip_space_none (body level v ++ p) (body_head level v p h)

type_at-digit : (p : List ℕ) → is_digit (head p) ≡ true → type_at p ≡ j_num
unfolding type_at
type_at-digit p h = ground (arith, h)

type_at-body :
    (level : ℕ) (v : Json) (p : List ℕ) → IsPrintable v → type_at (body level v ++ p) ≡ kind v
unfolding IsPrintable long_string
type_at-body level (str s) p h = unfold type_at in refl
type_at-body level (num n) p h = elim (Bool-cases (ltb n (2 ^ 63))) [
  | inl low ↦ rw low (type_at-digit (digits 20 n ++ p) (digits_head 19 n p (omega arith)))
  | inr high ↦
      let d = digits_head 19 (2 ^ 64 - n) p (omega arith) in rw high (unfold type_at in rw d refl)
]
type_at-body level (obj fs) p h = unfold type_at in refl
type_at-body level (arr xs) p h = unfold type_at in refl
type_at-body level (bool true) p h = unfold type_at same_word in refl
type_at-body level (bool false) p h = unfold type_at same_word in refl

pub get_type-body :
    (level : ℕ) (v : Json) (w p : List ℕ)
    → IsPrintable v
    → Spaces w
    → get_type (w ++ (body level v ++ p)) ≡ kind v
unfolding get_type
get_type-body level v w p h hw =
    ap type_at (skip_space-body level v w p h hw) ∙ type_at-body level v p h

-- No value begins like the end of an object or an array.
pub body_opens :
    (level : ℕ) (v : Json) (p : List ℕ) → IsPrintable v → (head (body level v ++ p) == b']') ≡ false
unfolding IsPrintable long_string
body_opens level (str s) p h = refl
body_opens level (num n) p h = elim (Bool-cases (ltb n (2 ^ 63))) [
  | inl low ↦ let d = digits_head 19 n p (omega arith) in rw low (ground (arith, d))
  | inr high ↦ rw high refl
]
body_opens level (obj fs) p h = refl
body_opens level (arr xs) p h = refl
body_opens level (bool true) p h = refl
body_opens level (bool false) p h = refl

pub skip_space-close :
    (level c : ℕ) (w p : List ℕ)
    → Spaces w
    → is_space c ≡ false
    → skip_space (w ++ (close level c ++ p)) ≡ c ∷ p
skip_space-close level c w p hw hc =
    skip_space-Spaces w (close level c ++ p) hw
    ∙ rw (append_assoc (tabs level) (c ∷ []) p) (
        skip_space-Spaces (0x0a ∷ tabs level) (c ∷ p) (refl, tabs-Spaces level)
        ∙ skip_space_none (c ∷ p) hc)

-- What stands between the beginning of a text and the end of its second part.
pub distance-closed :
    (w b p : List ℕ) (c : ℕ)
    → 0 < length b
    → distance (w ++ (b ++ p)) (c ∷ p) + 1 ≡ length w + length b
distance-closed w b p c h = omega (arith, length-append {0} w (b ++ p), length-append {0} b p)
