-- ===== src/Util/Json/Weight.antt =====
-- The fuel that a value takes is less than twice its text.
use dbstream.Common.{
  ℕ, suc, ltb, ◌^◌, Bool-cases, inl, inr, ◌+◌, ◌*◌, ◌≤◌, ◌<◌, Bool, true, false, List, arith,
  length, length-append,
}
use dbstream.Util.Json.{Json, str, num, obj, arr, bool, Items, nil, item, Fields, end, field}
use dbstream.Util.Json.Print.{digits, long_string, to_string, items_string, fields_string}
use dbstream.Util.Json.Body.{
  close, body, to_string-body, IsPrintable, EachIsPrintable, ArePrintable,
}
use dbstream.Util.Json.Steps.{weight, weight_items, weight_fields}
use dbstream.Util.Json.Members.{inner, value_text}

digits_pos : (f n : ℕ) → 0 < length (digits (suc f) n)
unfolding digits
digits_pos f n = elim (Bool-cases (ltb n 10)) [
  | inl one ↦ rw one (omega arith)
  | inr more ↦ rw (more, length-append) (omega arith)
]

long_string_pos : (n : ℕ) → 0 < 2 * length (long_string n)
unfolding long_string
long_string_pos n = elim (Bool-cases (ltb n (2 ^ 63))) [
  | inl low ↦ rw low (omega (arith, digits_pos 19 n))
  | inr high ↦ rw high (omega arith)
]

items_text_length :
    (level : ℕ) (first : Bool) (v : Json) (xs : Items)
    → length (body (suc level) v) + length (items_string level false xs)
      ≤ length (items_string level first (item v xs))
unfolding to_string
items_text_length level first v xs =
    rw (length-append, length-append, to_string-body (suc level) v, length-append) (omega arith)

fields_text_length :
    (level : ℕ) (first : Bool) (k : List ℕ) (v : Json) (fs : Fields)
    → length (body (inner level v) v) + length (fields_string level false fs) + 1
      ≤ length (fields_string level first (field k v fs))
unfolding to_string
fields_text_length level first k v fs = rw (value_text level v) (simp (length-append) (omega arith))

mutual
  unfolding weight IsPrintable

  pub weight-lt : (v : Json) (level : ℕ) → IsPrintable v → weight v < 2 * length (body level v)
  weight-lt (str s) level h = omega arith
  weight-lt (num n) level h = long_string_pos n
  weight-lt (obj fs) level h = omega (
    arith,
    length-append {0} (fields_string level true fs) (close level b'}'),
    weight_fields-le fs level true h,
  )
  weight-lt (arr xs) level h = omega (
    arith,
    length-append {0} (items_string level true xs) (close level b']'),
    weight_items-le xs level true h,
  )
  weight-lt (bool true) level h = omega arith
  weight-lt (bool false) level h = omega arith

  pub weight_items-le :
      (xs : Items) (level : ℕ) (first : Bool)
      → EachIsPrintable xs
      → weight_items xs ≤ 2 * length (items_string level first xs)
  weight_items-le nil level first h = omega arith
  weight_items-le (item v xs) level first h =
      let t = items_text_length level first v xs in
      omega (arith, t, weight-lt v (suc level) h.0, weight_items-le xs level false h.1)

  pub weight_fields-le :
      (fs : Fields) (level : ℕ) (first : Bool)
      → ArePrintable fs
      → weight_fields fs ≤ 2 * length (fields_string level first fs)
  weight_fields-le end level first h = omega arith
  weight_fields-le (field k v fs) level first h =
      let t = fields_text_length level first k v fs in
      omega (arith, t, weight-lt v (inner level v) h.3, weight_fields-le fs level false h.4)
