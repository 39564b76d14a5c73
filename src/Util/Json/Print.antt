-- ===== src/Util/Json/Print.antt =====
-- util/json.cpp: the functions toString.
use dbstream.Common.{
  ℕ, zero, suc, ◌+◌, ◌-◌, ◌/◌, ◌%◌, ◌^◌, Bool, true, false, List, [], ◌∷◌, ◌++◌, ltb, if◌then◌else◌,
}
use dbstream.Util.Json.{Json, str, num, obj, arr, bool, Items, nil, item, Fields, end, field}
use dbstream.Util.Json.Chars.{true_word, false_word}

abbrev pub tabs : ℕ → List ℕ
tabs zero = []
tabs (suc n) = 0x09 ∷ tabs n

-- The digits of a number, as `sprintf` writes them; a `long` has at most 19.
unfoldable pub digits : ℕ → ℕ → List ℕ
digits zero n = []
digits (suc f) n =
    let more = digits f (n / 10) ++ (b'0' + n % 10) ∷ [] in
    if ltb n 10 then (b'0' + n) ∷ [] else more

unfoldable pub long_string : ℕ → List ℕ
long_string n = if ltb n (2 ^ 63) then digits 20 n else b'-' ∷ digits 20 (2 ^ 64 - n)

abbrev pub has_parts : Json → Bool
has_parts (obj fs) = true
has_parts (arr xs) = true
has_parts (str s) = false
has_parts (num n) = false
has_parts (bool b) = false

abbrev pub comma : Bool → List ℕ
comma first = if first then [] else b',' ∷ 0x0a ∷ []

abbrev pub quoted : List ℕ → List ℕ
quoted s = b'"' ∷ (s ++ b'"' ∷ [])

unfoldable mutual
  pub to_string : ℕ → Json → List ℕ
  to_string level (str s) = tabs level ++ quoted s
  to_string level (num n) = tabs level ++ long_string n
  to_string level (obj fs) =
      tabs level
      ++ (b'{' ∷ 0x0a ∷ (fields_string level true fs ++ (0x0a ∷ (tabs level ++ b'}' ∷ []))))
  to_string level (arr xs) =
      tabs level
      ++ (b'[' ∷ 0x0a ∷ (items_string level true xs ++ (0x0a ∷ (tabs level ++ b']' ∷ []))))
  to_string level (bool b) = if b then true_word else false_word

  pub items_string : ℕ → Bool → Items → List ℕ
  items_string level first nil = []
  items_string level first (item v xs) =
      comma first ++ (to_string (suc level) v ++ items_string level false xs)

  pub fields_string : ℕ → Bool → Fields → List ℕ
  fields_string level first end = []
  fields_string level first (field k v fs) =
      comma first
      ++ (tabs (suc level)
          ++ (quoted k
              ++ (b':'
                  ∷ ((if has_parts v then 0x0a ∷ to_string (suc level) v else to_string 0 v)
                      ++ fields_string level false fs))))
