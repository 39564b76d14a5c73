-- ===== src/Util/Json/Parse.antt =====
-- util/json.cpp: jsonValue::Parse, jsonObject::parse and jsonArray::parse. A result is the value and
-- its size, as the code returns it. Each call costs a unit of fuel.
use dbstream.Common.{
  ℕ, zero, suc, ◌+◌, ◌*◌, not, List, [], ◌∷◌, Option, none, some, ◌==◌, if◌then◌else◌, length,
}
use dbstream.Util.Json.{Json, str, num, obj, arr, bool, Items, nil, item, Fields, end, insert_key}
use dbstream.Util.Json.Chars.{
  Run, done, failed, no_fuel, ◌>>=◌, head, tail, advance, skip_space, distance, parse_string,
  parse_num, parse_bool, j_string, j_num, j_object, j_array, j_bool, j_nulltype, get_type,
}

abbrev pub inserted : Option Fields → Run Fields
inserted none = failed
inserted (some m) = done m

abbrev pub nonempty : List ℕ → Run (Unit {0})
nonempty [] = failed
nonempty (c ∷ k) = done tt

-- `*ptr` is to be this byte.
abbrev pub expect : ℕ → List ℕ → Run (Unit {0})
expect c p = if head p == c then done tt else failed

-- The string of a key, and what follows it.
unfoldable pub parse_key : List ℕ → Run (List ℕ × List ℕ)
parse_key p = do
  (k, size) ← parse_string p
  nonempty k >>= λ _. advance size p >>= λ q. done (k, skip_space q)

-- What stands behind an element: the end of the loop, or a comma and another round.
abbrev pub next {ℓ} : {A : Type ℓ} → ℕ → List ℕ → Run A → Run A → Run A
next close q stop more =
    if head q == close then stop else if not (head q == b',') then failed else more

unfoldable mutual
  pub parse_value : ℕ → List ℕ → Run (Json × ℕ)
  parse_value zero text = no_fuel
  parse_value (suc f) text = elim (get_type text) [
    | j_num ↦ (do (n, size) ← parse_num text; done (num n, size))
    | j_string ↦ (do (s, size) ← parse_string text; done (str s, size))
    | j_object ↦ (do
      (m, q) ← parse_fields f end (tail (skip_space text))
      done (obj m, distance text q + 1))
    | j_array ↦ (do
      (xs, q) ← parse_items f (tail (skip_space text))
      done (arr xs, distance text q + 1))
    | j_bool ↦ (do (b, size) ← parse_bool text; done (bool b, size))
    | j_nulltype ↦ failed
  ]

  -- The loop of jsonArray::parse, from one element on, and where it stops.
  pub parse_items : ℕ → List ℕ → Run (Items × List ℕ)
  parse_items zero p = no_fuel
  parse_items (suc f) [] = done (nil, [])
  parse_items (suc f) (c ∷ p) =
      let q = skip_space (c ∷ p) in
      let one = (do
        (v, size) ← parse_value f q
        r ← advance size q
        next b']' (skip_space r) (done (item v nil, skip_space r))
            (do (xs, s) ← parse_items f (tail (skip_space r)); done (item v xs, s))) in
      if head q == b']' then done (nil, q) else one

  -- The loop of jsonObject::parse, with the fields that the map has.
  pub parse_fields : ℕ → Fields → List ℕ → Run (Fields × List ℕ)
  parse_fields zero m p = no_fuel
  parse_fields (suc f) m [] = done (m, [])
  parse_fields (suc f) m (c ∷ p) =
      let q = skip_space (c ∷ p) in
      let one = (do
        (k, r) ← parse_key q
        expect b':' r >>= λ _. do
          (v, size) ← parse_value f (tail r)
          s ← advance size (tail r)
          m' ← inserted (insert_key k v m)
          next b'}' (skip_space s) (done (m', skip_space s))
              (parse_fields f m' (tail (skip_space s)))) in
      if head q == b'}' then done (m, q) else one

-- Each call within takes a byte at least from every second one.
unfoldable pub parse : List ℕ → Run (Json × ℕ)
parse text = parse_value (2 * length text + 1) text
