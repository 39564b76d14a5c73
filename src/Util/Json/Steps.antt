-- ===== src/Util/Json/Steps.antt =====
-- One step of Parse and of its loops, and the fuel that a value takes.
use dbstream.Common.{ℕ, suc, ◌+◌, ◌≡◌, refl, true, false, List, ◌∷◌, ◌==◌}
use dbstream.Util.Json.{
  Json, str, num, obj, arr, bool, Items, nil, item, Fields, end, field, insert_key,
}
use dbstream.Util.Json.Chars.{
  done, fault, ◌>>=◌, head, tail, advance, skip_space, distance, parse_string, parse_num,
  parse_bool, j_string, j_num, j_object, j_array, j_bool, get_type,
}
use dbstream.Util.Json.Parse.{parse_value, parse_items, parse_fields, parse_key, inserted, next}

-- The fuel for a value.
unfoldable mutual
  pub weight : Json → ℕ
  weight (str s) = 0
  weight (num n) = 0
  weight (obj fs) = 1 + weight_fields fs
  weight (arr xs) = 1 + weight_items xs
  weight (bool b) = 0

  pub weight_items : Items → ℕ
  weight_items nil = 0
  weight_items (item v xs) = 1 + weight v + weight_items xs

  pub weight_fields : Fields → ℕ
  weight_fields end = 0
  weight_fields (field k v fs) = 1 + weight v + weight_fields fs

-- One call of Parse, for each kind.
module _ (f : ℕ) (text : List ℕ) where
  pub on_num :
      get_type text ≡ j_num
      → parse_value (suc f) text ≡ (parse_num text >>= λ (n, size). done (num n, size))
  unfolding parse_value
  on_num e = rw (parse_value, e) refl

  pub on_string :
      get_type text ≡ j_string
      → parse_value (suc f) text ≡ (parse_string text >>= λ (s, size). done (str s, size))
  unfolding parse_value
  on_string e = rw (parse_value, e) refl

  pub on_bool :
      get_type text ≡ j_bool
      → parse_value (suc f) text ≡ (parse_bool text >>= λ (b, size). done (bool b, size))
  unfolding parse_value
  on_bool e = rw (parse_value, e) refl

  pub on_array :
      get_type text ≡ j_array
      → parse_value (suc f) text
        ≡ (parse_items f (tail (skip_space text)) >>= λ (xs, q). done (arr xs, distance text q + 1))
  unfolding parse_value
  on_array e = rw (parse_value, e) refl

  pub on_object :
      get_type text ≡ j_object
      → parse_value (suc f) text ≡ (
          parse_fields f end (tail (skip_space text)) >>= λ (m, q).
          done (obj m, distance text q + 1))
  unfolding parse_value
  on_object e = rw (parse_value, e) refl

-- One round of the loop of an array.
pub items_step :
    (f c : ℕ) (p q r : List ℕ) (v : Json) (n : ℕ)
    → skip_space (c ∷ p) ≡ q
    → (head q == b']') ≡ false
    → parse_value f q ≡ done (v, n)
    → advance n q ≡ done r
    → parse_items (suc f) (c ∷ p)
      ≡ next b']'
          (skip_space r)
          (done (item v nil, skip_space r))
          (parse_items f (tail (skip_space r)) >>= λ (xs, s). done (item v xs, s))
unfolding parse_value
items_step f c p q r v n e h one past = rw (e, h, one, past) refl

pub items_fault :
    (f c : ℕ) (p q : List ℕ) (v : Json) (n : ℕ)
    → skip_space (c ∷ p) ≡ q
    → (head q == b']') ≡ false
    → parse_value f q ≡ done (v, n)
    → advance n q ≡ fault
    → parse_items (suc f) (c ∷ p) ≡ fault
unfolding parse_value
items_fault f c p q v n e h one past = rw (e, h, one, past) refl

-- One round of the loop of an object.
pub fields_step :
    (f c : ℕ) (m m' : Fields) (p q r s k : List ℕ) (v : Json) (n : ℕ)
    → skip_space (c ∷ p) ≡ q
    → (head q == b'}') ≡ false
    → parse_key q ≡ done (k, b':' ∷ r)
    → parse_value f r ≡ done (v, n)
    → advance n r ≡ done s
    → inserted (insert_key k v m) ≡ done m'
    → parse_fields (suc f) m (c ∷ p)
      ≡ next b'}' (skip_space s) (done (m', skip_space s)) (parse_fields f m' (tail (skip_space s)))
unfolding parse_value
fields_step f c m m' p q r s k v n e h key one past put = rw (e, h, key, one, past, put) refl

pub items_stop :
    (f c : ℕ) (p q : List ℕ)
    → skip_space (c ∷ p) ≡ q
    → (head q == b']') ≡ true
    → parse_items (suc f) (c ∷ p) ≡ done (nil, q)
unfolding parse_value
items_stop f c p q e h = rw (e, h) refl

pub fields_stop :
    (f c : ℕ) (m : Fields) (p q : List ℕ)
    → skip_space (c ∷ p) ≡ q
    → (head q == b'}') ≡ true
    → parse_fields (suc f) m (c ∷ p) ≡ done (m, q)
unfolding parse_value
fields_stop f c m p q e h = rw (e, h) refl
