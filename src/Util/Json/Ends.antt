-- ===== src/Util/Json/Ends.antt =====
-- Parse always comes to an end: the fuel is enough for every text.
use dbstream.Common.{
  ℕ, zero, suc, ◌+◌, ◌*◌, ◌≤◌, ◌<◌, ◌≡◌, refl, sym, ◌∙◌, ◌≢◌, inl, inr, true, List, [], ◌∷◌, Option,
  none, some, arith, ◌==◌, Bool-cases, length,
}
use dbstream.Util.Json.{Fields, end, insert_key}
use dbstream.Util.Json.Chars.{
  Run, head, tail, advance, skip_space, parse_string, parse_num, parse_bool, Kind, j_string, j_num,
  j_object, j_array, j_bool, j_nulltype, get_type, same_word, type_at,
}
use dbstream.Util.Json.Steps.{on_num, on_string, on_bool, on_array, on_object}
use dbstream.Util.Json.Parse.{
  parse_value, parse_items, parse_fields, parse_key, expect, inserted, next, parse,
}
use dbstream.Util.Json.Within.{
  Ends, Ends-bind, Ends-map, length-skip_space, advance-Ends, Within, parse_string-Ends,
  parse_num-Ends, parse_bool-Ends, parse_key-Ends,
}

length-tail : (p : List ℕ) → length (tail p) ≤ length p
length-tail [] = omega arith
length-tail (c ∷ p) = omega arith

-- What opens an array or an object is there.
opened :
    (text : List ℕ) (k : Kind)
    → get_type text ≡ k
    → k ≢ j_nulltype
    → length (tail (skip_space text)) + 1 ≤ length text
unfolding get_type
opened text k e n = go (skip_space text) (length-skip_space text) e
  where
    go : (p : List ℕ) → length p ≤ length text → type_at p ≡ k → length (tail p) + 1 ≤ length text
    go [] h g = absurd (n (sym g ∙ unfold type_at same_word in refl))
    go (c ∷ p) h g = omega arith

expect-Ends : (c : ℕ) (p : List ℕ) → Ends (λ u. Unit) (expect c p)
expect-Ends c p = elim (Bool-cases (head p == c)) [ inl e ↦ rw e tt | inr e ↦ rw e tt ]

inserted-Ends : (o : Option Fields) → Ends (λ m. Unit) (inserted o)
inserted-Ends none = tt
inserted-Ends (some m) = tt

tail_shorter : (q : List ℕ) → (head q == b',') ≡ true → length (tail q) + 1 ≤ length q
tail_shorter [] h = cc
tail_shorter (c ∷ q) h = omega arith

next-Ends :
    {A : Type 0} (P : A → Type 0) (c : ℕ) (q : List ℕ) (stop more : Run A)
    → Ends P stop
    → ((head q == b',') ≡ true → Ends P more)
    → Ends P (next c q stop more)
next-Ends P c q stop more hs hm = elim (Bool-cases (head q == c)) [
  | inl e ↦ rw e hs
  | inr e ↦ elim (Bool-cases (head q == b',')) [ inl g ↦ rw (e, g) (hm g) | inr g ↦ rw (e, g) tt ]
]

abbrev Shorter : {A : Type 0} → List ℕ → A × List ℕ → Type 0
Shorter p r = length r.1 ≤ length p

mutual
  unfolding parse_value

  value-Ends :
      (f : ℕ) (text : List ℕ) → 2 * length text < f → Ends (Within text) (parse_value f text)
  value-Ends zero text h = absurd (omega arith)
  value-Ends (suc f) text h =
      (elim (get_type text)
          as (λ k. get_type text ≡ k → Ends (Within text) (parse_value (suc f) text)) [
            | j_num ↦ λ e.
                rw (on_num f text e)
                  (Ends-bind (Within text) _ (parse_num text) _ (parse_num-Ends text) λ r l. l)
            | j_string ↦ λ e.
                rw (on_string f text e) (
                  Ends-bind (Within text) _ (parse_string text) _ (parse_string-Ends text) λ r l. l)
            | j_bool ↦ λ e.
                rw (on_bool f text e)
                  (Ends-bind (Within text) _ (parse_bool text) _ (parse_bool-Ends text) λ r l. l)
            | j_array ↦ λ e.
                let o = opened text j_array e (cc) in
                rw (on_array f text e) (
                  Ends-bind (Shorter (tail (skip_space text))) _
                    (parse_items f (tail (skip_space text))) _
                    (items-Ends f (tail (skip_space text)) (omega arith)) λ r l. omega arith)
            | j_object ↦ λ e.
                let o = opened text j_object e (cc) in
                rw (on_object f text e) (
                  Ends-bind (Shorter (tail (skip_space text))) _
                    (parse_fields f end (tail (skip_space text))) _
                    (fields-Ends f end (tail (skip_space text)) (omega arith)) λ r l. omega arith)
            | j_nulltype ↦ λ e. rw (parse_value, e) tt
          ])
        refl

  items-Ends : (f : ℕ) (p : List ℕ) → 2 * length p + 1 < f → Ends (Shorter p) (parse_items f p)
  items-Ends zero p h = absurd (omega arith)
  items-Ends (suc f) [] h = omega arith
  items-Ends (suc f) (c ∷ p) h =
      let q = skip_space (c ∷ p) in
      let lq = length-skip_space (c ∷ p) in
      elim (Bool-cases (head q == b']')) [
        | inl e ↦ rw e lq
        | inr e ↦ rw e (
            Ends-bind (Within q) _ (parse_value f q) _ (value-Ends f q (omega arith)) λ (v, size) b.
              Ends-bind (λ r. length r ≤ length q) _ (advance size q) _ (advance-Ends size q)
                λ r l.
                  let s = skip_space r in
                  let ls = length-skip_space r in
                  next-Ends (Shorter (c ∷ p)) b']' s _ _ (omega arith) λ g.
                    let t = tail_shorter s g in
                    Ends-bind (Shorter (tail s)) _ (parse_items f (tail s)) _
                      (items-Ends f (tail s) (omega arith)) λ z y. omega arith)
      ]

  fields-Ends :
      (f : ℕ) (m : Fields) (p : List ℕ)
      → 2 * length p + 1 < f
      → Ends (Shorter p) (parse_fields f m p)
  fields-Ends zero m p h = absurd (omega arith)
  fields-Ends (suc f) m [] h = omega arith
  fields-Ends (suc f) m (c ∷ p) h =
      let q = skip_space (c ∷ p) in
      let lq = length-skip_space (c ∷ p) in
      elim (Bool-cases (head q == b'}')) [
        | inl e ↦ rw e lq
        | inr e ↦ rw e (
            Ends-bind (λ r. length r.1 ≤ length q) _ (parse_key q) _ (parse_key-Ends q)
              λ (k, r) lr.
                let lt = length-tail r in
                Ends-bind (λ u. Unit) _ (expect b':' r) _ (expect-Ends b':' r)
                  λ u o.
                    Ends-bind (Within (tail r)) _ (parse_value f (tail r)) _
                      (value-Ends f (tail r) (omega arith))
                      λ (v, size) b.
                        Ends-bind (λ z. length z ≤ length (tail r)) _ (advance size (tail r)) _
                          (advance-Ends size (tail r))
                          λ s0 l.
                            Ends-bind (λ z. Unit) _ (inserted (insert_key k v m)) _
                              (inserted-Ends (insert_key k v m))
                              λ m' o'.
                                let s = skip_space s0 in
                                let ls = length-skip_space s0 in
                                next-Ends (Shorter (c ∷ p)) b'}' s _ _ (omega arith) λ g.
                                  let t = tail_shorter s g in
                                  Ends-map (Shorter (tail s)) _ (parse_fields f m' (tail s))
                                    (λ z y. omega arith) (fields-Ends f m' (tail s) (omega arith)))
      ]

-- On every text, `parse` comes to an end, with a value, a failure or a read behind the text; and the
-- size that it gives with a value is at most one more than the length of the text.
pub parse-Ends : (text : List ℕ) → Ends (Within text) (parse text)
unfolding parse
parse-Ends text = value-Ends (2 * length text + 1) text (omega arith)
