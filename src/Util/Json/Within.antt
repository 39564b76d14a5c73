-- ===== src/Util/Json/Within.antt =====
-- Where the runs of the parser's parts end: how far they go, and that they do.
use dbstream.Common.{
  ℕ, zero, suc, ◌+◌, ◌≤◌, ◌≡◌, inl, inr, Bool, true, false, List, [], ◌∷◌, Option, none, some,
  arith, ◌==◌, Bool-cases, length,
}
use dbstream.Util.Json.Chars.{
  Run, done, failed, fault, no_fuel, ◌>>=◌, head, tail, advance, is_space, is_digit, skip_space,
  distance, parse_string, parse_num, parse_bool, parse_long, to_quote, same_word, true_word,
  false_word, true_word, false_word,
}
use dbstream.Util.Json.Parse.{parse_key, nonempty}

-- The run ends, and `P` holds of its result, if it has one.
abbrev pub Ends : {A : Type 0} → (A → Type 0) → Run A → Type 0
Ends P (done a) = P a
Ends P failed = Unit
Ends P fault = Unit
Ends P no_fuel = ⊥

pub Ends-bind :
    {A B : Type 0} (P : A → Type 0) (Q : B → Type 0) (r : Run A) (f : A → Run B)
    → Ends P r
    → ((a : A) → P a → Ends Q (f a))
    → Ends Q (r >>= f)
Ends-bind P Q (done a) f h k = k a h
Ends-bind P Q failed f h k = tt
Ends-bind P Q fault f h k = tt
Ends-bind P Q no_fuel f h k = absurd h

pub Ends-map :
    {A : Type 0} (P Q : A → Type 0) (r : Run A) → ((a : A) → P a → Q a) → Ends P r → Ends Q r
Ends-map P Q (done a) k h = k a h
Ends-map P Q failed k h = tt
Ends-map P Q fault k h = tt
Ends-map P Q no_fuel k h = absurd h

pub length-skip_space : (p : List ℕ) → length (skip_space p) ≤ length p
unfolding skip_space
length-skip_space [] = omega arith
length-skip_space (c ∷ p) = elim (Bool-cases (is_space c)) [
  | inl e ↦ rw e (omega (arith, length-skip_space p))
  | inr e ↦ rw e (omega arith)
]

-- A pointer that has advanced to `q`, no longer than `p`.
pub advance-Ends : (n : ℕ) (p : List ℕ) → Ends (λ q. length q ≤ length p) (advance n p)
advance-Ends zero p = omega arith
advance-Ends (suc n) [] = tt
advance-Ends (suc n) (c ∷ p) = Ends-map _ _ (advance n p) (λ q h. omega arith) (advance-Ends n p)

-- The size of a result is at most one more than the text's.
abbrev pub Within : {A : Type 0} → List ℕ → A × ℕ → Type 0
Within text r = r.1 ≤ length text + 1

pub parse_string-Ends : (text : List ℕ) → Ends (Within text) (parse_string text)
unfolding parse_string
parse_string-Ends text = elim (Bool-cases (head (skip_space text) == b'"')) [
  | inr e ↦ rw e tt
  | inl e ↦ rw e (go (to_quote (tail (skip_space text))))
]
  where
    go :
        (o : Option (List ℕ × List ℕ))
        → Ends (Within text) (elim o [ none ↦ failed | some (s, q) ↦ done (s, distance text q) ])
    go none = tt
    go (some (s, q)) = omega arith

parse_long-Ends : (minus : Bool) (text q : List ℕ) → Ends (Within text) (parse_long minus text q)
unfolding parse_long
parse_long-Ends minus text q = elim (Bool-cases (is_digit (head q))) [
  | inr e ↦ rw e tt
  | inl e ↦ rw e (omega arith)
]

pub parse_num-Ends : (text : List ℕ) → Ends (Within text) (parse_num text)
unfolding parse_num
parse_num-Ends text = elim (Bool-cases (head (skip_space text) == b'-')) [
  | inl e ↦ rw e (parse_long-Ends true text (tail (skip_space text)))
  | inr e ↦ rw e (parse_long-Ends false text (skip_space text))
]

same_word-length : (ws p : List ℕ) → same_word ws p ≡ true → length ws ≤ length p
unfolding same_word
same_word-length [] p h = omega arith
same_word-length (w ∷ ws) [] h = cc
same_word-length (w ∷ ws) (c ∷ p) h = ground (arith, same_word-length ws p)

pub parse_bool-Ends : (text : List ℕ) → Ends (Within text) (parse_bool text)
unfolding parse_bool
parse_bool-Ends text = elim (Bool-cases (same_word true_word (skip_space text))) [
  | inl e ↦
      rw e (omega (arith, length-skip_space text, same_word-length true_word (skip_space text) e))
  | inr e ↦ elim (Bool-cases (same_word false_word (skip_space text))) [
    | inl g ↦
        rw (e, g)
          (omega (arith, length-skip_space text, same_word-length false_word (skip_space text) g))
    | inr g ↦ rw (e, g) tt
  ]
]

nonempty-Ends : (k : List ℕ) → Ends (λ u. Unit) (nonempty k)
nonempty-Ends [] = tt
nonempty-Ends (c ∷ k) = tt

pub parse_key-Ends : (p : List ℕ) → Ends (λ r. length r.1 ≤ length p) (parse_key p)
unfolding parse_key
parse_key-Ends p = Ends-bind (Within p) _ (parse_string p) _ (parse_string-Ends p) λ (k, size) h.
    Ends-bind (λ u. Unit) _ (nonempty k) _ (nonempty-Ends k)
      λ u g.
        Ends-bind (λ q. length q ≤ length p) _ (advance size p) _ (advance-Ends size p)
          λ q l. omega (arith, length-skip_space q)
