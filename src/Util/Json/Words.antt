-- ===== src/Util/Json/Words.antt =====
-- Reading back the values without parts, and the white space before a value.
use native.Mathlib.Nat.{pow-suc}
use mathlib.Core.List.{append_assoc}
use dbstream.Common.{
  ℕ, zero, suc, ◌+◌, ◌-◌, ◌*◌, ◌/◌, ◌%◌, ◌^◌, ◌<◌, ◌≡◌, refl, sym, ap, ◌∙◌, ◌≢◌, inl, inr, Bool,
  true, false, List, [], ◌∷◌, ◌++◌, some, arith, ltb, ◌==◌, if◌then◌else◌, Bool-cases, length,
  length-append, All,
}
use dbstream.Util.Json.Chars.{
  done, head, advance, is_space, is_digit, skip_space, distance, to_quote, parse_string,
  parse_digits, negated, parse_long, parse_num, same_word, true_word, false_word, parse_bool,
}
use dbstream.Util.Json.Print.{tabs, digits, long_string, quoted}

abbrev pub Spaces : List ℕ → Type 0
Spaces = All (λ c. is_space c ≡ true)

-- What may stand behind a number.
abbrev pub Stops : List ℕ → Type 0
Stops p = is_digit (head p) ≡ false

-- What a text between quotes can be made of.
abbrev pub IsPlain : List ℕ → Type 0
IsPlain = All (λ c. (c ≢ 0) × (c ≢ b'"'))

pub tabs-Spaces : (n : ℕ) → Spaces (tabs n)
tabs-Spaces zero = tt
tabs-Spaces (suc n) = (refl, tabs-Spaces n)

pub skip_space-Spaces : (w p : List ℕ) → Spaces w → skip_space (w ++ p) ≡ skip_space p
unfolding skip_space
skip_space-Spaces [] p h = refl
skip_space-Spaces (c ∷ w) p h = rw (h.0) (skip_space-Spaces w p h.1)

pub skip_space_none : (p : List ℕ) → is_space (head p) ≡ false → skip_space p ≡ p
unfolding skip_space
skip_space_none [] h = refl
skip_space_none (c ∷ p) h = rw h refl

pub advance-append : (xs p : List ℕ) → advance (length xs) (xs ++ p) ≡ done p
advance-append [] p = refl
advance-append (x ∷ xs) p = advance-append xs p

pub advance-second : (w xs p : List ℕ) → advance (length w + length xs) (w ++ (xs ++ p)) ≡ done p
advance-second w xs p =
    rw (← length-append w xs, ← append_assoc w xs p) (advance-append (w ++ xs) p)

pub distance-append : (xs p : List ℕ) → distance (xs ++ p) p ≡ length xs
distance-append xs p = omega (arith, length-append {0} xs p)

pub distance-second : (w xs p : List ℕ) → distance (w ++ (xs ++ p)) p ≡ length w + length xs
distance-second w xs p = omega (arith, length-append {0} w (xs ++ p), length-append {0} xs p)

to_quote-quoted : (s p : List ℕ) → IsPlain s → to_quote (s ++ b'"' ∷ p) ≡ some (s, p)
unfolding to_quote
to_quote-quoted [] p h = refl
to_quote-quoted (c ∷ s) p h =
    let e : (c == b'"') ≡ false = ground (arith, h.0.1) in rw (e, to_quote-quoted s p h.1) refl

pub parse_string-quoted :
    (w s p : List ℕ)
    → Spaces w
    → IsPlain s
    → parse_string (w ++ (quoted s ++ p)) ≡ done (s, length w + length (quoted s))
unfolding parse_string
parse_string-quoted w s p hw hs =
    let e : skip_space (w ++ (quoted s ++ p)) ≡ quoted s ++ p =
      skip_space-Spaces w _ hw ∙ skip_space_none (quoted s ++ p) refl in
    let q : to_quote ((s ++ b'"' ∷ []) ++ p) ≡ some (s, p) =
      rw append_assoc (to_quote-quoted s p hs) in
    rw (e, parse_string, q) (ap (λ n. done (s, n)) (distance-second w (quoted s) p))

-- The digits of a number, read after some others.
parse_digits-digits :
    (f n : ℕ) (p : List ℕ)
    → n < 10 ^ f
    → n < 2 ^ 64
    → parse_digits 0 (digits f n ++ p) ≡ parse_digits n p
unfolding parse_digits digits
parse_digits-digits zero n p h k = let e : n ≡ 0 = omega arith in rw e refl
parse_digits-digits (suc f) n p h k = elim (Bool-cases (ltb n 10)) [
  | inl one ↦
      let d : is_digit (b'0' + n) ≡ true = ground arith in
      let e : (0 * 10 + (b'0' + n - b'0')) % 2 ^ 64 ≡ n = ground arith in rw (one, d, e) refl
  | inr more ↦
      let d : is_digit (b'0' + n % 10) ≡ true = ground arith in
      let e : (n / 10 * 10 + (b'0' + n % 10 - b'0')) % 2 ^ 64 ≡ n = omega arith in
      let less : n / 10 < 10 ^ f = (let q = pow-suc 10 f in omega arith) in
      rw (more, append_assoc)
        (parse_digits-digits f (n / 10) ((b'0' + n % 10) ∷ p) less (omega arith) ∙ rw (d, e) refl)
]

parse_digits-Stops : (n : ℕ) (p : List ℕ) → Stops p → parse_digits n p ≡ (n, p)
unfolding parse_digits
parse_digits-Stops n [] h = refl
parse_digits-Stops n (c ∷ p) h = rw h refl

pub digits_head :
    (f n : ℕ) (p : List ℕ) → n < 10 ^ suc f → is_digit (head (digits (suc f) n ++ p)) ≡ true
unfolding digits
digits_head zero n p h = let one : ltb n 10 ≡ true = ground arith in rw one (ground arith)
digits_head (suc f) n p h = elim (Bool-cases (ltb n 10)) [
  | inl one ↦ rw one (ground arith)
  | inr more ↦
      let less : n / 10 < 10 ^ suc f = (let q = pow-suc 10 (suc f) in omega arith) in
      rw (more, append_assoc) (digits_head f (n / 10) _ less)
]

parse_long-digits :
    (minus : Bool) (pre : List ℕ) (n : ℕ) (p : List ℕ)
    → Stops p
    → n < 2 ^ 64
    → parse_long minus (pre ++ (digits 20 n ++ p)) (digits 20 n ++ p)
      ≡ done (negated minus n, length pre + length (digits 20 n))
unfolding parse_long
parse_long-digits minus pre n p hp h =
    let d : is_digit (head (digits 20 n ++ p)) ≡ true = digits_head 19 n p (omega arith) in
    let e : parse_digits 0 (digits 20 n ++ p) ≡ (n, p) =
      parse_digits-digits 20 n p (omega arith) h ∙ parse_digits-Stops n p hp in
    rw (d, e) (ap (λ m. done (negated minus n, m)) (distance-second pre (digits 20 n) p))

long_string_head : (n : ℕ) (p : List ℕ) → n < 2 ^ 64 → is_space (head (long_string n ++ p)) ≡ false
unfolding long_string
long_string_head n p h = elim (Bool-cases (ltb n (2 ^ 63))) [
  | inl low ↦
      let d : is_digit (head (digits 20 n ++ p)) ≡ true = digits_head 19 n p (omega arith) in
      rw low (ground (arith, d))
  | inr high ↦ rw high refl
]

pub parse_num-long_string :
    (w : List ℕ) (n : ℕ) (p : List ℕ)
    → Spaces w
    → Stops p
    → n < 2 ^ 64
    → parse_num (w ++ (long_string n ++ p)) ≡ done (n, length w + length (long_string n))
unfolding parse_num long_string
parse_num-long_string w n p hw hp h = elim (Bool-cases (ltb n (2 ^ 63))) [
  | inl low ↦
      let d : is_digit (head (digits 20 n ++ p)) ≡ true = digits_head 19 n p (omega arith) in
      let m : (head (digits 20 n ++ p) == b'-') ≡ false = ground (arith, d) in
      let s : is_space (head (digits 20 n ++ p)) ≡ false = ground (arith, d) in
      let e : skip_space (w ++ (digits 20 n ++ p)) ≡ digits 20 n ++ p =
        skip_space-Spaces w _ hw ∙ skip_space_none (digits 20 n ++ p) s in
      rw (low, e, m) (parse_long-digits false w n p hp h)
  | inr high ↦
      let k : ℕ = 2 ^ 64 - n in
      let e : skip_space (w ++ (b'-' ∷ (digits 20 k ++ p))) ≡ b'-' ∷ (digits 20 k ++ p) =
        skip_space-Spaces w _ hw ∙ skip_space_none (b'-' ∷ (digits 20 k ++ p)) refl in
      let text : w ++ (b'-' ∷ (digits 20 k ++ p)) ≡ (w ++ b'-' ∷ []) ++ (digits 20 k ++ p) =
        sym (append_assoc w (b'-' ∷ []) (digits 20 k ++ p)) in
      let back : (2 ^ 64 - (2 ^ 64 - n)) % 2 ^ 64 ≡ n = ground (arith, high) in
      let l : length (w ++ b'-' ∷ []) ≡ length w + 1 = length-append w (b'-' ∷ []) in
      rw (high, e, text)
        (parse_long-digits true (w ++ b'-' ∷ []) k p hp (ground (arith, high))
          ∙ rw (back, l) (ap (λ m. done (n, m)) (omega arith)))
]

pub parse_bool-word :
    (w : List ℕ) (b : Bool) (p : List ℕ)
    → Spaces w
    → parse_bool (w ++ ((if b then true_word else false_word) ++ p))
      ≡ done (b, length w + length (if b then true_word else false_word))
unfolding parse_bool same_word
parse_bool-word w true p hw =
    let e : skip_space (w ++ (true_word ++ p)) ≡ true_word ++ p =
      skip_space-Spaces w _ hw ∙ skip_space_none (true_word ++ p) refl in
    let d = distance-second w [] (true_word ++ p) in
    rw (e, d) (ap (λ m. done (true, m)) (omega arith))
parse_bool-word w false p hw =
    let e : skip_space (w ++ (false_word ++ p)) ≡ false_word ++ p =
      skip_space-Spaces w _ hw ∙ skip_space_none (false_word ++ p) refl in
    let d = distance-second w [] (false_word ++ p) in
    rw (e, d) (ap (λ m. done (false, m)) (omega arith))
