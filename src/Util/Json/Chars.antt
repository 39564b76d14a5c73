-- ===== src/Util/Json/Chars.antt =====
-- util/json.cpp: white space, and the values without parts. A text is the list of its bytes, none of
-- them 0; the 0 behind it is the end of the list.
use dbstream.Common.{
  ℕ, zero, suc, ◌+◌, ◌-◌, ◌*◌, ◌%◌, ◌^◌, Bool, true, false, not, ◌&&◌, ◌||◌, List, [], ◌∷◌, Option,
  none, some, leb, ◌==◌, if◌then◌else◌, length,
}

-- What a call comes to: `failed` is a null pointer or a negative size, `fault` a read behind the
-- text's end, and `no_fuel` has no counterpart in the code.
pub data Run {ℓ} (A : Type ℓ) : Type ℓ where
  done : A → Run A
  failed fault no_fuel : Run A

infixl 5 ◌>>=◌
abbrev pub ◌>>=◌ {ℓ κ} : {A : Type ℓ} {B : Type κ} → Run A → (A → Run B) → Run B
done a >>= f = f a
failed >>= f = failed
fault >>= f = fault
no_fuel >>= f = no_fuel

-- `*ptr`
abbrev pub head : List ℕ → ℕ
head [] = 0
head (c ∷ p) = c

abbrev pub tail : List ℕ → List ℕ
tail [] = []
tail (c ∷ p) = p

-- `ptr += size`
abbrev pub advance : ℕ → List ℕ → Run (List ℕ)
advance zero p = done p
advance (suc n) [] = fault
advance (suc n) (c ∷ p) = advance n p

abbrev pub is_space : ℕ → Bool
is_space c = c == b' ' || c == 0x09 || c == 0x0a || c == 0x0d

abbrev pub is_digit : ℕ → Bool
is_digit c = leb c b'9' && leb b'0' c

unfoldable pub skip_space : List ℕ → List ℕ
skip_space [] = []
skip_space (c ∷ p) = if is_space c then skip_space p else c ∷ p

-- `ptr - data`
abbrev pub distance : List ℕ → List ℕ → ℕ
distance text p = length text - length p

-- `strchr` of the quote: what stands before it and behind it.
unfoldable pub to_quote : List ℕ → Option (List ℕ × List ℕ)
to_quote [] = none
to_quote (c ∷ p) =
    let more = to_quote p in
    if c == b'"' then some ([], p) else elim more [ none ↦ none | some (s, q) ↦ some (c ∷ s, q) ]

unfoldable pub parse_string : List ℕ → Run (List ℕ × ℕ)
parse_string text =
    let p = skip_space text in
    if not (head p == b'"')
    then failed
    else elim (to_quote (tail p)) [ none ↦ failed | some (s, q) ↦ done (s, distance text q) ]

-- The digits; `long` wraps around.
unfoldable pub parse_digits : ℕ → List ℕ → ℕ × List ℕ
parse_digits n [] = (n, [])
parse_digits n (c ∷ p) =
    let more = parse_digits ((n * 10 + (c - b'0')) % 2 ^ 64) p in
    if is_digit c then more else (n, c ∷ p)

abbrev pub negated : Bool → ℕ → ℕ
negated minus n = if minus then (2 ^ 64 - n) % 2 ^ 64 else n

-- The part behind the sign.
unfoldable pub parse_long : Bool → List ℕ → List ℕ → Run (ℕ × ℕ)
parse_long minus text q =
    if not (is_digit (head q))
    then failed
    else let (n, r) = parse_digits 0 q in done (negated minus n, distance text r)

unfoldable pub parse_num : List ℕ → Run (ℕ × ℕ)
parse_num text =
    let p = skip_space text in
    if head p == b'-' then parse_long true text (tail p) else parse_long false text p

abbrev pub lower : ℕ → ℕ
lower c = if leb b'A' c && leb c b'Z' then c + 32 else c

-- `strncasecmp` with a text in small letters finds no difference.
unfoldable pub same_word : List ℕ → List ℕ → Bool
same_word [] p = true
same_word (w ∷ ws) [] = false
same_word (w ∷ ws) (c ∷ p) = lower c == w && same_word ws p

abbrev pub true_word : List ℕ
true_word = b't' ∷ b'r' ∷ b'u' ∷ b'e' ∷ []

abbrev pub false_word : List ℕ
false_word = b'f' ∷ b'a' ∷ b'l' ∷ b's' ∷ b'e' ∷ []

unfoldable pub parse_bool : List ℕ → Run (Bool × ℕ)
parse_bool text =
    let p = skip_space text in
    if same_word true_word p
    then done (true, 4 + distance text p)
    else if same_word false_word p
    then done (false, 5 + distance text p)
    else failed

pub data Kind : Type 0 where
  j_string j_num j_object j_array j_bool j_nulltype : Kind

-- The kind of what stands behind the white space.
unfoldable pub type_at : List ℕ → Kind
type_at p =
    let c = head p in
    if c == b'{'
    then j_object
    else if c == b'['
    then j_array
    else if c == b'"'
    then j_string
    else if is_digit c
    then j_num
    else if c == b'-' && is_digit (head (tail p))
    then j_num
    else if same_word true_word p || same_word false_word p
    then j_bool
    else j_nulltype

unfoldable pub get_type : List ℕ → Kind
unfolding type_at
get_type text = type_at (skip_space text)
