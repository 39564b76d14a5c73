-- ===== src/Util/Config/Numbers.antt =====
-- util/config.h: numbers in a configuration: char2num, getIntConf for the two types
-- without a sign, getUint32 and getUint64. A byte from 128 on is negative as a char. `w` is the number of bits
-- of the type.
use dbstream.Common.{
  ℕ, ◌+◌, ◌-◌, ◌*◌, ◌%◌, ◌^◌, Bool, true, false, ◌&&◌, ◌||◌, List, [], ◌∷◌, ltb, leb, ◌==◌,
  if◌then◌else◌,
}

abbrev pub is_blank : ℕ → Bool
is_blank c = c == 0x09 || c == b' ' || c == 0x0a || c == 0x0d

unfoldable pub trim_start : List ℕ → List ℕ
trim_start [] = []
trim_start (c ∷ s) = if is_blank c then trim_start s else c ∷ s

abbrev pub unless_blank : ℕ → List ℕ → List ℕ
unless_blank c [] = if is_blank c then [] else c ∷ []
unless_blank c (d ∷ s) = c ∷ d ∷ s

unfoldable pub trim_end : List ℕ → List ℕ
trim_end [] = []
trim_end (c ∷ s) = unless_blank c (trim_end s)

unfoldable pub trim : List ℕ → List ℕ
trim s = trim_end (trim_start s)

-- What char2num comes to: a result and the number, or a read behind the 0 at the text's end.
pub data Scan : Type 0 where
  result : Bool → ℕ → Scan
  beyond : Scan

-- The loop takes every byte up to '9', the 0 at the end of the text as well. The number wraps around.
unfoldable pub scan_num : ℕ → List ℕ → Scan
scan_num n [] = beyond
scan_num n (c ∷ s) =
    let rest = scan_num ((n * 10 + c + 2 ^ 64 - b'0') % 2 ^ 64) s in
    if leb c b'9' then rest else result false n

unfoldable pub char2num : List ℕ → Scan
char2num s = scan_num 0 s

-- What getIntConf gives: a value, or one of its messages.
pub data IntConf : Type 0 where
  value : ℕ → IntConf
  is_negative : IntConf
  is_too_large : IntConf
  is_not_number : IntConf

abbrev pub is_digit : ℕ → Bool
is_digit c = leb b'0' c && leb c b'9'

-- `tmpValue * unit < tmpValue` of the type itself.
abbrev pub scaled : ℕ → ℕ → ℕ → IntConf
scaled w tmp unit =
    if ltb (tmp * unit % 2 ^ w) tmp then is_too_large else value (tmp * unit % 2 ^ w)

-- With a unit of type `long long`, the test of a number of 32 bits is one of 64 bits with a sign.
abbrev pub scaled_long : ℕ → ℕ → ℕ → IntConf
scaled_long w tmp unit =
    let wide = tmp * unit % 2 ^ 64 in
    if ltb wide tmp || (w == 32 && leb (2 ^ 63) wide)
    then is_too_large
    else value (tmp * unit % 2 ^ w)

-- The last byte, if it is no digit.
unfoldable pub suffix : ℕ → ℕ → ℕ → IntConf
suffix w tmp c =
    if c == b'k' || c == b'K'
    then scaled w tmp (2 ^ 10)
    else if c == b'm' || c == b'M'
    then scaled w tmp (2 ^ 20)
    else if c == b'g' || c == b'G'
    then scaled w tmp (2 ^ 30)
    else if c == b't' || c == b'T'
    then scaled_long w tmp (2 ^ 40)
    else if c == b'p' || c == b'P'
    then scaled_long w tmp (2 ^ 50)
    else is_not_number

abbrev pub is_end : List ℕ → Bool
is_end [] = true
is_end (c ∷ s) = false

unfoldable pub read_digits : ℕ → ℕ → List ℕ → IntConf
read_digits w tmp [] = value tmp
read_digits w tmp (c ∷ s) =
    let next = (tmp * 10 + c - b'0') % 2 ^ w in
    let rest = read_digits w next s in
    if is_digit c
    then (if ltb next tmp then is_too_large else rest)
    else if is_end s
    then suffix w tmp c
    else is_not_number

abbrev pub first : List ℕ → ℕ
first [] = 0
first (c ∷ s) = c

unfoldable pub get_int_conf : ℕ → List ℕ → IntConf
get_int_conf w s = if first s == b'-' then is_negative else read_digits w 0 (trim s)

-- What getUint32 and getUint64 give.
pub data Setting : Type 0 where
  accepted : ℕ → Setting
  refused : IntConf → Setting
  greater : Setting
  less : Setting

unfoldable pub get_uint : ℕ → List ℕ → ℕ → ℕ → Setting
get_uint w s min max = elim (get_int_conf w s) [
  | value v ↦ if ltb max v then greater else if ltb v min then less else accepted v
  | is_negative ↦ refused is_negative
  | is_too_large ↦ refused is_too_large
  | is_not_number ↦ refused is_not_number
]
