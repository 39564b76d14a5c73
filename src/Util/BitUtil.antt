-- ===== src/Util/BitUtil.antt =====
-- util/bitUtil.h: the position of the highest bit that is set, counted from 1; 0 if none is.
-- The bytes of a number are read through a pointer, the low one first, as on the machines that the
-- program runs on; a mask of one bit tests a digit of the number in base 2.
pub mod HighPos
use dbstream.Common.{ℕ, ◌+◌, ◌/◌, ◌%◌, ◌^◌, Bool, not, ◌==◌, if◌then◌else◌}

abbrev pub bit : ℕ → ℕ → Bool
bit c n = c / 2 ^ n % 2 == 1

unfoldable pub high_pos_of_uchar : ℕ → ℕ
high_pos_of_uchar c =
    if not (c / 16 % 16 == 0)
    then (if bit c 7
        then 8
        else if bit c 6
        then 7
        else if bit c 5
        then 6
        else if bit c 4
        then 5
        else 0)
    else if not (c == 0)
    then (if bit c 3
        then 4
        else if bit c 2
        then 3
        else if bit c 1
        then 2
        else if bit c 0
        then 1
        else 0)
    else 0

unfoldable pub high_pos_of_ushort : ℕ → ℕ
high_pos_of_ushort s =
    if not (s / 2 ^ 8 == 0)
    then 8 + high_pos_of_uchar (s / 2 ^ 8)
    else high_pos_of_uchar (s % 2 ^ 8)

unfoldable pub high_pos_of_uint : ℕ → ℕ
high_pos_of_uint i =
    if not (i / 2 ^ 16 == 0)
    then 16 + high_pos_of_ushort (i / 2 ^ 16)
    else high_pos_of_ushort (i % 2 ^ 16)

unfoldable pub high_pos_of_ulong : ℕ → ℕ
high_pos_of_ulong l =
    if not (l / 2 ^ 32 == 0)
    then 32 + high_pos_of_uint (l / 2 ^ 32)
    else high_pos_of_uint (l % 2 ^ 32)
