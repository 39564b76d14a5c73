-- ===== src/Util/Timer.antt =====
-- util/timer.h, struct timestamp: seconds and nanoseconds in the 34 and the 30 bits of one word.
-- The clock and the thread that runs the timers are not modelled.
pub mod Arithmetic
use dbstream.Common.{ℕ, ◌+◌, ◌-◌, ◌*◌, ◌/◌, ◌%◌, ◌^◌, ltb, if◌then◌else◌}

pub record Timestamp : Type 0 where
  pub nano_seconds : ℕ
  pub seconds : ℕ

-- The two views of the union, the low bits first.
unfoldable pub time : Timestamp → ℕ
time t = t.nano_seconds + t.seconds * 2 ^ 30

unfoldable pub of_time : ℕ → Timestamp
of_time w = record { nano_seconds = w % 2 ^ 30; seconds = w / 2 ^ 30 % 2 ^ 34 }

-- `add`, of a number of seconds that is not negative. The sum of the nanoseconds has 32 bits.
unfoldable pub add : Timestamp → ℕ → ℕ → Timestamp
add t second nano_second =
    let sum = (t.nano_seconds + nano_second) % 2 ^ 32 in
    if ltb 1000000000 sum
    then record {
      nano_seconds = (sum - 1000000000) % 2 ^ 30;
      seconds = (t.seconds + (second + 1)) % 2 ^ 34;
    }
    else record { nano_seconds = sum % 2 ^ 30; seconds = (t.seconds + second) % 2 ^ 34 }

unfoldable pub difference : Timestamp → Timestamp → Timestamp
difference st dt =
    if ltb dt.nano_seconds st.nano_seconds
    then record {
      seconds = (st.seconds + 2 ^ 34 - dt.seconds) % 2 ^ 34;
      nano_seconds = st.nano_seconds - dt.nano_seconds;
    }
    else record {
      seconds = (st.seconds + 2 ^ 35 - dt.seconds - 1) % 2 ^ 34;
      nano_seconds = (st.nano_seconds + 1000000000 - dt.nano_seconds) % 2 ^ 30;
    }

unfoldable pub delta : ℕ → ℕ → Timestamp
delta s d = difference (of_time s) (of_time d)
