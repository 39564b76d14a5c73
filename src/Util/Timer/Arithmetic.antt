-- ===== src/Util/Timer/Arithmetic.antt =====
-- Sums and differences of time stamps.
use dbstream.Common.{ℕ, ◌+◌, ◌-◌, ◌*◌, ◌/◌, ◌%◌, ◌^◌, ◌<◌, ◌≡◌, refl, ◌≢◌, ◌⊎◌, arith}
use dbstream.Util.Timer.{Timestamp, time, of_time, add, difference, delta}

abbrev pub IsNormal : Timestamp → Type 0
IsNormal t = (t.nano_seconds < 1000000000) × (t.seconds < 2 ^ 34)

-- The nanoseconds since the epoch.
abbrev pub value : Timestamp → ℕ
value t = t.seconds * 1000000000 + t.nano_seconds

of_time-time : (t : Timestamp) → t.nano_seconds < 2 ^ 30 → t.seconds < 2 ^ 34 → of_time (time t) ≡ t
unfolding of_time time
of_time-time t h k =
    let a : (t.nano_seconds + t.seconds * 2 ^ 30) % 2 ^ 30 ≡ t.nano_seconds = omega arith in
    let b : (t.nano_seconds + t.seconds * 2 ^ 30) / 2 ^ 30 % 2 ^ 34 ≡ t.seconds = omega arith in
    rw (a, b) refl

-- A sum of time stamps, of less than 2^34 seconds, has the sum of the values. It is normal, too, but
-- for one case: if the nanoseconds add up to 10^9, this second is not carried.
add-value :
    (t : Timestamp) (s ns : ℕ)
    → IsNormal t
    → ns < 1000000000
    → t.seconds + s + 1 < 2 ^ 34
    → (value (add t s ns) ≡ value t + (s * 1000000000 + ns))
      × (((t.nano_seconds + ns ≢ 1000000000) × IsNormal (add t s ns))
          ⊎ ((t.nano_seconds + ns ≡ 1000000000) × ((add t s ns).nano_seconds ≡ 1000000000)))
unfolding add
add-value t s ns n h k = ground arith

later-delta :
    (s d : Timestamp)
    → IsNormal s
    → IsNormal d
    → value d < value s
    → value d + value (delta (time s) (time d)) ≡ value s
unfolding delta
later-delta s d m n lt =
    rw (of_time-time s (omega (arith, m)) m.1, of_time-time d (omega (arith, n)) n.1)
      (unfold difference in ground arith)

same-delta :
    (t : Timestamp)
    → IsNormal t
    → delta (time t) (time t) ≡ record { nano_seconds = 1000000000; seconds = 2 ^ 34 - 1 }
unfolding delta
same-delta t n = rw (of_time-time t (omega (arith, n)) n.1) (unfold difference in ground arith)

-- The difference of a later and an earlier normal time stamp has the difference of the values; that of
-- a time stamp and itself is not 0 but close to 2^34 seconds.
pub delta-value :
    (s d : Timestamp)
    → IsNormal s
    → IsNormal d
    → value d < value s
    → (value d + value (delta (time s) (time d)) ≡ value s)
      × (delta (time s) (time s) ≡ record { nano_seconds = 1000000000; seconds = 2 ^ 34 - 1 })
delta-value s d m n lt = (later-delta s d m n lt, same-delta s m)
