-- ===== src/Util/RingFixedQueue.antt =====
-- util/ringFixedQueue.h: a ring queue with one thread that pushes and many that pop.
-- Calls run one at a time, without a time to wait: a pop's compare-and-swap succeeds at once. `& mask`
-- is the remainder by the size of the array, a power of two. The code's int32_t positions do not
-- exceed 31 bits, since the size does not.
pub mod Refine
use dbstream.Common.{
  ℕ, zero, suc, ◌+◌, ◌-◌, ◌*◌, ◌%◌, ◌^◌, Bool, true, false, List, Option, none, some, ltb, ◌==◌,
  if◌then◌else◌, get_elem?, set,
}

pub record RingFixedQueue {ℓ} (A : Type ℓ) : Type ℓ where
  pub array : List A
  pub array_size : ℕ
  pub head : ℕ
  pub end : ℕ

module _ {ℓ} {A : Type ℓ} where
  unfoldable pub new_ring : List A → ℕ → RingFixedQueue A
  new_ring memory n = record { array = memory; array_size = n; head = 0; end = 0 }

  unfoldable pub push : A → RingFixedQueue A → Bool × RingFixedQueue A
  push x q =
      let next = (q.head + 1) % 2 ^ 32 % q.array_size in
      if next == q.end
      then (false, q)
      else (true, record q { array = set q.array q.head x; head = next })

  unfoldable pub pop : RingFixedQueue A → Option A × RingFixedQueue A
  pop q =
      if q.end == q.head
      then (none, q)
      else (get_elem? q.array q.end, record q { end = (q.end + 1) % 2 ^ 32 % q.array_size })

  -- The result is unsigned: a negative difference wraps around.
  unfoldable pub size : RingFixedQueue A → ℕ
  size q =
      if ltb q.head q.end then q.head + q.array_size - q.end else (q.end + 2 ^ 32 - q.head) % 2 ^ 32
