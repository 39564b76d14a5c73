-- ===== src/Util/ArrayQueue.antt =====
-- util/arrayQueue.h: a queue in an array that is used round and round, one place always free.
-- `& m_mask`, with one less than a power of two, is the remainder by that power. Push and pop run one
-- at a time; the variants that wait for room or for an element do the same once they have it.
pub mod Refine
pub mod Volumn
use dbstream.Common.{
  ℕ, zero, suc, ◌+◌, ◌*◌, ◌%◌, ◌^◌, Bool, true, false, List, [], ◌∷◌, Option, none, some, ltb, ◌==◌,
  if◌then◌else◌, get_elem?, set,
}

-- The loop of `calVolumn`; a power of two in 32 bits is reached in 32 rounds.
unfoldable pub volumn_from : ℕ → ℕ → ℕ → Option ℕ
volumn_from zero s size = none
volumn_from (suc fuel) s size =
    let next = (s * 2) % 2 ^ 32 in
    let rest = volumn_from fuel next size in if ltb next size then rest else some next

unfoldable pub cal_volumn : ℕ → Option ℕ
unfolding volumn_from
cal_volumn size = volumn_from 32 1 size

pub record ArrayQueue {ℓ} (A : Type ℓ) : Type ℓ where
  pub queue : List A
  pub volumn : ℕ
  pub head : ℕ
  pub tail : ℕ

module _ {ℓ} {A : Type ℓ} where
  -- The constructor, with the memory that `new` gave.
  unfoldable pub new_queue : List A → ℕ → ArrayQueue A
  new_queue memory v = record { queue = memory; volumn = v; head = 0; tail = 0 }

  unfoldable pub next_pos : ArrayQueue A → ℕ → ℕ
  next_pos q pos = (pos + 1) % 2 ^ 32 % q.volumn

  unfoldable pub is_full : ArrayQueue A → Bool
  unfolding next_pos
  is_full q = next_pos q q.head == q.tail

  unfoldable pub is_empty : ArrayQueue A → Bool
  is_empty q = q.head == q.tail

  unfoldable pub push : A → ArrayQueue A → Bool × ArrayQueue A
  push x q =
      let next = next_pos q q.head in
      if next == q.tail
      then (false, q)
      else (true, record q { queue = set q.queue next x; head = next })

  -- A place outside of the array has no element to give: `none` stands for the false result too.
  unfoldable pub pop : ArrayQueue A → Option A × ArrayQueue A
  unfolding is_empty
  pop q =
      let next = next_pos q q.tail in
      if is_empty q then (none, q) else (get_elem? q.queue next, record q { tail = next })
