-- ===== src/Util/ArrayQueue/Refine.antt =====
-- The array queue is a first-in first-out queue that holds one element less than its places.
use dbstream.Common.{
  ℕ, ◌+◌, ◌≤◌, ◌<◌, ◌^◌, ◌≡◌, refl, inl, inr, Bool, true, false, List, [], ◌∷◌, ◌++◌, Option, none,
  some, arith, ltb, ◌==◌, if◌then◌else◌, Bool-cases, length, set,
}
use dbstream.Util.Ring.{Leads, IsRing, IsRing-push, IsRing-pop, next-Leads}
use dbstream.Util.ArrayQueue.{ArrayQueue, new_queue, next_pos, is_empty, push, pop}

module _ {ℓ} {A : Type ℓ} where
  -- The queue holds `xs`, oldest first.
  pub record Holds (q : ArrayQueue A) (xs : List A) : Type ℓ where
    pub ring : IsRing 1 q.queue q.volumn q.tail q.head xs
    pub narrow : q.volumn ≤ 2 ^ 32

  next_pos-Leads :
      (q : ArrayQueue A) (p : ℕ)
      → p < q.volumn
      → q.volumn ≤ 2 ^ 32
      → Leads q.volumn p 1 (next_pos q p)
  unfolding next_pos
  next_pos-Leads q p h k = next-Leads q.volumn p h k

  -- The next place is the tail exactly if all places but one are used.
  next_full :
      (q : ArrayQueue A) (xs : List A)
      → Holds q xs
      → ((next_pos q q.head == q.tail) ≡ true)
      → length xs + 1 ≡ q.volumn
  next_full q xs h e =
      let n = next_pos-Leads q q.head h.ring.ends.0 h.narrow in
      ground (arith, n, h.ring.ends, h.ring.inside, h.ring.room)

  next_free :
      (q : ArrayQueue A) (xs : List A)
      → Holds q xs
      → ((next_pos q q.head == q.tail) ≡ false)
      → length xs + 1 < q.volumn
  next_free q xs h e =
      let n = next_pos-Leads q q.head h.ring.ends.0 h.narrow in
      ground (arith, n, h.ring.ends, h.ring.inside, h.ring.room)

  new_queue-Holds :
      (memory : List A) (v : ℕ)
      → length memory ≡ v
      → 0 < v
      → v ≤ 2 ^ 32
      → Holds (new_queue memory v) []
  unfolding new_queue
  new_queue-Holds memory v e h k = record {
    ring = record {
      sized = e;
      inside = h;
      ends = (h, inl (omega arith));
      room = h;
      slots = λ i p l m. absurd (omega arith);
    };
    narrow = k;
  }

  push-Holds :
      (q : ArrayQueue A) (xs : List A) (x : A)
      → Holds q xs
      → length xs + 1 < q.volumn
      → Holds
          (record q { queue = set q.queue (next_pos q q.head) x; head = next_pos q q.head })
          (xs ++ x ∷ [])
  push-Holds q xs x h room =
      let n = next_pos-Leads q q.head h.ring.ends.0 h.narrow in
      record {
        ring =
            IsRing-push 1 q.queue q.volumn q.tail q.head (next_pos q q.head) (next_pos q q.head) xs
              x h.ring (omega arith) room n n;
        narrow = h.narrow;
      }

  is_empty-cons : (q : ArrayQueue A) (x : A) (xs : List A) → Holds q (x ∷ xs) → is_empty q ≡ false
  unfolding is_empty
  is_empty-cons q x xs h = ground (arith, h.ring.ends, h.ring.inside, h.ring.room)

  -- What a queue of limited capacity does.
  abbrev pub bounded_push : ℕ → A → List A → Bool × List A
  bounded_push v x xs = if ltb (length xs + 1) v then (true, xs ++ x ∷ []) else (false, xs)

  abbrev pub bounded_pop : List A → Option A × List A
  bounded_pop [] = (none, [])
  bounded_pop (x ∷ xs) = (some x, xs)

  push-refines :
      (q : ArrayQueue A) (xs : List A) (x : A)
      → Holds q xs
      → ((push x q).0 ≡ (bounded_push q.volumn x xs).0)
        × Holds (push x q).1 (bounded_push q.volumn x xs).1
        × ((push x q).1.volumn ≡ q.volumn)
  unfolding push
  push-refines q xs x h = elim (Bool-cases (next_pos q q.head == q.tail)) [
    | inl e ↦
        let full : ltb (length xs + 1) q.volumn ≡ false = ground (arith, next_full q xs h e) in
        rw (e, full) (refl, h, refl)
    | inr e ↦
        let free = next_free q xs h e in
        let room : ltb (length xs + 1) q.volumn ≡ true = ground (arith, free) in
        rw (e, room) (refl, push-Holds q xs x h free, refl)
  ]

  pop-refines :
      (q : ArrayQueue A) (xs : List A)
      → Holds q xs
      → ((pop q).0 ≡ (bounded_pop xs).0)
        × Holds (pop q).1 (bounded_pop xs).1
        × ((pop q).1.volumn ≡ q.volumn)
  unfolding pop
  pop-refines q [] h =
      let e : is_empty q ≡ true = unfold is_empty in ground (arith, h.ring.ends, h.ring.inside) in
      rw e (refl, h, refl)
  pop-refines q (x ∷ xs) h =
      let e = is_empty-cons q x xs h in
      let n = next_pos-Leads q q.tail h.ring.inside h.narrow in
      rw e (
        h.ring.slots 0 (next_pos q q.tail) (omega arith) n,
        record {
          ring =
              IsRing-pop 1 q.queue q.volumn q.tail q.head (next_pos q q.tail) x xs h.ring
                (omega arith) n;
          narrow = h.narrow;
        },
        refl,
      )

-- Calls of the queue, and what they answer.
pub data Call {ℓ} (A : Type ℓ) : Type ℓ where
  put : A → Call A
  get : Call A

pub data Answer {ℓ} (A : Type ℓ) : Type ℓ where
  stored : Bool → Answer A
  taken : Option A → Answer A

module _ {ℓ} {A : Type ℓ} where
  abbrev pub run : List (Call A) → ArrayQueue A → List (Answer A)
  run [] q = []
  run (put x ∷ cs) q = stored (push x q).0 ∷ run cs (push x q).1
  run (get ∷ cs) q = taken (pop q).0 ∷ run cs (pop q).1

  abbrev pub bounded_run : ℕ → List (Call A) → List A → List (Answer A)
  bounded_run v [] xs = []
  bounded_run v (put x ∷ cs) xs =
      stored (bounded_push v x xs).0 ∷ bounded_run v cs (bounded_push v x xs).1
  bounded_run v (get ∷ cs) xs = taken (bounded_pop xs).0 ∷ bounded_run v cs (bounded_pop xs).1

  run-refines :
      (cs : List (Call A)) (q : ArrayQueue A) (xs : List A)
      → Holds q xs
      → run cs q ≡ bounded_run q.volumn cs xs
  run-refines [] q xs h = refl
  run-refines (put x ∷ cs) q xs h =
      let (e, k, v) = push-refines q xs x h in
      rw (e, run-refines cs (push x q).1 (bounded_push q.volumn x xs).1 k, v) refl
  run-refines (get ∷ cs) q xs h =
      let (e, k, v) = pop-refines q xs h in
      rw (e, run-refines cs (pop q).1 (bounded_pop xs).1 k, v) refl

  -- A new array queue of `v` places answers each sequence of pushes and pops as a first-in first-out
  -- queue does that holds up to `v - 1` elements: a push is refused exactly if it is full, and a pop
  -- gives the oldest element, and none exactly if it is empty.
  pub new_queue-refines :
      (memory : List A) (v : ℕ) (cs : List (Call A))
      → length memory ≡ v
      → 0 < v
      → v ≤ 2 ^ 32
      → run cs (new_queue memory v) ≡ bounded_run v cs []
  unfolding new_queue
  new_queue-refines memory v cs e h k =
      run-refines cs (new_queue memory v) [] (new_queue-Holds memory v e h k)
