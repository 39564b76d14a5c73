-- ===== src/Util/RingFixedQueue/Refine.antt =====
-- The ring queue is a bounded first-in first-out queue, whose `size` is right only when it wraps.
use dbstream.Common.{
  ℕ, ◌+◌, ◌-◌, ◌≤◌, ◌<◌, ◌%◌, ◌^◌, ◌≡◌, refl, ◌⊎◌, inl, inr, true, false, List, [], ◌∷◌, arith, ltb,
  ◌==◌, Bool-cases, length,
}
use dbstream.Util.Ring.{Leads, IsRing, IsRing-push, IsRing-pop, next-Leads}
use dbstream.Util.ArrayQueue.Refine.{
  Call, put, get, Answer, stored, taken, bounded_push, bounded_pop, bounded_run,
}
use dbstream.Util.RingFixedQueue.{RingFixedQueue, new_ring, push, pop, size}

module _ {ℓ} {A : Type ℓ} where
  -- The queue holds `xs`, oldest first.
  pub record Holds (q : RingFixedQueue A) (xs : List A) : Type ℓ where
    pub ring : IsRing 0 q.array q.array_size q.end q.head xs
    pub narrow : q.array_size ≤ 2 ^ 31

  abbrev next : RingFixedQueue A → ℕ → ℕ
  next q p = (p + 1) % 2 ^ 32 % q.array_size

  next_step :
      (q : RingFixedQueue A) (p : ℕ)
      → p < q.array_size
      → q.array_size ≤ 2 ^ 31
      → Leads q.array_size p 1 (next q p)
  next_step q p h k = next-Leads q.array_size p h (omega arith)

  push-refines :
      (q : RingFixedQueue A) (xs : List A) (x : A)
      → Holds q xs
      → ((push x q).0 ≡ (bounded_push q.array_size x xs).0)
        × Holds (push x q).1 (bounded_push q.array_size x xs).1
        × ((push x q).1.array_size ≡ q.array_size)
  unfolding push
  push-refines q xs x h =
      let n = next_step q q.head h.ring.ends.0 h.narrow in
      let here : Leads q.array_size q.head 0 q.head = (h.ring.ends.0, inl (omega arith)) in
      elim (Bool-cases (next q q.head == q.end)) [
        | inl e ↦
            let full : ltb (length xs + 1) q.array_size ≡ false =
              ground (arith, n, h.ring.ends, h.ring.inside, h.ring.room) in
            rw (e, full) (refl, h, refl)
        | inr e ↦
            let room : length xs + 1 < q.array_size =
              ground (arith, n, h.ring.ends, h.ring.inside, h.ring.room) in
            let free : ltb (length xs + 1) q.array_size ≡ true = ground arith in
            rw (e, free)
              (
                refl,
                record {
                  ring =
                      IsRing-push 0 q.array q.array_size q.end q.head q.head (next q q.head) xs x
                        h.ring (omega arith) room here n;
                  narrow = h.narrow;
                },
                refl,
              )
      ]

  pop-refines :
      (q : RingFixedQueue A) (xs : List A)
      → Holds q xs
      → ((pop q).0 ≡ (bounded_pop xs).0)
        × Holds (pop q).1 (bounded_pop xs).1
        × ((pop q).1.array_size ≡ q.array_size)
  unfolding pop
  pop-refines q [] h =
      let e : (q.end == q.head) ≡ true = ground (arith, h.ring.ends, h.ring.inside) in
      rw e (refl, h, refl)
  pop-refines q (x ∷ xs) h =
      let e : (q.end == q.head) ≡ false = ground (arith, h.ring.ends, h.ring.inside, h.ring.room) in
      let n = next_step q q.end h.ring.inside h.narrow in
      let here : Leads q.array_size q.end 0 q.end = (h.ring.inside, inl (omega arith)) in
      rw e (
        h.ring.slots 0 q.end (omega arith) here,
        record {
          ring =
              IsRing-pop 0 q.array q.array_size q.end q.head (next q q.end) x xs h.ring
                (omega arith) n;
          narrow = h.narrow;
        },
        refl,
      )

  abbrev pub run : List (Call A) → RingFixedQueue A → List (Answer A)
  run [] q = []
  run (put x ∷ cs) q = stored (push x q).0 ∷ run cs (push x q).1
  run (get ∷ cs) q = taken (pop q).0 ∷ run cs (pop q).1

  run-refines :
      (cs : List (Call A)) (q : RingFixedQueue A) (xs : List A)
      → Holds q xs
      → run cs q ≡ bounded_run q.array_size cs xs
  run-refines [] q xs h = refl
  run-refines (put x ∷ cs) q xs h =
      let (e, k, v) = push-refines q xs x h in
      rw (e, run-refines cs (push x q).1 (bounded_push q.array_size x xs).1 k, v) refl
  run-refines (get ∷ cs) q xs h =
      let (e, k, v) = pop-refines q xs h in
      rw (e, run-refines cs (pop q).1 (bounded_pop xs).1 k, v) refl

  -- A new ring queue of `n` places answers each sequence of pushes and pops as a first-in first-out
  -- queue does that holds up to `n - 1` elements.
  pub new_ring-refines :
      (memory : List A) (n : ℕ) (cs : List (Call A))
      → length memory ≡ n
      → 0 < n
      → n ≤ 2 ^ 31
      → run cs (new_ring memory n) ≡ bounded_run n cs []
  unfolding new_ring
  new_ring-refines memory n cs e h k = run-refines cs (new_ring memory n) [] (record {
    ring = record {
      sized = e;
      inside = h;
      ends = (h, inl (omega arith));
      room = h;
      slots = λ i p l m. absurd (omega arith);
    };
    narrow = k;
  })

  -- `size` counts the elements when they wrap round the end of the array; when they lie in one piece and
  -- there is one at least, it gives 2^32 less their number.
  pub size-wraps :
      (q : RingFixedQueue A) (xs : List A)
      → Holds q xs
      → ((q.head < q.end) × (size q ≡ length xs))
        ⊎ ((q.end ≤ q.head) × (size q ≡ (2 ^ 32 - length xs) % 2 ^ 32))
  unfolding size
  size-wraps q xs h = ground (arith, h.ring.ends, h.ring.inside, h.ring.room, h.narrow)
