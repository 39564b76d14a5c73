-- ===== src/Util/Tests.antt =====
-- Runs of the queues, the heap and the numbers.
use dbstream.Common.{
  ℕ, ◌+◌, ◌/◌, ◌≤◌, ◌<◌, ◌≡◌, refl, ◌⊎◌, inl, List, [], ◌∷◌, arith, ltb, get_elem?,
}
use dbstream.Util.ArrayQueue.{new_queue}
use dbstream.Util.ArrayQueue.Refine.{Call, put, get, run, bounded_run, new_queue-refines}
use dbstream.Util.RingFixedQueue
use dbstream.Util.RingFixedQueue.Refine
use dbstream.Util.Heap.{Heap, insert}
use dbstream.Util.Heap.Order.{IsOrder, IsHeap, NotBefore}
use dbstream.Util.Heap.Contents.{count, one_if, insert-IsHeap_contents}
use dbstream.Util.BitUtil.{
  high_pos_of_uchar, high_pos_of_ushort, high_pos_of_uint, high_pos_of_ulong,
}
use dbstream.Util.BitUtil.HighPos.{IsHighPos, high_pos_of_ulong-IsHighPos}
use dbstream.Util.Timer.{Timestamp}

abbrev calls : List (Call ℕ)
calls = put 7 ∷ put 8 ∷ get ∷ put 9 ∷ put 10 ∷ put 11 ∷ get ∷ get ∷ get ∷ get ∷ []

abbrev four_places : List ℕ
four_places = 0 ∷ 0 ∷ 0 ∷ 0 ∷ []

new_queue-refines_example : run calls (new_queue four_places 4) ≡ bounded_run 4 calls []
new_queue-refines_example = new_queue-refines four_places 4 calls refl (omega arith) (omega arith)

new_ring-refines_example :
    RingFixedQueue.Refine.run calls (RingFixedQueue.new_ring four_places 4) ≡ bounded_run 4 calls []
new_ring-refines_example =
    RingFixedQueue.Refine.new_ring-refines four_places 4 calls refl (omega arith) (omega arith)

abbrev one_queued : RingFixedQueue.RingFixedQueue ℕ
one_queued = record { array = 5 ∷ 0 ∷ []; array_size = 2; head = 1; end = 0 }

one_queued-slot :
    (i p : ℕ)
    → i < 1
    → (p < 2) × ((p ≡ 0 + (0 + i)) ⊎ (p + 2 ≡ 0 + (0 + i)))
    → get_elem? {A = ℕ} (5 ∷ 0 ∷ []) p ≡ get_elem? (5 ∷ []) i
one_queued-slot i p h l =
    let a : i ≡ 0 = omega arith in let b : p ≡ 0 = ground arith in rw (a, b) refl

abbrev one_queued-Holds : RingFixedQueue.Refine.Holds one_queued (5 ∷ [])
one_queued-Holds = record {
  ring = record {
    sized = refl;
    inside = omega arith;
    ends = (omega arith, inl (omega arith));
    room = omega arith;
    slots = one_queued-slot;
  };
  narrow = omega arith;
}

ltb-IsOrder : IsOrder ltb
ltb-IsOrder = record { asym = λ a b h. ground arith; trans = λ a b c h k. ground arith }

abbrev heap_of_two : Heap ℕ
heap_of_two = record { h = 0 ∷ 3 ∷ 5 ∷ 0 ∷ []; current_size = 2 }

heap_of_two-ordered : (k : ℕ) → 2 ≤ k → k ≤ 2 → NotBefore ltb 0 (0 ∷ 3 ∷ 5 ∷ 0 ∷ []) k (k / 2)
heap_of_two-ordered k a b = let e : k ≡ 2 = omega arith in rw e refl

heap_of_two-IsHeap : IsHeap ltb 0 heap_of_two
heap_of_two-IsHeap = record { stored = omega arith; ordered = heap_of_two-ordered }

insert-IsHeap_contents_example :
    IsHeap ltb 0 (insert ltb 0 1 heap_of_two)
    × ((insert ltb 0 1 heap_of_two).current_size ≡ 3)
    × ((k : ℕ) → 1 ≤ k → k ≤ 3 → NotBefore ltb 0 (insert ltb 0 1 heap_of_two).h k 1)
    × (count (ltb 2) (insert ltb 0 1 heap_of_two).h + one_if (ltb 2 0)
        ≡ count (ltb 2) (0 ∷ 3 ∷ 5 ∷ 0 ∷ []) + one_if (ltb 2 1))
insert-IsHeap_contents_example =
    insert-IsHeap_contents ltb 0 heap_of_two 1 (ltb 2) ltb-IsOrder heap_of_two-IsHeap (omega arith)

high_pos_of_ulong-IsHighPos_example :
    IsHighPos 200 (high_pos_of_uchar 200)
    × IsHighPos 4096 (high_pos_of_ushort 4096)
    × IsHighPos 0 (high_pos_of_uint 0)
    × IsHighPos 5000000000 (high_pos_of_ulong 5000000000)
high_pos_of_ulong-IsHighPos_example =
    high_pos_of_ulong-IsHighPos 200 4096 0 5000000000 (omega arith) (omega arith) (omega arith)
      (omega arith)

abbrev early : Timestamp
early = record { nano_seconds = 999999999; seconds = 5 }

abbrev late : Timestamp
late = record { nano_seconds = 3; seconds = 9 }
