-- ===== src/Util/Heap.antt =====
-- util/heap.h: a binary heap in an array, whose first place is not used.
-- The comparison is a parameter of the template. The array does not grow: an insertion into a full heap
-- writes outside of it in the source, and nowhere here; `outside` is what a read out of bounds gives.
pub mod Order
pub mod Contents
pub mod Adjust
use dbstream.Common.{
  ℕ, zero, suc, ◌+◌, ◌-◌, ◌*◌, ◌/◌, Bool, true, false, not, ◌&&◌, List, [], ◌∷◌, ltb, leb, ◌==◌,
  if◌then◌else◌, length, get_or, set,
}

pub record Heap {ℓ} (A : Type ℓ) : Type ℓ where
  pub h : List A
  pub current_size : ℕ

module _ {ℓ} {A : Type ℓ} (outside : A) where
  abbrev pub at : List A → ℕ → A
  at h i = get_or h i outside

  unfoldable pub swap : List A → ℕ → ℕ → List A
  swap h src dest = set (set h dest (at h src)) src (at h dest)

  unfoldable pub get : Heap A → A
  get heap = at heap.h 1

module _ {ℓ} {A : Type ℓ} (compare : A → A → Bool) (outside : A) where
  -- The loop of `insert`, from the place `i`, of which at least half is left behind in each round.
  unfoldable pub sift_up : ℕ → List A → ℕ → List A
  sift_up zero h i = h
  sift_up (suc fuel) h i =
      let p = i / 2 in
      let risen = sift_up fuel (swap outside h p i) p in
      if ltb 1 i then (if compare (at outside h i) (at outside h p) then risen else h) else h

  unfoldable pub insert : A → Heap A → Heap A
  unfolding sift_up
  insert x heap =
      let n = heap.current_size + 1 in record { h = sift_up n (set heap.h n x) n; current_size = n }

  -- The loop of `adjust`, down from `p`; `c` doubles in each round.
  unfoldable pub adjust : ℕ → List A → ℕ → ℕ → List A
  unfolding swap
  adjust zero h p end = h
  adjust (suc fuel) h p end =
      let left = p * 2 in
      let c =
        if ltb (left + 1) end && compare (at outside h (left + 1)) (at outside h left)
        then left + 1
        else left in
      let sunk = adjust fuel (swap outside h p c) c end in
      if leb left end then (if compare (at outside h p) (at outside h c) then h else sunk) else h

  unfoldable pub replace_at : A → ℕ → Heap A → Heap A
  unfolding adjust
  replace_at x pos heap = record {
    h = adjust (suc heap.current_size) (set heap.h (pos + 1) x) (pos + 1) heap.current_size;
    current_size = if heap.current_size == 0 then 1 else heap.current_size;
  }

  unfoldable pub pop_at : ℕ → Heap A → Heap A
  unfolding adjust
  pop_at pos heap = if leb heap.current_size 1 then record heap { current_size = 0 } else record {
    h =
        adjust (suc heap.current_size) (set heap.h (pos + 1) (at outside heap.h heap.current_size))
          (pos + 1) heap.current_size;
    current_size = heap.current_size - 1;
  }
