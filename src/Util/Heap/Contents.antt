-- ===== src/Util/Heap/Contents.antt =====
-- What an insertion does to the elements of the array.
use dbstream.Common.{
  ℕ, zero, suc, ◌+◌, ◌/◌, ◌<◌, ◌≤◌, ◌≡◌, refl, ◌∙◌, inl, inr, Bool, List, [], ◌∷◌, arith, ltb,
  Bool-cases, length, length-set, get_or, set, if◌then◌else◌, get_or-set_ne,
}
use dbstream.Util.Heap.{Heap, swap, sift_up, insert}
use dbstream.Util.Heap.Order.{
  IsOrder, IsHeap, NotBefore, length-swap, insert-IsHeap, root-NotBefore,
}

abbrev pub one_if : Bool → ℕ
one_if b = if b then 1 else 0

module _ {ℓ} {A : Type ℓ} where
  -- How many elements a test holds of.
  abbrev pub count : (A → Bool) → List A → ℕ
  count f [] = 0
  count f (x ∷ xs) = one_if (f x) + count f xs

  count-set :
      (f : A → Bool) (h : List A) (i : ℕ) (x d : A)
      → i < length h
      → count f (set h i x) + one_if (f (get_or h i d)) ≡ count f h + one_if (f x)
  count-set f [] i x d k = absurd (omega arith)
  count-set f (y ∷ h) zero x d k = omega arith
  count-set f (y ∷ h) (suc i) x d k = omega (arith, count-set f h i x d (omega arith))

module _ {ℓ} {A : Type ℓ} (compare : A → A → Bool) (outside : A) where
  count-swap :
      (f : A → Bool) (h : List A) (p i : ℕ)
      → p < i
      → i < length h
      → count f (swap outside h p i) ≡ count f h
  unfolding swap
  count-swap f h p i k l =
      let g = set h i (get_or h p outside) in
      let a = count-set f h i (get_or h p outside) outside l in
      let b =
        count-set f g p (get_or h i outside) outside
          (omega (arith, length-set h i (get_or h p outside))) in
      let c : get_or g p outside ≡ get_or h p outside =
        get_or-set_ne h i p (get_or h p outside) outside (λ e. absurd (omega arith)) in
      let d : count f (set g p (get_or h i outside)) + one_if (f (get_or h p outside))
          ≡ count f g + one_if (f (get_or h i outside)) =
        rw c at b in
      omega (arith, a, d)

  sift_up-count :
      (f : A → Bool) (fuel : ℕ) (h : List A) (i : ℕ)
      → i < length h
      → count f (sift_up compare outside fuel h i) ≡ count f h
  unfolding sift_up
  sift_up-count f zero h i k = refl
  sift_up-count f (suc fuel) h i k = elim (Bool-cases (ltb 1 i)) [
    | inr top ↦ rw top refl
    | inl deep ↦ elim (Bool-cases (compare (get_or h i outside) (get_or h (i / 2) outside))) [
      | inr done ↦ rw (deep, done) refl
      | inl less ↦
          let up : i / 2 < i = ground arith in
          rw (deep, less)
            (sift_up-count f fuel (swap outside h (i / 2) i) (i / 2)
                (omega (arith, length-swap compare outside h (i / 2) i))
              ∙ count-swap f h (i / 2) i up k)
    ]
  ]

  -- With an order as the comparison and a free place, an insertion into a heap gives a heap that is one
  -- larger, whose first element is not after any other, and whose array holds what it held, with the
  -- new element in place of what lay in the free place.
  pub insert-IsHeap_contents :
      (heap : Heap A) (x : A) (f : A → Bool)
      → IsOrder compare
      → IsHeap compare outside heap
      → heap.current_size + 1 < length heap.h
      → IsHeap compare outside (insert compare outside x heap)
        × ((insert compare outside x heap).current_size ≡ heap.current_size + 1)
        × ((k : ℕ)
            → 1 ≤ k
            → k ≤ heap.current_size + 1
            → NotBefore compare outside (insert compare outside x heap).h k 1)
        × (count f (insert compare outside x heap).h
              + one_if (f (get_or heap.h (heap.current_size + 1) outside))
            ≡ count f heap.h + one_if (f x))
  insert-IsHeap_contents heap x f o v room =
      let w = insert-IsHeap compare outside heap x o v room in
      let size : (insert compare outside x heap).current_size ≡ heap.current_size + 1 =
        unfold insert in refl in
      (
        w,
        size,
        (λ k one k_in.
            root-NotBefore compare outside o (insert compare outside x heap) w k k (omega arith) one
              (omega (arith, size))),
        unfold insert in
            rw
              (sift_up-count f (heap.current_size + 1) (set heap.h (heap.current_size + 1) x)
                (heap.current_size + 1)
                (omega (arith, length-set heap.h (heap.current_size + 1) x)))
              (count-set f heap.h (heap.current_size + 1) x outside room),
      )
