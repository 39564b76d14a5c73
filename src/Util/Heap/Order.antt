-- ===== src/Util/Heap/Order.antt =====
-- Insertion keeps the order of a heap.
use dbstream.Common.{
  ℕ, zero, suc, ◌+◌, ◌/◌, ◌≤◌, ◌<◌, ◌≡◌, refl, sym, ◌∙◌, ◌≢◌, inl, inr, Bool, true, false, List,
  arith, ltb, Bool-cases, ℕ-cases, length, length-set, get_or, set, get_or-set_self, get_or-set_ne,
}
use dbstream.Util.Heap.{Heap, swap, sift_up, insert}

-- What the comparison has to be: that of a strict weak order.
pub record IsOrder {ℓ} {A : Type ℓ} (compare : A → A → Bool) : Type ℓ where
  pub asym : (a b : A) → compare a b ≡ true → compare b a ≡ false
  pub trans : (a b c : A) → compare a b ≡ false → compare b c ≡ false → compare a c ≡ false

module _ {ℓ} {A : Type ℓ} (compare : A → A → Bool) (outside : A) where
  compare_irrefl : IsOrder compare → (a : A) → compare a a ≡ false
  compare_irrefl o a = elim (Bool-cases (compare a a)) [ inl t ↦ o.asym a a t | inr f ↦ f ]

  -- The element at `i` is not before that at `j`.
  abbrev pub NotBefore : List A → ℕ → ℕ → Type 0
  NotBefore h i j = compare (get_or h i outside) (get_or h j outside) ≡ false

  -- Among the first `n` elements, none is before its parent.
  pub record IsHeap (heap : Heap A) : Type 0 where
    pub stored : heap.current_size < length heap.h
    pub ordered : (k : ℕ) → 2 ≤ k → k ≤ heap.current_size → NotBefore heap.h k (k / 2)

  -- The same, except at `i`, whose children are not before its parent.
  record Rising (n : ℕ) (h : List A) (i : ℕ) : Type 0 where
    stored : n < length h
    place : (1 ≤ i) × (i ≤ n)
    ordered : (k : ℕ) → 2 ≤ k → k ≤ n → k ≢ i → NotBefore h k (k / 2)
    children : (k : ℕ) → k ≤ n → k / 2 ≡ i → 2 ≤ i → NotBefore h k (i / 2)

  pub length-swap : (h : List A) (p i : ℕ) → length (swap outside h p i) ≡ length h
  unfolding swap
  length-swap h p i =
      length-set (set h i (get_or h p outside)) p (get_or h i outside)
      ∙ length-set h i (get_or h p outside)

  module _ (h : List A) (p i : ℕ) (inside : i < length h) (before : p < i) where
    swap-upper : get_or (swap outside h p i) p outside ≡ get_or h i outside
    unfolding swap
    swap-upper =
        get_or-set_self (set h i (get_or h p outside)) p (get_or h i outside) outside
          (omega (arith, length-set h i (get_or h p outside)))

    swap-lower : get_or (swap outside h p i) i outside ≡ get_or h p outside
    unfolding swap
    swap-lower =
        get_or-set_ne (set h i (get_or h p outside)) p i (get_or h i outside) outside
          (λ e. absurd (omega arith))
        ∙ get_or-set_self h i (get_or h p outside) outside inside

    swap-others :
        (k : ℕ) → k ≢ p → k ≢ i → get_or (swap outside h p i) k outside ≡ get_or h k outside
    unfolding swap
    swap-others k n m =
        get_or-set_ne (set h i (get_or h p outside)) p k (get_or h i outside) outside
          (λ e. n (sym e))
        ∙ get_or-set_ne h i k (get_or h p outside) outside (λ e. m (sym e))

  module _ (o : IsOrder compare) (n : ℕ) (h : List A) (i : ℕ) (r : Rising n h i) (deep : 2 ≤ i)
      (less : compare (get_or h i outside) (get_or h (i / 2) outside) ≡ true) where
    -- The parent and the child exchanged, the exception moves to the parent.
    up-ordered :
        (k : ℕ) → 2 ≤ k → k ≤ n → k ≢ i / 2 → NotBefore (swap outside h (i / 2) i) k (k / 2)
    up-ordered k two k_in ne =
        let inside : i < length h = omega (arith, r.stored, r.place) in
        let up : i / 2 < i = omega arith in
        let upper = swap-upper h (i / 2) i inside up in
        let lower = swap-lower h (i / 2) i inside up in
        let others = swap-others h (i / 2) i inside up in
        let back = o.asym _ _ less in
        elim (ℕ-cases k i) [
          | inl same ↦ rw (same, upper, lower) back
          | inr other ↦ elim (ℕ-cases (k / 2) (i / 2)) [
            | inl sibling ↦
                let old : NotBefore h k (i / 2) = rw sibling at (r.ordered k two k_in other) in
                rw (sibling, upper, others k ne other) (o.trans _ _ _ old back)
            | inr far ↦ elim (ℕ-cases (k / 2) i) [
              | inl child ↦ rw (child, lower, others k ne other) (r.children k k_in child deep)
              | inr none_of_these ↦
                  rw (others k ne other, others (k / 2) far none_of_these)
                    (r.ordered k two k_in other)
            ]
          ]
        ]

    up-children :
        (k : ℕ)
        → k ≤ n
        → k / 2 ≡ i / 2
        → 2 ≤ i / 2
        → NotBefore (swap outside h (i / 2) i) k (i / 2 / 2)
    up-children k k_in child two =
        let inside : i < length h = omega (arith, r.stored, r.place) in
        let up : i / 2 < i = omega arith in
        let upper = swap-upper h (i / 2) i inside up in
        let lower = swap-lower h (i / 2) i inside up in
        let others = swap-others h (i / 2) i inside up in
        let parent : NotBefore h (i / 2) (i / 2 / 2) =
          r.ordered (i / 2) two (omega (arith, r.place)) (λ e. absurd (omega arith)) in
        let top = others (i / 2 / 2) (λ e. absurd (omega arith)) (λ e. absurd (omega arith)) in
        elim (ℕ-cases k i) [
          | inl same ↦ rw (same, lower, top) parent
          | inr other ↦
              let old : NotBefore h k (i / 2) =
                rw child at (r.ordered k (omega arith) k_in other) in
              rw (others k (λ e. absurd (omega arith)) other, top) (o.trans _ _ _ old parent)
        ]

    up-Rising : Rising n (swap outside h (i / 2) i) (i / 2)
    up-Rising = record {
      stored = rw (length-swap h (i / 2) i) r.stored;
      place = omega (arith, r.place);
      ordered = up-ordered;
      children = up-children;
    }

  sift_up-ordered :
      IsOrder compare
      → (fuel n : ℕ) (h : List A) (i : ℕ) → i ≤ fuel
      → Rising n h i
      → (k : ℕ) → 2 ≤ k
      → k ≤ n
      → NotBefore (sift_up compare outside fuel h i) k (k / 2)
  unfolding sift_up
  sift_up-ordered o zero n h i e r k two k_in = absurd (omega (arith, r.place))
  sift_up-ordered o (suc fuel) n h i e r k two k_in = elim (Bool-cases (ltb 1 i)) [
    | inr top ↦ rw top (r.ordered k two k_in (λ q. absurd (ground arith)))
    | inl deep ↦ elim (Bool-cases (compare (get_or h i outside) (get_or h (i / 2) outside))) [
      | inl less ↦
          rw (deep, less)
            (sift_up-ordered o fuel n (swap outside h (i / 2) i) (i / 2) (omega (arith, r.place))
              (up-Rising o n h i r (ground arith) less) k two k_in)
      | inr done ↦
          rw (deep, done)
            (elim (ℕ-cases k i) [
              | inl same ↦ rw same done
              | inr other ↦ r.ordered k two k_in other
            ])
    ]
  ]

  sift_up-length :
      (fuel : ℕ) (h : List A) (i : ℕ) → length (sift_up compare outside fuel h i) ≡ length h
  unfolding sift_up
  sift_up-length zero h i = refl
  sift_up-length (suc fuel) h i = elim (Bool-cases (ltb 1 i)) [
    | inr top ↦ rw top refl
    | inl deep ↦ elim (Bool-cases (compare (get_or h i outside) (get_or h (i / 2) outside))) [
      | inr done ↦ rw (deep, done) refl
      | inl less ↦
          rw (deep, less)
            (sift_up-length fuel (swap outside h (i / 2) i) (i / 2) ∙ length-swap h (i / 2) i)
    ]
  ]

  one_more :
      (heap : Heap A) (x : A)
      → IsHeap heap
      → heap.current_size + 1 < length heap.h
      → Rising
          (heap.current_size + 1)
          (set heap.h (heap.current_size + 1) x)
          (heap.current_size + 1)
  one_more heap x v room =
      let n = heap.current_size + 1 in
      let kept : (k : ℕ) → k < n → get_or (set heap.h n x) k outside ≡ get_or heap.h k outside =
        λ k lt. get_or-set_ne heap.h n k x outside (λ e. absurd (omega arith)) in
      record {
        stored = rw length-set room;
        place = omega arith;
        ordered = λ k two k_in ne.
            rw (kept k (omega arith), kept (k / 2) (omega arith)) (v.ordered k two (omega arith));
        children = λ k k_in child two. absurd (omega arith);
      }

  -- With an order as the comparison and a free place, an insertion keeps each element of the heap from
  -- being before its parent, and makes the heap one larger.
  pub insert-IsHeap :
      (heap : Heap A) (x : A)
      → IsOrder compare
      → IsHeap heap
      → heap.current_size + 1 < length heap.h
      → IsHeap (insert compare outside x heap)
  unfolding insert
  insert-IsHeap heap x o v room = record {
    stored = rw (sift_up-length (heap.current_size + 1) _ (heap.current_size + 1), length-set) room;
    ordered =
        sift_up-ordered o (heap.current_size + 1) (heap.current_size + 1) _ (heap.current_size + 1)
          (omega arith) (one_more heap x v room);
  }

  -- The first element of a heap is not after any other.
  pub root-NotBefore :
      (o : IsOrder compare) (heap : Heap A)
      → IsHeap heap
      → (fuel k : ℕ) → k ≤ fuel
      → 1 ≤ k
      → k ≤ heap.current_size
      → NotBefore heap.h k 1
  root-NotBefore o heap v zero k e one k_in = absurd (omega arith)
  root-NotBefore o heap v (suc fuel) k e one k_in = elim (ℕ-cases k 1) [
    | inl same ↦ rw same (compare_irrefl o (get_or heap.h 1 outside))
    | inr other ↦
        o.trans _ _ _ (v.ordered k (omega arith) k_in)
          (root-NotBefore o heap v fuel (k / 2) (omega arith) (omega arith) (omega arith))
  ]
