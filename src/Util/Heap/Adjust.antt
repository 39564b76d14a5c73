-- ===== src/Util/Heap/Adjust.antt =====
-- What `adjust` overlooks: a right child that is the last element.
use dbstream.Common.{◌≡◌, refl, Bool, true, false, List, ◌∷◌, arith}
use dbstream.Util.Heap.{Heap, swap, adjust, replace_at, get}
use dbstream.Util.Heap.Order.{IsOrder, IsHeap}

module _ {ℓ} {A : Type ℓ} where
  abbrev pub three : A → A → A → A → List A → Heap A
  three z a b c rest = record { h = z ∷ a ∷ b ∷ c ∷ rest; current_size = 3 }

module _ {ℓ} {A : Type ℓ} (compare : A → A → Bool) (outside : A) where
  replaced :
      (z a b c x : A) (rest : List A)
      → compare x b ≡ false
      → replace_at compare outside x 0 (three z a b c rest) ≡ three z b x c rest
  unfolding replace_at adjust swap
  replaced z a b c x rest n = rw n refl

  -- In a heap of three elements whose last one is the least but the first, replacing the first by an
  -- element that is after both others puts the second in its place, not the last, which is before it:
  -- the result is no heap.
  pub replace_at-not_IsHeap :
      (z a b c x : A) (rest : List A)
      → IsOrder compare
      → compare c b ≡ true
      → compare b x ≡ true
      → (get outside (replace_at compare outside x 0 (three z a b c rest)) ≡ b)
        × ¬ IsHeap compare outside (replace_at compare outside x 0 (three z a b c rest))
  unfolding get
  replace_at-not_IsHeap z a b c x rest o cb bx = rw (replaced z a b c x rest (o.asym b x bx)) (
    refl,
    λ v. absurd (let n : compare c b ≡ false = v.ordered 3 (omega arith) (omega arith) in cc),
  )
