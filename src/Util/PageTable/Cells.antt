-- ===== src/Util/PageTable/Cells.antt =====
-- Reading a cell after another was written.
use dbstream.Common.{
  ℕ, ◌^◌, ◌<◌, ◌≡◌, refl, sym, ap, ◌∙◌, ◌≢◌, inl, inr, true, false, Option, some, Bool-cases, ◌==◌,
  if◌then◌else◌, arith,
}
use dbstream.Util.PageTable.{
  high_id, mid_id, low_id, Node, or_empty, put_child, mid_node, low_node, cell, write,
}

same_parts :
    (i id : ℕ)
    → i < 2 ^ 32
    → id < 2 ^ 32
    → high_id i ≡ high_id id
    → mid_id i ≡ mid_id id
    → low_id i ≡ low_id id
    → i ≡ id
same_parts i id a b h m l = omega arith

low_differs :
    (i id : ℕ)
    → i < 2 ^ 32
    → id < 2 ^ 32
    → high_id i ≡ high_id id
    → mid_id i ≡ mid_id id
    → i ≢ id
    → (low_id i == low_id id) ≡ false
low_differs i id a b h m n = elim (Bool-cases (low_id i == low_id id)) [
  | inl l ↦ absurd (n (same_parts i id a b h m (ground arith)))
  | inr l ↦ l
]

module _ {ℓ} {C : Type ℓ} where
  put_child_same : (n : Node C) (c i : ℕ) (o : Option C) → (i == c) ≡ true → put_child n c o i ≡ o
  put_child_same n c i o e = ap (λ b. if b then o else n i) e

  put_child_other :
      (n : Node C) (c i : ℕ) (o : Option C) → (i == c) ≡ false → put_child n c o i ≡ n i
  put_child_other n c i o e = ap (λ b. if b then o else n i) e

module _ {ℓ} {T : Type ℓ} where
  pub cell-write_same :
      (root : Node (Node (Node T))) (id : ℕ) (o : Option T) → cell (write root id o) id ≡ o
  unfolding cell write
  cell-write_same root id o =
      let h : (high_id id == high_id id) ≡ true = ground arith in
      let m : (mid_id id == mid_id id) ≡ true = ground arith in
      let l : (low_id id == low_id id) ≡ true = ground arith in rw (cell, write, h, m, l) refl

  pub cell-write_other :
      (root : Node (Node (Node T))) (id i : ℕ) (o : Option T)
      → i < 2 ^ 32
      → id < 2 ^ 32
      → i ≢ id
      → cell (write root id o) i ≡ cell root i
  unfolding cell write
  cell-write_other root id i o a b n =
      let low : Node T = put_child (low_node root id) (low_id id) o in
      let mid : Node (Node T) = put_child (mid_node root id) (mid_id id) (some low) in
      elim (Bool-cases (high_id i == high_id id)) [
        | inr h ↦
            ap (λ x. or_empty (or_empty x (mid_id i)) (low_id i))
              (put_child_other root (high_id id) (high_id i) (some mid) h)
        | inl h ↦
            let he : high_id i ≡ high_id id = ground arith in
            ap (λ x. or_empty (or_empty x (mid_id i)) (low_id i))
              (put_child_same root (high_id id) (high_id i) (some mid) h)
            ∙ elim (Bool-cases (mid_id i == mid_id id))
                as (λ d. or_empty (mid (mid_id i)) (low_id i) ≡ cell root i) [
                  | inr m ↦
                      ap (λ x. or_empty x (low_id i))
                        (put_child_other (mid_node root id) (mid_id id) (mid_id i) (some low) m)
                      ∙ ap (λ x. or_empty (or_empty (root x) (mid_id i)) (low_id i)) (sym he)
                  | inl m ↦
                      let me : mid_id i ≡ mid_id id = ground arith in
                      ap (λ x. or_empty x (low_id i))
                        (put_child_same (mid_node root id) (mid_id id) (mid_id i) (some low) m)
                      ∙ put_child_other (low_node root id) (low_id id) (low_id i) o
                          (low_differs i id a b he me n)
                      ∙ ap (λ x. or_empty (or_empty (root (high_id id)) x) (low_id i)) (sym me)
                      ∙ ap (λ x. or_empty (or_empty (root x) (mid_id i)) (low_id i)) (sym he)
                ]
      ]
