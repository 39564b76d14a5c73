-- ===== src/Meta/TableIdTree/Descend.antt =====
-- The child of a node that a search goes on with.
use dbstream.Common.{
  ℕ, zero, suc, ◌+◌, ◌*◌, ◌≡◌, sym, ap, subst, ◌∙◌, inl, inr, Bool, true, none, some, Option-cases,
  arith,
}
use dbstream.Meta.TableIdTree.{Node, Child, child_start, slot, new_node, or_new, find_below}
use dbstream.Meta.TableIdTree.Ids.{span, In, place, place-lt, child_start-In}
use dbstream.Meta.TableIdTree.Placed.{Placed, new_node-Placed, slot-In}

module _ {ℓ} (A : Type ℓ) where
  -- The child that `put` goes on with, made if it is missing.
  pub or_new-Placed :
      (l : ℕ) (n : Node (Node (Child A l))) (s id : ℕ)
      → Placed A (suc l) n s
      → In s (suc l) id
      → Placed A l
          (or_new
            (child_start n.start_id (suc l) (place s (suc l) id))
            (n.child (place s (suc l) id)))
          (s + place s (suc l) id * span (suc l))
  unfolding Placed
  or_new-Placed l n s id (st, ch) r =
      let c = place s (suc l) id in
      elim (Option-cases (n.child c)) [
        | inl e ↦
            let q : child_start n.start_id (suc l) c ≡ s + c * span (suc l) =
              ap (λ t. child_start t (suc l) c) st ∙ child_start-In s (suc l) id r in
            subst
              (λ o. Placed A l (or_new (child_start n.start_id (suc l) c) o) (s + c * span (suc l)))
              (sym e)
              (subst (λ t. Placed A l (new_node t true) (s + c * span (suc l))) (sym q)
                (new_node-Placed A l (s + c * span (suc l)) true))
        | inr (k, e) ↦
            subst
              (λ o. Placed A l (or_new (child_start n.start_id (suc l) c) o) (s + c * span (suc l)))
              (sym e) (ch c k (place-lt s (suc l) id r) e)
      ]

module _ {ℓ} {A : Type ℓ} where
  pub find_below-new_node :
      (l t i : ℕ) (linked : Bool) → find_below {A = A} l (new_node t linked) i ≡ none
  unfolding find_below
  find_below-new_node zero t i linked = ground arith
  find_below-new_node (suc l) t i linked =
      let e : slot (suc l) (new_node {C = Node (Child A l)} t linked) i ≡ none = ground arith in
      ap (λ o. elim o [ none ↦ none | some k ↦ find_below l k i ]) e

  -- A search goes through that child, whether it was there or not.
  pub find_below_child :
      (l : ℕ) (n : Node (Node (Child A l))) (s t i : ℕ)
      → n.start_id ≡ s
      → In s (suc l) i
      → find_below (suc l) n i ≡ find_below l (or_new t (n.child (place s (suc l) i))) i
  unfolding find_below
  find_below_child l n s t i st r =
      let e = slot-In (suc l) n s i st r in
      elim (Option-cases (n.child (place s (suc l) i))) [
        | inl z ↦
            ap (λ o. elim o [ none ↦ none | some k ↦ find_below l k i ]) (e ∙ z)
            ∙ sym (ap (λ o. find_below l (or_new t o) i) z ∙ find_below-new_node l t i true)
        | inr (k, z) ↦
            ap (λ o. elim o [ none ↦ none | some k ↦ find_below l k i ]) (e ∙ z)
            ∙ sym (ap (λ o. find_below l (or_new t o) i) z)
      ]
