-- ===== src/Meta/TableIdTree/Alias.antt =====
-- Tables whose numbers differ by 2^16: the slot is cut to 16 bits before it is compared with 512.
use dbstream.Common.{
  ℕ, zero, ◌+◌, ◌*◌, ◌^◌, ◌≤◌, ◌<◌, ◌≡◌, refl, ap, ◌∙◌, true, false, none, some, [], leb, ◌==◌,
  if◌then◌else◌, arith,
}
use dbstream.Meta.TableId.{table_id}
use dbstream.Meta.TableIdTree.{
  TableMeta, Wrap, Tree, slot_id, new_node, set_child, new_tree, push_version, put_below, grow,
  grown, find_below, put, search_versions, get,
}

-- The slot at the lowest level.
low_slot : (k j i : ℕ) → j < 512 → i ≡ k * 2 ^ 16 + j → i < 2 ^ 48 → slot_id 0 0 i ≡ j
unfolding slot_id
low_slot k j i h e s = omega arith

module _ {ℓ} {A : Type ℓ} where
  -- The tree with one version, in the slot `j` of the root.
  abbrev single : TableMeta A → ℕ → Tree A
  single m j = record {
    level = 0;
    root =
        (set_child (new_node {C = Wrap A} 0 false) j (record { newest = m; prev = [] }) m.id
          true).0;
  }

  -- A put that does not make the root grow.
  put-stays :
      (t : Tree A) (m : TableMeta A)
      → leb 512 (slot_id t.root.start_id t.level (table_id m.id)) ≡ false
      → put m t ≡ (elim (put_below t.level t.root m) [
        | none ↦ none
        | some (n, up) ↦ some (record { level = t.level; root = n })
      ])
  unfolding put grow
  put-stays t m b =
      ap
        (λ g. elim (put_below g.level g.root m) [
          | none ↦ none
          | some (n, up) ↦ some (record { level = g.level; root = n })
        ])
        (ap (λ x. if x then grow 5 (table_id m.id) (grown t) else t) b)

  put-single :
      (m : TableMeta A) (k j : ℕ)
      → j < 512
      → table_id m.id ≡ k * 2 ^ 16 + j
      → table_id m.id < 2 ^ 48
      → put m new_tree ≡ some (single m j)
  unfolding put_below push_version
  put-single m k j h e s =
      let q = low_slot k j (table_id m.id) h e s in
      let b : leb 512 j ≡ false = ground arith in
      let b' : leb 512 (slot_id 0 0 (table_id m.id)) ≡ false = ap (leb 512) q ∙ b in
      let p : put_below zero (new_node {C = Wrap A} 0 false) m
          ≡ some (
              set_child (new_node {C = Wrap A} 0 false) j (record { newest = m; prev = [] }) m.id
                true) =
        rw (b') (
          ap
            (λ c. some (
              set_child (new_node {C = Wrap A} 0 false) c (record { newest = m; prev = [] }) m.id
                true))
            q) in
      put-stays new_tree m b'
      ∙ ap (λ o. elim o [ none ↦ none | some (n, up) ↦ some (record { level = 0; root = n }) ]) p

  -- If the first table of a tree has the number `j` and a multiple of 2^16 more, with `j` below 512, then
  -- it stands in the slot of the table `j`. A search for any version of the table `j` and a put of one
  -- then stop at a failed assertion.
  pub put-alias :
      (m m' : TableMeta A) (k j : ℕ)
      → 1 ≤ k
      → j < 512
      → table_id m.id ≡ k * 2 ^ 16 + j
      → table_id m.id < 2 ^ 48
      → table_id m'.id ≡ j
      → (t : Tree A) × (put m new_tree ≡ some t) × (get t m'.id ≡ none) × (put m' t ≡ none)
  unfolding get find_below search_versions put_below push_version
  put-alias m m' k j one h e s e' =
      let a = low_slot k j (table_id m.id) h e s in
      let c = low_slot 0 j (table_id m'.id) h (omega arith) (omega arith) in
      let b : leb 512 j ≡ false = ground arith in
      let d : (table_id m.id == table_id m'.id) ≡ false = ground arith in
      let x : (j == j) ≡ true = ground arith in
      let b' : leb 512 (slot_id 0 0 (table_id m'.id)) ≡ false = ap (leb 512) c ∙ b in
      let y : (slot_id 0 0 (table_id m'.id) == j) ≡ true = ap (λ i. i == j) c ∙ x in
      let p : put_below zero (single m j).root m' ≡ none = rw (b', y, d) refl in
      (
        single m j,
        put-single m k j h e s,
        rw (get, b', y, d) refl,
        put-stays (single m j) m' b'
            ∙ ap
                (λ o. elim o [ none ↦ none | some (n, up) ↦ some (record { level = 0; root = n }) ])
                p,
      )
