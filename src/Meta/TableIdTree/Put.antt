-- ===== src/Meta/TableIdTree/Put.antt =====
-- `put` below a root that is large enough: the version goes to its table, and nothing else changes.
use dbstream.Common.{
  ℕ, zero, suc, ◌+◌, ◌*◌, ◌/◌, ◌%◌, ◌^◌, ◌<◌, ◌≡◌, refl, sym, ap, subst, ◌∙◌, ◌≢◌, inl, inr, Bool,
  true, false, ◌&&◌, Option, none, some, [], ◌∷◌, ltb, leb, ◌==◌, ℕ-cases, arith,
}
use dbstream.Meta.TableId.{table_id, table_version}
use dbstream.Meta.TableIdTree.{
  TableMeta, Wrap, Node, Child, slot_id, child_start, or_new, set_child, find_below, put_below,
  push_version,
}
use dbstream.Meta.TableIdTree.Ids.{span, In, In-child, place, place-lt, slot_id-In, leaf_place}
use dbstream.Meta.TableIdTree.Placed.{
  IsVersions, Placed, slot-In, slot-set_child_same, slot-set_child_other, set-keeps,
}
use dbstream.Meta.TableIdTree.Descend.{or_new-Placed, find_below_child}

module _ {ℓ} {A : Type ℓ} where
  abbrev pub Newer : TableMeta A → Option (Wrap A) → Type 0
  Newer m none = Unit
  Newer m (some w) = w.newest.id < m.id

  abbrev pub pushed : TableMeta A → Option (Wrap A) → Wrap A
  pushed m none = record { newest = m; prev = [] }
  pushed m (some w) = record { newest = m; prev = w.newest ∷ w.prev }

  push_version-Newer :
      (m : TableMeta A) (o : Option (Wrap A))
      → ((w : Wrap A) → o ≡ some w → IsVersions (table_id m.id) (w.newest ∷ w.prev))
      → Newer m o
      → (push_version m o ≡ some (pushed m o))
        × IsVersions (table_id m.id) ((pushed m o).newest ∷ (pushed m o).prev)
  unfolding push_version IsVersions table_id table_version
  push_version-Newer m none v n = (refl, (refl, tt, tt))
  push_version-Newer m (some w) v n =
      let (e, a, r) = v w refl in
      let h : ((w.newest.id / 2 ^ 16 == m.id / 2 ^ 16)
            && ltb (w.newest.id % 2 ^ 16) (m.id % 2 ^ 16))
          ≡ true =
        ground arith in
      (rw (h) refl, (refl, n, (e, a, r)))

  -- The node `n'` is `n` with `w` as the versions of the table `id`.
  pub record Updated (l : ℕ) (n n' : Node (Child A l)) (s id : ℕ) (w : Wrap A) : Type ℓ where
    pub placed : Placed A l n' s
    pub here : find_below l n' id ≡ some w
    pub others : (i : ℕ) → In s l i → i ≢ id → find_below l n' i ≡ find_below l n i

  abbrev Stored : (l : ℕ) → Node (Child A l) → ℕ → TableMeta A → Type ℓ
  Stored l n s m =
      (n' : Node (Child A l)) × (up : Bool) × (put_below l n m ≡ some (n', up))
      × Updated l n n' s (table_id m.id) (pushed m (find_below l n (table_id m.id)))

  put_below_leaf :
      (n : Node (Wrap A)) (s : ℕ) (m : TableMeta A) (w : Wrap A)
      → n.start_id ≡ s
      → In s zero (table_id m.id)
      → push_version m (n.child (place s zero (table_id m.id))) ≡ some w
      → put_below zero n m ≡ some (set_child n (place s zero (table_id m.id)) w m.id true)
  unfolding put_below
  put_below_leaf n s m w st r e =
      let h = place-lt s zero (table_id m.id) r in
      let b : leb 512 (place s zero (table_id m.id)) ≡ false = ground arith in
      let q : slot_id n.start_id zero (table_id m.id) ≡ place s zero (table_id m.id) =
        ap (λ t. slot_id t zero (table_id m.id)) st ∙ slot_id-In s zero (table_id m.id) r in
      rw (q, b, e) (ap (λ c. some (set_child n c w m.id true)) q)

  put_below_inner :
      (l : ℕ) (n : Node (Node (Child A l))) (s : ℕ) (m : TableMeta A) (k : Node (Child A l))
      (up : Bool)
      → n.start_id ≡ s
      → In s (suc l) (table_id m.id)
      → put_below l
          (or_new
            (child_start n.start_id (suc l) (place s (suc l) (table_id m.id)))
            (n.child (place s (suc l) (table_id m.id))))
          m
        ≡ some (k, up)
      → put_below (suc l) n m ≡ some (set_child n (place s (suc l) (table_id m.id)) k m.id up)
  unfolding put_below
  put_below_inner l n s m k up st r e =
      let h = place-lt s (suc l) (table_id m.id) r in
      let b : leb 512 (place s (suc l) (table_id m.id)) ≡ false = ground arith in
      let q : slot_id n.start_id (suc l) (table_id m.id) ≡ place s (suc l) (table_id m.id) =
        ap (λ t. slot_id t (suc l) (table_id m.id)) st ∙ slot_id-In s (suc l) (table_id m.id) r in
      rw (q, b, e) (ap (λ c. some (set_child n c k m.id up)) q)

  leaf-Updated :
      (n : Node (Wrap A)) (s id m_id : ℕ) (up : Bool) (w : Wrap A)
      → Placed A zero n s
      → In s zero id
      → IsVersions id (w.newest ∷ w.prev)
      → Updated zero n (set_child n (place s zero id) w m_id up).0 s id w
  unfolding Placed find_below
  leaf-Updated n s id m_id up w (st, ch) r v = record {
    placed = (
      st,
      set-keeps (λ d x. IsVersions (s + d) (x.newest ∷ x.prev)) n.child (place s zero id) w ch
          (subst (λ t. IsVersions t (w.newest ∷ w.prev)) (sym (leaf_place s id r)) v),
    );
    here = slot-set_child_same zero n s w id m_id up id st r refl;
    others = λ i ri ne.
        slot-set_child_other zero n s w id m_id up i st ri
          (λ e. ne (sym (leaf_place s i ri) ∙ ap (λ d. s + d) e ∙ leaf_place s id r));
  }

  put_below-leaf :
      (n : Node (Wrap A)) (s : ℕ) (m : TableMeta A)
      → Placed A zero n s
      → In s zero (table_id m.id)
      → Newer m (find_below zero n (table_id m.id))
      → Stored zero n s m
  unfolding Placed find_below
  put_below-leaf n s m (st, ch) r new =
      let id = table_id m.id in
      let o = n.child (place s zero id) in
      let at = slot-In zero n s id st r in
      let (e, v) =
        push_version-Newer m o
          (λ w h.
            subst (λ t. IsVersions t (w.newest ∷ w.prev)) (leaf_place s id r)
              (ch (place s zero id) w (place-lt s zero id r) h))
          (subst (Newer m) at new) in
      (
        (set_child n (place s zero id) (pushed m o) m.id true).0,
        (set_child n (place s zero id) (pushed m o) m.id true).1,
        put_below_leaf n s m (pushed m o) st r e,
        subst
            (λ p.
              Updated zero n (set_child n (place s zero id) (pushed m o) m.id true).0 s id
                (pushed m p))
            (sym at) (leaf-Updated n s id m.id true (pushed m o) (st, ch) r v),
      )

  inner-Updated :
      (l : ℕ) (n : Node (Node (Child A l))) (s id m_id : ℕ) (k k' : Node (Child A l)) (up : Bool)
      (w : Wrap A)
      → Placed A (suc l) n s
      → In s (suc l) id
      → ((i : ℕ)
          → In s (suc l) i
          → place s (suc l) i ≡ place s (suc l) id
          → find_below (suc l) n i ≡ find_below l k i)
      → Updated l k k' (s + place s (suc l) id * span (suc l)) id w
      → Updated (suc l) n (set_child n (place s (suc l) id) k' m_id up).0 s id w
  unfolding Placed find_below
  inner-Updated l n s id m_id k k' up w (st, ch) r was u =
      let c = place s (suc l) id in
      record {
        placed =
            (st, set-keeps (λ d x. Placed A l x (s + d * span (suc l))) n.child c k' ch u.placed);
        here =
            ap (λ o. elim o [ none ↦ none | some x ↦ find_below l x id ])
              (slot-set_child_same (suc l) n s k' id m_id up id st r refl)
            ∙ u.here;
        others = λ i ri ne. elim (ℕ-cases (place s (suc l) i) c) [
          | inl q ↦
              ap (λ o. elim o [ none ↦ none | some x ↦ find_below l x i ])
                (slot-set_child_same (suc l) n s k' id m_id up i st ri q)
              ∙ u.others i (subst (λ d. In (s + d * span (suc l)) l i) q (In-child s l i ri)) ne
              ∙ sym (was i ri q)
          | inr q ↦
              ap (λ o. elim o [ none ↦ none | some x ↦ find_below l x i ])
                (slot-set_child_other (suc l) n s k' id m_id up i st ri q)
        ];
      }

  -- `put` below a node gives the version to its table and keeps what the node holds for the others.
  pub put_below-Updated :
      (l : ℕ) (n : Node (Child A l)) (s : ℕ) (m : TableMeta A)
      → Placed A l n s
      → In s l (table_id m.id)
      → Newer m (find_below l n (table_id m.id))
      → Stored l n s m
  unfolding Placed
  put_below-Updated zero n s m p r new = put_below-leaf n s m p r new
  put_below-Updated (suc l) n s m (st, ch) r new =
      let id = table_id m.id in
      let c = place s (suc l) id in
      let k = or_new (child_start n.start_id (suc l) c) (n.child c) in
      let was = find_below_child l n s (child_start n.start_id (suc l) c) id st r in
      let (k', up, e, u) =
        put_below-Updated l k (s + c * span (suc l)) m (or_new-Placed A l n s id (st, ch) r)
          (In-child s l id r) (subst (Newer m) was new) in
      (
        (set_child n c k' m.id up).0,
        (set_child n c k' m.id up).1,
        put_below_inner l n s m k' up st r e,
        inner-Updated l n s id m.id k k' up (pushed m (find_below (suc l) n id)) (st, ch) r
            (λ i ri q.
              find_below_child l n s (child_start n.start_id (suc l) c) i st ri
              ∙ ap (λ d. find_below l (or_new (child_start n.start_id (suc l) c) (n.child d)) i) q)
            (subst (λ o. Updated l k k' (s + c * span (suc l)) id (pushed m o)) (sym was) u),
      )
