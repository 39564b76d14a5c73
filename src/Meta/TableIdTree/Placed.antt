-- ===== src/Meta/TableIdTree/Placed.antt =====
-- The shape of the tree: every node starts where its slot says, and a slot at the lowest level holds the
-- versions of one table, the newest first.
use dbstream.Common.{
  ℕ, zero, suc, ◌+◌, ◌*◌, ◌<◌, ◌≡◌, refl, sym, ◌∙◌, Bool, true, false, Option, some, List, [], ◌∷◌,
  ◌≢◌, inl, inr, subst, ℕ-cases, leb, ◌==◌, if◌then◌else◌, arith,
}
use mathlib.Core.Option.{some-injective}
use dbstream.Meta.TableId.{table_id}
use dbstream.Meta.TableIdTree.{TableMeta, Wrap, Node, Child, slot, new_node, set_child}
use dbstream.Meta.TableIdTree.Ids.{span, In, place, place-lt, slot_id-In}

module _ {ℓ} {A : Type ℓ} where
  abbrev pub Above : ℕ → List (TableMeta A) → Type 0
  Above id [] = Unit
  Above id (m ∷ ms) = m.id < id

  unfoldable pub IsVersions : ℕ → List (TableMeta A) → Type 0
  IsVersions table [] = Unit
  IsVersions table (m ∷ ms) = (table_id m.id ≡ table) × Above m.id ms × IsVersions table ms

module _ {ℓ} (A : Type ℓ) where
  unfoldable pub Placed : (level : ℕ) → Node (Child A level) → ℕ → Type ℓ
  Placed zero n s =
      (n.start_id ≡ s)
      × ((c : ℕ) (w : Wrap A)
          → c < 512
          → n.child c ≡ some w
          → IsVersions (s + c) (w.newest ∷ w.prev))
  Placed (suc level) n s =
      (n.start_id ≡ s)
      × ((c : ℕ) (k : Node (Child A level))
          → c < 512
          → n.child c ≡ some k
          → Placed level k (s + c * span (suc level)))

  pub start : (l : ℕ) (n : Node (Child A l)) (s : ℕ) → Placed l n s → n.start_id ≡ s
  unfolding Placed
  start zero n s p = p.0
  start (suc l) n s p = p.0

  pub new_node-Placed : (l s : ℕ) (linked : Bool) → Placed l (new_node s linked) s
  unfolding Placed
  new_node-Placed zero s linked = (refl, λ c w h e. absurd (ground arith))
  new_node-Placed (suc l) s linked = (refl, λ c k h e. absurd (ground arith))

module _ {ℓ} {C : Type ℓ} where
  pub slot-In :
      (l : ℕ) (n : Node C) (s i : ℕ)
      → n.start_id ≡ s
      → In s l i
      → slot l n i ≡ n.child (place s l i)
  slot-In l n s i e r =
      let h = place-lt s l i r in
      let b : leb 512 (place s l i) ≡ false = ground arith in rw (e, slot_id-In s l i r, b) refl

  -- A slot after a child was set.
  pub slot-set_child :
      (l : ℕ) (n : Node C) (s c : ℕ) (k : C) (id : ℕ) (up : Bool) (i : ℕ)
      → n.start_id ≡ s
      → In s l i
      → slot l (set_child n c k id up).0 i
        ≡ (if place s l i == c then some k else n.child (place s l i))
  slot-set_child l n s c k id up i e r = slot-In l (set_child n c k id up).0 s i e r

  -- The child that was set, and the others.
  pub slot-set_child_same :
      (l : ℕ) (n : Node C) (s : ℕ) (k : C) (id m_id : ℕ) (up : Bool) (i : ℕ)
      → n.start_id ≡ s
      → In s l i
      → place s l i ≡ place s l id
      → slot l (set_child n (place s l id) k m_id up).0 i ≡ some k
  slot-set_child_same l n s k id m_id up i e r q =
      let b : (place s l i == place s l id) ≡ true = ground (arith, q) in
      slot-set_child l n s (place s l id) k m_id up i e r ∙ rw (b) refl

  pub slot-set_child_other :
      (l : ℕ) (n : Node C) (s : ℕ) (k : C) (id m_id : ℕ) (up : Bool) (i : ℕ)
      → n.start_id ≡ s
      → In s l i
      → place s l i ≢ place s l id
      → slot l (set_child n (place s l id) k m_id up).0 i ≡ slot l n i
  slot-set_child_other l n s k id m_id up i e r q =
      let b : (place s l i == place s l id) ≡ false = ground (arith, q) in
      slot-set_child l n s (place s l id) k m_id up i e r ∙ rw (b) refl ∙ sym (slot-In l n s i e r)

  pub set-keeps {κ} :
      (P : ℕ → C → Type κ) (f : ℕ → Option C) (c : ℕ) (k : C)
      → ((d : ℕ) (x : C) → d < 512 → f d ≡ some x → P d x)
      → P c k
      → (d : ℕ) (x : C) → d < 512
      → (if d == c then some k else f d) ≡ some x
      → P d x
  set-keeps P f c k old new d x h e = elim (ℕ-cases d c) [
    | inl q ↦
        let b : (d == c) ≡ true = ground (arith, q) in
        let y : some k ≡ some x = subst (λ t. (if t then some k else f d) ≡ some x) b e in
        subst (λ z. P d z) (some-injective k x y) (subst (λ z. P z k) (sym q) new)
    | inr q ↦
        let b : (d == c) ≡ false = ground (arith, q) in
        old d x h (subst (λ t. (if t then some k else f d) ≡ some x) b e)
  ]
