-- ===== src/Util/PageTable/Outcome.antt =====
-- What one set, update or erase does to the cells.
use dbstream.Common.{
  ℕ, ◌^◌, ◌<◌, ◌≡◌, refl, sym, ap, subst, ◌∙◌, ◌≢◌, inl, inr, true, false, Option, none, some,
  Bool-cases, Option-cases, ℕ-cases, ltb, if◌then◌else◌, arith,
}
use dbstream.Util.PageTable.{PageTable, cell, write, outside, get, update, set, erase}
use dbstream.Util.PageTable.Cells.{cell-write_same, cell-write_other}

pub data Op {ℓ} (T : Type ℓ) : Type ℓ where
  set_op : (id : ℕ) (v : T) → Op T
  update_op : (id : ℕ) (v : T) → Op T
  erase_op : (id : ℕ) → Op T

module _ {ℓ} {T : Type ℓ} where
  abbrev pub op_id : Op T → ℕ
  op_id (set_op id v) = id
  op_id (update_op id v) = id
  op_id (erase_op id) = id

  abbrev pub or_new : Option T → T → T
  or_new none v = v
  or_new (some w) v = w

  abbrev pub replaced : Option T → T → Option T
  replaced none v = none
  replaced (some w) v = some v

  -- What becomes of the value at an operation's own identifier.
  abbrev pub changed : Op T → Option T → Option T
  changed (set_op id v) o = some (or_new o v)
  changed (update_op id v) o = replaced o v
  changed (erase_op id) o = none

  abbrev pub InRange : PageTable T → Type ℓ
  InRange t = (i : ℕ) → i < 2 ^ 32 → (w : T) → cell t.root i ≡ some w → outside t i ≡ false

  outside-none :
      (t : PageTable T) (i : ℕ) → InRange t → i < 2 ^ 32 → outside t i ≡ true → cell t.root i ≡ none
  outside-none t i r h b = elim (Option-cases (cell t.root i)) [
    | inl e ↦ e
    | inr (w, e) ↦ absurd (let c = sym b ∙ r i h w e in ground arith)
  ]

  pub get-cell : (t : PageTable T) (i : ℕ) → InRange t → i < 2 ^ 32 → get t i ≡ cell t.root i
  unfolding get
  get-cell t i r h = elim (Bool-cases (outside t i)) [
    | inl b ↦ ap (λ x. if x then none else cell t.root i) b ∙ sym (outside-none t i r h b)
    | inr b ↦ ap (λ x. if x then none else cell t.root i) b
  ]

  -- What one operation does to the cells.
  pub record Done (t t' : PageTable T) (op : Op T) : Type ℓ where
    pub range : InRange t'
    pub own : cell t'.root (op_id op) ≡ changed op (cell t.root (op_id op))
    pub others : (i : ℕ) → i < 2 ^ 32 → i ≢ op_id op → cell t'.root i ≡ cell t.root i

  -- Writing a cell inside the range keeps the others.
  write-InRange :
      (t t' : PageTable T) (id : ℕ) (o : Option T)
      → InRange t
      → id < 2 ^ 32
      → t'.root ≡ write t.root id o
      → ((i : ℕ) → outside t i ≡ false → outside t' i ≡ false)
      → outside t' id ≡ false
      → InRange t'
  write-InRange t t' id o r h e wider here i a w c = elim (ℕ-cases i id) [
    | inl q ↦ subst (λ j. outside t' j ≡ false) (sym q) here
    | inr q ↦
        wider i
          (r i a w (sym (cell-write_other t.root id i o a h q) ∙ ap (λ x. cell x i) (sym e) ∙ c))
  ]

  unchanged :
      (t : PageTable T) (op : Op T)
      → InRange t
      → cell t.root (op_id op) ≡ changed op (cell t.root (op_id op))
      → Done t t op
  unchanged t op r e = record { range = r; own = e; others = λ i a n. refl }

  pub set-Done :
      (t : PageTable T) (id : ℕ) (v : T)
      → InRange t
      → id < 2 ^ 32
      → Done t (set t id v).1 (set_op id v)
  unfolding set
  set-Done t id v r h = elim (Option-cases (cell t.root id)) [
    | inl e ↦
        let t' : PageTable T = record {
          root = write t.root id (some v);
          min = if ltb id t.min then id else t.min;
          max = if ltb t.max id then id else t.max;
        } in
        let q : (set t id v).1 ≡ t' = rw (set, e) refl in
        subst (λ x. Done t x (set_op id v)) (sym q)
          (record {
            range = write-InRange t t' id (some v) r h refl (λ i b. ground arith) (ground arith);
            own = cell-write_same t.root id (some v) ∙ sym (ap (λ o. some (or_new o v)) e);
            others = λ i a n. cell-write_other t.root id i (some v) a h n;
          })
    | inr (w, e) ↦
        let q : (set t id v).1 ≡ t = rw (set, e) refl in
        subst (λ x. Done t x (set_op id v)) (sym q)
          (unchanged t (set_op id v) r (e ∙ sym (ap (λ o. some (or_new o v)) e)))
  ]

  -- A table whose cell was written, in the range or with the range as it was.
  write-Done :
      (t : PageTable T) (op : Op T)
      → InRange t
      → op_id op < 2 ^ 32
      → outside t (op_id op) ≡ false
      → Done t
          (record t { root = write t.root (op_id op) (changed op (cell t.root (op_id op))) })
          op
  write-Done t op r h b =
      let id = op_id op in
      let o = changed op (cell t.root id) in
      record {
        range = write-InRange t (record t { root = write t.root id o }) id o r h refl (λ i x. x) b;
        own = cell-write_same t.root id o;
        others = λ i a n. cell-write_other t.root id i o a h n;
      }

  pub update-Done :
      (t : PageTable T) (id : ℕ) (v : T)
      → InRange t
      → id < 2 ^ 32
      → Done t (update t id v).1 (update_op id v)
  unfolding update
  update-Done t id v r h = elim (Bool-cases (outside t id)) [
    | inl b ↦
        let e = outside-none t id r h b in
        let q : (update t id v).1 ≡ t = rw (update, b) refl in
        subst (λ x. Done t x (update_op id v)) (sym q)
          (unchanged t (update_op id v) r (e ∙ sym (ap (λ o. replaced o v) e)))
    | inr b ↦ elim (Option-cases (cell t.root id)) [
      | inl e ↦
          let q : (update t id v).1 ≡ t = rw (update, b, e) refl in
          subst (λ x. Done t x (update_op id v)) (sym q)
            (unchanged t (update_op id v) r (e ∙ sym (ap (λ o. replaced o v) e)))
      | inr (w, e) ↦
          let q : (update t id v).1
              ≡ record t { root = write t.root id (replaced (cell t.root id) v) } =
            rw (update, b, e) refl in
          subst (λ x. Done t x (update_op id v)) (sym q) (write-Done t (update_op id v) r h b)
    ]
  ]

  pub erase-Done :
      (t : PageTable T) (id : ℕ) → InRange t → id < 2 ^ 32 → Done t (erase t id) (erase_op id)
  unfolding erase
  erase-Done t id r h = elim (Bool-cases (outside t id)) [
    | inl b ↦
        let q : erase t id ≡ t = rw (erase, b) refl in
        subst (λ x. Done t x (erase_op id)) (sym q)
          (unchanged t (erase_op id) r (outside-none t id r h b))
    | inr b ↦ elim (Option-cases (cell t.root id)) [
      | inl e ↦
          let q : erase t id ≡ t = rw (erase, b, e) refl in
          subst (λ x. Done t x (erase_op id)) (sym q) (unchanged t (erase_op id) r e)
      | inr (w, e) ↦
          let q : erase t id ≡ record t { root = write t.root id none } = rw (erase, b, e) refl in
          subst (λ x. Done t x (erase_op id)) (sym q) (write-Done t (erase_op id) r h b)
    ]
  ]
