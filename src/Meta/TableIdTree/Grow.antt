-- ===== src/Meta/TableIdTree/Grow.antt =====
-- The root grows until an identifier is below it, which changes no search.
use dbstream.Common.{
  ℕ, zero, suc, ◌+◌, ◌-◌, ◌*◌, ◌/◌, ◌^◌, ◌≤◌, ◌<◌, ◌≡◌, refl, sym, ap, subst, ◌∙◌, inl, inr, true,
  false, Option, none, some, ltb, leb, ◌==◌, if◌then◌else◌, Bool-cases, arith,
}
use native.Mathlib.Nat.{pow-succ', div-lt_iff_lt-mul, le-div_iff_mul-le}
use dbstream.Meta.TableIdTree.{Wrap, Node, Child, Tree, slot_id, slot, find_below, grown, grow}
use dbstream.Meta.TableIdTree.Ids.{span, span-suc, span_pos, In, place, slot_id_exact}
use dbstream.Meta.TableIdTree.Placed.{Placed, start, slot-In, set-keeps}

-- Identifiers whose slots at a level, and at all above it, are below 2^16.
abbrev pub Close : ℕ → ℕ → Type 0
Close l i = (i < 2 ^ 31) × (i < 2 ^ 16 * span l)

pub Close-suc : (l i : ℕ) → Close l i → Close (suc l) i
Close-suc l i (a, b) = let e = span-suc l in (a, omega arith)

regroup : (a b : ℕ) → 512 * a * (512 * b) ≡ a * (512 * (512 * b))
regroup a b = grind arith

room-suc : (fuel l : ℕ) → 512 ^ suc fuel * (512 * span l) ≡ 512 ^ fuel * (512 * span (suc l))
room-suc fuel l =
    ap (λ p. p * (512 * span l)) (pow-succ' 512 fuel)
    ∙ regroup (512 ^ fuel) (span l)
    ∙ ap (λ x. 512 ^ fuel * (512 * x)) (sym (span-suc l))

slot_id_close : (l i : ℕ) → Close l i → slot_id 0 l i ≡ place 0 l i
slot_id_close l i (a, b) =
    let z : i - 0 ≡ i = omega arith in
    slot_id_exact 0 l i (omega arith) a
      (subst (λ j. j / span l < 2 ^ 16) (sym z) ((div-lt_iff_lt-mul (span_pos l)).1 b))

module _ {ℓ} {C : Type ℓ} where
  slot_beyond :
      (l : ℕ) (n : Node C) (i : ℕ)
      → n.start_id ≡ 0
      → Close l i
      → 512 * span l ≤ i
      → slot l n i ≡ none
  slot_beyond l n i st c h =
      let p : 512 ≤ place 0 l i = (le-div_iff_mul-le (span_pos l)).1 (omega arith) in
      let b : leb 512 (place 0 l i) ≡ true = ground arith in rw (st, slot_id_close l i c, b) refl

module _ {ℓ} {A : Type ℓ} where
  abbrev pub find : Tree A → ℕ → Option (Wrap A)
  find t i = find_below t.level t.root i

  pub find_beyond :
      (l : ℕ) (n : Node (Child A l)) (i : ℕ)
      → Placed A l n 0
      → Close l i
      → 512 * span l ≤ i
      → find_below l n i ≡ none
  unfolding find_below
  find_beyond zero n i p c h = slot_beyond zero n i (start A zero n 0 p) c h
  find_beyond (suc l) n i p c h =
      ap (λ o. elim o [ none ↦ none | some k ↦ find_below l k i ])
        (slot_beyond (suc l) n i (start A (suc l) n 0 p) c h)

  abbrev pub Rooted : Tree A → Type ℓ
  Rooted t = Placed A t.level t.root 0

  grown-Rooted : (t : Tree A) → Rooted t → Rooted (grown t)
  unfolding grown Placed
  grown-Rooted t p = (
    start A t.level t.root 0 p,
    set-keeps (λ d x. Placed A t.level x (0 + d * span (suc t.level))) (λ d. none) 0 t.root
        (λ d x h e. absurd (ground arith))
        (let z : 0 + 0 * span (suc t.level) ≡ 0 = omega arith in
          subst (Placed A t.level t.root) (sym z) p),
  )

  find-grown : (t : Tree A) (i : ℕ) → Rooted t → Close t.level i → find (grown t) i ≡ find t i
  unfolding grown find_below
  find-grown t i p c =
      let l = t.level in
      let e = span-suc l in
      let z : i - 0 ≡ i = omega arith in
      let st = start A l t.root 0 p in
      let at = slot-In (suc l) (grown t).root 0 i st (omega arith, omega arith, c.0) in
      elim (Bool-cases (ltb i (512 * span l))) [
        | inl b ↦
            let h : place 0 (suc l) i < 1 =
              (div-lt_iff_lt-mul (span_pos (suc l))).1 (ground arith) in
            let q : (place 0 (suc l) i == 0) ≡ true = ground (arith, h) in
            ap (λ o. elim o [ none ↦ none | some k ↦ find_below l k i ])
              (at ∙ ap (λ b. if b then some t.root else none) q)
        | inr b ↦
            let h : 1 ≤ place 0 (suc l) i =
              (le-div_iff_mul-le (span_pos (suc l))).1 (ground arith) in
            let q : (place 0 (suc l) i == 0) ≡ false = ground (arith, h) in
            ap (λ o. elim o [ none ↦ none | some k ↦ find_below l k i ])
              (at ∙ ap (λ b. if b then some t.root else none) q)
            ∙ sym (find_beyond l t.root i p c (ground arith))
      ]

  -- What growing gives: a tree that is searched as before, and, with enough fuel, with room for `id`.
  pub record Grew (t g : Tree A) (id : ℕ) : Type ℓ where
    pub rooted : Rooted g
    pub room : In 0 g.level id
    pub close : (i : ℕ) → Close t.level i → Close g.level i
    pub same : (i : ℕ) → Close t.level i → find g i ≡ find t i

  pub grow-Grew :
      (fuel : ℕ) (t : Tree A) (id : ℕ)
      → Rooted t
      → Close t.level id
      → 2 ^ 31 ≤ 512 ^ fuel * (512 * span t.level)
      → Grew t (grow fuel id t) id
  unfolding grow grown
  grow-Grew zero t id p c enough = record {
    rooted = p;
    room = (omega arith, omega arith, c.0);
    close = λ i h. h;
    same = λ i h. refl;
  }
  grow-Grew (suc fuel) t id p c enough =
      let l = t.level in
      let here = slot_id t.root.start_id l id in
      elim (Bool-cases (leb 512 here)) [
        | inl b ↦
            let g =
              grow-Grew fuel (grown t) id (grown-Rooted t p) (Close-suc l id c)
                (subst (λ x. 2 ^ 31 ≤ x) (room-suc fuel l) enough) in
            subst (λ x. Grew t x id) (sym (ap (λ b. if b then grow fuel id (grown t) else t) b))
              (record {
                rooted = g.rooted;
                room = g.room;
                close = λ i h. g.close i (Close-suc l i h);
                same = λ i h. g.same i (Close-suc l i h) ∙ find-grown t i p h;
              })
        | inr b ↦
            let e : here ≡ place 0 l id =
              ap (λ s. slot_id s l id) (start A l t.root 0 p) ∙ slot_id_close l id c in
            let h : place 0 l id < 512 = ground (arith, b, e) in
            let r : id - 0 < 512 * span l = (div-lt_iff_lt-mul (span_pos l)).0 h in
            subst (λ x. Grew t x id) (sym (ap (λ b. if b then grow fuel id (grown t) else t) b))
              (record {
                rooted = p;
                room = (omega arith, omega arith, c.0);
                close = λ i x. x;
                same = λ i x. refl;
              })
      ]
