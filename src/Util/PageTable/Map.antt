-- ===== src/Util/PageTable/Map.antt =====
-- The table as a map: what any sequence of set, update and erase makes of it.
use dbstream.Common.{
  ℕ, ◌^◌, ◌<◌, ◌≡◌, refl, sym, ap, ◌∙◌, inl, inr, true, false, Option, none, List, [], ◌∷◌,
  Bool-cases, Option-cases, ℕ-cases, ◌==◌, if◌then◌else◌, arith,
}
use dbstream.Util.PageTable.{PageTable, new_table, cell, outside, get, update, set, erase}
use dbstream.Util.PageTable.{begin}
use dbstream.Util.PageTable.Outcome.{
  Op, set_op, update_op, erase_op, op_id, changed, InRange, Done, get-cell, set-Done, update-Done,
  erase-Done,
}

module _ {ℓ} {T : Type ℓ} where
  -- The operations, the last one first.
  abbrev pub run : List (Op T) → PageTable T → PageTable T
  run [] t = t
  run (set_op id v ∷ ops) t = (set (run ops t) id v).1
  run (update_op id v ∷ ops) t = (update (run ops t) id v).1
  run (erase_op id ∷ ops) t = erase (run ops t) id

  -- The same on a map.
  abbrev pub meant : List (Op T) → ℕ → Option T
  meant [] i = none
  meant (op ∷ ops) i = if i == op_id op then changed op (meant ops i) else meant ops i

  abbrev pub AllBelow : List (Op T) → Type 0
  AllBelow [] = Unit
  AllBelow (op ∷ ops) = (op_id op < 2 ^ 32) × AllBelow ops

  abbrev Means : PageTable T → List (Op T) → Type ℓ
  Means t ops = InRange t × ((i : ℕ) → i < 2 ^ 32 → cell t.root i ≡ meant ops i)

  Done-Means :
      (t t' : PageTable T) (op : Op T) (ops : List (Op T))
      → op_id op < 2 ^ 32
      → Means t ops
      → Done t t' op
      → Means t' (op ∷ ops)
  Done-Means t t' op ops h (r, m) d = (
    d.range,
    λ i a. elim (ℕ-cases i (op_id op)) [
      | inl q ↦
          let b : (i == op_id op) ≡ true = ground (arith, q) in
          ap (cell t'.root) q
          ∙ d.own
          ∙ ap (changed op) (m (op_id op) h ∙ ap (meant ops) (sym q))
          ∙ sym (ap (λ x. if x then changed op (meant ops i) else meant ops i) b)
      | inr q ↦
          let b : (i == op_id op) ≡ false = ground (arith, q) in
          d.others i a q
          ∙ m i a
          ∙ sym (ap (λ x. if x then changed op (meant ops i) else meant ops i) b)
    ],
  )

  run-Means : (ops : List (Op T)) → AllBelow ops → Means (run ops new_table) ops
  unfolding cell
  run-Means [] a = (λ i h w e. absurd (ground arith), λ i h. refl)
  run-Means (set_op id v ∷ ops) (h, a) =
      let m = run-Means ops a in
      Done-Means (run ops new_table) (set (run ops new_table) id v).1 (set_op id v) ops h m
        (set-Done (run ops new_table) id v m.0 h)
  run-Means (update_op id v ∷ ops) (h, a) =
      let m = run-Means ops a in
      Done-Means (run ops new_table) (update (run ops new_table) id v).1 (update_op id v) ops h m
        (update-Done (run ops new_table) id v m.0 h)
  run-Means (erase_op id ∷ ops) (h, a) =
      let m = run-Means ops a in
      Done-Means (run ops new_table) (erase (run ops new_table) id) (erase_op id) ops h m
        (erase-Done (run ops new_table) id m.0 h)

  -- After any sets, updates and erasures at numbers of 32 bits, `get` finds what the same operations make
  -- of a map: a set keeps a value that is there, an update changes only one that is there, and other
  -- numbers are left alone.
  pub run-get :
      (ops : List (Op T))
      → AllBelow ops
      → (i : ℕ) → i < 2 ^ 32
      → get (run ops new_table) i ≡ meant ops i
  run-get ops a i h = let (r, m) = run-Means ops a in get-cell (run ops new_table) i r h ∙ m i h

  set-min : (t : PageTable T) (id : ℕ) (v : T) → t.min ≡ 0 → (set t id v).1.min ≡ 0
  unfolding set
  set-min t id v z = elim (Option-cases (cell t.root id)) [
    | inl e ↦ rw (set, e) (ground (arith, z))
    | inr (w, e) ↦ rw (set, e) z
  ]

  update-min : (t : PageTable T) (id : ℕ) (v : T) → (update t id v).1.min ≡ t.min
  unfolding update
  update-min t id v = elim (Bool-cases (outside t id)) [
    | inl b ↦ rw (update, b) refl
    | inr b ↦ elim (Option-cases (cell t.root id)) [
      | inl e ↦ rw (update, b, e) refl
      | inr (w, e) ↦ rw (update, b, e) refl
    ]
  ]

  erase-min : (t : PageTable T) (id : ℕ) → (erase t id).min ≡ t.min
  unfolding erase
  erase-min t id = elim (Bool-cases (outside t id)) [
    | inl b ↦ rw (erase, b) refl
    | inr b ↦ elim (Option-cases (cell t.root id)) [
      | inl e ↦ rw (erase, b, e) refl
      | inr (w, e) ↦ rw (erase, b, e) refl
    ]
  ]

  run-min : (ops : List (Op T)) → (run ops new_table).min ≡ 0
  run-min [] = refl
  run-min (set_op id v ∷ ops) = set-min (run ops new_table) id v (run-min ops)
  run-min (update_op id v ∷ ops) = update-min (run ops new_table) id v ∙ run-min ops
  run-min (erase_op id ∷ ops) = erase-min (run ops new_table) id ∙ run-min ops

  -- `begin` is what stands at the number 0, whatever else was set: the least number is 0 from the start,
  -- and it is only ever made smaller.
  pub run-begin : (ops : List (Op T)) → AllBelow ops → begin (run ops new_table) ≡ meant ops 0
  unfolding begin
  run-begin ops a = ap (get (run ops new_table)) (run-min ops) ∙ run-get ops a 0 (omega arith)
