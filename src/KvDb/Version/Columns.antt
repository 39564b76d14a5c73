-- ===== src/KvDb/Version/Columns.antt =====
-- The columns that an update and an insertion write.
use dbstream.Common.{
  ℕ, zero, suc, ◌+◌, ◌≤◌, ◌<◌, ◌≡◌, refl, sym, ap, subst, inl, inr, ◌≢◌, ◌↔◌, ◌⊎◌, true, false, not,
  ◌||◌, List, [], ◌∷◌, Option, none, some, arith, ltb, ◌==◌, Bool-cases, Option-cases, length,
  get_elem?,
}
use dbstream.KvDb.Version.{
  Status, ok, field_not_found, column_is_not_nullable, fault, Column, ColumnChange, ColumnMeta,
  fields_exist, merge_columns, update_columns, later_change, column_change, prepend_column,
  insert_column, insert_columns, alloc_for_insert,
}

-- The changes name columns from `i` on, each once, in ascending order.
abbrev pub AscendsFrom : ℕ → List ColumnChange → Type 0
AscendsFrom i [] = Unit {0}
AscendsFrom i (d ∷ ds) = (i ≤ d.column_id) × AscendsFrom (d.column_id + 1) ds

-- The column `i` after an update: the change of it, if there is one, else the old value.
abbrev pub new_column : Option ColumnChange → Option Column → Option Column
new_column none old = old
new_column (some d) none = none
new_column (some d) (some c) = some d.new_value

column_change-before :
    (i j : ℕ) (ds : List ColumnChange) → j < i → AscendsFrom i ds → column_change j ds ≡ none
unfolding column_change later_change
column_change-before i j [] h a = refl
column_change-before i j (d ∷ ds) h a =
    let rest = column_change-before (d.column_id + 1) j ds (omega (arith, a.0)) a.1 in
    let other : (d.column_id == j) ≡ false = ground (arith, a.0) in rw (rest, other)

new_column-none : (o : Option ColumnChange) → none ≡ new_column o none
new_column-none none = refl
new_column-none (some d) = refl

later_change-ne :
    (i : ℕ) (o : Option ColumnChange) (d : ColumnChange)
    → (d.column_id == i) ≡ false
    → later_change i o d ≡ o
unfolding later_change
later_change-ne i none d h = rw h refl
later_change-ne i (some e) d h = refl

merge_columns-rest : (i : ℕ) (cs : List Column) → merge_columns i cs [] ≡ cs
unfolding merge_columns
merge_columns-rest i [] = refl
merge_columns-rest i (c ∷ cs) = ap (◌∷◌ c) (merge_columns-rest (i + 1) cs)

module _ (i : ℕ) (c : Column) (cs : List Column) (d : ColumnChange) (ds : List ColumnChange) where
  get-changed :
      AscendsFrom (d.column_id + 1) ds
      → d.column_id ≡ i
      → ((n : ℕ)
          → get_elem? (merge_columns (i + 1) cs ds) n
            ≡ new_column (column_change (i + 1 + n) ds) (get_elem? cs n))
      → (n : ℕ)
      → get_elem? (d.new_value ∷ merge_columns (i + 1) cs ds) n
        ≡ new_column (column_change (i + n) (d ∷ ds)) (get_elem? (c ∷ cs) n)
  unfolding column_change
  get-changed a here ih zero =
      let first : (d.column_id == i + 0) ≡ true = ground arith in
      rw (column_change-before (d.column_id + 1) (i + 0) ds (omega arith) a)
        (unfold later_change in rw first refl)
  get-changed a here ih (suc n) =
      let w : i + suc n ≡ i + 1 + n = omega arith in
      let other : (d.column_id == i + 1 + n) ≡ false = ground arith in
      subst
        (λ m.
          get_elem? (merge_columns (i + 1) cs ds) n
          ≡ new_column (column_change m (d ∷ ds)) (get_elem? cs n))
        (sym w) (rw (later_change-ne (i + 1 + n) (column_change (i + 1 + n) ds) d other) (ih n))

  get-copied :
      AscendsFrom (i + 1) (d ∷ ds)
      → ((n : ℕ)
          → get_elem? (merge_columns (i + 1) cs (d ∷ ds)) n
            ≡ new_column (column_change (i + 1 + n) (d ∷ ds)) (get_elem? cs n))
      → (n : ℕ)
      → get_elem? (c ∷ merge_columns (i + 1) cs (d ∷ ds)) n
        ≡ new_column (column_change (i + n) (d ∷ ds)) (get_elem? (c ∷ cs) n)
  get-copied a ih zero = rw (column_change-before (i + 1) (i + 0) (d ∷ ds) (omega arith) a)
  get-copied a ih (suc n) = let w : i + suc n ≡ i + 1 + n = omega arith in rw w (ih n)

merge_columns-get :
    (i j : ℕ) (cs : List Column) (ds : List ColumnChange)
    → AscendsFrom i ds
    → get_elem? (merge_columns i cs ds) j ≡ new_column (column_change (i + j) ds) (get_elem? cs j)
unfolding merge_columns
merge_columns-get i j [] ds a = new_column-none (column_change (i + j) ds)
merge_columns-get i j (c ∷ cs) [] a =
    unfold column_change in ap (λ xs. get_elem? (c ∷ xs) j) (merge_columns-rest (i + 1) cs)
merge_columns-get i j (c ∷ cs) (d ∷ ds) a = elim (Bool-cases (d.column_id == i)) [
  | inl here ↦
      let same : d.column_id ≡ i = ground arith in
      let next : AscendsFrom (i + 1) ds = rw same at a.1 in
      rw here (get-changed i c cs d ds a.1 same (λ n. merge_columns-get (i + 1) n cs ds next) j)
  | inr elsewhere ↦
      let next : AscendsFrom (i + 1) (d ∷ ds) = (ground (arith, a.0), a.1) in
      rw elsewhere
        (get-copied i c cs d ds next (λ n. merge_columns-get (i + 1) n cs (d ∷ ds) next) j)
]

-- Every change names a column, or the number behind the last one.
abbrev pub AllUpTo : ℕ → List ColumnChange → Type 0
AllUpTo n [] = Unit {0}
AllUpTo n (d ∷ ds) = (d.column_id ≤ n) × AllUpTo n ds

fields_exist-AllUpTo :
    (n : ℕ) (ds : List ColumnChange)
    → (AllUpTo n ds × (fields_exist n ds ≡ true)) ⊎ (¬ AllUpTo n ds × (fields_exist n ds ≡ false))
unfolding fields_exist
fields_exist-AllUpTo n [] = inl (tt, refl)
fields_exist-AllUpTo n (d ∷ ds) = elim (Bool-cases (ltb n d.column_id)) [
  | inl b ↦ inr ((λ a. absurd (let h = a.0 in ground arith)), rw b refl)
  | inr b ↦ elim (fields_exist-AllUpTo n ds) [
    | inl (a, e) ↦ inl ((ground arith, a), rw b e)
    | inr (a, e) ↦ inr ((λ x. a x.1), rw b e)
  ]
]

-- If an update's changes name columns, each once and in ascending order, each column of the new version
-- is the change of it, if there is one, and the old value otherwise. A change of the column behind the
-- last one is accepted, too, and changes nothing. If a change names a column further on, the update is
-- refused.
pub update_columns-get :
    (old : List Column) (changes : List ColumnChange) (j : ℕ)
    → AscendsFrom 0 changes
    → (AllUpTo (length old) changes
        × ((update_columns old changes).0 ≡ ok)
        × (get_elem? (update_columns old changes).1 j
            ≡ new_column (column_change j changes) (get_elem? old j)))
      ⊎ (¬ AllUpTo (length old) changes × (update_columns old changes ≡ (field_not_found, [])))
unfolding update_columns
update_columns-get old changes j a =
    let w : 0 + j ≡ j = omega arith in
    elim (fields_exist-AllUpTo (length old) changes) [
      | inl (u, h) ↦ inl (u, rw h refl, rw h (rw w at (merge_columns-get 0 j old changes a)))
      | inr (u, h) ↦ inr (u, rw h refl)
    ]

-- The value of a column, if it may be written.
abbrev pub Writes : ColumnMeta → Option ColumnChange → Column → Type 0
Writes m none c = ((not m.nullable || m.is_primary) ≡ false) × (c ≡ none)
Writes m (some d) c = (c ≡ d.new_value) × (c ≢ none)

abbrev pub AllWritten : ℕ → List ColumnMeta → List ColumnChange → List Column → Type 0
AllWritten i [] changes [] = Unit {0}
AllWritten i [] changes (c ∷ cs) = ⊥
AllWritten i (m ∷ ms) changes [] = ⊥
AllWritten i (m ∷ ms) changes (c ∷ cs) =
    Writes m (column_change i changes) c × AllWritten (i + 1) ms changes cs

prepend_column-ok :
    (c : Column) (r : Status × List Column) (cs : List Column)
    → prepend_column c r ≡ (ok, cs)
    → (rest : List Column) × (r ≡ (ok, rest)) × (cs ≡ c ∷ rest)
unfolding prepend_column
prepend_column-ok c (ok, rest) cs h = (rest, refl, cc)
prepend_column-ok c (s, rest) cs h = cc

insert_column-ok :
    (m : ColumnMeta) (o : Option ColumnChange) (r : Status × List Column) (cs : List Column)
    → insert_column m o r ≡ (ok, cs)
    → (c : Column) × (rest : List Column) × (r ≡ (ok, rest)) × (cs ≡ c ∷ rest) × Writes m o c
unfolding insert_column
insert_column-ok m none r cs h = elim (Bool-cases (not m.nullable || m.is_primary)) [
  | inl bad ↦ absurd (let q : (column_is_not_nullable, []) ≡ (ok, cs) = rw bad at h in cc)
  | inr good ↦
      let q : prepend_column none r ≡ (ok, cs) = rw good at h in
      let (rest, e, w) = prepend_column-ok none r cs q in (none, rest, e, w, (good, refl))
]
insert_column-ok m (some d) r cs h = elim (Option-cases d.new_value) [
  | inl null ↦ absurd (let q : (fault, []) ≡ (ok, cs) = rw null at h in cc)
  | inr (v, full) ↦
      let q : prepend_column (some v) r ≡ (ok, cs) = rw full at h in
      let (rest, e, w) = prepend_column-ok (some v) r cs q in
      (some v, rest, e, w, (sym full, λ n. cc))
]

insert_column-Writes :
    (m : ColumnMeta) (o : Option ColumnChange) (c : Column) (rest : List Column)
    → Writes m o c
    → insert_column m o (ok, rest) ≡ (ok, c ∷ rest)
unfolding insert_column prepend_column
insert_column-Writes m none c rest (good, e) = rw (good, e) refl
insert_column-Writes m (some d) none rest (e, n) = absurd (n refl)
insert_column-Writes m (some d) (some v) rest (e, n) = rw (sym e) refl

insert_columns-ok :
    (i : ℕ) (ms : List ColumnMeta) (changes : List ColumnChange) (cs : List Column)
    → insert_columns i ms changes ≡ (ok, cs)
    → AllWritten i ms changes cs
unfolding insert_columns
insert_columns-ok i [] changes cs h = let q : [] ≡ cs = cc in subst (AllWritten i [] changes) q tt
insert_columns-ok i (m ∷ ms) changes cs h =
    let (c, rest, e, w, ok') = insert_column-ok m _ _ cs h in
    rw w (ok', insert_columns-ok (i + 1) ms changes rest e)

insert_columns-written :
    (i : ℕ) (ms : List ColumnMeta) (changes : List ColumnChange) (cs : List Column)
    → AllWritten i ms changes cs
    → insert_columns i ms changes ≡ (ok, cs)
unfolding insert_columns
insert_columns-written i [] changes [] h = refl
insert_columns-written i [] changes (c ∷ cs) h = absurd h
insert_columns-written i (m ∷ ms) changes [] h = absurd h
insert_columns-written i (m ∷ ms) changes (c ∷ cs) h =
    rw (insert_columns-written (i + 1) ms changes cs h.1) (insert_column-Writes m _ c cs h.0)

-- An insertion of at most 1024 changes makes a version exactly if each column of the table is given a
-- value, or may be null and is not in the primary key; the columns are then these values and nulls.
pub alloc_for_insert_iff :
    (metas : List ColumnMeta) (changes : List ColumnChange) (cs : List Column)
    → length changes ≤ 1024
    → (alloc_for_insert metas changes ≡ (ok, cs)) ↔ AllWritten 0 metas changes cs
unfolding alloc_for_insert
alloc_for_insert_iff metas changes cs h =
    let few : ltb 1024 (length changes) ≡ false = ground arith in
    rw few (insert_columns-ok 0 metas changes cs, insert_columns-written 0 metas changes cs)
