-- ===== src/Meta/TableIdTree/History.antt =====
-- Any sequence of puts into a new tree, and what is then found.
use dbstream.Common.{
  ℕ, zero, ◌^◌, ◌<◌, ◌≡◌, refl, sym, ap, subst, ◌∙◌, inl, inr, true, false, Option, none, some,
  List, [], ◌∷◌, ◌==◌, if◌then◌else◌, Bool-cases, ℕ-cases, arith,
}
use dbstream.Meta.TableId.{table_id}
use dbstream.Meta.TableIdTree.{
  TableMeta, Tree, new_tree, put, search_versions, version_at, version_before, get,
  get_prev_version,
}
use dbstream.Meta.TableIdTree.Placed.{Above, IsVersions, new_node-Placed}
use dbstream.Meta.TableIdTree.Put.{Newer, pushed}
use dbstream.Meta.TableIdTree.Grow.{Close, find, Rooted}
use dbstream.Meta.TableIdTree.Descend.{find_below-new_node}
use dbstream.Meta.TableIdTree.Versions.{
  put-After, as_wrap, search-version_at, search-version_before,
}

module _ {ℓ} {A : Type ℓ} where
  -- Puts of a list of versions, the last one first.
  abbrev pub put_all : List (TableMeta A) → Tree A → Option (Tree A)
  put_all [] t = some t
  put_all (m ∷ ms) t = elim (put_all ms t) [ none ↦ none | some t' ↦ put m t' ]

  abbrev pub of_table : ℕ → List (TableMeta A) → List (TableMeta A)
  of_table i [] = []
  of_table i (m ∷ ms) = if table_id m.id == i then m ∷ of_table i ms else of_table i ms

  abbrev IsLast : TableMeta A → List (TableMeta A) → Type 0
  IsLast m [] = Unit
  IsLast m (x ∷ ms) = (table_id x.id ≡ table_id m.id → x.id < m.id) × IsLast m ms

  -- Tables have numbers of 16 bits, and each version is later than those of its table before it.
  abbrev pub IsHistory : List (TableMeta A) → Type 0
  IsHistory [] = Unit
  IsHistory (m ∷ ms) = (table_id m.id < 2 ^ 16) × IsLast m ms × IsHistory ms

  last-Above :
      (m : TableMeta A) (ms : List (TableMeta A))
      → IsLast m ms
      → Above m.id (of_table (table_id m.id) ms)
  last-Above m [] h = tt
  last-Above m (x ∷ ms) (a, h) =
      let i = table_id m.id in
      elim (Bool-cases (table_id x.id == i)) [
        | inl b ↦
            subst (λ t. Above m.id (if t then x ∷ of_table i ms else of_table i ms)) (sym b)
              (a (ground arith))
        | inr b ↦
            subst (λ t. Above m.id (if t then x ∷ of_table i ms else of_table i ms)) (sym b)
              (last-Above m ms h)
      ]

  Above-Newer : (m : TableMeta A) (ms : List (TableMeta A)) → Above m.id ms → Newer m (as_wrap ms)
  Above-Newer m [] h = tt
  Above-Newer m (x ∷ ms) h = h

  of_table-IsVersions :
      (i : ℕ) (ms : List (TableMeta A)) → IsHistory ms → IsVersions i (of_table i ms)
  unfolding IsVersions
  of_table-IsVersions i [] h = tt
  of_table-IsVersions i (m ∷ ms) (a, l, h) =
      let rest = of_table-IsVersions i ms h in
      elim (Bool-cases (table_id m.id == i)) [
        | inl b ↦
            let e : table_id m.id ≡ i = ground arith in
            subst (λ t. IsVersions i (if t then m ∷ of_table i ms else of_table i ms)) (sym b)
              (e, subst (λ t. Above m.id (of_table t ms)) e (last-Above m ms l), rest)
        | inr b ↦
            subst (λ t. IsVersions i (if t then m ∷ of_table i ms else of_table i ms)) (sym b) rest
      ]

  version_at-of_table :
      (ms : List (TableMeta A)) (w : ℕ) → version_at (of_table (table_id w) ms) w ≡ version_at ms w
  unfolding version_at
  version_at-of_table [] w = refl
  version_at-of_table (m ∷ ms) w =
      let rest = version_at-of_table ms w in
      elim (Bool-cases (table_id m.id == table_id w)) [
        | inl b ↦ rw (b, rest) refl
        | inr b ↦
            let n : (m.id == w) ≡ false = elim (ℕ-cases m.id w) [
              | inl e ↦ absurd (let x = ap table_id e in ground arith)
              | inr e ↦ ground arith
            ] in
            rw (b, n, rest) refl
      ]

  record Holds (t : Tree A) (ms : List (TableMeta A)) : Type ℓ where
    rooted : Rooted t
    close : (i : ℕ) → i < 2 ^ 16 → Close t.level i
    found : (i : ℕ) → i < 2 ^ 16 → find t i ≡ as_wrap (of_table i ms)

  new_tree-Holds : Holds new_tree []
  new_tree-Holds = record {
    rooted = new_node-Placed A zero 0 false;
    close = λ i h. (omega arith, omega arith);
    found = λ i h. find_below-new_node zero 0 i false;
  }

  pushed_wrap :
      (m : TableMeta A) (ms : List (TableMeta A)) → some (pushed m (as_wrap ms)) ≡ as_wrap (m ∷ ms)
  pushed_wrap m [] = refl
  pushed_wrap m (x ∷ ms) = refl

  put-Holds :
      (t : Tree A) (m : TableMeta A) (ms : List (TableMeta A))
      → Holds t ms
      → IsHistory (m ∷ ms)
      → (t' : Tree A) × (put m t ≡ some t') × Holds t' (m ∷ ms)
  put-Holds t m ms h (s, l, r) =
      let id = table_id m.id in
      let (t', e, a) = put-After t m h.rooted (h.close id s) (
        subst (Newer m) (sym (h.found id s))
          (Above-Newer m (of_table id ms) (last-Above m ms l))) in
      (
        t',
        e,
        record {
          rooted = a.rooted;
          close = λ i x. a.close i (h.close i x);
          found = λ i x. elim (ℕ-cases i id) [
            | inl q ↦
                let self : (id == id) ≡ true = ground arith in
                subst
                  (λ j. find t' j ≡ as_wrap (if id == j then m ∷ of_table j ms else of_table j ms))
                  (sym q)
                  (a.here
                    ∙ ap (λ o. some (pushed m o)) (h.found id s)
                    ∙ pushed_wrap m (of_table id ms)
                    ∙ sym
                        (ap (λ c. as_wrap (if c then m ∷ of_table id ms else of_table id ms)) self))
            | inr q ↦
                let b : (id == i) ≡ false = ground (arith, q) in
                a.others i (h.close i x) q
                ∙ h.found i x
                ∙ sym (ap (λ c. as_wrap (if c then m ∷ of_table i ms else of_table i ms)) b)
          ];
        },
      )

  put_all-Holds :
      (ms : List (TableMeta A))
      → IsHistory ms
      → (t : Tree A) × (put_all ms new_tree ≡ some t) × Holds t ms
  put_all-Holds [] h = (new_tree, refl, new_tree-Holds)
  put_all-Holds (m ∷ ms) (s, l, h) =
      let (t, e, o) = put_all-Holds ms h in
      let (t', e', o') = put-Holds t m ms o (s, l, h) in
      (t', ap (λ x. elim x [ none ↦ none | some y ↦ put m y ]) e ∙ e', o')

  -- After any puts into a new tree, each of a table below 2^16 and of a later version than those of the
  -- table before, no assertion has failed. Then `get` finds for an identifier the metadata that was put
  -- under it, or nothing if there was none, and `get_prev_version` what was put before it for the same
  -- table.
  pub put_all-get :
      (ms : List (TableMeta A))
      → IsHistory ms
      → (t : Tree A) × (put_all ms new_tree ≡ some t)
        × ((w : ℕ)
            → table_id w < 2 ^ 16
            → (get t w ≡ some (version_at ms w))
              × (get_prev_version t w ≡ some (version_before (of_table (table_id w) ms) w)))
  unfolding get get_prev_version
  put_all-get ms h =
      let (t, e, o) = put_all-Holds ms h in
      (
        t,
        e,
        λ w s.
            let i = table_id w in
            let v = of_table-IsVersions i ms h in
            (
              ap (λ x. search_versions version_at x w) (o.found i s)
                  ∙ search-version_at w (of_table i ms) v
                  ∙ ap some (version_at-of_table ms w),
              ap (λ x. search_versions version_before x w) (o.found i s)
                  ∙ search-version_before w (of_table i ms) v,
            ),
      )
