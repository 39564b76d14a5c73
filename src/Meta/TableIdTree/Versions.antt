-- ===== src/Meta/TableIdTree/Versions.antt =====
-- What `put` makes of a tree, and what `get` and `get_prev_version` find after puts.
use dbstream.Common.{
  ℕ, ◌*◌, ◌^◌, ◌≤◌, ◌<◌, ◌≡◌, refl, sym, ap, subst, ◌∙◌, ◌≢◌, inl, inr, true, false, Option, none,
  some, List, [], ◌∷◌, ltb, ◌==◌, Bool-cases, arith,
}
use dbstream.Meta.TableId.{table_id}
use dbstream.Meta.TableIdTree.{
  TableMeta, Wrap, Tree, grow, put, search_versions, version_at, version_before,
}
use dbstream.Meta.TableIdTree.Ids.{span, span_pos}
use dbstream.Meta.TableIdTree.Placed.{IsVersions}
use dbstream.Meta.TableIdTree.Put.{Newer, pushed, put_below-Updated}
use dbstream.Meta.TableIdTree.Grow.{Close, find, find_beyond, Rooted, grow-Grew}

module _ {ℓ} {A : Type ℓ} where
  pub record After (m : TableMeta A) (t t' : Tree A) : Type ℓ where
    pub rooted : Rooted t'
    pub close : (i : ℕ) → Close t.level i → Close t'.level i
    pub here : find t' (table_id m.id) ≡ some (pushed m (find t (table_id m.id)))
    pub others : (i : ℕ) → Close t.level i → i ≢ table_id m.id → find t' i ≡ find t i

  pub put-After :
      (t : Tree A) (m : TableMeta A)
      → Rooted t
      → Close t.level (table_id m.id)
      → Newer m (find t (table_id m.id))
      → (t' : Tree A) × (put m t ≡ some t') × After m t t'
  unfolding put
  put-After t m p c new =
      let id = table_id m.id in
      let enough : 2 ^ 31 ≤ 512 ^ 6 * (512 * span t.level) =
        (let s = span_pos t.level in omega arith) in
      let g = grow-Grew 6 t id p c enough in
      let n = grow 6 id t in
      let (root, up, e, u) =
        put_below-Updated n.level n.root 0 m g.rooted g.room
          (subst (Newer m) (sym (g.same id c)) new) in
      let t' : Tree A = record { level = n.level; root = root } in
      (
        t',
        rw (put, e) refl,
        record {
          rooted = u.placed;
          close = g.close;
          here = u.here ∙ ap (λ o. some (pushed m o)) (g.same id c);
          others = λ i ci ne. elim (Bool-cases (ltb i (512 * span n.level))) [
            | inl b ↦ u.others i (omega arith, ground arith, ci.0) ne ∙ g.same i ci
            | inr b ↦
                find_beyond n.level root i u.placed (g.close i ci) (ground arith)
                ∙ sym (find_beyond n.level n.root i g.rooted (g.close i ci) (ground arith))
                ∙ g.same i ci
          ];
        },
      )

  below :
      (i w : ℕ) (ms : List (TableMeta A)) (m : TableMeta A)
      → IsVersions i (m ∷ ms)
      → m.id < w
      → version_at (m ∷ ms) w ≡ none
  unfolding version_at IsVersions
  below i w [] m v h = let b : (m.id == w) ≡ false = ground arith in rw (b) refl
  below i w (x ∷ ms) m (e, a, r) h =
      let b : (m.id == w) ≡ false = ground arith in
      let lt : x.id < w = omega arith in rw (b) (below i w ms x r lt)

  below_before :
      (i w : ℕ) (ms : List (TableMeta A)) (m : TableMeta A)
      → IsVersions i (m ∷ ms)
      → m.id < w
      → version_before (m ∷ ms) w ≡ none
  unfolding version_before IsVersions
  below_before i w [] m v h = let b : (m.id == w) ≡ false = ground arith in rw (b) refl
  below_before i w (x ∷ ms) m (e, a, r) h =
      let b : (m.id == w) ≡ false = ground arith in
      let lt : x.id < w = omega arith in rw (b) (below_before i w ms x r lt)

  abbrev pub as_wrap : List (TableMeta A) → Option (Wrap A)
  as_wrap [] = none
  as_wrap (m ∷ ms) = some (record { newest = m; prev = ms })

  -- No assertion fails, and the test of the newest version changes nothing.
  search_versions_lem :
      (search : List (TableMeta A) → ℕ → Option (TableMeta A)) (w : ℕ) (ms : List (TableMeta A))
      → search [] w ≡ none
      → ((m : TableMeta A) (xs : List (TableMeta A))
          → IsVersions (table_id w) (m ∷ xs)
          → m.id < w
          → search (m ∷ xs) w ≡ none)
      → IsVersions (table_id w) ms
      → search_versions search (as_wrap ms) w ≡ some (search ms w)
  unfolding search_versions IsVersions
  search_versions_lem search w [] z far v = ap some (sym z)
  search_versions_lem search w (m ∷ ms) z far (e, a, r) =
      let b : (table_id m.id == table_id w) ≡ true = ground (arith, e) in
      elim (Bool-cases (ltb m.id w)) [
        | inl l ↦ rw (b, l) (ap some (sym (far m ms (e, a, r) (ground arith))))
        | inr l ↦ rw (b, l) refl
      ]

  pub search-version_at :
      (w : ℕ) (ms : List (TableMeta A))
      → IsVersions (table_id w) ms
      → search_versions version_at (as_wrap ms) w ≡ some (version_at ms w)
  unfolding version_at
  search-version_at w ms v =
      search_versions_lem version_at w ms refl (λ m xs. below (table_id w) w xs m) v

  pub search-version_before :
      (w : ℕ) (ms : List (TableMeta A))
      → IsVersions (table_id w) ms
      → search_versions version_before (as_wrap ms) w ≡ some (version_before ms w)
  unfolding version_before
  search-version_before w ms v =
      search_versions_lem version_before w ms refl (λ m xs. below_before (table_id w) w xs m) v
