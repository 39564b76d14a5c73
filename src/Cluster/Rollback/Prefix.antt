-- ===== src/Cluster/Rollback/Prefix.antt =====
-- What a rollback removes from the log, and where the file ends behind it.
use mathlib.Core.List.{append_assoc, append-nil}
use dbstream.Common.{
  ℕ, ◌+◌, ◌^◌, ◌<◌, ◌≡◌, refl, sym, ap, ◌∙◌, ◌⊎◌, inl, inr, true, false, List, [], ◌∷◌, ◌++◌,
  Option, none, some, arith, ◌==◌, if◌then◌else◌, Bool-cases, length, length-append, get_elem?, set,
  All, get_or, get_elem?-eq-get_or, subst,
}
use dbstream.Cluster.LogIndex.{LogIndexInfo, index_lt}
use dbstream.Cluster.Block.{LogEntry, Block}
use dbstream.Cluster.Block.Layout.{IsBelow, block_entries, cut-sizes, Finds, block_find-Finds}
use dbstream.Cluster.LogFile.{ok, Io, LogFile, header_size}
use dbstream.Cluster.LogFile.Shape.{
  Shaped, entries, HasTail, IsValid, Shaped-concat, entries-concat,
}
use dbstream.Cluster.FindBlock.{Found, found, not_found, broken, find_block}
use dbstream.Cluster.FindBlock.Loop.{no_block}
use dbstream.Cluster.FindBlock.Hits.{find_block-total, find_block_sound}
use dbstream.Cluster.Rollback.{
  end_offset, last_block, truncate_at, rollback_at, rollback_in, rollback_found, rollback,
}
use dbstream.Cluster.Rollback.Place.{
  split_at, Shaped-split, set-at, take-prefix, last_block-HasTail, Placed, end_offset-Placed,
  zero_total, cut-IsValid, entries-append,
}

-- The file `g` is `f` less the entries from `first` on, which stands in the block that the search
-- gives and is the first of the block that is not below `i`.
pub record Cuts (f : LogFile) (i : LogIndexInfo) (g : LogFile) : Type 0 where
  pub pre : List Block
  pub block : Block
  pub post : List Block
  pub kept : List LogEntry
  pub first : LogEntry
  pub rest : List LogEntry
  pub around : f.blocks ≡ pre ++ block ∷ post
  pub reached : find_block f i ≡ found (length pre)
  pub split : block_entries block ≡ kept ++ first ∷ rest
  pub below : All (IsBelow i) kept
  pub stop : index_lt first.log_index i ≡ false
  pub before : entries f.blocks ≡ entries pre ++ kept ++ (first ∷ rest) ++ entries post
  pub left : entries g.blocks ≡ entries pre ++ kept
  pub placed : Placed g.blocks g.offset
  pub tail : HasTail g.blocks g.current

-- The search gives a block, all of whose entries are below `i`.
abbrev pub Passes : LogFile → LogIndexInfo → Type 0
Passes f i =
    (pre : List Block) × (b : Block) × (post : List Block) × (f.blocks ≡ pre ++ b ∷ post)
    × (find_block f i ≡ found (length pre))
    × All (IsBelow i) (block_entries b)

abbrev pub Rolled : LogFile → LogIndexInfo → LogFile → Type 0
Rolled f i g = ((find_block f i ≡ not_found) × (g ≡ f)) ⊎ (Passes f i × (g ≡ f)) ⊎ Cuts f i g

-- The blocks that are left, as one list.
truncate_at-blocks :
    (io : Io) (f : LogFile) (k : ℕ) (b : Block) (off : ℕ) (bs rest : List Block)
    → io.truncates ≡ true
    → set f.blocks k (record b { size = off }) ≡ bs ++ rest
    → (if off == 0 then k else k + 1) ≡ length bs
    → truncate_at io f k b off ≡ (
      ok,
      record f {
        blocks = bs;
        current = last_block (length bs);
        offset = end_offset (bs ++ rest) (last_block (length bs));
      },
    )
unfolding truncate_at
truncate_at-blocks io f k b off bs rest t e n = rw (t, e, n, take-prefix bs rest) refl

module _ (io : Io) (f : LogFile) (i : LogIndexInfo) (pre post : List Block) (b : Block)
    (t : io.truncates ≡ true) (v : IsValid f) (at : f.blocks ≡ pre ++ b ∷ post)
    (reached : find_block f i ≡ found (length pre)) where
  before :
      (ps qs : List LogEntry)
      → block_entries b ≡ ps ++ qs
      → entries f.blocks ≡ entries pre ++ ps ++ qs ++ entries post
  before ps qs split =
      rw (at, entries-append, split)
        (sym (append_assoc (entries pre) (ps ++ qs) (entries post))
          ∙ ap (λ l. l ++ entries post) (sym (append_assoc (entries pre) ps qs)))

  -- The blocks that are left, once it is known how they lie and what they hold.
  Cuts-left :
      (off : ℕ) (bs rest : List Block) (mid : ℕ) (ps : List LogEntry) (e : LogEntry)
      (qs : List LogEntry)
      → set f.blocks (length pre) (record b { size = off }) ≡ bs ++ rest
      → (if off == 0 then length pre else length pre + 1) ≡ length bs
      → Shaped header_size bs mid
      → mid < 2 ^ 32
      → entries bs ≡ entries pre ++ ps
      → block_entries b ≡ ps ++ e ∷ qs
      → All (IsBelow i) ps
      → index_lt e.log_index i ≡ false
      → ((truncate_at io f (length pre) b off).0 ≡ ok)
        × Cuts f i (truncate_at io f (length pre) b off).1
  Cuts-left off bs rest mid ps e qs cut count shaped small left split below stop =
      rw (truncate_at-blocks io f (length pre) b off bs rest t cut count) (
        refl,
        record {
          pre = pre;
          block = b;
          post = post;
          kept = ps;
          first = e;
          rest = qs;
          around = at;
          reached = reached;
          split = split;
          below = below;
          stop = stop;
          before = before ps (e ∷ qs) split;
          left = left;
          placed = end_offset-Placed bs rest mid shaped small;
          tail = last_block-HasTail bs;
        },
      )

  truncate_at-Cuts :
      (off : ℕ)
      → Finds i (block_entries b) 0 (some off)
      → ((truncate_at io f (length pre) b off).0 ≡ ok)
        × Cuts f i (truncate_at io f (length pre) b off).1
  truncate_at-Cuts off (ps, e, qs, split, sum, below, stop) =
      let (mid, shaped, w, begins, ends) =
        Shaped-split header_size f.offset pre b post (rw at at v.shaped) in
      let short : Block = record b { size = off } in
      let set_at : set f.blocks (length pre) short ≡ pre ++ short ∷ post =
        rw at (set-at pre b short post) in
      elim (Bool-cases (off == 0)) [
        | inl z ↦
            let none_kept : ps ≡ [] =
              zero_total ps (e ∷ qs) (rw split at (cut-sizes b.size b.content w.packed.sizes))
                (ground arith) in
            Cuts-left off pre (short ∷ post) mid ps e qs set_at (rw z refl) shaped
              (omega (arith, v.word)) (rw none_kept (sym (append-nil (entries pre)))) split below
              stop
        | inr z ↦
            let more : 0 < off = ground (arith, z) in
            let (first, within, valid) = cut-IsValid b off ps (e ∷ qs) w split (omega arith) more in
            let size : length pre + 1 ≡ length (pre ++ short ∷ []) =
              sym (length-append pre (short ∷ [])) in
            Cuts-left off (pre ++ short ∷ []) post (mid + off) ps e qs
              (set_at ∙ sym (append_assoc pre (short ∷ []) post)) (rw z size)
              (Shaped-concat header_size mid pre short shaped valid begins) (omega (arith, v.word))
              (entries-concat pre short ∙ rw first refl) split below stop
      ]

  rollback_at-Rolled :
      (o : Option ℕ)
      → Finds i (block_entries b) 0 o
      → ((rollback_at io f (length pre) b o).0 ≡ ok)
        × Rolled f i (rollback_at io f (length pre) b o).1
  unfolding rollback_at
  rollback_at-Rolled none h = (refl, inr (inl ((pre, b, post, at, reached, h), refl)))
  rollback_at-Rolled (some off) h =
      let (fine, cuts) = truncate_at-Cuts off h in (fine, inr (inr cuts))

rollback_in-Rolled :
    (io : Io) (f : LogFile) (i : LogIndexInfo) (k : ℕ) (o : Option Block)
    → io.truncates ≡ true
    → IsValid f
    → find_block f i ≡ found k
    → get_elem? f.blocks k ≡ o
    → ((rollback_in io f i k o).0 ≡ ok) × Rolled f i (rollback_in io f i k o).1
unfolding rollback_in
rollback_in-Rolled io f i k none t v reached e =
    absurd (inside (get_elem?-eq-get_or f.blocks k no_block (find_block_sound f i k reached).0))
  where
    inside : get_elem? f.blocks k ≡ some (get_or f.blocks k no_block) → ⊥
    inside q = cc
rollback_in-Rolled io f i k (some b) t v reached e =
    let (pre, post, at, l) = split_at f.blocks k b e in
    let (mid, shaped, w, begins, ends) =
      Shaped-split header_size f.offset pre b post (rw at at v.shaped) in
    subst P l (
      rollback_at-Rolled io f i pre post b t v at (reached ∙ ap found (sym l)) _
        (block_find-Finds b i w.packed))
  where
    P : ℕ → Type 0
    P n = ((rollback_in io f i n (some b)).0 ≡ ok) × Rolled f i (rollback_in io f i n (some b)).1

rollback_found-Rolled :
    (io : Io) (f : LogFile) (i : LogIndexInfo) (p : Found)
    → io.truncates ≡ true
    → IsValid f
    → find_block f i ≡ p
    → ((rollback_found io f i p).0 ≡ ok) × Rolled f i (rollback_found io f i p).1
unfolding rollback_found
rollback_found-Rolled io f i (found k) t v e = rollback_in-Rolled io f i k _ t v e refl
rollback_found-Rolled io f i not_found t v e = (refl, inl (e, refl))
rollback_found-Rolled io f i broken t v e = absurd (find_block-total f i e)

-- With working truncations, a rollback of a valid file to `i` succeeds, in one of three ways. The
-- search finds no block, and the file is unchanged; or it finds one all of whose entries are below
-- `i`, and the file is unchanged; or it finds one with an entry that is not below `i`, and then
-- exactly the first such entry of the block and all entries behind it are removed, the last block
-- that is left is the current one, and the offset is its end, or 0 if no block is left.
pub rollback-Rolled :
    (io : Io) (f : LogFile) (i : LogIndexInfo)
    → io.truncates ≡ true
    → IsValid f
    → ((rollback io f i).0 ≡ ok) × Rolled f i (rollback io f i).1
unfolding rollback
rollback-Rolled io f i t v = rollback_found-Rolled io f i (find_block f i) t v refl
