-- ===== src/Cluster/Iterator/Search.antt =====
-- Where a search puts the iterator, and what is read from there.
use dbstream.Common.{
  ℕ, ◌≡◌, refl, sym, ap, ◌∙◌, inl, inr, true, false, List, [], ◌∷◌, ◌++◌, Option, none, some, arith,
  get_elem?, All, All-append, get_or, get_elem?-eq-get_or,
}
use mathlib.Core.List.{append_assoc}
use dbstream.Cluster.LogIndex.{LogIndexInfo, index_lt, index_le, index_lt_le_trans, index_eq_le}
use dbstream.Cluster.Block.{LogEntry, Block, block_find}
use dbstream.Cluster.Block.Layout.{block_entries, IsBelow, Finds, block_find-Finds}
use dbstream.Cluster.LogFile.{ok, LogFile, header_size}
use dbstream.Cluster.LogFile.Shape.{BlockIsValid, StartsWith, entries, IsValid}
use dbstream.Cluster.FindBlock.{Found, found, not_found, broken, find_block}
use dbstream.Cluster.FindBlock.Loop.{first_index, no_block}
use dbstream.Cluster.FindBlock.Hits.{find_block_sound}
use dbstream.Cluster.Rollback.Place.{split_at, Shaped-at, entries-append, regroup}
use dbstream.Cluster.Iterator.{Iter, search_at, search_in, search_found, search}
use dbstream.Cluster.Iterator.Reads.{IsData, At, Reads, At-Reads}

-- Each entry is behind entries of smaller log indexes.
abbrev pub IsSorted : List LogEntry → Type 0
IsSorted es =
    (ps : List LogEntry) (q : LogEntry) (qs : List LogEntry)
    → es ≡ ps ++ q ∷ qs
    → All (IsBelow q.log_index) ps

-- `it` splits the log at `i`.
abbrev pub Lands : LogFile → LogIndexInfo → Iter → Type 0
Lands f i it =
    (before : List LogEntry) × (x : LogEntry) × (xs : List LogEntry) × (entries f.blocks
      ≡ before ++ x ∷ xs)
    × All (IsBelow i) before
    × (index_lt x.log_index i ≡ false)
    × At f.blocks 0 it (x ∷ xs)

IsBelow-weaken :
    (i j : LogIndexInfo) (xs : List LogEntry)
    → index_le i j ≡ true
    → All (IsBelow i) xs
    → All (IsBelow j) xs
IsBelow-weaken i j [] h a = tt
IsBelow-weaken i j (x ∷ xs) h a =
    (index_lt_le_trans x.log_index i j a.0 h, IsBelow-weaken i j xs h a.1)

-- The entries in front of a block that begins at or before `j` are before `j`.
before-block :
    (pre : List Block) (b : Block) (post : List Block) (j : LogIndexInfo)
    → (bs : List LogEntry) → block_entries b ≡ bs
    → StartsWith b.idx_log_index bs
    → index_le b.idx_log_index j ≡ true
    → IsSorted (entries (pre ++ b ∷ post))
    → All (IsBelow j) (entries pre)
before-block pre b post j [] e s h sorted = absurd s
before-block pre b post j (q ∷ qs) e s h sorted =
    let whole : entries (pre ++ b ∷ post) ≡ entries pre ++ (q ∷ qs ++ entries post) =
      rw (entries-append pre (b ∷ post), e) refl in
    IsBelow-weaken q.log_index j (entries pre) (rw s h)
      (sorted (entries pre) q (qs ++ entries post) whole)

search_in-Lands :
    (f : LogFile) (i : LogIndexInfo) (it : Iter) (k : ℕ) (b : Block) (r : Option ℕ)
    → IsValid f
    → IsSorted (entries f.blocks)
    → get_elem? f.blocks k ≡ some b
    → index_le b.idx_log_index i ≡ true
    → Finds i (block_entries b) 0 r
    → search_at k r ≡ (ok, some it)
    → Lands f i it
unfolding search_at
search_in-Lands f i it k b none v sorted read le h e = cc
search_in-Lands f i it k b (some off) v sorted read le (ps, x, qs, split, sum, below, stop) e =
    let (pre, post, around, number) = split_at f.blocks k b read in
    let w : BlockIsValid b = Shaped-at header_size f.offset pre b post (rw around at v.shaped) in
    let behind =
      before-block pre b post i (block_entries b) refl w.starts le (rw around at sorted) in
    let there : record { block = k; offset = off } ≡ it = cc in
    let block : k ≡ it.block = ap (λ j. j.block) there in
    let offset : off ≡ it.offset = ap (λ j. j.offset) there in
    (
      entries pre ++ ps,
      x,
      qs ++ entries post,
      rw (around, entries-append pre (b ∷ post), split)
          (sym (append_assoc (entries pre) (ps ++ x ∷ qs) (entries post))
            ∙ regroup (entries pre) ps (x ∷ qs) (entries post)),
      All-append (IsBelow i) (entries pre) ps behind below,
      stop,
      record {
        pre = pre;
        block = b;
        post = post;
        done = ps;
        todo = x ∷ qs;
        around = around;
        number = omega (arith, number, block);
        split = split;
        place = omega (arith, sum, offset);
        left = refl;
      },
    )

search_block-Lands :
    (f : LogFile) (i : LogIndexInfo) (it : Iter) (k : ℕ) (o : Option Block)
    → IsValid f
    → IsSorted (entries f.blocks)
    → find_block f i ≡ found k
    → get_elem? f.blocks k ≡ o
    → search_in i k o ≡ (ok, some it)
    → Lands f i it
unfolding search_in
search_block-Lands f i it k none v sorted h read e = cc
search_block-Lands f i it k (some b) v sorted h read e =
    let (inside, cases) = find_block_sound f i k h in
    let (pre, post, around, number) = split_at f.blocks k b read in
    let w : BlockIsValid b = Shaped-at header_size f.offset pre b post (rw around at v.shaped) in
    let same_option : some (get_or f.blocks k no_block) ≡ some b =
      sym (get_elem?-eq-get_or f.blocks k no_block inside) ∙ read in
    let same : get_or f.blocks k no_block ≡ b = cc in
    let begins : first_index f.blocks k ≡ b.idx_log_index = ap (λ c. c.idx_log_index) same in
    let le : index_le b.idx_log_index i ≡ true = elim cases [
      | inl exact ↦ index_eq_le _ _ (sym begins ∙ exact)
      | inr (low, _) ↦ rw begins at low
    ] in
    search_in-Lands f i it k b (block_find b i) v sorted read le (block_find-Finds b i w.packed) e

search_found-Lands :
    (f : LogFile) (i : LogIndexInfo) (it : Iter) (p : Found)
    → IsValid f
    → IsSorted (entries f.blocks)
    → find_block f i ≡ p
    → search_found f i p ≡ (ok, some it)
    → Lands f i it
unfolding search_found
search_found-Lands f i it (found k) v sorted h e =
    search_block-Lands f i it k (get_elem? f.blocks k) v sorted h refl e
search_found-Lands f i it not_found v sorted h e = cc
search_found-Lands f i it broken v sorted h e = cc

All-suffix : (P : LogEntry → Type 0) (ps qs : List LogEntry) → All P (ps ++ qs) → All P qs
All-suffix P [] qs h = h
All-suffix P (p ∷ ps) qs h = All-suffix P ps qs h.1

-- If a search in a valid, sorted file that does not hold an end-of-file record succeeds, the entries
-- read from the iterator are those of the log from the first one on that is not before the index:
-- all before it are smaller than the index.
pub search-Reads :
    (f : LogFile) (i : LogIndexInfo) (it : Iter)
    → IsValid f
    → IsSorted (entries f.blocks)
    → All IsData (entries f.blocks)
    → search f i ≡ (ok, some it)
    → (before : List LogEntry) × (x : LogEntry) × (xs : List LogEntry) × (entries f.blocks
        ≡ before ++ x ∷ xs)
      × All (IsBelow i) before
      × (index_lt x.log_index i ≡ false)
      × Reads f it (x ∷ xs)
unfolding search
search-Reads f i it v sorted d e =
    let (before, x, xs, split, below, stop, there) =
      search_found-Lands f i it (find_block f i) v sorted refl e in
    (
      before,
      x,
      xs,
      split,
      below,
      stop,
      At-Reads f it (x ∷ xs) v there (All-suffix IsData before (x ∷ xs) (rw split at d)),
    )
