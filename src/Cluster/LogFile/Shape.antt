-- ===== src/Cluster/LogFile/Shape.antt =====
-- The blocks of a log file, one behind the other: the representation invariant of the file.
use mathlib.Core.List.{append_assoc}
use dbstream.Common.{
  ℕ, ◌+◌, ◌^◌, ◌≤◌, ◌<◌, ◌≡◌, refl, ap, ◌∙◌, ◌⊎◌, List, [], ◌∷◌, ◌++◌, Option, none, some, arith,
  length, get_elem?, set,
}
use dbstream.Cluster.LogIndex.{LogIndexInfo}
use dbstream.Cluster.Block.{LogEntry, Block, new_block, block_append}
use dbstream.Cluster.Block.Layout.{
  IsPacked, HasSize, block_entries, cut-whole, block_append-entries, block_append-IsPacked,
}
use dbstream.Cluster.LogFile.{LogFile, header_size, max_block_count}

abbrev pub StartsWith : LogIndexInfo → List LogEntry → Type 0
StartsWith i [] = ⊥
StartsWith i (e ∷ es) = e.log_index ≡ i

-- A block is packed, is indexed by its first entry, and does not exceed its buffer.
pub record BlockIsValid (b : Block) : Type 0 where
  pub packed : IsPacked b
  pub starts : StartsWith b.idx_log_index (block_entries b)
  pub fits : b.size ≤ b.volumn

-- The blocks lie one behind the other from the offset `off` up to `end`.
abbrev pub Shaped : ℕ → List Block → ℕ → Type 0
Shaped off [] end = off ≡ end
Shaped off (b ∷ bs) end = BlockIsValid b × (b.idx_offset ≡ off) × Shaped (off + b.size) bs end

abbrev pub entries : List Block → List LogEntry
entries [] = []
entries (b ∷ bs) = block_entries b ++ entries bs

abbrev pub last_index : LogIndexInfo → List LogEntry → LogIndexInfo
last_index i [] = i
last_index i (e ∷ es) = last_index e.log_index es

-- The current block is the last one, if there is one.
abbrev pub HasTail : List Block → Option ℕ → Type 0
HasTail bs c =
    ((bs ≡ []) × (c ≡ none))
    ⊎ ((init : List Block) × (b : Block) × (bs ≡ init ++ b ∷ []) × (c ≡ some (length init)))

pub record IsValid (f : LogFile) : Type 0 where
  pub shaped : Shaped header_size f.blocks f.offset
  pub tail : HasTail f.blocks f.current
  pub last : last_index f.prev_log_index (entries f.blocks) ≡ f.log_index
  pub counted : (length f.blocks ≤ 1) ⊎ (length f.blocks < max_block_count f)
  pub roomy : 1 ≤ max_block_count f
  pub word : f.offset < 2 ^ 32

pub last_index-concat :
    (i : LogIndexInfo) (xs : List LogEntry) (e : LogEntry)
    → last_index i (xs ++ e ∷ []) ≡ e.log_index
last_index-concat i [] e = refl
last_index-concat i (x ∷ xs) e = last_index-concat x.log_index xs e

StartsWith-concat :
    (i : LogIndexInfo) (xs : List LogEntry) (e : LogEntry)
    → StartsWith i xs
    → StartsWith i (xs ++ e ∷ [])
StartsWith-concat i [] e h = absurd h
StartsWith-concat i (x ∷ xs) e h = h

pub entries-concat :
    (bs : List Block) (b : Block) → entries (bs ++ b ∷ []) ≡ entries bs ++ block_entries b
entries-concat [] b = append-nil' (block_entries b)
  where
    append-nil' : (xs : List LogEntry) → xs ++ [] ≡ xs
    append-nil' [] = refl
    append-nil' (x ∷ xs) = ap (◌∷◌ x) (append-nil' xs)
entries-concat (x ∷ bs) b = rw (entries-concat bs b, append_assoc)

pub get_elem?-concat : (bs : List Block) (b : Block) → get_elem? (bs ++ b ∷ []) (length bs) ≡ some b
get_elem?-concat [] b = refl
get_elem?-concat (x ∷ bs) b = get_elem?-concat bs b

pub set-concat : (bs : List Block) (b c : Block) → set (bs ++ b ∷ []) (length bs) c ≡ bs ++ c ∷ []
set-concat [] b c = refl
set-concat (x ∷ bs) b c = ap (◌∷◌ x) (set-concat bs b c)

pub Shaped-concat :
    (off end : ℕ) (bs : List Block) (b : Block)
    → Shaped off bs end
    → BlockIsValid b
    → b.idx_offset ≡ end
    → Shaped off (bs ++ b ∷ []) (end + b.size)
Shaped-concat off end [] b s v e = (v, e ∙ omega arith, omega arith)
Shaped-concat off end (x ∷ bs) b s v e = (s.0, s.1, Shaped-concat (off + x.size) end bs b s.2 v e)

pub Shaped-last :
    (off end : ℕ) (bs : List Block) (b : Block)
    → Shaped off (bs ++ b ∷ []) end
    → (mid : ℕ) × Shaped off bs mid × BlockIsValid b × (b.idx_offset ≡ mid) × (mid + b.size ≡ end)
Shaped-last off end [] b s = (off, refl, s.0, s.1, s.2)
Shaped-last off end (x ∷ bs) b s =
    let (mid, t, v, e, k) = Shaped-last (off + x.size) end bs b s.2 in (mid, (s.0, s.1, t), v, e, k)

pub new_block-entries : (n off : ℕ) (e : LogEntry) → block_entries (new_block n off e) ≡ e ∷ []
unfolding new_block
new_block-entries n off e = cut-whole e.size (e ∷ []) (omega arith)

pub new_block-IsValid : (n off : ℕ) (e : LogEntry) → HasSize e → BlockIsValid (new_block n off e)
unfolding new_block
new_block-IsValid n off e h = record {
  packed = record { exact = rw (new_block-entries n off e) (omega arith); sizes = (h, tt) };
  starts = rw (new_block-entries n off e) refl;
  fits = ground arith;
}

pub block_append-IsValid :
    (b : Block) (e : LogEntry)
    → BlockIsValid b
    → HasSize e
    → b.size + e.size < 2 ^ 32
    → b.size + e.size ≤ b.volumn
    → BlockIsValid (block_append b e)
unfolding block_append
block_append-IsValid b e v h small room = record {
  packed = block_append-IsPacked b e v.packed h small;
  starts =
      rw (block_append-entries b e v.packed small)
        (StartsWith-concat b.idx_log_index (block_entries b) e v.starts);
  fits = omega arith;
}
