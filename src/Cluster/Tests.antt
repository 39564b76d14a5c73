-- ===== src/Cluster/Tests.antt =====
-- Runs of the log file on small files.
use dbstream.Common.{
  ℕ, zero, suc, ◌-◌, ◌<◌, ◌≡◌, refl, ◌≢◌, ◌⊎◌, inr, true, false, List, [], ◌∷◌, ◌++◌, some, arith,
  All,
}
use dbstream.Cluster.LogIndex.{LogIndexInfo, index_lt, index_le, index_gt, Before}
use dbstream.Cluster.Block.{LogEntry, Block, cut, block_find, find_from}
use dbstream.Cluster.Block.Layout.{IsBelow}
use dbstream.Cluster.LogFile.{ok, prev_not_match, need_rollback, Io, LogFile, append}
use dbstream.Cluster.LogFile.Shape.{BlockIsValid, IsValid, entries}
use dbstream.Cluster.LogFile.Outcome.{Outcome}
use dbstream.Cluster.LogFile.Append.{append-Outcome, append-guards}
use dbstream.Cluster.FindBlock.{find_block, find_loop, settle, found, broken}
use dbstream.Cluster.FindBlock.Loop.{first_index, IsAscending}
use dbstream.Cluster.FindBlock.Hits.{find_block-total, find_block-exact}
use dbstream.Cluster.Rollback.{rollback}
use dbstream.Cluster.Rollback.Prefix.{Rolled, rollback-Rolled}
use dbstream.Cluster.Rollback.Stale.{append-rollback_refused}
use dbstream.Cluster.Iterator.{next, search}
use dbstream.Cluster.Iterator.Reads.{Takes, Reads, next-Takes}
use dbstream.Cluster.Iterator.Search.{IsSorted, search-Reads}

abbrev at_index : ℕ → LogIndexInfo
at_index n = record { term = 1; log_index = n }

abbrev entry : ℕ → LogEntry
entry n = record {
  size = 20;
  record_type = 1;
  log_index = at_index n;
  prev_record_log_index = at_index (n - 1);
  leader_commit_index = 0;
}

abbrev block_of : ℕ → ℕ → Block
block_of n offset = record {
  idx_offset = offset;
  idx_log_index = at_index n;
  content = entry n ∷ [];
  volumn = 30;
  size = 20;
  writed_size = 20;
}

abbrev two_blocks : LogFile
two_blocks = record {
  offset = 72;
  begin_log_index = at_index 1;
  prev_log_index = at_index 0;
  log_index = at_index 2;
  blocks = block_of 1 32 ∷ block_of 2 52 ∷ [];
  current = some 1;
  default_block_size = 30;
  default_log_file_size = 900;
}

abbrev works : Io
works = record { writes = true; indexes = true; truncates = true }

block_of-IsValid : (n offset : ℕ) → BlockIsValid (block_of n offset)
unfolding cut
block_of-IsValid n offset = record {
  packed = record { exact = refl; sizes = (omega arith, tt) };
  starts = refl;
  fits = omega arith;
}

two_blocks-IsValid : IsValid two_blocks
unfolding cut
two_blocks-IsValid = record {
  shaped = (block_of-IsValid 1 32, refl, (block_of-IsValid 2 52, refl, refl));
  tail = inr (block_of 1 32 ∷ [], block_of 2 52, refl, refl);
  last = refl;
  counted = inr (omega arith);
  roomy = omega arith;
  word = omega arith;
}

append-Outcome_example : Outcome two_blocks (entry 3) (append works two_blocks (entry 3))
append-Outcome_example =
    append-Outcome works two_blocks (entry 3) two_blocks-IsValid (omega arith) (omega arith)

append-guards_example :
    (Before (at_index 2) (at_index 4)
      × (append works two_blocks (entry 5) ≡ (prev_not_match, two_blocks)))
    ⊎ (Before (at_index 4) (at_index 2)
        × (append works two_blocks (entry 5) ≡ (need_rollback, two_blocks)))
    ⊎ (at_index 2 ≡ at_index 4)
append-guards_example = append-guards works two_blocks (entry 5)

find_block-total_example : find_block two_blocks (at_index 2) ≢ broken
find_block-total_example = find_block-total two_blocks (at_index 2)

two_blocks-IsAscending : IsAscending two_blocks.blocks
unfolding index_lt
two_blocks-IsAscending zero zero h k = absurd (omega arith)
two_blocks-IsAscending zero (suc zero) h k = refl
two_blocks-IsAscending zero (suc (suc n)) h k = absurd (omega arith)
two_blocks-IsAscending (suc m) zero h k = absurd (omega arith)
two_blocks-IsAscending (suc m) (suc zero) h k = absurd (omega arith)
two_blocks-IsAscending (suc m) (suc (suc n)) h k = absurd (omega arith)

find_block-exact_example : find_block two_blocks (first_index two_blocks.blocks 0) ≡ found 0
unfolding index_gt
find_block-exact_example = find_block-exact two_blocks 0 two_blocks-IsAscending (omega arith) refl

below_3 : (j : ℕ) → j < 2 → index_lt (first_index two_blocks.blocks j) (at_index 3) ≡ true
unfolding index_lt
below_3 zero h = refl
below_3 (suc zero) h = refl
below_3 (suc (suc j)) h = absurd (omega arith)

abbrev ends_at_3 : LogFile
ends_at_3 = record two_blocks { log_index = at_index 3 }

abbrev three_blocks : LogFile
three_blocks = record two_blocks {
  offset = 92;
  log_index = at_index 6;
  current = some 2;
  blocks = block_of 1 32 ∷ block_of 3 52 ∷ block_of 5 72 ∷ [];
}

rollback-Rolled_example :
    ((rollback works two_blocks (at_index 2)).0 ≡ ok)
    × Rolled two_blocks (at_index 2) (rollback works two_blocks (at_index 2)).1
rollback-Rolled_example = rollback-Rolled works two_blocks (at_index 2) refl two_blocks-IsValid

-- The rollback to the second block's index leaves the first block, which ends at 52.
rollback-cuts :
    ((rollback works two_blocks (at_index 2)).1.blocks ≡ block_of 1 32 ∷ [])
    × ((rollback works two_blocks (at_index 2)).1.offset ≡ 52)
    × ((rollback works two_blocks (at_index 2)).1.current ≡ some 0)
unfolding rollback find_block find_loop settle block_find find_from index_lt index_gt index_le
rollback-cuts = (refl, refl, refl)

append-rollback_refused_example :
    (append works (rollback works two_blocks (at_index 2)).1 (entry 2)).0 ≡ need_rollback
append-rollback_refused_example =
    append-rollback_refused works works two_blocks (at_index 2) (entry 2) (inr (refl, omega arith))

next-Takes_example :
    Takes two_blocks.blocks 0
      (entry 1 ∷ entry 2 ∷ [])
      (next two_blocks (record { block = 0; offset = 0 }))
unfolding cut
next-Takes_example =
    next-Takes two_blocks (record { block = 0; offset = 0 }) (entry 1 ∷ entry 2 ∷ [])
      two_blocks-IsValid
      (record {
        pre = [];
        block = block_of 1 32;
        post = block_of 2 52 ∷ [];
        done = [];
        todo = entry 1 ∷ [];
        around = refl;
        number = refl;
        split = refl;
        place = refl;
        left = refl;
      })
      ((λ q. absurd (omega arith)), ((λ q. absurd (omega arith)), tt))

two_blocks-IsSorted : IsSorted (entries two_blocks.blocks)
unfolding cut index_lt
two_blocks-IsSorted [] q qs e = tt
two_blocks-IsSorted (p ∷ []) q qs e =
    let same : entry 1 ≡ p = cc in
    let next_one : entry 2 ≡ q = cc in (rw (← same, ← next_one) refl, tt)
two_blocks-IsSorted (p ∷ p' ∷ []) q qs e = cc
two_blocks-IsSorted (p ∷ p' ∷ p'' ∷ ps) q qs e = cc

search-Reads_example :
    (before : List LogEntry) × (x : LogEntry) × (xs : List LogEntry) × (entries two_blocks.blocks
      ≡ before ++ x ∷ xs)
    × All (IsBelow (at_index 2)) before
    × (index_lt x.log_index (at_index 2) ≡ false)
    × Reads two_blocks (record { block = 1; offset = 0 }) (x ∷ xs)
unfolding search find_block find_loop settle block_find find_from index_lt index_gt index_le cut
search-Reads_example =
    search-Reads two_blocks (at_index 2) (record { block = 1; offset = 0 }) two_blocks-IsValid
      two_blocks-IsSorted ((λ q. absurd (omega arith)), ((λ q. absurd (omega arith)), tt)) refl
