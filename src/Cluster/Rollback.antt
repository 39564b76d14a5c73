-- ===== src/Cluster/Rollback.antt =====
-- cluster/clusterLogFile.cpp, clusterLogFile::rollback: dropping the entries from a log index on.
pub mod Place
pub mod Prefix
pub mod Stale
use dbstream.Common.{
  ℕ, ◌+◌, ◌-◌, ◌%◌, ◌^◌, List, Option, none, some, ◌==◌, if◌then◌else◌, get_elem?, set, take,
}
use dbstream.Cluster.LogIndex.{LogIndexInfo}
use dbstream.Cluster.Block.{Block, block_find}
use dbstream.Cluster.LogFile.{Status, ok, io_error, fault, Io, LogFile}
use dbstream.Cluster.FindBlock.{Found, found, not_found, broken, find_block}

-- The new m_offset: the end of the new current block, or 0 if no block is left. The sum is a uint32_t.
unfoldable pub end_offset : List Block → Option ℕ → ℕ
end_offset bs none = 0
end_offset bs (some c) = elim (get_elem? bs c) [
  | none ↦ 0
  | some b ↦ (b.idx_offset + b.size) % 2 ^ 32
]

unfoldable pub last_block : ℕ → Option ℕ
last_block n = if n == 0 then none else some (n - 1)

-- A failure of either truncation returns before the blocks are dropped.
unfoldable pub truncate_at : Io → LogFile → ℕ → Block → ℕ → Status × LogFile
unfolding end_offset last_block
truncate_at io f k b off =
    let count = if off == 0 then k else k + 1 in
    let cut_blocks = set f.blocks k (record b { size = off }) in
    let g = record f {
      blocks = cut_blocks;
      current = last_block count;
      offset = end_offset cut_blocks (last_block count);
    } in
    if io.truncates then (ok, record g { blocks = take count cut_blocks }) else (io_error, g)

unfoldable pub rollback_at : Io → LogFile → ℕ → Block → Option ℕ → Status × LogFile
unfolding truncate_at
rollback_at io f k b none = (ok, f)
rollback_at io f k b (some off) = truncate_at io f k b off

unfoldable pub rollback_in : Io → LogFile → LogIndexInfo → ℕ → Option Block → Status × LogFile
unfolding rollback_at
rollback_in io f i k none = (fault, f)
rollback_in io f i k (some b) = rollback_at io f k b (block_find b i)

unfoldable pub rollback_found : Io → LogFile → LogIndexInfo → Found → Status × LogFile
unfolding rollback_in
rollback_found io f i (found k) = rollback_in io f i k (get_elem? f.blocks k)
rollback_found io f i not_found = (ok, f)
rollback_found io f i broken = (fault, f)

unfoldable pub rollback : Io → LogFile → LogIndexInfo → Status × LogFile
unfolding rollback_found
rollback io f i = rollback_found io f i (find_block f i)
