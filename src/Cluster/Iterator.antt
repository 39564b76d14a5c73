-- ===== src/Cluster/Iterator.antt =====
-- cluster/clusterLogFile.cpp, clusterLogFile::iterator: reading the log from an index on.
-- The writer is not running during a call. An iterator is on the block `block` of the file.
pub mod Reads
pub mod Search
use dbstream.Common.{
  ℕ, ◌+◌, List, [], ◌∷◌, Option, none, some, Bool, true, false, not, ◌==◌, ◌||◌, if◌then◌else◌,
  get_elem?, drop,
}
use dbstream.Cluster.LogIndex.{LogIndexInfo}
use dbstream.Cluster.Block.{LogEntry, Block, block_find, entry_at, end_of_file_type}
use dbstream.Cluster.LogFile.{
  Status, ok, log_index_not_found, illegal_log_entry, end_of_file, fault, LogFile,
}
use dbstream.Cluster.FindBlock.{Found, found, not_found, broken, find_block}

pub record Iter : Type 0 where
  pub block : ℕ
  pub offset : ℕ

unfoldable pub search_at : ℕ → Option ℕ → Status × Option Iter
search_at k none = (log_index_not_found, none)
search_at k (some off) = (ok, some (record { block = k; offset = off }))

unfoldable pub search_in : LogIndexInfo → ℕ → Option Block → Status × Option Iter
unfolding search_at
search_in i k none = (fault, none)
search_in i k (some b) = search_at k (block_find b i)

unfoldable pub search_found : LogFile → LogIndexInfo → Found → Status × Option Iter
unfolding search_in
search_found f i (found k) = search_in i k (get_elem? f.blocks k)
search_found f i not_found = (log_index_not_found, none)
search_found f i broken = (fault, none)

-- Of a search that fails, no iterator is left.
unfoldable pub search : LogFile → LogIndexInfo → Status × Option Iter
unfolding search_found
search f i = search_found f i (find_block f i)

-- The iterator is before the end of its block, and `more` blocks are behind it.
unfoldable pub read_entry : Bool → Iter → Block → Option LogEntry → Status × Option LogEntry × Iter
read_entry more it b none = (fault, none, it)
read_entry more it b (some e) =
    if e.record_type == end_of_file_type
    then (if more || not (it.offset + e.size == b.size)
        then (illegal_log_entry, none, it)
        else (end_of_file, none, it))
    else (ok, some e, record it { offset = it.offset + e.size })

-- The loop of `next` over the block of the iterator and those behind it. `none` is a null entry.
unfoldable pub next_from : List Block → Iter → Status × Option LogEntry × Iter
unfolding read_entry
next_from [] it = (fault, none, it)
next_from (b ∷ []) it =
    if it.offset == b.size
    then (ok, none, it)
    else read_entry false it b (entry_at it.offset b.content)
next_from (b ∷ c ∷ bs) it =
    let rotated = next_from (c ∷ bs) (record { block = it.block + 1; offset = 0 }) in
    if it.offset == b.size then rotated else read_entry true it b (entry_at it.offset b.content)

unfoldable pub next : LogFile → Iter → Status × Option LogEntry × Iter
unfolding next_from
next f it = next_from (drop it.block f.blocks) it
