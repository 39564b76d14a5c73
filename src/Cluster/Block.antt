-- ===== src/Cluster/Block.antt =====
-- cluster/clusterLogFile.cpp, struct block: a buffer that log entries are laid in one after another.
-- The buffer is the list of the entries in it; a byte offset is a sum of their sizes. Bytes past
-- `size` are never read, so what a rollback leaves there is dropped by the next append.
pub mod Layout
use dbstream.Common.{
  ℕ, ◌+◌, ◌-◌, ◌%◌, ◌^◌, List, [], ◌∷◌, ◌++◌, Option, none, some, ltb, leb, ◌==◌, if◌then◌else◌,
}
use dbstream.Cluster.LogIndex.{LogIndexInfo, index_lt}

-- `logEntryRpcBase`, and the bare `raftRpcHead` that ends a file: of the latter, which holds no
-- log indexes, the fields after `record_type` stand for the bytes that happen to follow.
pub record LogEntry : Type 0 where
  pub size : ℕ
  pub record_type : ℕ
  pub log_index : LogIndexInfo
  pub prev_record_log_index : LogIndexInfo
  pub leader_commit_index : ℕ

-- `rpcType::endOfFile`, and `sizeof(raftRpcHead)` of the packed struct.
abbrev pub end_of_file_type : ℕ
end_of_file_type = 10

abbrev pub head_size : ℕ
head_size = 6

pub record Block : Type 0 where
  pub idx_offset : ℕ
  pub idx_log_index : LogIndexInfo
  pub content : List LogEntry
  pub volumn : ℕ
  pub size : ℕ
  pub writed_size : ℕ

-- A block that starts with an entry.
unfoldable pub new_block : ℕ → ℕ → LogEntry → Block
new_block default_block_size offset e = record {
  idx_offset = offset;
  idx_log_index = e.log_index;
  content = e ∷ [];
  volumn = if ltb default_block_size e.size then e.size else default_block_size;
  size = e.size;
  writed_size = 0;
}

-- The loop of `find`, from the offset `off`: the offset of the first entry that is not before `i`.
unfoldable pub find_from : List LogEntry → ℕ → ℕ → LogIndexInfo → Option ℕ
find_from [] off size i = none
find_from (e ∷ es) off size i =
    let rest = find_from es (off + e.size) size i in
    if ltb off size then (if index_lt e.log_index i then rest else some off) else none

-- `none` is INVALID_RESULT.
unfoldable pub block_find : Block → LogIndexInfo → Option ℕ
unfolding find_from
block_find b i = find_from b.content 0 b.size i

-- The entries that lie in the first `n` bytes.
unfoldable pub cut : ℕ → List LogEntry → List LogEntry
cut n [] = []
cut n (e ∷ es) = if leb e.size n then e ∷ cut (n - e.size) es else []

-- `memcpy` behind the last entry; `size` is a uint32_t.
unfoldable pub block_append : Block → LogEntry → Block
block_append b e = record b {
  content = cut b.size b.content ++ e ∷ [];
  size = (b.size + e.size) % 2 ^ 32;
}

-- The entry whose first byte is at an offset.
unfoldable pub entry_at : ℕ → List LogEntry → Option LogEntry
entry_at off [] = none
entry_at off (e ∷ es) =
    if off == 0 then some e else if leb e.size off then entry_at (off - e.size) es else none
