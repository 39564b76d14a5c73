-- ===== src/Cluster/LogFile.antt =====
-- cluster/clusterLogFile.cpp: one file of the cluster log, a sequence of blocks of entries.
-- `blocks` is the used part of m_blocks, so `length blocks` is m_blockCount and the `next` of a
-- block is the one after it. The blocks' data are in memory. The files on disk appear only as the
-- outcomes of the calls that write them, an argument of each operation.
pub mod Shape
pub mod Outcome
pub mod Step
pub mod Append
use dbstream.Common.{
  ℕ, zero, suc, ◌+◌, ◌-◌, ◌/◌, ◌%◌, ◌^◌, Bool, true, false, List, [], ◌∷◌, ◌++◌, Option, none, some,
  ltb, leb, ◌==◌, if◌then◌else◌, length, get_elem?, set, take,
}
use dbstream.Cluster.LogIndex.{LogIndexInfo, index_lt, index_le, index_gt, index_ne}
use dbstream.Cluster.Block.{
  LogEntry, Block, head_size, end_of_file_type, new_block, block_find, block_append, entry_at,
}

-- `fault` is an access outside of m_blocks: a read outside of its used part, or a write behind its end.
pub data Status : Type 0 where
  ok prev_not_match need_rollback full io_error : Status
  log_index_not_found illegal_log_entry end_of_file fault : Status

-- Whether the data file, the index file and a truncation succeed in a call.
pub record Io : Type 0 where
  pub writes : Bool
  pub indexes : Bool
  pub truncates : Bool

-- `offset` is m_offset as the word of 32 bits that the int32_t holds.
pub record LogFile : Type 0 where
  pub offset : ℕ
  pub begin_log_index : LogIndexInfo
  pub prev_log_index : LogIndexInfo
  pub log_index : LogIndexInfo
  pub blocks : List Block
  pub current : Option ℕ
  pub default_block_size : ℕ
  pub default_log_file_size : ℕ

-- `sizeof(logIndexInfo) * 2`
abbrev pub header_size : ℕ
header_size = 32

abbrev pub max_block_count : LogFile → ℕ
max_block_count f = f.default_log_file_size / f.default_block_size

-- The file that `create` has written; the two sizes come from the configuration.
unfoldable pub create : ℕ → ℕ → LogIndexInfo → LogIndexInfo → LogFile
create block_size file_size prev begin = record {
  offset = header_size;
  begin_log_index = begin;
  prev_log_index = prev;
  log_index = prev;
  blocks = [];
  current = none;
  default_block_size = block_size;
  default_log_file_size = file_size;
}

-- `writeCurrentBlock`
unfoldable pub write_block : Io → Block → Status × Block
write_block io b =
    if b.size == b.writed_size
    then (ok, b)
    else if io.writes
    then (ok, record b { writed_size = b.size })
    else (io_error, b)

-- The part of `appendToNewBlock` after the current block is on disk. m_blocks has room for
-- m_maxBlockCount blocks, which may be none at all.
unfoldable pub add_block : Io → LogFile → LogEntry → Status × LogFile
unfolding new_block
add_block io f e =
    if io.indexes
    then (if ltb (length f.blocks) (max_block_count f)
        then (
          ok,
          record f {
            blocks = f.blocks ++ new_block f.default_block_size f.offset e ∷ [];
            current = some (length f.blocks);
          },
        )
        else (fault, f))
    else (io_error, f)

unfoldable pub after_write : Io → LogFile → LogEntry → ℕ → Status × Block → Status × LogFile
unfolding add_block
after_write io f e k (ok, b) = add_block io (record f { blocks = set f.blocks k b }) e
after_write io f e k (s, b) = (s, f)

unfoldable pub flush_block : Io → LogFile → LogEntry → ℕ → Option Block → Status × LogFile
unfolding after_write write_block
flush_block io f e k none = (fault, f)
flush_block io f e k (some b) = after_write io f e k (write_block io b)

unfoldable pub flush_then_add : Io → LogFile → LogEntry → Option ℕ → Status × LogFile
unfolding add_block flush_block
flush_then_add io f e none = add_block io f e
flush_then_add io f e (some k) = flush_block io f e k (get_elem? f.blocks k)

unfoldable pub append_to_new_block : Io → LogFile → LogEntry → Status × LogFile
unfolding flush_then_add
append_to_new_block io f e = flush_then_add io f e f.current

-- The end of `_append`: only a stored entry moves the log index and the offset.
unfoldable pub finish_append : LogEntry → Status × LogFile → Status × LogFile
finish_append e (ok, f) =
    (ok, record f { log_index = e.log_index; offset = (f.offset + e.size) % 2 ^ 32 })
finish_append e (s, f) = (s, f)

unfoldable pub append_to_current : Io → LogFile → LogEntry → ℕ → Block → Status × LogFile
unfolding append_to_new_block block_append
append_to_current io f e k b =
    if ltb b.volumn ((b.size + e.size) % 2 ^ 32 + head_size)
    then (if leb (max_block_count f) (length f.blocks + 1)
        then (full, f)
        else append_to_new_block io f e)
    else (ok, record f { blocks = set f.blocks k (block_append b e) })

unfoldable pub append_to_block : Io → LogFile → LogEntry → ℕ → Option Block → Status × LogFile
unfolding append_to_current
append_to_block io f e k none = (fault, f)
append_to_block io f e k (some b) = append_to_current io f e k b

unfoldable pub append_where : Io → LogFile → LogEntry → Option ℕ → Status × LogFile
unfolding append_to_new_block append_to_block
append_where io f e none = append_to_new_block io f e
append_where io f e (some k) = append_to_block io f e k (get_elem? f.blocks k)

-- `_append`
unfoldable pub append_entry : Io → LogFile → LogEntry → Status × LogFile
unfolding append_where finish_append
append_entry io f e = finish_append e (append_where io f e f.current)

unfoldable pub append : Io → LogFile → LogEntry → Status × LogFile
unfolding append_entry
append io f e =
    if index_ne f.log_index e.prev_record_log_index
    then (if index_lt f.log_index e.prev_record_log_index
        then (prev_not_match, f)
        else (need_rollback, f))
    else if leb f.default_log_file_size ((f.offset + e.size) % 2 ^ 32)
    then (full, f)
    else append_entry io f e
