-- ===== src/Cluster/FindBlock.antt =====
-- cluster/clusterLogFile.cpp, clusterLogFile::findBlock: the block that may hold a log index.
-- The `int e` of the source can become -1; `high` is e + 1.
pub mod Loop
pub mod Hits
pub mod Gap
use dbstream.Common.{
  ℕ, zero, suc, ◌+◌, ◌-◌, ◌/◌, ◌&&◌, List, Option, none, some, ltb, leb, ◌==◌, if◌then◌else◌,
  length, get_elem?,
}
use dbstream.Cluster.LogIndex.{LogIndexInfo, index_lt, index_le, index_gt}
use dbstream.Cluster.Block.{Block}
use dbstream.Cluster.LogFile.{LogFile}

-- How the loop ends: on a block that begins with the index, or with the two bounds.
pub data Probe : Type 0 where
  hit : ℕ → Probe
  stop : ℕ → ℕ → Probe
  out_of_bounds out_of_fuel : Probe

unfoldable pub find_loop : ℕ → List Block → ℕ → ℕ → LogIndexInfo → Probe
find_loop zero bs s high i = out_of_fuel
find_loop (suc fuel) bs s high i =
    let m = (s + (high - 1)) / 2 in
    let right = find_loop fuel bs (m + 1) high i in
    let left = find_loop fuel bs s m i in
    let body : Probe = elim (get_elem? bs m) [
      | none ↦ out_of_bounds
      | some b ↦
          if index_lt b.idx_log_index i
          then right
          else if index_gt b.idx_log_index i
          then left
          else hit m
    ] in
    if ltb (s + 1) high then body else stop s high

-- What `findBlock` returns: a block, nullptr, or (`broken`) a run that the source cannot make.
pub data Found : Type 0 where
  found : ℕ → Found
  not_found broken : Found

-- `blockEndLogIndex` of the block `s`.
unfoldable pub block_end : LogFile → ℕ → Option LogIndexInfo
block_end f s =
    if s == length f.blocks - 1
    then some (record f.log_index { log_index = f.log_index.log_index + 1 })
    else elim (get_elem? f.blocks (s + 1)) [ none ↦ none | some b ↦ some b.idx_log_index ]

unfoldable pub check_block : LogFile → LogIndexInfo → ℕ → Found
unfolding block_end
check_block f i s = elim (get_elem? f.blocks s) [
  | none ↦ broken
  | some b ↦ elim (block_end f s) [
    | none ↦ broken
    | some end ↦ if index_le b.idx_log_index i && index_gt end i then found s else not_found
  ]
]

-- The lines after the loop.
unfoldable pub settle : LogFile → LogIndexInfo → Probe → Found
unfolding check_block
settle f i (hit m) = found m
settle f i (stop s high) =
    if high == 0
    then not_found
    else check_block f i (if leb (length f.blocks) s then length f.blocks - 1 else s)
settle f i out_of_bounds = broken
settle f i out_of_fuel = broken

-- The loop makes at most one round for each block, so the fuel suffices (`find_block-total`).
unfoldable pub find_block : LogFile → LogIndexInfo → Found
find_block f i =
    if length f.blocks == 0
    then not_found
    else settle f i (find_loop (suc (suc (length f.blocks))) f.blocks 0 (length f.blocks + 1) i)
