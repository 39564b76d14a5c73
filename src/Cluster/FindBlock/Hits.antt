-- ===== src/Cluster/FindBlock/Hits.antt =====
-- What `findBlock` finds.
use dbstream.Common.{
  ℕ, suc, ◌+◌, ◌-◌, ◌<◌, ◌≡◌, refl, ◌≢◌, ◌⊎◌, inl, inr, true, false, ◌&&◌, arith, leb, ◌==◌,
  if◌then◌else◌, Bool-cases, length, get_elem?-eq-get_or,
}
use dbstream.Cluster.LogIndex.{
  LogIndexInfo, index_lt, index_le, index_gt, index_lt_irrefl, index_lt_trans, index_le-not,
}
use dbstream.Cluster.LogFile.{LogFile}
use dbstream.Cluster.FindBlock.{
  Probe, hit, stop, out_of_bounds, out_of_fuel, found, not_found, broken, block_end, check_block,
  settle, find_block,
}
use dbstream.Cluster.FindBlock.Loop.{
  no_block, first_index, IsAscending, Ends, find_loop-Ends, find_loop-exact, find_loop-past,
}

-- The log index that the entries of the block `s` stay below.
abbrev pub end_index : LogFile → ℕ → LogIndexInfo
end_index f s =
    if s == length f.blocks - 1
    then record f.log_index { log_index = f.log_index.log_index + 1 }
    else first_index f.blocks (s + 1)

pub check_block-reads :
    (f : LogFile) (i : LogIndexInfo) (s : ℕ)
    → s < length f.blocks
    → check_block f i s ≡ (
        if index_le (first_index f.blocks s) i && index_gt (end_index f s) i
        then found s
        else not_found)
unfolding check_block block_end
check_block-reads f i s h = ground (
  arith,
  get_elem?-eq-get_or f.blocks s no_block h,
  get_elem?-eq-get_or f.blocks (s + 1) no_block,
)

settle-total :
    (f : LogFile) (i : LogIndexInfo) (p : Probe)
    → 0 < length f.blocks
    → Ends f.blocks i p
    → settle f i p ≢ broken
unfolding settle
settle-total f i (hit m) h e = λ q. cc
settle-total f i (stop s high) h e =
    ground (arith, check_block-reads f i s, check_block-reads f i (length f.blocks - 1))
settle-total f i out_of_bounds h e = absurd e
settle-total f i out_of_fuel h e = absurd e

-- `findBlock` always returns: it never reads past m_blocks, whatever the index and the blocks.
pub find_block-total : (f : LogFile) (i : LogIndexInfo) → find_block f i ≢ broken
unfolding find_block
find_block-total f i = elim (Bool-cases (length f.blocks == 0)) [
  | inl e ↦ rw e (λ q. cc)
  | inr e ↦ rw e (
      settle-total f i _ (ground arith) (
        find_loop-Ends (suc (suc (length f.blocks))) f.blocks 0 (length f.blocks + 1) i
          (omega arith) (omega arith) (omega arith) (omega arith)))
]

settle_sound :
    (f : LogFile) (i : LogIndexInfo) (p : Probe) (k : ℕ)
    → Ends f.blocks i p
    → 0 < length f.blocks
    → settle f i p ≡ found k
    → (k < length f.blocks)
      × ((first_index f.blocks k ≡ i)
          ⊎ ((index_le (first_index f.blocks k) i ≡ true) × (index_gt (end_index f k) i ≡ true)))
unfolding settle
settle_sound f i (hit m) k e h q = ground arith
settle_sound f i (stop s high) k e h q =
    ground (arith, check_block-reads f i s, check_block-reads f i (length f.blocks - 1))
settle_sound f i out_of_bounds k e h q = absurd e
settle_sound f i out_of_fuel k e h q = absurd e

-- A block that `findBlock` returns is one of the file's, and either begins with the log index or
-- begins before it and ends after it.
pub find_block_sound :
    (f : LogFile) (i : LogIndexInfo) (k : ℕ)
    → find_block f i ≡ found k
    → (k < length f.blocks)
      × ((first_index f.blocks k ≡ i)
          ⊎ ((index_le (first_index f.blocks k) i ≡ true) × (index_gt (end_index f k) i ≡ true)))
unfolding find_block
find_block_sound f i k = elim (Bool-cases (length f.blocks == 0)) [
  | inl e ↦ rw e (λ q. cc)
  | inr e ↦ rw e (
      settle_sound f i _ k
        (find_loop-Ends (suc (suc (length f.blocks))) f.blocks 0 (length f.blocks + 1) i
          (omega arith) (omega arith) (omega arith) (omega arith))
        (ground arith))
]

settle-exact :
    (f : LogFile) (i : LogIndexInfo) (k : ℕ)
    → k < length f.blocks
    → first_index f.blocks k ≡ i
    → index_gt (end_index f k) i ≡ true
    → settle f i (stop k (suc k)) ≡ found k
unfolding settle
settle-exact f i k h e g =
    let c : leb (length f.blocks) k ≡ false = ground arith in
    let l : index_le (first_index f.blocks k) i ≡ true =
      rw (e, index_le-not, index_lt_irrefl) refl in
    let z : (suc k == 0) ≡ false = ground arith in rw (z, c, check_block-reads f i k h, l, g) refl

-- The first entry of every block is found: on ascending blocks, none of which begins after the end
-- of the log, the search for the log index that block `k` begins with returns block `k`.
pub find_block-exact :
    (f : LogFile) (k : ℕ)
    → IsAscending f.blocks
    → k < length f.blocks
    → index_gt (end_index f k) (first_index f.blocks k) ≡ true
    → find_block f (first_index f.blocks k) ≡ found k
unfolding find_block
find_block-exact f k asc h g =
    let i = first_index f.blocks k in
    let some_blocks : (length f.blocks == 0) ≡ false = ground arith in
    rw some_blocks
      (elim (find_loop-exact f.blocks i (suc (suc (length f.blocks))) 0 (length f.blocks + 1) k asc
        refl h (omega arith) (omega arith) (omega arith) (omega arith)) [
          | inl p ↦ rw p (unfold settle in refl)
          | inr p ↦ rw p (settle-exact f i k h refl g)
        ])

-- Every index past the beginning of the last block, up to the end of the log, is found in it.
pub find_block-last :
    (f : LogFile) (i : LogIndexInfo)
    → 0 < length f.blocks
    → ((j : ℕ) → j < length f.blocks → index_lt (first_index f.blocks j) i ≡ true)
    → index_gt (record f.log_index { log_index = f.log_index.log_index + 1 }) i ≡ true
    → find_block f i ≡ found (length f.blocks - 1)
unfolding find_block settle
find_block-last f i h below g = ground (
  arith,
  find_loop-past f.blocks i (suc (suc (length f.blocks))) 0 below,
  check_block-reads f i (length f.blocks - 1),
  below (length f.blocks - 1),
  index_le-not (first_index f.blocks (length f.blocks - 1)) i,
  index_lt_trans (first_index f.blocks (length f.blocks - 1)) i
      (first_index f.blocks (length f.blocks - 1)),
  index_lt_irrefl (first_index f.blocks (length f.blocks - 1)),
)
