-- ===== src/Cluster/FindBlock/Gap.antt =====
-- What `findBlock` misses: the loop drops the block before the middle too early.
use dbstream.Common.{suc, ◌+◌, ◌≡◌, refl, ap, true, false, [], ◌∷◌, arith, ◌==◌, length}
use dbstream.Cluster.LogIndex.{
  LogIndexInfo, index_lt, index_le, index_gt, index_gt-swap, index_le-not, Before,
  index_lt_complete, index_lt_trans, index_lt_irrefl,
}
use dbstream.Cluster.Block.{Block}
use dbstream.Cluster.LogFile.{LogFile}
use dbstream.Cluster.FindBlock.Loop.{first_index}
use dbstream.Cluster.FindBlock.Hits.{check_block-reads}
use dbstream.Cluster.FindBlock.{stop, find_loop, not_found, settle, find_block}

module _ (a b c : Block) (i : LogIndexInfo) (lo : index_lt b.idx_log_index i ≡ true)
    (hi : index_lt i c.idx_log_index ≡ true) where
  loop_passes : find_loop 5 (a ∷ b ∷ c ∷ []) 0 4 i ≡ stop 2 2
  unfolding find_loop
  loop_passes =
      let not_below : index_lt c.idx_log_index i ≡ false = ground (
        arith,
        index_lt_trans c.idx_log_index i c.idx_log_index,
        index_lt_irrefl c.idx_log_index,
      ) in
      let above : index_gt c.idx_log_index i ≡ true = rw index_gt-swap hi in
      rw (lo, not_below, above)

  check_fails : (f : LogFile) → f.blocks ≡ a ∷ b ∷ c ∷ [] → settle f i (stop 2 2) ≡ not_found
  unfolding settle
  check_fails f e =
      let size : length f.blocks ≡ 3 = ap length e in
      let begins : first_index f.blocks 2 ≡ c.idx_log_index = ap (λ bs. first_index bs 2) e in
      let late : index_le (first_index f.blocks 2) i ≡ false = rw (begins, index_le-not, hi) refl in
      ground (arith, check_block-reads f i 2, late)

-- In a file of three blocks, an index that lies in the middle block, but not at its beginning, is
-- not found: the loop sets `e` to the middle block, which `s` has already passed.
pub find_block-misses :
    (f : LogFile) (a b c : Block) (i : LogIndexInfo)
    → f.blocks ≡ a ∷ b ∷ c ∷ []
    → Before b.idx_log_index i
    → Before i c.idx_log_index
    → find_block f i ≡ not_found
unfolding find_block
find_block-misses f a b c i e lo hi =
    let l = index_lt_complete _ _ lo in
    let h = index_lt_complete _ _ hi in
    let size : length f.blocks ≡ 3 = ap length e in
    let some_blocks : (length f.blocks == 0) ≡ false = rw size refl in
    let loop : find_loop (suc (suc (length f.blocks))) f.blocks 0 (length f.blocks + 1) i
        ≡ stop 2 2 =
      rw e (loop_passes a b c i l h) in
    rw (some_blocks, loop) (check_fails a b c i l h f e)
