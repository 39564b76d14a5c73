-- ===== src/Cluster/Rollback/Stale.antt =====
-- What a rollback leaves as it was, and what follows for the next append.
use dbstream.Common.{ℕ, ◌≡◌, refl, true, List, [], ◌∷◌, Option, none, some, arith, get_elem?}
use dbstream.Cluster.LogIndex.{LogIndexInfo, index_lt, index_ne, Before}
use dbstream.Cluster.Block.{LogEntry, Block, block_find}
use dbstream.Cluster.LogFile.{ok, need_rollback, Io, LogFile, append}
use dbstream.Cluster.LogFile.Shape.{IsValid}
use dbstream.Cluster.FindBlock.{Found, found, not_found, broken, find_block}
use dbstream.Cluster.Rollback.{rollback_at, rollback_in, rollback_found, truncate_at, rollback}

truncate_at-log_index :
    (io : Io) (f : LogFile) (k : ℕ) (b : Block) (off : ℕ)
    → (truncate_at io f k b off).1.log_index ≡ f.log_index
unfolding truncate_at
truncate_at-log_index io f k b off = ground arith

rollback_at-log_index :
    (io : Io) (f : LogFile) (k : ℕ) (b : Block) (o : Option ℕ)
    → (rollback_at io f k b o).1.log_index ≡ f.log_index
unfolding rollback_at
rollback_at-log_index io f k b none = refl
rollback_at-log_index io f k b (some off) = truncate_at-log_index io f k b off

rollback_in-log_index :
    (io : Io) (f : LogFile) (i : LogIndexInfo) (k : ℕ) (o : Option Block)
    → (rollback_in io f i k o).1.log_index ≡ f.log_index
unfolding rollback_in
rollback_in-log_index io f i k none = refl
rollback_in-log_index io f i k (some b) = rollback_at-log_index io f k b (block_find b i)

rollback_found-log_index :
    (io : Io) (f : LogFile) (i : LogIndexInfo) (p : Found)
    → (rollback_found io f i p).1.log_index ≡ f.log_index
unfolding rollback_found
rollback_found-log_index io f i (found k) = rollback_in-log_index io f i k (get_elem? f.blocks k)
rollback_found-log_index io f i not_found = refl
rollback_found-log_index io f i broken = refl

-- A rollback does not move the log index of the file, so an entry whose predecessor lies before the
-- old end of the log is refused with the demand for a rollback, also right after one: whatever the
-- rollback removed, and whether it succeeded.
pub append-rollback_refused :
    (io io' : Io) (f : LogFile) (i : LogIndexInfo) (e : LogEntry)
    → Before e.prev_record_log_index f.log_index
    → (append io' (rollback io f i).1 e).0 ≡ need_rollback
unfolding append rollback index_ne index_lt
append-rollback_refused io io' f i e h =
    ground (arith, rollback_found-log_index io f i (find_block f i))

rollback_all-empties :
    (io : Io) (f : LogFile) (b : Block) (bs : List Block) (i : LogIndexInfo)
    → f.blocks ≡ b ∷ bs
    → find_block f i ≡ found 0
    → block_find b i ≡ some 0
    → io.truncates ≡ true
    → rollback io f i ≡ (ok, record f { blocks = []; current = none; offset = 0 })
unfolding rollback
rollback_all-empties io f b bs i e k z t =
    let read : get_elem? f.blocks 0 ≡ some b = rw e refl in rw (k, read, z, t)

-- A rollback that removes the first block of the file, and so all of it, sets the offset to 0, which
-- is inside the header: the file that it leaves is not valid, and the next block is placed on the
-- header.
pub rollback_all-not_IsValid :
    (io : Io) (f : LogFile) (b : Block) (bs : List Block) (i : LogIndexInfo)
    → f.blocks ≡ b ∷ bs
    → find_block f i ≡ found 0
    → block_find b i ≡ some 0
    → io.truncates ≡ true
    → ((rollback io f i).1.blocks ≡ [])
      × ((rollback io f i).1.offset ≡ 0)
      × ¬ IsValid (rollback io f i).1
rollback_all-not_IsValid io f b bs i e k z t =
    rw (rollback_all-empties io f b bs i e k z t) (refl, refl, λ v. absurd (omega arith))
