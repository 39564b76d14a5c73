-- ===== src/Cluster/LogFile/Append.antt =====
-- Appending to a log file: what each way out of `append` leaves behind.
use dbstream.Common.{
  ℕ, ◌+◌, ◌%◌, ◌^◌, ◌<◌, ◌≤◌, ◌/◌, ◌≡◌, refl, sym, subst, ◌⊎◌, inl, inr, true, false, Option, some,
  arith, leb, Bool-cases, length, get_elem?,
}
use native.Mathlib.Nat.{le-div_iff_mul-le, div-eq_of_lt}
use dbstream.Cluster.LogIndex.{LogIndexInfo, index_lt, index_ne, Before}
use dbstream.Cluster.Block.{LogEntry}
use dbstream.Cluster.Block.Layout.{HasSize}
use dbstream.Cluster.LogFile.{
  prev_not_match, need_rollback, Io, LogFile, create, append_where, append_entry, append, fault,
  header_size, append_to_new_block, flush_then_add, add_block, finish_append,
}
use dbstream.Cluster.LogFile.Shape.{IsValid, get_elem?-concat}
use dbstream.Cluster.LogFile.Outcome.{Outcome, Step, finish_append-Outcome, Keeps-refl}
use dbstream.Cluster.LogFile.Step.{append_to_new_block-Step, append_to_current-Step}

append_entry-Outcome :
    (io : Io) (f : LogFile) (e : LogEntry)
    → IsValid f
    → HasSize e
    → f.offset + e.size < 2 ^ 32
    → Outcome f e (append_entry io f e)
unfolding append_entry
append_entry-Outcome io f e v h small = finish_append-Outcome f e _ small (elim v.tail [
  | inl (empty, c) ↦ subst P (sym c) (append_to_new_block-Step io f e v h (inl (rw empty refl)))
  | inr (init, b, at, c) ↦
      let read : get_elem? f.blocks (length init) ≡ some b = rw at (get_elem?-concat init b) in
      subst P (sym c) (rw read (append_to_current-Step io f e init b v h small at c))
])
  where
    P : Option ℕ → Type 0
    P c = Step f e (append_where io f e c)

-- On a valid file, and for an entry that keeps the 32-bit offset from wrapping, `append` either
-- succeeds, and then the entry stands behind the old ones, the log index is the entry's, the offset
-- has moved by its size and the file is valid; or it reports an error, and then the entries, the log
-- index and the offset are as before, and the file is still valid. It stays inside m_blocks, which has room for
-- at least one block in a valid file.
pub append-Outcome :
    (io : Io) (f : LogFile) (e : LogEntry)
    → IsValid f
    → HasSize e
    → f.offset + e.size < 2 ^ 32
    → Outcome f e (append io f e)
unfolding append
append-Outcome io f e v h small = elim (Bool-cases (index_ne f.log_index e.prev_record_log_index)) [
  | inl gap ↦ elim (Bool-cases (index_lt f.log_index e.prev_record_log_index)) [
    | inl ahead ↦ rw (gap, ahead) (inr ((λ q. cc), (λ q. cc), Keeps-refl f v))
    | inr behind ↦ rw (gap, behind) (inr ((λ q. cc), (λ q. cc), Keeps-refl f v))
  ]
  | inr follows ↦ elim (Bool-cases (leb f.default_log_file_size ((f.offset + e.size) % 2 ^ 32))) [
    | inl many ↦ rw (follows, many) (inr ((λ q. cc), (λ q. cc), Keeps-refl f v))
    | inr few ↦ rw (follows, few) (append_entry-Outcome io f e v h small)
  ]
]

-- The raft check: an entry whose predecessor lies after the end of the log is refused with
-- prevNotMatch, one whose predecessor lies before the end with rollback, in both cases with the file
-- unchanged; and these are the only two ways in which the predecessor can differ from the end.
pub append-guards :
    (io : Io) (f : LogFile) (e : LogEntry)
    → (Before f.log_index e.prev_record_log_index × (append io f e ≡ (prev_not_match, f)))
      ⊎ (Before e.prev_record_log_index f.log_index × (append io f e ≡ (need_rollback, f)))
      ⊎ (f.log_index ≡ e.prev_record_log_index)
unfolding append index_ne index_lt
append-guards io f e = ground arith

create-IsValid :
    (block_size file_size : ℕ) (prev begin : LogIndexInfo)
    → 0 < block_size
    → block_size ≤ file_size
    → IsValid (create block_size file_size prev begin)
unfolding create
create-IsValid block_size file_size prev begin some_size large = record {
  shaped = refl;
  tail = inl (refl, refl);
  last = refl;
  counted = inl (omega arith);
  roomy = (le-div_iff_mul-le some_size).1 (omega arith);
  word = omega arith;
}

-- In a file whose size is below that of a block, as the configuration allows, m_blocks has no room at
-- all: the first entry that reaches the file is written outside of it.
pub append-create_faults :
    (io : Io) (block_size file_size : ℕ) (prev begin : LogIndexInfo) (e : LogEntry)
    → file_size < block_size
    → io.indexes ≡ true
    → e.prev_record_log_index ≡ prev
    → header_size + e.size < file_size
    → file_size < 2 ^ 32
    → (append io (create block_size file_size prev begin) e).0 ≡ fault
unfolding append create append_entry append_where append_to_new_block flush_then_add add_block
    finish_append index_ne
append-create_faults io block_size file_size prev begin e small i p fits word =
    let z : file_size / block_size ≡ 0 = div-eq_of_lt small in
    let same : index_ne prev e.prev_record_log_index ≡ false = unfold index_ne in ground arith in
    let below : leb file_size ((header_size + e.size) % 2 ^ 32) ≡ false = ground arith in
    rw (same, below, i, z) refl
