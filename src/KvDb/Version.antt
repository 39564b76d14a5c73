-- ===== src/KvDb/Version.antt =====
-- memKvDatabase/row.h, struct version, and rowChange.h: the columns of a new version of a row.
-- A column is its bytes, or `none` where the record's null mark is set. The sizes of the columns in
-- the record, and the time stamp, are not modelled.
pub mod Columns
use dbstream.Common.{
  ℕ, zero, suc, ◌+◌, ◌≡◌, Bool, true, false, not, ◌||◌, List, [], ◌∷◌, Option, none, some, ltb,
  ◌==◌, if◌then◌else◌, length, get_elem?,
}

-- The codes that the row and the transaction report. `fault` is a use of a null or freed pointer.
pub data Status : Type 0 where
  ok row_not_exist get_lock_failed field_not_found column_count_not_match : Status
  column_is_not_nullable transaction_not_start transaction_has_started fault : Status

abbrev pub Column : Type 0
Column = Option (List ℕ)

-- `newValue` is a pointer; null stands for the null value in `update`.
pub record ColumnChange : Type 0 where
  pub column_id : ℕ
  pub new_value : Column

pub record ColumnMeta : Type 0 where
  pub nullable : Bool
  pub is_primary : Bool

abbrev pub max_column_count : ℕ
max_column_count = 1024

-- The test of `update` that every changed column exists: getColumn gives a column for the number of
-- columns as well, one behind the last. That column is not there, and its type is what the memory
-- holds; it bears on the size of the new record only.
unfoldable pub fields_exist : ℕ → List ColumnChange → Bool
fields_exist n [] = true
fields_exist n (c ∷ cs) = if ltb n c.column_id then false else fields_exist n cs

-- The copying loop of `update`: `changes` is what is left from `cid` on, `i` the column.
unfoldable pub merge_columns : ℕ → List Column → List ColumnChange → List Column
merge_columns i [] changes = []
merge_columns i (c ∷ cs) [] = c ∷ merge_columns (i + 1) cs []
merge_columns i (c ∷ cs) (d ∷ ds) =
    let changed = merge_columns (i + 1) cs ds in
    let copied = merge_columns (i + 1) cs (d ∷ ds) in
    if d.column_id == i then d.new_value ∷ changed else c ∷ copied

-- The columns of the version that `update` makes.
unfoldable pub update_columns : List Column → List ColumnChange → Status × List Column
unfolding fields_exist merge_columns
update_columns old changes =
    if fields_exist (length old) changes
    then (ok, merge_columns 0 old changes)
    else (field_not_found, [])

unfoldable pub later_change : ℕ → Option ColumnChange → ColumnChange → Option ColumnChange
later_change i (some e) d = some e
later_change i none d = if d.column_id == i then some d else none

-- `columnIdMap`: of two changes of a column, the later one counts.
unfoldable pub column_change : ℕ → List ColumnChange → Option ColumnChange
unfolding later_change
column_change i [] = none
column_change i (d ∷ ds) = later_change i (column_change i ds) d

unfoldable pub prepend_column : Column → Status × List Column → Status × List Column
prepend_column c (ok, cs) = (ok, c ∷ cs)
prepend_column c (s, cs) = (s, [])

unfoldable pub insert_column :
    ColumnMeta → Option ColumnChange → Status × List Column → Status × List Column
unfolding prepend_column
insert_column m none rest =
    if not m.nullable || m.is_primary
    then (column_is_not_nullable, [])
    else prepend_column none rest
insert_column m (some d) rest = elim d.new_value [
  | none ↦ (fault, [])
  | some v ↦ prepend_column (some v) rest
]

unfoldable pub insert_columns : ℕ → List ColumnMeta → List ColumnChange → Status × List Column
unfolding column_change insert_column
insert_columns i [] changes = (ok, [])
insert_columns i (m ∷ ms) changes =
    insert_column m (column_change i changes) (insert_columns (i + 1) ms changes)

-- `allocForInsert`
unfoldable pub alloc_for_insert : List ColumnMeta → List ColumnChange → Status × List Column
unfolding insert_columns
alloc_for_insert metas changes =
    if ltb max_column_count (length changes)
    then (column_count_not_match, [])
    else insert_columns 0 metas changes
