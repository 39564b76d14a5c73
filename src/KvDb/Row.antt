-- ===== src/KvDb/Row.antt =====
-- memKvDatabase/row.h, struct row: the chain of a row's versions and the lock of its writer.
-- `versions` is the memory that the pool gave: a version is named by its place in it, and a freed one
-- is `none`. An allocation does not fail. The operations run one at a time: each compare-and-swap
-- loop is one step, and the second test behind the lock sees what the first one saw.
pub mod Versions
pub mod Chain
pub mod Isolation
pub mod Undo
pub mod Anomalies
use dbstream.Common.{
  ℕ, zero, suc, ◌+◌, Bool, true, false, not, ◌||◌, ◌&&◌, List, [], ◌∷◌, ◌++◌, Option, none, some,
  ◌==◌, if◌then◌else◌, length, get_elem?, set,
}
use dbstream.KvDb.Version.{
  Status, ok, row_not_exist, get_lock_failed, fault, Column, ColumnChange, update_columns,
}

-- The record types that the chain uses.
pub data RecordType : Type 0 where
  r_insert r_delete : RecordType

pub record Version : Type 0 where
  pub prev : Option ℕ
  pub next : Option ℕ
  pub record_type : RecordType
  pub txn_id : ℕ
  pub columns : List Column

abbrev pub Memory : Type 0
Memory = List (Option Version)

pub record Row : Type 0 where
  pub current : Option ℕ
  pub head : Option ℕ
  pub tail : Option ℕ
  pub owner : ℕ
  pub versions : Memory

unfoldable pub init : Memory → Row
init m = record { current = none; head = none; tail = none; owner = 0; versions = m }

-- A freed version and one that never was read alike.
abbrev pub read_slot : Option (Option Version) → Option Version
read_slot none = none
read_slot (some v) = v

unfoldable pub read : Memory → ℕ → Option Version
read m p = read_slot (get_elem? m p)

-- `lock`: the result, and the row.
unfoldable pub lock : ℕ → Row → Bool × Row
lock uid r =
    if not (r.owner == 0) && not (r.owner == uid)
    then (false, r)
    else (true, record r { owner = uid })

unfoldable pub unlock : ℕ → Row → Bool × Row
unlock uid r = if r.owner == uid then (true, record r { owner = 0 }) else (false, r)

abbrev pub unlock_without_check : Row → Row
unlock_without_check r = record r { owner = 0 }

-- What `tail` is to an operation.
pub data Tail : Type 0 where
  no_tail broken_tail : Tail
  deleted_tail live_tail : ℕ → Version → Tail

unfoldable pub tail_kind : ℕ → Version → RecordType → Tail
tail_kind p v r_delete = deleted_tail p v
tail_kind p v r_insert = live_tail p v

unfoldable pub tail_at : ℕ → Option Version → Tail
unfolding tail_kind
tail_at p none = broken_tail
tail_at p (some v) = tail_kind p v v.record_type

unfoldable pub tail_of : Memory → Option ℕ → Tail
unfolding tail_at read
tail_of m none = no_tail
tail_of m (some p) = tail_at p (read m p)

-- The version that `select` gives.
unfoldable pub select_kind : ℕ → RecordType → Status × Option ℕ
select_kind p r_delete = (row_not_exist, none)
select_kind p r_insert = (ok, some p)

unfoldable pub select_version : ℕ → Option Version → Status × Option ℕ
unfolding select_kind
select_version p none = (fault, none)
select_version p (some v) = select_kind p v.record_type

unfoldable pub select_at : Memory → Option ℕ → Status × Option ℕ
unfolding select_version read
select_at m none = (row_not_exist, none)
select_at m (some p) = select_version p (read m p)

unfoldable pub select : Row → Status × Option ℕ
unfolding select_at
select r = select_at r.versions r.current

-- A new version behind the version `p`.
abbrev pub link : Memory → ℕ → Version → ℕ → Memory
link m p v n = set m p (some (record v { next = some n }))

-- `insert` of a version with the given contents, which the caller has allocated.
unfoldable pub insert_locked : Row → Version → Tail → Status × Row
insert_locked r new no_tail = (
  ok,
  record r {
    current = some (length r.versions);
    head = some (length r.versions);
    tail = some (length r.versions);
    versions = r.versions ++ some new ∷ [];
  },
)
insert_locked r new (deleted_tail p v) = (
  ok,
  record r {
    versions = link r.versions p v (length r.versions) ++ some (record new { prev = some p }) ∷ [];
  },
)
insert_locked r new (live_tail p v) = (row_not_exist, unlock_without_check r)
insert_locked r new broken_tail = (fault, r)

unfoldable pub insert_after_lock : Version → Tail → Bool × Row → Status × Row
unfolding insert_locked
insert_after_lock new t (true, r) = insert_locked r new t
insert_after_lock new t (false, r) = (get_lock_failed, r)

unfoldable pub insert_at : ℕ → Version → Row → Tail → Status × Row
unfolding insert_after_lock lock
insert_at uid new r (live_tail p v) = (row_not_exist, r)
insert_at uid new r broken_tail = (fault, r)
insert_at uid new r no_tail = insert_after_lock new no_tail (lock uid r)
insert_at uid new r (deleted_tail p v) = insert_after_lock new (deleted_tail p v) (lock uid r)

unfoldable pub insert : ℕ → Version → Row → Status × Row
unfolding insert_at tail_of
insert uid new r = insert_at uid new r (tail_of r.versions r.tail)

-- A version with contents of its own, behind the version `p`.
unfoldable pub append_version : Row → ℕ → Version → RecordType → ℕ → List Column → Row
append_version r p v type txn_id columns = record r {
  tail = some (length r.versions);
  versions =
      link r.versions p v (length r.versions)
      ++ some (record {
        prev = some p;
        next = none;
        record_type = type;
        txn_id = txn_id;
        columns = columns;
      })
        ∷ [];
}

unfoldable pub finish_update : Row → ℕ → Version → ℕ → Status × List Column → Status × Row
unfolding append_version
finish_update r p v txn_id (ok, columns) = (ok, append_version r p v r_insert txn_id columns)
finish_update r p v txn_id (s, columns) = (s, unlock_without_check r)

unfoldable pub update_after_lock : ℕ → List ColumnChange → ℕ → Version → Bool × Row → Status × Row
unfolding finish_update update_columns
update_after_lock txn_id changes p v (true, r) =
    finish_update r p v txn_id (update_columns v.columns changes)
update_after_lock txn_id changes p v (false, r) = (get_lock_failed, r)

unfoldable pub update_at : ℕ → ℕ → List ColumnChange → Row → Tail → Status × Row
unfolding update_after_lock lock
update_at uid txn_id changes r no_tail = (row_not_exist, r)
update_at uid txn_id changes r (deleted_tail p v) = (row_not_exist, r)
update_at uid txn_id changes r (live_tail p v) = update_after_lock txn_id changes p v (lock uid r)
update_at uid txn_id changes r broken_tail = (fault, r)

unfoldable pub update : ℕ → ℕ → List ColumnChange → Row → Status × Row
unfolding update_at tail_of
update uid txn_id changes r = update_at uid txn_id changes r (tail_of r.versions r.tail)

-- The record of a deletion has a head only.
unfoldable pub drop_after_lock : ℕ → ℕ → Version → Bool × Row → Status × Row
unfolding append_version
drop_after_lock txn_id p v (true, r) = (ok, append_version r p v r_delete txn_id [])
drop_after_lock txn_id p v (false, r) = (get_lock_failed, r)

unfoldable pub drop_at : ℕ → ℕ → Row → Tail → Status × Row
unfolding drop_after_lock lock
drop_at uid txn_id r no_tail = (row_not_exist, r)
drop_at uid txn_id r (deleted_tail p v) = (row_not_exist, r)
drop_at uid txn_id r (live_tail p v) = drop_after_lock txn_id p v (lock uid r)
drop_at uid txn_id r broken_tail = (fault, r)

unfoldable pub drop : ℕ → ℕ → Row → Status × Row
unfolding drop_at tail_of
drop uid txn_id r = drop_at uid txn_id r (tail_of r.versions r.tail)

unfoldable pub commit : Row → Row
commit r = unlock_without_check (record r { current = r.tail })

unfoldable pub free_next : Option Version → (Option ℕ → Option Memory) → Option Memory
free_next none rest = none
free_next (some v) rest = rest v.next

-- The loop of `rollback`: free a version and those behind it. Following `next` from a version leads
-- to a later place of the memory each time, so its length bounds the loop.
unfoldable pub free_from : ℕ → Memory → Option ℕ → Option Memory
unfolding free_next
free_from zero m none = some m
free_from zero m (some p) = none
free_from (suc fuel) m none = some m
free_from (suc fuel) m (some p) = free_next (read m p) (free_from fuel (set m p none))

unfoldable pub finish_rollback : Row → Option Memory → Status × Row
finish_rollback r none = (fault, r)
finish_rollback r (some m) = (ok, record r { versions = m })

unfoldable pub rollback_from : Row → ℕ → Option Version → Status × Row
unfolding free_from finish_rollback
rollback_from r c none = (fault, r)
rollback_from r c (some v) =
    let m = set r.versions c (some (record v { next = none })) in
    let unlocked = unlock_without_check (record r { versions = m }) in
    finish_rollback unlocked (free_from (suc (length m)) m v.next)

unfoldable pub rollback_at : Row → Option ℕ → Status × Row
unfolding rollback_from
rollback_at r none = (fault, r)
rollback_at r (some c) = rollback_from r c (read r.versions c)

unfoldable pub rollback : Row → Status × Row
unfolding rollback_at
rollback r = rollback_at r r.current
