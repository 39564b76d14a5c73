-- ===== src/Meta/Timeline.antt =====
-- meta/metaTimeline.h: the versions of a table's metadata, each valid from a log position on.
pub mod History
pub mod Purge
use dbstream.Common.{ℕ, ◌+◌, ◌%◌, ◌^◌, Option, none, some, ltb, leb, if◌then◌else◌}
use dbstream.Meta.TableId.{gen_table_id}

-- What the timeline uses of the metadata: which it is, and its identifier.
pub record Metadata : Type 0 where
  pub name : ℕ
  pub id : ℕ

-- `meta` is a pointer, null where the table does not exist.
pub record MetaInfo : Type 0 where
  pub meta : Option Metadata
  pub start_pos : ℕ

-- The infos that are linked by `prev`, newest first. A pointer to a deleted info is `dangling`.
infixr 40 ◌▹◌
pub data Chain : Type 0 where
  null dangling : Chain
  ◌▹◌ : MetaInfo → Chain → Chain

pub record Timeline : Type 0 where
  pub current : Chain
  pub id : ℕ
  pub version : ℕ

-- What `get` gives: metadata or null, or it uses a pointer that it must not use.
pub data Result : Type 0 where
  gives : Option Metadata → Result
  fault : Result

-- The loop over older infos.
unfoldable pub get_older : Chain → ℕ → Result
get_older null pos = gives none
get_older dangling pos = fault
get_older (m ▹ ms) pos = if ltb m.start_pos pos then gives m.meta else get_older ms pos

-- `get`, run while nothing is put.
unfoldable pub get_from : Chain → ℕ → Result
unfolding get_older
get_from null pos = fault
get_from dangling pos = fault
get_from (m ▹ ms) pos = if leb m.start_pos pos then gives m.meta else get_older ms pos

unfoldable pub get : Timeline → ℕ → Result
unfolding get_from
get t pos = get_from t.current pos

-- The identifier that `put` gives to metadata; the counter of versions has 16 bits.
unfoldable pub number : Timeline → Option Metadata → Option Metadata
number t none = none
number t (some m) = some (record m { id = gen_table_id t.id t.version })

unfoldable pub count_version : Timeline → Option Metadata → Timeline
count_version t none = t
count_version t (some m) = record t { version = (t.version + 1) % 2 ^ 16 }

pub data PutStatus : Type 0 where
  placed refused broken : PutStatus

unfoldable pub put_behind : Chain → MetaInfo → PutStatus × Chain
put_behind null m = (placed, m ▹ null)
put_behind dangling m = (broken, dangling)
put_behind (c ▹ cs) m =
    if leb m.start_pos c.start_pos then (refused, c ▹ cs) else (placed, m ▹ (c ▹ cs))

-- The number is used up also where the metadata is refused.
unfoldable pub put : Option Metadata → ℕ → Timeline → PutStatus × Timeline
unfolding number count_version put_behind
put meta pos t =
    let (s, c) = put_behind t.current (record { meta = number t meta; start_pos = pos }) in
    (s, record (count_version t meta) { current = c })

-- `purge` deletes the newest info that begins at or before the position, and all behind it; the pointer
-- to it stays as it was.
unfoldable pub purge_from : ℕ → Chain → Chain
purge_from pos null = null
purge_from pos dangling = dangling
purge_from pos (m ▹ ms) = if ltb pos m.start_pos then m ▹ purge_from pos ms else dangling

unfoldable pub purge : ℕ → Timeline → Timeline
unfolding purge_from
purge pos t = record t { current = purge_from pos t.current }
