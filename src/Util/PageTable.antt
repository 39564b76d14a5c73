-- ===== src/Util/PageTable.antt =====
-- util/pageTable.h: a map from 32 bits to pointers in nodes of three levels, by 8, 12 and 12 bits. One
-- call at a time: a compare-exchange that expects what was read succeeds. A null pointer is `none`.
pub mod Cells
pub mod Outcome
pub mod Map
mod Tests
use dbstream.Common.{
  ℕ, ◌/◌, ◌%◌, ◌^◌, Bool, true, false, ◌||◌, Option, none, some, ltb, ◌==◌, if◌then◌else◌,
}

abbrev pub high_id : ℕ → ℕ
high_id id = id / 2 ^ 24 % 2 ^ 8

abbrev pub mid_id : ℕ → ℕ
mid_id id = id / 2 ^ 12 % 2 ^ 12

abbrev pub low_id : ℕ → ℕ
low_id id = id % 2 ^ 12

-- A node: its pointers by number. One that is missing is read as an empty one, and made as such.
abbrev pub Node {ℓ} : Type ℓ → Type ℓ
Node C = ℕ → Option C

abbrev pub or_empty {ℓ} : {C : Type ℓ} → Option (Node C) → Node C
or_empty none = λ i. none
or_empty (some n) = n

abbrev pub put_child {ℓ} : {C : Type ℓ} → Node C → ℕ → Option C → Node C
put_child n c o i = if i == c then o else n i

pub record PageTable {ℓ} (T : Type ℓ) : Type ℓ where
  pub root : Node (Node (Node T))
  pub min : ℕ
  pub max : ℕ

module _ {ℓ} {T : Type ℓ} where
  abbrev pub new_table : PageTable T
  new_table = record { root = λ i. none; min = 0; max = 0 }

  abbrev pub mid_node : Node (Node (Node T)) → ℕ → Node (Node T)
  mid_node root id = or_empty (root (high_id id))

  abbrev pub low_node : Node (Node (Node T)) → ℕ → Node T
  low_node root id = or_empty (mid_node root id (mid_id id))

  unfoldable pub cell : Node (Node (Node T)) → ℕ → Option T
  cell root id = low_node root id (low_id id)

  -- The cell of an identifier is written, and the nodes above it made.
  unfoldable pub write : Node (Node (Node T)) → ℕ → Option T → Node (Node (Node T))
  write root id o = put_child root (high_id id) (
      some (
        put_child (mid_node root id) (mid_id id)
          (some (put_child (low_node root id) (low_id id) o))))

  abbrev pub outside : PageTable T → ℕ → Bool
  outside t id = ltb id t.min || ltb t.max id

  unfoldable pub get : PageTable T → ℕ → Option T
  get t id = if outside t id then none else cell t.root id

  unfoldable pub begin : PageTable T → Option T
  begin t = get t t.min

  unfoldable pub end : PageTable T → Option T
  end t = get t t.max

  unfoldable pub update : PageTable T → ℕ → T → Bool × PageTable T
  update t id v = if outside t id then (false, t) else elim (cell t.root id) [
    | none ↦ (false, t)
    | some old ↦ (true, record t { root = write t.root id (some v) })
  ]

  -- A value that is there stays, and is given back.
  unfoldable pub set : PageTable T → ℕ → T → T × PageTable T
  set t id v = elim (cell t.root id) [
    | none ↦ (
      v,
      record {
        root = write t.root id (some v);
        min = if ltb id t.min then id else t.min;
        max = if ltb t.max id then id else t.max;
      },
    )
    | some old ↦ (old, t)
  ]

  unfoldable pub erase : PageTable T → ℕ → PageTable T
  erase t id =
      if outside t id
      then t
      else elim (cell t.root id) [ none ↦ t | some old ↦ record t { root = write t.root id none } ]
