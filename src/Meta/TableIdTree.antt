-- ===== src/Meta/TableIdTree.antt =====
-- meta/tableIdTree.h: a tree from the numbers of tables to the versions of their metadata, 512 ways at
-- each node. `end_id` is kept as the source does, up along `parent`; only whether a node has a parent
-- is in the model. Every node is `serial`. The metadata itself is a parameter, beside its identifier.
pub mod Ids
pub mod Placed
pub mod Descend
pub mod Put
pub mod Grow
pub mod Versions
pub mod History
pub mod Alias
mod Tests
use dbstream.Common.{
  ℕ, zero, suc, ◌+◌, ◌-◌, ◌*◌, ◌/◌, ◌%◌, ◌^◌, Bool, true, false, not, ◌&&◌, Option, none, some,
  List, [], ◌∷◌, ltb, leb, ◌==◌, if◌then◌else◌,
}
use dbstream.Meta.TableId.{table_id, table_version}

pub record TableMeta {ℓ} (A : Type ℓ) : Type ℓ where
  pub id : ℕ
  pub content : A

-- The versions of a table, the last one first.
pub record Wrap {ℓ} (A : Type ℓ) : Type ℓ where
  pub newest : TableMeta A
  pub prev : List (TableMeta A)

pub record Node {ℓ} (C : Type ℓ) : Type ℓ where
  pub start_id : ℕ
  pub end_id : ℕ
  pub child : ℕ → Option C
  pub has_parent : Bool

-- What the children of a node of this level are.
abbrev pub Child {ℓ} : (A : Type ℓ) → ℕ → Type ℓ
Child A zero = Wrap A
Child A (suc level) = Node (Child A level)

pub record Tree {ℓ} (A : Type ℓ) : Type ℓ where
  pub level : ℕ
  pub root : Node (Child A level)

-- The slot of an identifier, 16 bits of it.
unfoldable pub slot_id : ℕ → ℕ → ℕ → ℕ
slot_id start level id = (id + 2 ^ 64 - start) % 2 ^ 64 / 2 ^ (level * 9) % 2 ^ 16

-- `cid * (1 << (n->level * 9))` is of 32 bits, with a sign; where it overflows, which the source leaves
-- undefined, it wraps around here.
unfoldable pub child_start : ℕ → ℕ → ℕ → ℕ
child_start start level cid =
    let offset = cid * 2 ^ (level * 9) % 2 ^ 32 in
    (start + (if ltb offset (2 ^ 31) then offset else offset + 2 ^ 64 - 2 ^ 32)) % 2 ^ 64

module _ {ℓ} {C : Type ℓ} where
  abbrev pub new_node : ℕ → Bool → Node C
  new_node start linked = record {
    start_id = start;
    end_id = 0;
    child = λ c. none;
    has_parent = linked;
  }

  -- A node whose child at `cid` has changed. `up` says that the loop that raises `end_id` has come so
  -- far; the second result, that it goes on with the parent.
  abbrev pub set_child : Node C → ℕ → C → ℕ → Bool → Node C × Bool
  set_child n cid k id up =
      let raised = up && ltb n.end_id id in
      (
        record {
          start_id = n.start_id;
          end_id = if raised then id else n.end_id;
          child = λ c. if c == cid then some k else n.child c;
          has_parent = n.has_parent;
        },
        raised && n.has_parent,
      )

  abbrev pub slot : ℕ → Node C → ℕ → Option C
  slot level n id =
      let cid = slot_id n.start_id level id in if leb 512 cid then none else n.child cid

-- A child that is missing is made.
abbrev pub or_new {ℓ} : {C : Type ℓ} → ℕ → Option (Node C) → Node C
or_new start none = new_node start true
or_new start (some k) = k

module _ {ℓ} {A : Type ℓ} where
  abbrev pub new_tree : Tree A
  new_tree = record { level = 0; root = new_node 0 false }

  -- The two asserts of `put` on the newest version in the slot, then the new one before it.
  unfoldable pub push_version : TableMeta A → Option (Wrap A) → Option (Wrap A)
  push_version m none = some (record { newest = m; prev = [] })
  push_version m (some w) =
      if (table_id w.newest.id == table_id m.id)
        && ltb (table_version w.newest.id) (table_version m.id)
      then some (record { newest = m; prev = w.newest ∷ w.prev })
      else none

  -- The loop of `put` from a node that is not left by growing; `none` is an assertion that fails.
  unfoldable pub put_below :
      (level : ℕ) → Node (Child A level) → TableMeta A → Option (Node (Child A level) × Bool)
  put_below zero n m =
      let cid = slot_id n.start_id 0 (table_id m.id) in
      if leb 512 cid then none else elim (push_version m (n.child cid)) [
        | none ↦ none
        | some w ↦ some (set_child n cid w m.id true)
      ]
  put_below (suc level) n m =
      let cid = slot_id n.start_id (suc level) (table_id m.id) in
      let next = or_new (child_start n.start_id (suc level) cid) (n.child cid) in
      let below = put_below level next m in
      if leb 512 cid
      then none
      else elim below [ none ↦ none | some (k, up) ↦ some (set_child n cid k m.id up) ]

  -- A new root above the old one, whose `parent` stays null.
  unfoldable pub grown : Tree A → Tree A
  grown t = record {
    level = suc t.level;
    root = record {
      start_id = t.root.start_id;
      end_id = t.root.end_id;
      child = λ c. if c == 0 then some t.root else none;
      has_parent = false;
    };
  }

  unfoldable pub grow : ℕ → ℕ → Tree A → Tree A
  grow zero id t = t
  grow (suc fuel) id t =
      let rest = grow fuel id (grown t) in
      if leb 512 (slot_id t.root.start_id t.level id) then rest else t

  unfoldable pub put : TableMeta A → Tree A → Option (Tree A)
  put m t =
      let g = grow 6 (table_id m.id) t in
      elim (put_below g.level g.root m) [
        | none ↦ none
        | some (n, up) ↦ some (record { level = g.level; root = n })
      ]

  -- The loop of `get` and of `getPrevVersion` down to the versions of a table.
  unfoldable pub find_below : (level : ℕ) → Node (Child A level) → ℕ → Option (Wrap A)
  find_below zero n id = slot 0 n id
  find_below (suc level) n id = elim (slot (suc level) n id) [
    | none ↦ none
    | some k ↦ find_below level k id
  ]

  -- The loops over the versions.
  unfoldable pub version_at : List (TableMeta A) → ℕ → Option (TableMeta A)
  version_at [] id = none
  version_at (m ∷ ms) id = if m.id == id then some m else version_at ms id

  abbrev pub first : List (TableMeta A) → Option (TableMeta A)
  first [] = none
  first (m ∷ ms) = some m

  unfoldable pub version_before : List (TableMeta A) → ℕ → Option (TableMeta A)
  version_before [] id = none
  version_before (m ∷ ms) id = if m.id == id then first ms else version_before ms id

  -- Behind the first loop, with `search` for the second; the outer `none` is an assertion that fails.
  unfoldable pub search_versions :
      (List (TableMeta A) → ℕ → Option (TableMeta A))
      → Option (Wrap A)
      → ℕ
      → Option (Option (TableMeta A))
  search_versions search none id = some none
  search_versions search (some w) id =
      if not (table_id w.newest.id == table_id id)
      then none
      else if ltb w.newest.id id
      then some none
      else some (search (w.newest ∷ w.prev) id)

  unfoldable pub get : Tree A → ℕ → Option (Option (TableMeta A))
  get t id = search_versions version_at (find_below t.level t.root (table_id id)) id

  unfoldable pub get_prev_version : Tree A → ℕ → Option (Option (TableMeta A))
  get_prev_version t id =
      search_versions version_before (find_below t.level t.root (table_id id)) id
