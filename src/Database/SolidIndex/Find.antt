-- ===== src/Database/SolidIndex/Find.antt =====
-- database/solidIndex.h, fixedSolidIndex::find: the search for a key, by halves. The code's `e` is one
-- less than `h` here, so that it is not below 0; an index has less than 2^31 keys, and `keyCount` entries. The result -1 is
-- `none`.
pub mod Search
pub mod Records
use dbstream.Common.{
  ℕ, zero, suc, ◌+◌, ◌-◌, ◌/◌, Bool, true, false, List, Option, none, some, ltb, ◌==◌,
  if◌then◌else◌, length, get_or, map,
}
use dbstream.Database.SolidIndex.{SolidIndex, get_record_id_by_index}

-- The end, once the loop has found nothing.
unfoldable pub settle : Bool → ℕ → ℕ → ℕ → ℕ → Option ℕ
settle true n s h m = none
settle false n s h m = some (if h == 0 then 0 else if ltb s n then s else m)

unfoldable pub find_loop : ℕ → Bool → List ℕ → ℕ → ℕ → ℕ → ℕ → Option ℕ
find_loop zero exact keys d s h m = settle exact (length keys) s h m
find_loop (suc fuel) exact keys d s h m = elim (ltb s h) [
  | false ↦ settle exact (length keys) s h m
  | true ↦
      let mid = (s + h - 1) / 2 in
      let k = get_or keys mid 0 in
      elim (ltb k d) [
        | true ↦ find_loop fuel exact keys d (mid + 1) h mid
        | false ↦ elim (ltb d k) [ true ↦ find_loop fuel exact keys d s mid mid | false ↦ some mid ]
      ]
]

abbrev pub keys_of : SolidIndex → List ℕ
keys_of x = map (λ e. e.0) x.entries

-- Each round leaves fewer keys, so there are at most as many as keys.
unfoldable pub find : SolidIndex → ℕ → Bool → Option ℕ
find x d exact = find_loop (length (keys_of x)) exact (keys_of x) d 0 (length (keys_of x)) 0

-- The other `find`, which goes on to the records.
unfoldable pub find_records : SolidIndex → ℕ → Bool → Option (List ℕ)
find_records x d exact = elim (find x d exact) [ none ↦ none | some i ↦ get_record_id_by_index x i ]
