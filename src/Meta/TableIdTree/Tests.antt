-- ===== src/Meta/TableIdTree/Tests.antt =====
-- Puts of several tables, and of two whose numbers differ by 2^16.
use dbstream.Common.{◌^◌, ℕ, ◌<◌, ◌≡◌, none, some, List, [], ◌∷◌, arith}
use dbstream.Meta.TableId.{table_id}
use dbstream.Meta.TableIdTree.{
  TableMeta, Tree, new_tree, put, get, get_prev_version, version_at, version_before,
}
use dbstream.Meta.TableIdTree.History.{put_all, of_table, IsHistory, put_all-get}
use dbstream.Meta.TableIdTree.Alias.{put-alias}

-- Two versions of the table 3, then one of the table 600, for which the root grows.
abbrev version_3_1 : TableMeta ℕ
version_3_1 = record { id = 196609; content = 10 }

abbrev version_3_2 : TableMeta ℕ
version_3_2 = record { id = 196610; content = 20 }

abbrev version_600_1 : TableMeta ℕ
version_600_1 = record { id = 39321601; content = 30 }

abbrev versions : List (TableMeta ℕ)
versions = version_600_1 ∷ version_3_2 ∷ version_3_1 ∷ []

versions-IsHistory : IsHistory versions
unfolding table_id
versions-IsHistory = (
  omega arith,
  (λ e. omega arith, (λ e. omega arith, tt)),
  (omega arith, (λ e. omega arith, tt), (omega arith, tt, tt)),
)

put_all-get_example :
    (t : Tree ℕ) × (put_all versions new_tree ≡ some t)
    × ((w : ℕ)
        → table_id w < 2 ^ 16
        → (get t w ≡ some (version_at versions w))
          × (get_prev_version t w ≡ some (version_before (of_table (table_id w) versions) w)))
put_all-get_example = put_all-get versions versions-IsHistory

-- The tables 65539 and 3.
abbrev version_65539_1 : TableMeta ℕ
version_65539_1 = record { id = 4295163905; content = 40 }

put-alias_example :
    (t : Tree ℕ) × (put version_65539_1 new_tree ≡ some t)
    × (get t 196609 ≡ none)
    × (put version_3_1 t ≡ none)
unfolding table_id
put-alias_example =
    put-alias version_65539_1 version_3_1 1 3 (omega arith) (omega arith) (omega arith)
      (omega arith) (omega arith)
