-- ===== src/Meta/TableId.antt =====
-- meta/metaData.h: the identifier of a version of a table, 48 bits of the table and 16 of the version.
-- `|` of a number with 16 zero digits and one of 16 digits is their sum.
use dbstream.Common.{ℕ, ◌+◌, ◌*◌, ◌/◌, ◌%◌, ◌^◌, ◌<◌, ◌≡◌, arith}

unfoldable pub table_version : ℕ → ℕ
table_version w = w % 2 ^ 16

unfoldable pub table_id : ℕ → ℕ
table_id w = w / 2 ^ 16

unfoldable pub gen_table_id : ℕ → ℕ → ℕ
gen_table_id table version = table * 2 ^ 16 % 2 ^ 64 + version

-- The two parts of an identifier are read back, an identifier is made of its parts, and identifiers are
-- ordered by table, then by version, for table numbers of 48 bits and versions of 16.
pub gen_table_id-roundtrip :
    (t u v w : ℕ)
    → t < 2 ^ 48
    → u < 2 ^ 48
    → v < 2 ^ 16
    → w < 2 ^ 16
    → (table_id (gen_table_id t v) ≡ t)
      × (table_version (gen_table_id t v) ≡ v)
      × (gen_table_id (table_id (gen_table_id t v)) (table_version (gen_table_id t v))
          ≡ gen_table_id t v)
      × ((t < u) → gen_table_id t v < gen_table_id u w)
      × ((v < w) → gen_table_id t v < gen_table_id t w)
unfolding table_id table_version gen_table_id
gen_table_id-roundtrip t u v w ht hu hv hw =
    (omega arith, omega arith, omega arith, λ h. omega arith, λ h. omega arith)
