-- ===== src/Meta/Tests.antt =====
-- Runs of a timeline with two versions, and of the identifiers.
use dbstream.Common.{ℕ, ◌≤◌, ◌<◌, ◌≡◌, refl, ◌≢◌, ◌⊎◌, inl, inr, true, false, Option, some, arith}
use dbstream.Meta.Timeline.{
  Metadata, MetaInfo, null, ◌▹◌, Timeline, gives, fault, get, number, placed, put, purge,
}
use dbstream.Meta.Timeline.History.{
  valid_at, begins_at, behind, Descends, get-valid_at, put-history,
}
use dbstream.Meta.Timeline.Purge.{purge-faults}

abbrev info : ℕ → ℕ → MetaInfo
info n pos = record { meta = some (record { name = n; id = n }); start_pos = pos }

abbrev two_versions : Timeline
two_versions = record { current = info 2 20 ▹ (info 1 10 ▹ null); id = 7; version = 2 }

abbrev third : Option Metadata
third = some (record { name = 3; id = 0 })

two_versions-Descends : Descends (info 2 20 ▹ (info 1 10 ▹ null))
two_versions-Descends = (omega arith, (tt, tt))

get-valid_at_example :
    ((begins_at (info 1 10 ▹ null) 10 ≡ false)
      × (get two_versions 10 ≡ valid_at (info 2 20 ▹ (info 1 10 ▹ null)) 10))
    ⊎ ((begins_at (info 1 10 ▹ null) 10 ≡ true)
        × (get two_versions 10 ≡ valid_at (behind (info 1 10 ▹ null) 10) 10))
get-valid_at_example =
    get-valid_at two_versions (info 2 20) (info 1 10 ▹ null) 10 refl two_versions-Descends

put-history_example :
    (((put third 30 two_versions).0 ≡ placed)
      × (20 < 30)
      × Descends (put third 30 two_versions).1.current
      × ((q : ℕ) → 30 ≤ q → get (put third 30 two_versions).1 q ≡ gives (number two_versions third))
      × ((q : ℕ) → q < 30 → 20 ≢ q → get (put third 30 two_versions).1 q ≡ get two_versions q))
    ⊎ (((put third 30 two_versions).0 ≢ placed)
        × (30 ≤ 20)
        × ((put third 30 two_versions).1.current ≡ info 2 20 ▹ (info 1 10 ▹ null)))
put-history_example =
    put-history two_versions (info 2 20) (info 1 10 ▹ null) third 30 refl two_versions-Descends

purge-faults_example :
    ((get (purge 12 two_versions) 25 ≡ get two_versions 25)
      ⊎ (get (purge 12 two_versions) 25 ≡ fault))
    × (get (purge 12 two_versions) 12 ≡ fault)
purge-faults_example = purge-faults two_versions 12 25 (inr (inl (omega arith)))
