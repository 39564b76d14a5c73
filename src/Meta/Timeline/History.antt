-- ===== src/Meta/Timeline/History.antt =====
-- Which version of the metadata `get` gives for a position.
use dbstream.Common.{
  ℕ, ◌≤◌, ◌<◌, ◌≡◌, refl, sym, ◌≢◌, ◌⊎◌, inl, inr, Bool, true, false, Option, none, arith, ltb, leb,
  ◌==◌, if◌then◌else◌, Bool-cases,
}
use dbstream.Meta.Timeline.{
  Metadata, MetaInfo, Chain, null, dangling, ◌▹◌, Timeline, Result, gives, fault, get_older,
  get_from, get, number, placed, put_behind, put,
}

-- The version that is valid at a position: the newest that begins at or before it.
abbrev pub valid_at : Chain → ℕ → Result
valid_at null pos = gives none
valid_at dangling pos = fault
valid_at (m ▹ ms) pos = if leb m.start_pos pos then gives m.meta else valid_at ms pos

-- Whether a version of the chain begins at a position, and what is behind it.
abbrev pub begins_at : Chain → ℕ → Bool
begins_at null pos = false
begins_at dangling pos = false
begins_at (m ▹ ms) pos = if m.start_pos == pos then true else begins_at ms pos

abbrev pub behind : Chain → ℕ → Chain
behind null pos = null
behind dangling pos = dangling
behind (m ▹ ms) pos = if m.start_pos == pos then ms else behind ms pos

-- Older versions begin before newer ones.
abbrev pub Before : Chain → ℕ → Type 0
Before null pos = Unit {0}
Before dangling pos = Unit {0}
Before (m ▹ ms) pos = m.start_pos < pos

abbrev pub Descends : Chain → Type 0
Descends null = Unit {0}
Descends dangling = Unit {0}
Descends (m ▹ ms) = Before ms m.start_pos × Descends ms

get_older-valid_at :
    (ms : Chain) (pos : ℕ) → begins_at ms pos ≡ false → get_older ms pos ≡ valid_at ms pos
unfolding get_older
get_older-valid_at null pos h = refl
get_older-valid_at dangling pos h = refl
get_older-valid_at (m ▹ ms) pos h = elim (Bool-cases (m.start_pos == pos)) [
  | inl e ↦ absurd (ground arith)
  | inr ne ↦
      let rest : begins_at ms pos ≡ false = rw ne at h in
      ground (arith, get_older-valid_at ms pos rest)
]

Before-weaken : (ms : Chain) (p q : ℕ) → p ≤ q → Before ms p → Before ms q
Before-weaken null p q h b = tt
Before-weaken dangling p q h b = tt
Before-weaken (m ▹ ms) p q h b = omega (arith, b)

older_is_valid : (ms : Chain) (pos : ℕ) → Before ms pos → get_older ms pos ≡ valid_at ms pos
unfolding get_older
older_is_valid null pos b = refl
older_is_valid dangling pos b = refl
older_is_valid (m ▹ ms) pos b =
    let x : ltb m.start_pos pos ≡ true = ground (arith, b) in
    let y : leb m.start_pos pos ≡ true = ground (arith, b) in rw (x, y) refl

begins_below :
    (ms : Chain) (pos q : ℕ) → Before ms q → Descends ms → begins_at ms pos ≡ true → pos < q
begins_below null pos q b d h = cc
begins_below dangling pos q b d h = cc
begins_below (m ▹ ms) pos q b d h = elim (Bool-cases (m.start_pos == pos)) [
  | inl e ↦ ground (arith, b)
  | inr ne ↦
      let rest : begins_at ms pos ≡ true = rw ne at h in
      omega (arith, b, begins_below ms pos m.start_pos d.0 d.1 rest)
]

get_older-behind :
    (ms : Chain) (pos : ℕ)
    → Descends ms
    → begins_at ms pos ≡ true
    → get_older ms pos ≡ valid_at (behind ms pos) pos
unfolding get_older
get_older-behind null pos d h = cc
get_older-behind dangling pos d h = cc
get_older-behind (m ▹ ms) pos d h = elim (Bool-cases (m.start_pos == pos)) [
  | inl e ↦
      let same : m.start_pos ≡ pos = ground arith in
      let x : ltb m.start_pos pos ≡ false = ground arith in
      let b : Before ms pos = rw same at d.0 in rw (e, x) (older_is_valid ms pos b)
  | inr ne ↦
      let rest : begins_at ms pos ≡ true = rw ne at h in
      let later : ltb m.start_pos pos ≡ false =
        ground (arith, begins_below ms pos m.start_pos d.0 d.1 rest) in
      rw (ne, later) (get_older-behind ms pos d.1 rest)
]

-- `get` gives the version that is valid at the position, unless an older version than the current one
-- begins just there: then it gives the one before that version, which was valid until then.
pub get-valid_at :
    (t : Timeline) (m : MetaInfo) (ms : Chain) (pos : ℕ)
    → t.current ≡ m ▹ ms
    → Descends (m ▹ ms)
    → ((begins_at ms pos ≡ false) × (get t pos ≡ valid_at (m ▹ ms) pos))
      ⊎ ((begins_at ms pos ≡ true) × (get t pos ≡ valid_at (behind ms pos) pos))
unfolding get get_from
get-valid_at t m ms pos e d = rw e (elim (Bool-cases (begins_at ms pos)) [
  | inl b ↦
      let old : leb m.start_pos pos ≡ false =
        ground (arith, begins_below ms pos m.start_pos d.0 d.1 b) in
      inr (b, (rw old (get_older-behind ms pos d.1 b)))
  | inr n ↦ inl (n, ground (arith, get_older-valid_at ms pos n))
])

get_from-older :
    (c : MetaInfo) (cs : Chain) (pos : ℕ)
    → c.start_pos ≢ pos
    → get_older (c ▹ cs) pos ≡ get_from (c ▹ cs) pos
unfolding get_older get_from
get_from-older c cs pos n = ground arith

-- A version that is put behind an earlier one is the current one from its position on, with the
-- identifier of the next version, and the chain stays ordered. It changes nothing of what is read at
-- positions before it, except at the one where the version before it begins. A position that is not
-- after the last one is refused, and the chain stays as it is.
pub put-history :
    (t : Timeline) (c : MetaInfo) (cs : Chain) (meta : Option Metadata) (p : ℕ)
    → t.current ≡ c ▹ cs
    → Descends (c ▹ cs)
    → (((put meta p t).0 ≡ placed)
        × (c.start_pos < p)
        × Descends (put meta p t).1.current
        × ((q : ℕ) → p ≤ q → get (put meta p t).1 q ≡ gives (number t meta))
        × ((q : ℕ) → q < p → c.start_pos ≢ q → get (put meta p t).1 q ≡ get t q))
      ⊎ (((put meta p t).0 ≢ placed) × (p ≤ c.start_pos) × ((put meta p t).1.current ≡ c ▹ cs))
unfolding put put_behind get
put-history t c cs meta p e d = rw e (elim (Bool-cases (leb p c.start_pos)) [
  | inl late ↦ rw late (inr ((λ q. cc), ground arith, refl))
  | inr good ↦ rw good (
      inl (
        refl,
        ground arith,
        (ground arith, d),
        (λ q h. unfold get_from in (let w : leb p q ≡ true = ground arith in rw w refl)),
        (λ q h n.
            let old : get_from (c ▹ cs) q ≡ get_older (c ▹ cs) q = sym (get_from-older c cs q n) in
            let w : leb p q ≡ false = ground arith in rw old (unfold get_from in rw w refl)),
      ))
])
