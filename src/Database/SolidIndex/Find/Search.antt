-- ===== src/Database/SolidIndex/Find/Search.antt =====
-- What the search by halves finds.
use dbstream.Common.{
  ℕ, zero, suc, ◌+◌, ◌-◌, ◌/◌, ◌≤◌, ◌<◌, ◌≡◌, refl, sym, ap, inl, inr, Bool, true, false, ◌&&◌,
  List, Option, none, some, arith, ltb, ◌==◌, if◌then◌else◌, Bool-cases, length, get_or,
}
use dbstream.Database.SolidIndex.{SolidIndex}
use dbstream.Database.SolidIndex.Find.{settle, find_loop, keys_of, find}

-- Each key is less than those behind it.
abbrev pub IsAscending : List ℕ → Type 0
IsAscending keys = (i j : ℕ) → i < j → j < length keys → get_or keys i 0 < get_or keys j 0

-- The place of the first key that is not less than `d`.
pub record IsPlace (keys : List ℕ) (d i : ℕ) : Type 0 where
  pub within : i ≤ length keys
  pub before : (j : ℕ) → j < i → get_or keys j 0 < d
  pub behind : (j : ℕ) → i ≤ j → j < length keys → d ≤ get_or keys j 0

abbrev pub is_key_at : List ℕ → ℕ → ℕ → Bool
is_key_at keys d i = ltb i (length keys) && get_or keys i 0 == d

-- What the code gives for the place.
abbrev pub answer : Bool → List ℕ → ℕ → ℕ → Option ℕ
answer true keys d i = if is_key_at keys d i then some i else none
answer false keys d i = some (if ltb i (length keys) then i else length keys - 1)

-- What holds before each round.
record IsLeft (keys : List ℕ) (d s h m : ℕ) : Type 0 where
  ordered : s ≤ h
  bounded : h ≤ length keys
  less : (j : ℕ) → j < s → get_or keys j 0 < d
  greater : (j : ℕ) → h ≤ j → j < length keys → d < get_or keys j 0
  last : s ≡ length keys → length keys - 1 ≡ m

left-IsPlace : (keys : List ℕ) (d s h m : ℕ) → IsLeft keys d s h m → h ≤ s → IsPlace keys d s
left-IsPlace keys d s h m v e = record {
  within = omega (arith, v.ordered, v.bounded);
  before = v.less;
  behind = λ j a b. omega (arith, v.greater j (omega arith) b);
}

settle-answer :
    (exact : Bool) (keys : List ℕ) (d s h m : ℕ)
    → IsLeft keys d s h m
    → h ≤ s
    → settle exact (length keys) s h m ≡ answer exact keys d s
unfolding settle
settle-answer true keys d s h m v e = elim (Bool-cases (ltb s (length keys))) [
  | inr out ↦ rw out refl
  | inl inside ↦
      let g = v.greater s e (ground (arith, inside)) in
      let ne : (get_or keys s 0 == d) ≡ false = ground (arith, g) in rw (inside, ne) refl
]
settle-answer false keys d s h m v e = elim (Bool-cases (ltb s (length keys))) [
  | inl inside ↦ rw inside (elim (Bool-cases (h == 0)) [
    | inl none_less ↦
        (let z : 0 ≡ s = ground (arith, none_less, v.ordered) in rw none_less (ap some z))
    | inr some_less ↦ rw some_less refl
  ])
  | inr out ↦ rw out (elim (Bool-cases (h == 0)) [
    | inl none_less ↦
        (let z : 0 ≡ length keys - 1 = ground (arith, none_less, out, v.ordered) in
          rw none_less (ap some z))
    | inr some_less ↦
        (let z : s ≡ length keys = ground (arith, out, v.ordered, v.bounded) in
          rw some_less (ap some (sym (v.last z))))
  ])
]

pub found-IsPlace :
    (keys : List ℕ) (d i : ℕ)
    → IsAscending keys
    → i < length keys
    → get_or keys i 0 ≡ d
    → IsPlace keys d i
found-IsPlace keys d i v h e = record {
  within = omega arith;
  before = λ j a. omega (arith, v j i a h);
  behind = λ j a b. elim (Bool-cases (i == j)) [
    | inl same ↦ (let q : i ≡ j = ground (arith, same) in rw (← q) (omega arith))
    | inr other ↦ omega (arith, v i j (ground (arith, other)) b)
  ];
}

pub found-answer :
    (exact : Bool) (keys : List ℕ) (d i : ℕ)
    → i < length keys
    → get_or keys i 0 ≡ d
    → some i ≡ answer exact keys d i
found-answer true keys d i h e =
    let inside : ltb i (length keys) ≡ true = ground arith in
    let same : (get_or keys i 0 == d) ≡ true = ground arith in rw (inside, same) refl
found-answer false keys d i h e =
    let inside : ltb i (length keys) ≡ true = ground arith in rw inside refl

-- The rounds of the loop, to the right and to the left of the middle.
narrow_start :
    (keys : List ℕ) (d s h m mid : ℕ)
    → IsAscending keys
    → IsLeft keys d s h m
    → mid < h
    → get_or keys mid 0 < d
    → IsLeft keys d (mid + 1) h mid
narrow_start keys d s h m mid a v at e = record {
  ordered = omega arith;
  bounded = v.bounded;
  less = λ j b. elim (Bool-cases (mid == j)) [
    | inl same ↦ (let q : mid ≡ j = ground (arith, same) in rw (← q) e)
    | inr other ↦ omega (arith, a j mid (ground (arith, other)) (omega (arith, v.bounded)))
  ];
  greater = v.greater;
  last = λ q. omega arith;
}

narrow_end :
    (keys : List ℕ) (d s h m mid : ℕ)
    → IsAscending keys
    → IsLeft keys d s h m
    → s ≤ mid
    → mid < h
    → d < get_or keys mid 0
    → IsLeft keys d s mid mid
narrow_end keys d s h m mid a v after at e = record {
  ordered = after;
  bounded = omega (arith, v.bounded);
  less = v.less;
  greater = λ j b c. elim (Bool-cases (mid == j)) [
    | inl same ↦ (let q : mid ≡ j = ground (arith, same) in rw (← q) e)
    | inr other ↦ omega (arith, a mid j (ground (arith, other)) c)
  ];
  last = λ q. absurd (omega (arith, v.bounded));
}

find_loop-answer :
    (fuel : ℕ) (exact : Bool) (keys : List ℕ) (d s h m : ℕ)
    → IsAscending keys
    → IsLeft keys d s h m
    → h ≤ s + fuel
    → (i : ℕ) × IsPlace keys d i × (find_loop fuel exact keys d s h m ≡ answer exact keys d i)
unfolding find_loop
find_loop-answer zero exact keys d s h m a v f =
    (s, left-IsPlace keys d s h m v (omega arith), settle-answer exact keys d s h m v (omega arith))
find_loop-answer (suc fuel) exact keys d s h m a v f =
    let mid : ℕ = (s + h - 1) / 2 in
    elim (Bool-cases (ltb s h)) [
      | inr done ↦
          let e : h ≤ s = ground (arith, done) in
          rw (find_loop, done)
            (s, left-IsPlace keys d s h m v e, settle-answer exact keys d s h m v e)
      | inl busy ↦
          let after : s ≤ (s + h - 1) / 2 = ground (arith, busy) in
          let at : (s + h - 1) / 2 < h = ground (arith, busy) in
          elim (Bool-cases (ltb (get_or keys mid 0) d)) [
            | inl low ↦
                let w = narrow_start keys d s h m mid a v at (ground (arith, low)) in
                rw (find_loop, busy, low)
                  (find_loop-answer fuel exact keys d (mid + 1) h mid a w (omega arith))
            | inr not_low ↦ elim (Bool-cases (ltb d (get_or keys mid 0))) [
              | inl high ↦
                  let w = narrow_end keys d s h m mid a v after at (ground (arith, high)) in
                  rw (find_loop, busy, not_low, high)
                    (find_loop-answer fuel exact keys d s mid mid a w (omega arith))
              | inr not_high ↦
                  let e : get_or keys mid 0 ≡ d = ground (arith, not_low, not_high) in
                  let inside : mid < length keys = omega (arith, v.bounded) in
                  rw (find_loop, busy, not_low, not_high)
                    (
                      mid,
                      found-IsPlace keys d mid a inside e,
                      found-answer exact keys d mid inside e,
                    )
            ]
          ]
    ]

-- In an index whose keys ascend, `find` with its flag set gives the place of the key, or nothing if it is
-- not there, whatever greater keys there are. Without the flag it gives the first key that is not
-- less, or the last one if all are less; in an index without keys it gives 0, though there is none.
pub find-IsPlace :
    (x : SolidIndex) (d : ℕ) (exact : Bool)
    → IsAscending (keys_of x)
    → (i : ℕ) × IsPlace (keys_of x) d i × (find x d exact ≡ answer exact (keys_of x) d i)
unfolding find
find-IsPlace x d exact a =
    find_loop-answer (length (keys_of x)) exact (keys_of x) d 0 (length (keys_of x)) 0 a
      record {
        ordered = omega arith;
        bounded = omega arith;
        less = λ j b. absurd (omega arith);
        greater = λ j b c. absurd (omega arith);
        last = λ q. omega arith;
      }
      (omega arith)
