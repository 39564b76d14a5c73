-- ===== src/Meta/TableIdTree/Ids.antt =====
-- The arithmetic of the slots: which slot an identifier has at a level, and where its child starts.
use dbstream.Common.{ℕ, zero, suc, ◌+◌, ◌-◌, ◌*◌, ◌/◌, ◌%◌, ◌^◌, ◌≤◌, ◌<◌, ◌≡◌, ap, ◌∙◌, arith}
use native.Mathlib.Nat.{one-le-pow, pow-succ', div-mul-le_self, lt-div-mul-add, div-lt_iff_lt-mul}
use dbstream.Meta.TableIdTree.{slot_id, child_start}

-- How many identifiers a slot at a level stands for.
abbrev pub span : ℕ → ℕ
span level = 2 ^ (level * 9)

pow-add : (k n : ℕ) → 2 ^ (k + n) ≡ 2 ^ k * 2 ^ n
pow-add zero n = let e : 0 + n ≡ n = omega arith in ap (λ k. 2 ^ k) e ∙ omega arith
pow-add (suc k) n =
    let e = pow-add k n in
    let p = pow-succ' 2 (k + n) in
    let q = pow-succ' 2 k in
    let x : suc k + n ≡ suc (k + n) = omega arith in rw (x, p, e, q) (ground arith)

pub span-suc : (l : ℕ) → span (suc l) ≡ 512 * span l
span-suc l = let e : suc l * 9 ≡ 9 + l * 9 = omega arith in ap (λ n. 2 ^ n) e ∙ pow-add 9 (l * 9)

pub span_pos : (l : ℕ) → 1 ≤ span l
span_pos l = one-le-pow (l * 9) 2 (omega arith)

pub slot_id_exact :
    (s l i : ℕ) → s ≤ i → i < 2 ^ 31 → (i - s) / span l < 2 ^ 16 → slot_id s l i ≡ (i - s) / span l
unfolding slot_id
slot_id_exact s l i a b c =
    let e : (i + 2 ^ 64 - s) % 2 ^ 64 ≡ i - s = omega arith in
    rw (e) (let h : (i - s) / span l < 2 ^ 16 = c in omega arith)

pub slot_id-le : (s l i : ℕ) → s ≤ i → i < s + 512 * span l → (i - s) / span l < 512
slot_id-le s l i a b = (div-lt_iff_lt-mul (span_pos l)).1 (omega arith)

-- The identifiers of the slot are those from where its child starts on.
pub slot_start-le : (s l i : ℕ) → s ≤ i → s + (i - s) / span l * span l ≤ i
slot_start-le s l i a = let e = div-mul-le_self (i - s) (span l) in omega arith

pub slot_start-lt : (s l i : ℕ) → s ≤ i → i < s + (i - s) / span l * span l + span l
slot_start-lt s l i a = let e = lt-div-mul-add {a = i - s} (span_pos l) in omega arith

pub child_start_exact : (s l c : ℕ) → s + c * span l < 2 ^ 31 → child_start s l c ≡ s + c * span l
unfolding child_start
child_start_exact s l c h = ground arith

-- The identifiers that a node at a level from `s` on stands for, of 31 bits.
abbrev pub In : ℕ → ℕ → ℕ → Type 0
In s l i = (s ≤ i) × (i < s + 512 * span l) × (i < 2 ^ 31)

abbrev pub place : ℕ → ℕ → ℕ → ℕ
place s l i = (i - s) / span l

pub place-lt : (s l i : ℕ) → In s l i → place s l i < 512
place-lt s l i (a, b, c) = slot_id-le s l i a b

pub slot_id-In : (s l i : ℕ) → In s l i → slot_id s l i ≡ place s l i
slot_id-In s l i r = let h = place-lt s l i r in slot_id_exact s l i r.0 r.2 (omega arith)

pub In-child : (s l i : ℕ) → In s (suc l) i → In (s + place s (suc l) i * span (suc l)) l i
In-child s l i (a, b, c) =
    let lo = slot_start-le s (suc l) i a in
    let hi = slot_start-lt s (suc l) i a in let e = span-suc l in (lo, omega arith, c)

pub child_start-In :
    (s l i : ℕ) → In s l i → child_start s l (place s l i) ≡ s + place s l i * span l
child_start-In s l i (a, b, c) =
    let lo = slot_start-le s l i a in child_start_exact s l (place s l i) (omega arith)

pub leaf_place : (s i : ℕ) → In s zero i → s + place s zero i ≡ i
leaf_place s i r =
    let lo = slot_start-le s zero i r.0 in let hi = slot_start-lt s zero i r.0 in omega arith
