-- ===== src/Util/Ring.antt =====
-- What an array holds between two positions that run round it: shared by the two ring queues.
use native.Mathlib.Decide.{dec_lt}
use native.Mathlib.Nat.{mod-eq_of_lt, mod_self, zero-mod}
use dbstream.Common.{
  ℕ, zero, suc, ◌+◌, ◌%◌, ◌^◌, ◌≤◌, ◌<◌, ◌≡◌, refl, sym, ap, ◌∙◌, ◌≢◌, ◌⊎◌, inl, inr, List, [], ◌∷◌,
  ◌++◌, some, arith, length, length-append, length-set, get_elem?, set,
}

-- Going `n` steps on from the position `t` in an array of `v` places leads to `p`.
abbrev pub Leads : ℕ → ℕ → ℕ → ℕ → Type 0
Leads v t n p = (p < v) × ((p ≡ t + n) ⊎ (p + v ≡ t + n))

Leads-trans :
    (v t a p b q : ℕ) → t < v → a + b ≤ v → Leads v t a p → Leads v p b q → Leads v t (a + b) q
Leads-trans v t a p b q h k l m = ground arith

Leads-back :
    (v t n b p : ℕ) → t < v → b + 1 ≤ v → Leads v t 1 n → Leads v n b p → Leads v t (b + 1) p
Leads-back v t n b p k l m o = ground arith

Leads-ahead : (v t n b p : ℕ) → t < v → b < v → Leads v t 1 n → Leads v t (b + 1) p → Leads v n b p
Leads-ahead v t n b p k l m o = ground arith

Leads-unique : (v t a p q : ℕ) → Leads v t a p → Leads v t a q → p ≡ q
Leads-unique v t a p q l m = ground arith

Leads-differ : (v t a b p q : ℕ) → t < v → a < b → b < a + v → Leads v t a p → Leads v t b q → p ≢ q
Leads-differ v t a b p q h k o l m = λ e. absurd (ground arith)

module _ {ℓ} {A : Type ℓ} where
  -- The array holds the elements `xs` from `d` steps behind the position `t` on, up to `h`.
  pub record IsRing (d : ℕ) (array : List A) (v t h : ℕ) (xs : List A) : Type ℓ where
    pub sized : length array ≡ v
    pub inside : t < v
    pub ends : Leads v t (length xs) h
    pub room : length xs < v
    pub slots : (i p : ℕ) → i < length xs → Leads v t (d + i) p → get_elem? array p ≡ get_elem? xs i

  get_elem?-set_self :
      (xs : List A) (i : ℕ) (x : A) → i < length xs → get_elem? (set xs i x) i ≡ some x
  get_elem?-set_self [] i x h = absurd (omega arith)
  get_elem?-set_self (y ∷ xs) zero x h = refl
  get_elem?-set_self (y ∷ xs) (suc i) x h = get_elem?-set_self xs i x (omega arith)

  get_elem?-set_ne :
      (xs : List A) (i j : ℕ) (x : A) → i ≢ j → get_elem? (set xs i x) j ≡ get_elem? xs j
  get_elem?-set_ne [] i j x h = refl
  get_elem?-set_ne (y ∷ xs) zero zero x h = absurd (h refl)
  get_elem?-set_ne (y ∷ xs) zero (suc j) x h = refl
  get_elem?-set_ne (y ∷ xs) (suc i) zero x h = refl
  get_elem?-set_ne (y ∷ xs) (suc i) (suc j) x h = get_elem?-set_ne xs i j x (λ e. h (ap suc e))

  get_elem?-concat_before :
      (xs : List A) (x : A) (i : ℕ) → i < length xs → get_elem? (xs ++ x ∷ []) i ≡ get_elem? xs i
  get_elem?-concat_before [] x i h = absurd (omega arith)
  get_elem?-concat_before (y ∷ xs) x zero h = refl
  get_elem?-concat_before (y ∷ xs) x (suc i) h = get_elem?-concat_before xs x i (omega arith)

  get_elem?-concat_end : (xs : List A) (x : A) → get_elem? (xs ++ x ∷ []) (length xs) ≡ some x
  get_elem?-concat_end [] x = refl
  get_elem?-concat_end (y ∷ xs) x = get_elem?-concat_end xs x

  -- One element more: it is written `d` steps behind the end, and the end moves one step on.
  pub IsRing-push :
      (d : ℕ) (array : List A) (v t h w n : ℕ) (xs : List A) (x : A)
      → IsRing d array v t h xs
      → d ≤ 1
      → length xs + 1 < v
      → Leads v h d w
      → Leads v h 1 n
      → IsRing d (set array w x) v t n (xs ++ x ∷ [])
  IsRing-push d array v t h w n xs x r small room at next =
      let more : length (xs ++ x ∷ []) ≡ length xs + 1 = length-append xs (x ∷ []) ∙ omega arith in
      let written : Leads v t (d + length xs) w =
        let swap : length xs + d ≡ d + length xs = omega arith in
        rw swap at (Leads-trans v t (length xs) h d w r.inside (omega arith) r.ends at) in
      record {
        sized = length-set array w x ∙ r.sized;
        inside = r.inside;
        ends = rw more (Leads-trans v t (length xs) h 1 n r.inside (omega arith) r.ends next);
        room = rw more room;
        slots = λ i p k l. elim (dec_lt i (length xs)) [
          | yes before ↦
              get_elem?-set_ne array w p x (λ e.
                Leads-differ v t (d + i) (d + length xs) p w r.inside (omega arith) (omega arith) l
                  written (sym e))
              ∙ r.slots i p before l
              ∙ sym (get_elem?-concat_before xs x i before)
          | no last ↦
              let e : i ≡ length xs = omega (arith, more, k) in
              let same : p ≡ w = Leads-unique v t (d + length xs) p w (rw e at l) written in
              rw (same, e)
                (get_elem?-set_self array w x (omega (arith, r.sized, at.0))
                  ∙ sym (get_elem?-concat_end xs x))
        ];
      }

  -- One element less: the start moves one step on.
  pub IsRing-pop :
      (d : ℕ) (array : List A) (v t h n : ℕ) (x : A) (xs : List A)
      → IsRing d array v t h (x ∷ xs)
      → d ≤ 1
      → Leads v t 1 n
      → IsRing d array v n h xs
  IsRing-pop d array v t h n x xs r small next = record {
    sized = r.sized;
    inside = next.0;
    ends =
        let w : suc (length xs) ≡ length xs + 1 = omega arith in
        Leads-ahead v t n (length xs) h r.inside (omega (arith, r.room)) next (rw w at r.ends);
    room = omega (arith, r.room);
    slots = λ i p k l.
        let w : d + i + 1 ≡ d + suc i = omega arith in
        let back : Leads v t (d + i + 1) p =
          Leads-back v t n (d + i) p r.inside (omega (arith, r.room)) next l in
        r.slots (suc i) p (omega arith) (rw w at back);
  }

-- The next position, `pos + 1` in 32 bits and round the array.
pub next-Leads : (v p : ℕ) → p < v → v ≤ 2 ^ 32 → Leads v p 1 ((p + 1) % 2 ^ 32 % v)
next-Leads v p h k = elim (dec_lt (p + 1) v) [
  | yes inner ↦
      let a : (p + 1) % 2 ^ 32 ≡ p + 1 = omega arith in
      let b : (p + 1) % v ≡ p + 1 = mod-eq_of_lt inner in rw (a, b) (inner, inl refl)
  | no end ↦
      let e : p + 1 ≡ v = omega arith in
      let last : v % 2 ^ 32 % v ≡ 0 = elim (dec_lt v (2 ^ 32)) [
        | yes small ↦ let a : v % 2 ^ 32 ≡ v = mod-eq_of_lt small in rw a (mod_self v)
        | no big ↦ let a : v % 2 ^ 32 ≡ 0 = omega arith in rw a (zero-mod v)
      ] in
      rw (e, last) (omega arith, inr (omega arith))
]
