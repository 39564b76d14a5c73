-- ===== src/KvDb/Row/Versions.antt =====
-- Reading the memory of a row's versions after it was written to, or has grown.
use dbstream.Common.{
  ℕ, zero, suc, ◌<◌, ◌≡◌, refl, sym, ap, ◌∙◌, ◌≢◌, [], ◌∷◌, ◌++◌, Option, some, arith, length,
  length-set, set,
}
use dbstream.KvDb.Row.{Version, Memory, read, link}

pub read-bound : (m : Memory) (p : ℕ) (v : Version) → read m p ≡ some v → p < length m
unfolding read
read-bound [] p v h = cc
read-bound (x ∷ m) zero v h = omega arith
read-bound (x ∷ m) (suc p) v h = omega (arith, read-bound m p v h)

pub read-append : (m n : Memory) (p : ℕ) → p < length m → read (m ++ n) p ≡ read m p
unfolding read
read-append [] n p h = absurd (omega arith)
read-append (x ∷ m) n zero h = refl
read-append (x ∷ m) n (suc p) h = read-append m n p (omega arith)

pub read-append_end : (m : Memory) (v : Version) → read (m ++ some v ∷ []) (length m) ≡ some v
unfolding read
read-append_end [] v = refl
read-append_end (x ∷ m) v = read-append_end m v

pub read-set_ne :
    (m : Memory) (p q : ℕ) (v : Option Version) → p ≢ q → read (set m p v) q ≡ read m q
unfolding read
read-set_ne [] p q v h = refl
read-set_ne (x ∷ m) zero zero v h = absurd (h refl)
read-set_ne (x ∷ m) zero (suc q) v h = refl
read-set_ne (x ∷ m) (suc p) zero v h = refl
read-set_ne (x ∷ m) (suc p) (suc q) v h = read-set_ne m p q v (λ e. h (ap suc e))

pub read-set_self :
    (m : Memory) (p : ℕ) (v : Option Version) → p < length m → read (set m p v) p ≡ v
unfolding read
read-set_self [] p v h = absurd (omega arith)
read-set_self (x ∷ m) zero v h = refl
read-set_self (x ∷ m) (suc p) v h = read-set_self m p v (omega arith)

-- The memory with a new version `w` behind the version `v` at `b`.
abbrev pub grown : Memory → ℕ → Version → Version → Memory
grown m b v w = link m b v (length m) ++ some w ∷ []

module _ (m : Memory) (b : ℕ) (v w : Version) (h : read m b ≡ some v) where
  pub grown-ne : (p : ℕ) → p ≢ b → p < length m → read (grown m b v w) p ≡ read m p
  grown-ne p n k =
      read-append (link m b v (length m)) (some w ∷ []) p (rw length-set k)
      ∙ read-set_ne m b p _ (λ e. n (sym e))

  pub grown-old : read (grown m b v w) b ≡ some (record v { next = some (length m) })
  grown-old =
      read-append (link m b v (length m)) (some w ∷ []) b (rw length-set (read-bound m b v h))
      ∙ read-set_self m b _ (read-bound m b v h)

  pub grown-new : read (grown m b v w) (length m) ≡ some w
  grown-new = rw length-set at (read-append_end (link m b v (length m)) w)
