-- ===== src/Util/Config/File/Fuel.antt =====
-- A file has at most as many lines as bytes.
use dbstream.Common.{
  ℕ, zero, suc, ◌≤◌, ◌≡◌, refl, Bool, true, false, List, [], ◌∷◌, ◌==◌, if◌then◌else◌, length,
  arith,
}
use dbstream.Util.Config.{Sections}
use dbstream.Util.Config.File.{
  Line, went_on, failed, endless, load_line, read_line, Load, refused, stuck, load_from,
}

abbrev left_of : List ℕ × List ℕ → List ℕ
left_of p = p.1

either_left :
    (t : Bool) (p q : List ℕ × List ℕ) (n : ℕ)
    → length p.1 ≤ n
    → length q.1 ≤ n
    → length (left_of (if t then p else q)) ≤ n
either_left true p q n a b = a
either_left false p q n a b = b

read_line-left : (n : ℕ) (file : List ℕ) → length (read_line n file).1 ≤ length file
unfolding read_line
read_line-left zero file = omega arith
read_line-left (suc n) [] = omega arith
read_line-left (suc n) (c ∷ file) =
    let h = read_line-left n file in
    let more = read_line n file in
    either_left (c == 0x0a) (c ∷ [], file) (c ∷ more.0, more.1) (suc (length file)) (omega arith)
      (omega arith)

read_line-shorter :
    (n c : ℕ) (file : List ℕ) → length (read_line (suc n) (c ∷ file)).1 ≤ length file
unfolding read_line
read_line-shorter n c file =
    let more = read_line n file in
    either_left (c == 0x0a) (c ∷ [], file) (c ∷ more.0, more.1) (length file) (omega arith)
      (read_line-left n file)

same_end :
    (rounds f g : ℕ) (m : Sections) (left : List ℕ) (l : Line)
    → ((section : List ℕ) (m' : Sections)
        → load_from rounds f section m' left ≡ load_from rounds g section m' left)
    → ◌≡◌ {A = Load}
        (elim l [
          | went_on section' m' ↦ load_from rounds f section' m' left
          | failed ↦ refused m
          | endless ↦ stuck
        ])
        (elim l [
          | went_on section' m' ↦ load_from rounds g section' m' left
          | failed ↦ refused m
          | endless ↦ stuck
        ])
same_end rounds f g m left (went_on section m') h = h section m'
same_end rounds f g m left failed h = refl
same_end rounds f g m left endless h = refl

-- Fuel of the file's length is enough: more of it changes nothing.
pub load_from-enough :
    (rounds f g : ℕ) (section : List ℕ) (m : Sections) (file : List ℕ)
    → length file ≤ f
    → length file ≤ g
    → load_from rounds f section m file ≡ load_from rounds g section m file
unfolding load_from
load_from-enough rounds zero zero section m file a b = refl
load_from-enough rounds zero (suc g) section m [] a b = refl
load_from-enough rounds (suc f) zero section m [] a b = refl
load_from-enough rounds (suc f) (suc g) section m [] a b = refl
load_from-enough rounds zero (suc g) section m (c ∷ file) a b = absurd (omega arith)
load_from-enough rounds (suc f) zero section m (c ∷ file) a b = absurd (omega arith)
load_from-enough rounds (suc f) (suc g) section m (c ∷ file) a b =
    let s = read_line-shorter 1021 c file in
    let (line, left) = read_line 1022 (c ∷ file) in
    same_end rounds f g m left (load_line rounds section m line)
      (λ section' m'. load_from-enough rounds f g section' m' left (omega arith) (omega arith))
