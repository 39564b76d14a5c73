-- ===== src/Util/Config/Tests.antt =====
-- Numbers as a configuration may have them, and a configuration of one section.
use dbstream.Common.{
  ℕ, ◌≡◌, refl, ◌≢◌, ◌⊎◌, inl, false, ◌≤◌, ◌<◌, ◌++◌, none, some, List, [], ◌∷◌, arith,
}
use dbstream.Util.Config.{Section, Sections, get, set}
use dbstream.Util.Config.Numbers.{
  result, beyond, char2num, value, get_int_conf, accepted, greater, less, get_uint,
}
use dbstream.Util.Config.Digits.{AllLow, char2num-runs_on}
use dbstream.Util.Config.Uint.{get_uint-number, get_int_conf-wraps}
use dbstream.Util.Config.File.{load, save, refused}
use dbstream.Util.Config.File.Saved.{load-save}
use dbstream.Util.Config.Assign.{find, get-set}

abbrev twelve : List ℕ
twelve = b'1' ∷ b'2' ∷ []

char2num-runs_on_example :
    (AllLow twelve × (char2num twelve ≡ beyond)) ⊎ ((k : ℕ) × (char2num twelve ≡ result false k))
char2num-runs_on_example = char2num-runs_on twelve

-- `12k` between 1 and 20000.
get_uint-number_example :
    ((1 ≤ 12288) → (12288 ≤ 20000) → get_uint 32 (twelve ++ b'k' ∷ []) 1 20000 ≡ accepted 12288)
    × ((20000 < 12288) → get_uint 32 (twelve ++ b'k' ∷ []) 1 20000 ≡ greater)
    × ((12288 ≤ 20000) → (12288 < 1) → get_uint 32 (twelve ++ b'k' ∷ []) 1 20000 ≡ less)
get_uint-number_example =
    get_uint-number 32 twelve (b'k' ∷ []) 1024 1 20000 (inl refl)
      (omega arith, omega arith, (omega arith, omega arith, tt)) refl (omega arith) (omega arith)

-- `5000000000` as a number of 32 bits.
abbrev half_billion : List ℕ
half_billion = b'5' ∷ b'0' ∷ b'0' ∷ b'0' ∷ b'0' ∷ b'0' ∷ b'0' ∷ b'0' ∷ b'0' ∷ []

get_int_conf-wraps_example :
    (get_int_conf 32 (half_billion ++ b'0' ∷ []) ≡ value 705032704)
    × ◌≢◌ {A = ℕ} 705032704 5000000000
get_int_conf-wraps_example =
    get_int_conf-wraps 32 half_billion b'0' (inl refl)
      (
        omega arith,
        omega arith,
        (
          omega arith,
          omega arith,
          (
            omega arith,
            omega arith,
            (
              omega arith,
              omega arith,
              (
                omega arith,
                omega arith,
                (
                  omega arith,
                  omega arith,
                  (
                    omega arith,
                    omega arith,
                    (omega arith, omega arith, (omega arith, omega arith, tt)),
                  ),
                ),
              ),
            ),
          ),
        ),
      )
      (omega arith) (omega arith) (omega arith) (omega arith) (omega arith)

abbrev net : List ℕ
net = b'n' ∷ []

abbrev port : List ℕ
port = b'p' ∷ []

abbrev config : Sections
config = (net, (port, twelve) ∷ []) ∷ []

get-set_example :
    (find config net port ≡ none → get (set config net port net) net port none ≡ net)
    × ((old : List ℕ)
        → find config net port ≡ some old
        → get (set config net port net) net port none ≡ old)
    × ((k : List ℕ) → k ≢ port → get (set config net port net) net k none ≡ get config net k none)
    × ((s k : List ℕ) → net ≢ s → get (set config net port net) s k none ≡ get config s k none)
get-set_example = get-set config net port net none

abbrev saved_section : Section
saved_section = (port, twelve) ∷ []

-- The file `net` with the line `p = 12`.
load-save_example : load 1 [] (save ((net, saved_section) ∷ [])) ≡ refused []
load-save_example =
    load-save 0 [] [] b'n' [] saved_section refl (λ e. omega arith) (λ e. omega arith, tt)
      (λ e. omega arith, tt) (λ e. omega arith, tt) (omega arith)
