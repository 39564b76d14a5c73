-- ===== src/Util/Json/Keys.antt =====
-- Keys that ascend, and a field that is put behind the others of a map.
use dbstream.Common.{
  ℕ, ◌≡◌, refl, ap, ◌∙◌, ◌≢◌, true, false, List, [], ◌∷◌, ◌++◌, some, arith, length,
}
use dbstream.Util.Json.{Json, Fields, end, field, less, insert_key}
use dbstream.Util.Json.Chars.{done, parse_string}
use dbstream.Util.Json.Parse.{parse_key}
use dbstream.Util.Json.Print.{quoted}
use dbstream.Util.Json.Words.{IsPlain, advance-append, skip_space_none, parse_string-quoted}
use dbstream.Util.Json.Body.{AllAbove}

abbrev pub joined : Fields → Fields → Fields
joined end gs = gs
joined (field k v fs) gs = field k v (joined fs gs)

abbrev pub AllBelow : Fields → List ℕ → Type 0
AllBelow end k = Unit
AllBelow (field j v fs) k = (less j k ≡ true) × AllBelow fs k

abbrev pub Before : Fields → Fields → Type 0
Before m end = Unit
Before m (field k v fs) = AllBelow m k × Before m fs

pub Before-end : (fs : Fields) → Before end fs
Before-end end = tt
Before-end (field k v fs) = (tt, Before-end fs)

less-asym : (j k : List ℕ) → less j k ≡ true → less k j ≡ false
unfolding less
less-asym [] [] h = refl
less-asym [] (y ∷ k) h = refl
less-asym (x ∷ j) [] h = cc
less-asym (x ∷ j) (y ∷ k) h = ground (arith, less-asym j k)

pub insert_key-AllBelow :
    (k : List ℕ) (v : Json) (m : Fields)
    → AllBelow m k
    → insert_key k v m ≡ some (joined m (field k v end))
unfolding insert_key
insert_key-AllBelow k v end h = refl
insert_key-AllBelow k v (field j w m) h =
    let n = less-asym j k h.0 in rw (n, h.0, insert_key-AllBelow k v m h.1) refl

AllBelow-joined :
    (m : Fields) (k j : List ℕ) (v : Json)
    → AllBelow m j
    → less k j ≡ true
    → AllBelow (joined m (field k v end)) j
AllBelow-joined end k j v h e = (e, tt)
AllBelow-joined (field i w m) k j v h e = (h.0, AllBelow-joined m k j v h.1 e)

pub Before-joined :
    (m : Fields) (k : List ℕ) (v : Json) (fs : Fields)
    → Before m fs
    → AllAbove k fs
    → Before (joined m (field k v end)) fs
Before-joined m k v end h a = tt
Before-joined m k v (field j w fs) h a =
    (AllBelow-joined m k j v h.0 a.0, Before-joined m k v fs h.1 a.1)

pub joined-end : (m : Fields) → joined m end ≡ m
joined-end end = refl
joined-end (field j w m) = ap (field j w) (joined-end m)

pub joined_assoc :
    (m : Fields) (k : List ℕ) (v : Json) (fs : Fields)
    → joined (joined m (field k v end)) fs ≡ joined m (field k v fs)
joined_assoc end k v fs = refl
joined_assoc (field j w m) k v fs = ap (field j w) (joined_assoc m k v fs)

pub parse_key-quoted :
    (k p : List ℕ) → k ≢ [] → IsPlain k → parse_key (quoted k ++ (b':' ∷ p)) ≡ done (k, b':' ∷ p)
unfolding parse_key
parse_key-quoted [] p n h = absurd (n refl)
parse_key-quoted (c ∷ k) p n h =
    let e : parse_string (quoted (c ∷ k) ++ (b':' ∷ p)) ≡ done (c ∷ k, length (quoted (c ∷ k))) =
      parse_string-quoted [] (c ∷ k) (b':' ∷ p) tt h ∙ ap (λ m. done (c ∷ k, m)) (omega arith) in
    rw (e, advance-append (quoted (c ∷ k)) (b':' ∷ p), skip_space_none (b':' ∷ p) refl) refl
