-- ===== src/Util/Config/Assign.antt =====
-- `get` after `set`.
use dbstream.Common.{
  ℕ, ◌≡◌, refl, sym, ap, ◌∙◌, ◌≢◌, inl, inr, Option, none, some, List, [], Option-cases,
}
use dbstream.Util.Config.{lookup, insert_new, store, Section, Sections, or_default, get, set}
use dbstream.Util.Config.Table.{
  lookup-insert_new, insert_new_present, lookup-insert_new_other, lookup-store, lookup-store_other,
}

-- What is found at a section and a key.
abbrev pub find : Sections → List ℕ → List ℕ → Option (List ℕ)
find m section key = elim (lookup m section) [ none ↦ none | some sec ↦ lookup sec key ]

get-find :
    (m : Sections) (section key : List ℕ) (default : Option (List ℕ))
    → get m section key default ≡ or_default (find m section key) default
unfolding get
get-find m section key default = elim (Option-cases (lookup m section)) [
  | inl e ↦ rw (get, find, e) refl
  | inr (sec, e) ↦ rw (get, find, e) refl
]

find_at :
    (m : Sections) (section key : List ℕ) (sec : Section)
    → lookup m section ≡ some sec
    → find m section key ≡ lookup sec key
find_at m section key sec e = rw (find, e) refl

find-none :
    (m : Sections) (section key : List ℕ) → lookup m section ≡ none → find m section key ≡ none
find-none m section key e = rw (find, e) refl

set_new :
    (m : Sections) (section key value : List ℕ)
    → lookup m section ≡ none
    → set m section key value ≡ store (insert_new m section []) section (insert_new [] key value)
unfolding set
set_new m section key value e = rw (set, e) refl

set_old :
    (m : Sections) (section key value : List ℕ) (sec : Section)
    → lookup m section ≡ some sec
    → set m section key value ≡ store m section (insert_new sec key value)
unfolding set
set_old m section key value sec e = rw (set, e) refl

-- The section that `set` writes to finds the same as before, and the key.
record Written (sec sec' : Section) (key value : List ℕ) : Type 0 where
  fresh : lookup sec key ≡ none → lookup sec' key ≡ some value
  kept : (old : List ℕ) → lookup sec key ≡ some old → lookup sec' key ≡ some old
  others : (k : List ℕ) → k ≢ key → lookup sec' k ≡ lookup sec k

insert_new-Written :
    (sec : Section) (key value : List ℕ) → Written sec (insert_new sec key value) key value
insert_new-Written sec key value = record {
  fresh = lookup-insert_new sec key value;
  kept = λ old e. ap (λ s. lookup s key) (insert_new_present sec key value old e) ∙ e;
  others = λ k n. lookup-insert_new_other sec key k value (λ e. n (sym e));
}

-- What `find` gives after `set`, for the written section and for another one.
find-set :
    (m : Sections) (section key value k : List ℕ)
    → (sec : Section) × ((j : List ℕ) → find m section j ≡ lookup sec j)
      × (find (set m section key value) section k ≡ lookup (insert_new sec key value) k)
unfolding lookup
find-set m section key value k = elim (Option-cases (lookup m section)) [
  | inl e ↦ (
    [],
    λ j. find-none m section j e,
    find_at (set m section key value) section k (insert_new [] key value) (
        ap (λ x. lookup x section) (set_new m section key value e)
        ∙ lookup-store (insert_new m section []) section (insert_new [] key value) []
            (lookup-insert_new m section [] e)),
  )
  | inr (sec, e) ↦ (
    sec,
    λ j. find_at m section j sec e,
    find_at (set m section key value) section k (insert_new sec key value) (
        ap (λ x. lookup x section) (set_old m section key value sec e)
        ∙ lookup-store m section (insert_new sec key value) sec e),
  )
]

lookup-set_other :
    (m : Sections) (section key value other : List ℕ)
    → section ≢ other
    → lookup (set m section key value) other ≡ lookup m other
lookup-set_other m section key value other n = elim (Option-cases (lookup m section)) [
  | inl e ↦
      ap (λ x. lookup x other) (set_new m section key value e)
      ∙ lookup-store_other (insert_new m section []) section other (insert_new [] key value) n
      ∙ lookup-insert_new_other m section other [] n
  | inr (sec, e) ↦
      ap (λ x. lookup x other) (set_old m section key value sec e)
      ∙ lookup-store_other m section other (insert_new sec key value) n
]

-- After `set`, `get` finds the new value only if the section had no value at the key; a value that is
-- there stays. Other keys, and other sections, are as before.
pub get-set :
    (m : Sections) (section key value : List ℕ) (default : Option (List ℕ))
    → (find m section key ≡ none → get (set m section key value) section key default ≡ value)
      × ((old : List ℕ)
          → find m section key ≡ some old
          → get (set m section key value) section key default ≡ old)
      × ((k : List ℕ)
          → k ≢ key
          → get (set m section key value) section k default ≡ get m section k default)
      × ((s k : List ℕ)
          → section ≢ s
          → get (set m section key value) s k default ≡ get m s k default)
get-set m section key value default =
    let m' = set m section key value in
    let (sec, was, now) = find-set m section key value key in
    let w = insert_new-Written sec key value in
    (
      λ e.
          get-find m' section key default
          ∙ ap (λ o. or_default o default) (now ∙ w.fresh (sym (was key) ∙ e)),
      λ old e.
          get-find m' section key default
          ∙ ap (λ o. or_default o default) (now ∙ w.kept old (sym (was key) ∙ e)),
      λ k n.
          let (sec', was', now') = find-set m section key value k in
          get-find m' section k default
          ∙ ap (λ o. or_default o default)
              (now' ∙ (insert_new-Written sec' key value).others k n ∙ sym (was' k))
          ∙ sym (get-find m section k default),
      λ s k n.
          get-find m' s k default
          ∙ ap (λ l. or_default (elim l [ none ↦ none | some x ↦ lookup x k ]) default)
              (lookup-set_other m section key value s n)
          ∙ sym (get-find m s k default),
    )
