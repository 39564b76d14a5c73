-- ===== src/Meta/Timeline/Purge.antt =====
-- What is left of a timeline after a purge.
use dbstream.Common.{ℕ, ◌≤◌, ◌≡◌, refl, ◌⊎◌, inl, inr, arith}
use dbstream.Meta.Timeline.{
  Chain, null, dangling, ◌▹◌, Timeline, fault, get_older, get_from, get, purge_from, purge,
}

get_older-purge :
    (ms : Chain) (p q : ℕ)
    → (get_older (purge_from p ms) q ≡ get_older ms q) ⊎ (get_older (purge_from p ms) q ≡ fault)
unfolding get_older purge_from
get_older-purge null p q = inl refl
get_older-purge dangling p q = inl refl
get_older-purge (m ▹ ms) p q = ground (arith, get_older-purge ms p q)

-- Some version begins at or before the position.
abbrev pub HasBegun : Chain → ℕ → Type 0
HasBegun null p = ⊥
HasBegun dangling p = ⊥
HasBegun (m ▹ ms) p = (m.start_pos ≤ p) ⊎ HasBegun ms p

get_older-purged : (ms : Chain) (p : ℕ) → HasBegun ms p → get_older (purge_from p ms) p ≡ fault
unfolding get_older purge_from
get_older-purged null p h = absurd h
get_older-purged dangling p h = absurd h
get_older-purged (m ▹ ms) p (inl h) = ground arith
get_older-purged (m ▹ ms) p (inr h) = ground (arith, get_older-purged ms p h)

get_from-purge :
    (c : Chain) (p q : ℕ)
    → (get_from (purge_from p c) q ≡ get_from c q) ⊎ (get_from (purge_from p c) q ≡ fault)
unfolding get_from purge_from
get_from-purge null p q = inl refl
get_from-purge dangling p q = inl refl
get_from-purge (m ▹ ms) p q = ground (arith, get_older-purge ms p q)

get_from-purged : (c : Chain) (p : ℕ) → HasBegun c p → get_from (purge_from p c) p ≡ fault
unfolding get_from purge_from
get_from-purged null p h = absurd h
get_from-purged dangling p h = absurd h
get_from-purged (m ▹ ms) p (inl h) = ground arith
get_from-purged (m ▹ ms) p (inr h) = ground (arith, get_older-purged ms p h)

-- After a purge to a position `p`, a reader either gets what it got before or uses a deleted info; and
-- it does so at least at `p` itself, if a version is valid there.
pub purge-faults :
    (t : Timeline) (p q : ℕ)
    → HasBegun t.current p
    → ((get (purge p t) q ≡ get t q) ⊎ (get (purge p t) q ≡ fault)) × (get (purge p t) p ≡ fault)
unfolding get purge
purge-faults t p q h = (get_from-purge t.current p q, get_from-purged t.current p h)
