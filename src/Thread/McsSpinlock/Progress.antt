-- ===== src/Thread/McsSpinlock/Progress.antt =====
-- As long as the lock is wanted, some thread goes on.
use dbstream.Common.{
  ℕ, suc, ◌-◌, ◌<◌, ◌≡◌, refl, sym, ap, subst, ◌∙◌, ◌≢◌, ◌⊎◌, inl, inr, true, false, Option, none,
  some, arith, ◌==◌, Bool-cases,
}
use dbstream.Thread.McsSpinlock.{
  Lock, update, Pc, idle, cleared, linking, armed, spinning, inside, leaving, stuck, handing, Move,
  clear, exchange_free, exchange_behind, arm, link, spin, enter, try_win, try_lose, see_none,
  see_next, cas_win, cas_lose, await, see_late, hand, System, step, Reach, start, later,
}
use dbstream.Thread.McsSpinlock.Queue.{away, FrontAt, BehindAt}
use dbstream.Thread.McsSpinlock.Frame.{ne_of_test, update_ne}
use dbstream.Thread.McsSpinlock.Invariant.{Reach-Queued}

-- What a thread knows in `unlock`.
abbrev KnowsAt : Lock → ℕ → Pc → Type 0
KnowsAt m i idle = Unit
KnowsAt m i cleared = Unit
KnowsAt m i (linking p) = Unit
KnowsAt m i (armed p) = Unit
KnowsAt m i spinning = Unit
KnowsAt m i inside = Unit
KnowsAt m i leaving = Unit
KnowsAt m i stuck = m.tail ≢ some i
KnowsAt m i handing = (k : ℕ) × (m.next i ≡ some k)

KnowsAt-frame :
    (m m' : Lock) (i : ℕ) (p : Pc)
    → (m.tail ≢ some i → m'.tail ≢ some i)
    → ((k : ℕ) → m.next i ≡ some k → (l : ℕ) × (m'.next i ≡ some l))
    → KnowsAt m i p
    → KnowsAt m' i p
KnowsAt-frame m m' i stuck t n f = t f
KnowsAt-frame m m' i handing t n (k, e) = n k e
KnowsAt-frame m m' i idle t n f = tt
KnowsAt-frame m m' i cleared t n f = tt
KnowsAt-frame m m' i (linking p) t n f = tt
KnowsAt-frame m m' i (armed p) t n f = tt
KnowsAt-frame m m' i spinning t n f = tt
KnowsAt-frame m m' i inside t n f = tt
KnowsAt-frame m m' i leaving t n f = tt

module _ (m m' : Lock) (pc : ℕ → Pc) (i : ℕ) (p' : Pc) where
  knows_moved :
      ((j : ℕ) → KnowsAt m j (pc j))
      → ((j : ℕ) → i ≢ j → m.tail ≢ some j → m'.tail ≢ some j)
      → ((j : ℕ) → i ≢ j → (k : ℕ) → m.next j ≡ some k → (l : ℕ) × (m'.next j ≡ some l))
      → KnowsAt m' i p'
      → (j : ℕ) → KnowsAt m' j (update pc i p' j)
  knows_moved all t n own j = elim (Bool-cases (i == j)) [
    | inl e ↦ (let s : i ≡ j = ground arith in rw e (subst (λ x. KnowsAt m' x p') s own))
    | inr e ↦ let d = ne_of_test i j e in rw e (KnowsAt-frame m m' j (pc j) (t j d) (n j d) (all j))
  ]

Move-KnowsAt :
    (i : ℕ) {m : Lock} (pc : ℕ → Pc) {p : Pc} {m' : Lock} {p' : Pc}
    → pc i ≡ p
    → ((j : ℕ) → KnowsAt m j (pc j))
    → Move i m p m' p'
    → (j : ℕ) → KnowsAt m' j (update pc i p' j)
Move-KnowsAt i {m} pc at all clear =
    knows_moved m (record m { next = update m.next i none }) pc i cleared all (λ j d t. t)
      (λ j d k e. (k, update_ne m.next i none j d ∙ e)) tt
Move-KnowsAt i {m} pc at all (exchange_free e) =
    knows_moved m (record m { tail = some i }) pc i inside all (λ j d t s. d (cc s))
      (λ j d k h. (k, h)) tt
Move-KnowsAt i {m} pc at all (exchange_behind p e) =
    knows_moved m (record m { tail = some i }) pc i (linking p) all (λ j d t s. d (cc s))
      (λ j d k h. (k, h)) tt
Move-KnowsAt i {m} pc at all (arm {p}) =
    knows_moved m (record m { wait = update m.wait i true }) pc i (armed p) all (λ j d t. t)
      (λ j d k h. (k, h)) tt
Move-KnowsAt i {m} pc at all (link {p}) =
    knows_moved m (record m { next = update m.next p (some i) }) pc i spinning all (λ j d t. t)
      (λ j d k h. elim (Bool-cases (p == j)) [ inl e ↦ (i, rw e refl) | inr e ↦ (k, rw e h) ]) tt
Move-KnowsAt i {m} pc at all (spin e) =
    knows_moved m m pc i spinning all (λ j d t. t) (λ j d k h. (k, h)) tt
Move-KnowsAt i {m} pc at all (enter e) =
    knows_moved m m pc i inside all (λ j d t. t) (λ j d k h. (k, h)) tt
Move-KnowsAt i {m} pc at all (try_win e) =
    knows_moved m (record m { tail = some i }) pc i inside all (λ j d t s. d (cc s))
      (λ j d k h. (k, h)) tt
Move-KnowsAt i {m} pc at all (try_lose p e) =
    knows_moved m m pc i idle all (λ j d t. t) (λ j d k h. (k, h)) tt
Move-KnowsAt i {m} pc at all (see_none e) =
    knows_moved m m pc i leaving all (λ j d t. t) (λ j d k h. (k, h)) tt
Move-KnowsAt i {m} pc at all (see_next l e) =
    knows_moved m m pc i handing all (λ j d t. t) (λ j d k h. (k, h)) (l, e)
Move-KnowsAt i {m} pc at all (cas_win e) =
    knows_moved m (record m { tail = none }) pc i idle all (λ j d t s. cc s) (λ j d k h. (k, h)) tt
Move-KnowsAt i {m} pc at all (cas_lose e) =
    knows_moved m m pc i stuck all (λ j d t. t) (λ j d k h. (k, h)) e
Move-KnowsAt i {m} pc at all (await e) =
    knows_moved m m pc i stuck all (λ j d t. t) (λ j d k h. (k, h)) (subst (KnowsAt m i) at (all i))
Move-KnowsAt i {m} pc at all (see_late l e) =
    knows_moved m m pc i handing all (λ j d t. t) (λ j d k h. (k, h)) (l, e)
Move-KnowsAt i {m} pc at all (hand l e) =
    knows_moved m (record m { wait = update m.wait l false }) pc i idle all (λ j d t. t)
      (λ j d k h. (k, h)) tt

Reach-KnowsAt : {s : System} → Reach s → (i : ℕ) → KnowsAt s.lock i (s.pc i)
Reach-KnowsAt (start next wait) = λ i. tt
Reach-KnowsAt (later {s} r (step i mv)) = Move-KnowsAt i s.pc refl (Reach-KnowsAt r) mv

-- A step that changes where its thread, one of the queue, stands.
pub data GoesOn (s : System) : Type 0 where
  goes_on :
      (i : ℕ) {m : Lock} {p : Pc}
      → away (s.pc i) ≡ false
      → Move i s.lock (s.pc i) m p
      → p ≢ s.pc i
      → GoesOn s

Option-cases : (o : Option ℕ) → (o ≡ none) ⊎ ((k : ℕ) × (o ≡ some k))
Option-cases none = inl refl
Option-cases (some k) = inr (k, refl)

module _ {s : System} (i : ℕ) where
  goes :
      {p p' : Pc} {m : Lock}
      → s.pc i ≡ p
      → away p ≡ false
      → p' ≢ p
      → Move i s.lock p m p'
      → GoesOn s
  goes {p'} {m} at a n mv =
      goes_on i (ap away at ∙ a) (subst (λ x. Move i s.lock x m p') (sym at) mv) (λ e. n (e ∙ at))

  -- The thread behind one that is stuck.
  behind_goes :
      (a : ℕ) (p : Pc) → s.pc i ≡ p → s.lock.next a ≡ none → BehindAt s.lock a i p → GoesOn s
  behind_goes a (linking q) at e b = goes at refl (λ c. cc) arm
  behind_goes a (armed q) at e b = goes at refl (λ c. cc) link
  behind_goes a spinning at e b = cc (e, b.1)
  behind_goes a idle at e b = absurd b
  behind_goes a cleared at e b = absurd b
  behind_goes a inside at e b = absurd b
  behind_goes a leaving at e b = absurd b
  behind_goes a stuck at e b = absurd b
  behind_goes a handing at e b = absurd b

  -- The first thread, if it is not stuck.
  first_goes :
      (p : Pc)
      → s.pc i ≡ p
      → FrontAt s.lock i p
      → KnowsAt s.lock i p
      → GoesOn s ⊎ ((p ≡ stuck) × (s.lock.next i ≡ none) × (s.lock.tail ≢ some i))
  first_goes spinning at f k = inl (goes at refl (λ c. cc) (enter f))
  first_goes inside at f k = elim (Option-cases (s.lock.next i)) [
    | inl e ↦ inl (goes at refl (λ c. cc) (see_none e))
    | inr (l, e) ↦ inl (goes at refl (λ c. cc) (see_next l e))
  ]
  first_goes leaving at f k = elim (Option-cases s.lock.tail) [
    | inl e ↦ inl (goes at refl (λ c. cc) (cas_lose (λ t. cc (e, t))))
    | inr (l, e) ↦ elim (Bool-cases (l == i)) [
      | inl t ↦
          (let u : l ≡ i = ground arith in inl (goes at refl (λ c. cc) (cas_win (e ∙ ap some u))))
      | inr t ↦
          let u = ne_of_test l i t in inl (goes at refl (λ c. cc) (cas_lose (λ w. u (cc (e, w)))))
    ]
  ]
  first_goes stuck at f k = elim (Option-cases (s.lock.next i)) [
    | inl e ↦ inr (refl, e, k)
    | inr (l, e) ↦ inl (goes at refl (λ c. cc) (see_late l e))
  ]
  first_goes handing at f (l, e) = inl (goes at refl (λ c. cc) (hand l e))
  first_goes idle at f k = absurd f
  first_goes cleared at f k = absurd f
  first_goes (linking q) at f k = absurd f
  first_goes (armed q) at f k = absurd f

-- No deadlock, in every state that is reached: as long as some thread is in the queue, so that it has
-- the lock or waits for it, a thread that is in the queue, too, can take a step that is not just
-- another round of a loop that waits.
pub Reach-GoesOn : {s : System} (i : ℕ) → Reach s → away (s.pc i) ≡ false → GoesOn s
Reach-GoesOn {s} i r a =
    let (q, inv) = Reach-Queued r in
    let (t, h, e) = inv.covered i a in
    let l : q.lo < q.hi = omega arith in
    let f = q.holder q.lo in
    elim (first_goes f (s.pc f) refl (inv.front l) (Reach-KnowsAt r f)) [
      | inl g ↦ g
      | inr (p, n, tl) ↦ elim (Bool-cases (suc q.lo == q.hi)) [
        | inl one ↦
            let d : q.hi - 1 ≡ q.lo = ground arith in
            let ne : (q.lo == q.hi) ≡ false = ground arith in
            absurd (tl (inv.last ∙ rw ne (ap (λ x. some (q.holder x)) d)))
        | inr more ↦
            let k : suc q.lo < q.hi = ground (arith, ne_of_test (suc q.lo) q.hi more) in
            behind_goes (q.holder (suc q.lo)) f (s.pc (q.holder (suc q.lo))) refl n
              (inv.behind q.lo (omega arith) k)
      ]
    ]
