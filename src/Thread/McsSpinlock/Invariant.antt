-- ===== src/Thread/McsSpinlock/Invariant.antt =====
-- Every step keeps the queue.
use dbstream.Common.{
  ℕ, suc, ◌-◌, ◌≤◌, ◌<◌, ◌≡◌, refl, sym, ap, subst, ◌∙◌, inl, inr, Bool, true, false, Option, none,
  some, arith, ◌==◌, Bool-cases,
}
use dbstream.Thread.McsSpinlock.{
  Lock, update, Pc, idle, cleared, linking, armed, spinning, inside, leaving, stuck, handing, owns,
  Move, clear, exchange_free, exchange_behind, arm, link, spin, enter, try_win, try_lose, see_none,
  see_next, cas_win, cas_lose, await, see_late, hand, System, step, init, Reach, start, later,
}
use dbstream.Thread.McsSpinlock.Queue.{FrontAt, BehindAt, Queue, tail_of, Queued}
use dbstream.Thread.McsSpinlock.Frame.{ne_of_test, update_self, update_ne, owner_first}
use dbstream.Thread.McsSpinlock.Stay.{stay_same, clear-Queued, arm-Queued, link-Queued}
use dbstream.Thread.McsSpinlock.Pass.{longer, shorter, join-Queued, leave-Queued}

-- The end of the queue says whether it is empty.
tail_none : (q : Queue) → q.lo ≤ q.hi → tail_of q ≡ none → q.lo ≡ q.hi
tail_none q o h = ground arith

tail_some :
    (q : Queue) (p : ℕ)
    → q.lo ≤ q.hi
    → tail_of q ≡ some p
    → (q.lo < q.hi) × (q.holder (q.hi - 1) ≡ p)
tail_some q p o h = ground arith

linked_spins :
    (m : Lock) (a b k : ℕ) (p : Pc)
    → BehindAt m a b p
    → m.next a ≡ some k
    → (b ≡ k) × (p ≡ spinning) × (m.wait b ≡ true)
linked_spins m a b k (linking p) f e = cc (f.1, e)
linked_spins m a b k (armed p) f e = cc (f.2, e)
linked_spins m a b k spinning f e = ((cc (f.1, e)), refl, f.0)
linked_spins m a b k idle f e = absurd f
linked_spins m a b k cleared f e = absurd f
linked_spins m a b k inside f e = absurd f
linked_spins m a b k leaving f e = absurd f
linked_spins m a b k stuck f e = absurd f
linked_spins m a b k handing f e = absurd f

module _ {m : Lock} {pc : ℕ → Pc} {q : Queue} (inv : Queued m pc q) (i : ℕ) where
  join_free :
      m.tail ≡ none
      → pc i ≡ cleared
      → Queued (record m { tail = some i }) (update pc i inside) (longer inv i)
  join_free e at =
      let empty = tail_none q inv.ordered (sym inv.last ∙ e) in
      join-Queued inv i inside at refl (λ s. tt) (λ t l h. absurd (omega arith))

  join_behind :
      (p : ℕ)
      → m.tail ≡ some p
      → pc i ≡ cleared
      → Queued (record m { tail = some i }) (update pc i (linking p)) (longer inv i)
  join_behind p e at =
      let (l, last) = tail_some q p inv.ordered (sym inv.last ∙ e) in
      join-Queued inv i (linking p) at refl (λ s. absurd (omega arith))
        (λ t a h. let s : q.hi - 1 ≡ t = omega arith in (sym last ∙ ap q.holder s, inv.end t a h))

  -- The thread behind the first one, once that has seen it.
  pub second :
      (k : ℕ)
      → owns (pc i) ≡ true
      → m.next i ≡ some k
      → (suc q.lo < q.hi) × (q.holder (suc q.lo) ≡ k) × (pc k ≡ spinning) × (m.wait k ≡ true)
  second k o e =
      let (l, first) = owner_first inv i o in
      let e' : m.next (q.holder q.lo) ≡ some k = ap m.next first ∙ e in
      elim (Bool-cases (suc q.lo == q.hi)) [
        | inl s ↦ let n = inv.end q.lo (omega arith) (ground (arith, s)) in cc (n, e')
        | inr s ↦
            let h : suc q.lo < q.hi = ground (arith, ne_of_test (suc q.lo) q.hi s, l) in
            let (b, p, w) = linked_spins m _ _ k _ (inv.behind q.lo (omega arith) h) e' in
            (h, b, ap pc (sym b) ∙ p, ap m.wait (sym b) ∙ w)
      ]

  leave_empty :
      m.tail ≡ some i
      → pc i ≡ leaving
      → Queued (record m { tail = none }) (update pc i idle) (shorter inv i)
  leave_empty e at =
      let (l, first) = owner_first inv i (ap owns at) in
      let (h, last) = tail_some q i inv.ordered (sym inv.last ∙ e) in
      let one : q.lo ≡ q.hi - 1 =
        inv.unique q.lo (q.hi - 1) (omega arith, l) (omega arith, omega arith) (first ∙ sym last) in
      let t : (suc q.lo == q.hi) ≡ true = ground (arith, one, l) in
      leave-Queued inv i (record m { tail = none }) leaving at refl (rw t refl) (λ j. refl)
        (λ t a b. refl) (λ b. absurd (omega arith))

  leave_hand :
      (k : ℕ)
      → m.next i ≡ some k
      → pc i ≡ handing
      → Queued (record m { wait = update m.wait k false }) (update pc i idle) (shorter inv i)
  leave_hand k e at =
      let (h, b, p, w) = second k (ap owns at) e in
      let t : (q.lo == q.hi) ≡ false = ground (arith, h) in
      let u : (suc q.lo == q.hi) ≡ false = ground (arith, h) in
      let m' : Lock = record m { wait = update m.wait k false } in
      leave-Queued inv i m' handing at refl (inv.last ∙ rw (t, u) refl) (λ j. refl)
        (λ t a c. update_ne m.wait k false (q.holder t) (λ s.
          let x = inv.unique (suc q.lo) t (omega arith, h) (omega arith, c) (b ∙ s) in
          absurd (omega arith)))
        (λ c.
          subst (λ x. FrontAt m' x (pc x)) (sym b)
            (subst (FrontAt m' k) (sym p) (update_self m.wait k false)))

-- A step of a thread that stands at `p`.
Move-Queued :
    (i : ℕ) {m : Lock} {pc : ℕ → Pc} {q : Queue} {p : Pc} {m' : Lock} {p' : Pc}
    → Queued m pc q
    → Move i m p m' p'
    → pc i ≡ p
    → (r : Queue) × Queued m' (update pc i p') r
Move-Queued i {q} inv clear at = (q, clear-Queued inv i at)
Move-Queued i {q} inv (exchange_free e) at = (longer inv i, join_free inv i e at)
Move-Queued i {q} inv (exchange_behind p e) at = (longer inv i, join_behind inv i p e at)
Move-Queued i {q} inv (arm {p}) at = (q, arm-Queued inv i p at)
Move-Queued i {q} inv (link {p}) at = (q, link-Queued inv i p at)
Move-Queued i {q} inv (spin e) at =
    (q, stay_same inv i spinning spinning at refl (λ c. cc) (λ f. f) (λ a b. b))
Move-Queued i {q} inv (enter e) at =
    (q, stay_same inv i spinning inside at refl (λ c. cc) (λ f. tt) (λ a b. cc (b.0, e)))
Move-Queued i {q} inv (try_win e) at = (longer inv i, join_free inv i e at)
Move-Queued i {q} inv (try_lose p e) at =
    (q, stay_same inv i cleared idle at refl (λ c. cc) (λ f. f) (λ a b. b))
Move-Queued i {q} inv (see_none e) at =
    (q, stay_same inv i inside leaving at refl (λ c. cc) (λ f. tt) (λ a b. b))
Move-Queued i {q} inv (see_next k e) at =
    (q, stay_same inv i inside handing at refl (λ c. cc) (λ f. tt) (λ a b. b))
Move-Queued i {q} inv (cas_win e) at = (shorter inv i, leave_empty inv i e at)
Move-Queued i {q} inv (cas_lose e) at =
    (q, stay_same inv i leaving stuck at refl (λ c. cc) (λ f. tt) (λ a b. b))
Move-Queued i {q} inv (await e) at =
    (q, stay_same inv i stuck stuck at refl (λ c. cc) (λ f. tt) (λ a b. b))
Move-Queued i {q} inv (see_late k e) at =
    (q, stay_same inv i stuck handing at refl (λ c. cc) (λ f. tt) (λ a b. b))
Move-Queued i {q} inv (hand k e) at = (shorter inv i, leave_hand inv i k e at)

abbrev empty_queue : Queue
empty_queue = record { holder = λ t. t; lo = 0; hi = 0 }

init-Queued :
    (next : ℕ → Option ℕ) (wait : ℕ → Bool)
    → Queued (init next wait).lock (init next wait).pc empty_queue
init-Queued next wait = record {
  ordered = omega arith;
  last = refl;
  unique = λ t u ht hu e. absurd (omega arith);
  present = λ t h. absurd (omega arith);
  covered = λ i a. cc;
  clean = λ i e. cc;
  front = λ h. absurd (omega arith);
  behind = λ t l h. absurd (omega arith);
  end = λ t l h. absurd (omega arith);
}

-- In every state that is reached, the threads stand in a queue.
pub Reach-Queued : {s : System} → Reach s → (q : Queue) × Queued s.lock s.pc q
Reach-Queued (start next wait) = (empty_queue, init-Queued next wait)
Reach-Queued (later r (step i mv)) = let (q, inv) = Reach-Queued r in Move-Queued i inv mv refl
