-- ===== src/Thread/McsSpinlock/Stay.antt =====
-- Steps that neither join the queue nor leave it.
use dbstream.Common.{ℕ, suc, ◌≤◌, ◌<◌, ◌≡◌, refl, sym, ap, subst, ◌∙◌, ◌≢◌, true, none, some, arith}
use dbstream.Thread.McsSpinlock.{Lock, update, Pc, idle, cleared, linking, armed, spinning}
use dbstream.Thread.McsSpinlock.Queue.{away, FrontAt, BehindAt, Queue, In, Queued}
use dbstream.Thread.McsSpinlock.Frame.{
  moved_front, moved_behind, moved_away, moved_clean, update_self, update_ne, not_queued,
  waiter_behind,
}

module _ {m : Lock} {pc : ℕ → Pc} {q : Queue} (inv : Queued m pc q) (i : ℕ) (p p' : Pc)
    (at : pc i ≡ p) where
  -- The queue after a step of `i` to `p'`, with the memory `m'`.
  stay :
      (m' : Lock)
      → away p' ≡ away p
      → m'.tail ≡ m.tail
      → ((j : ℕ) → i ≢ j → m'.wait j ≡ m.wait j)
      → ((t : ℕ)
          → q.lo ≤ t
          → suc t < q.hi
          → i ≢ q.holder (suc t)
          → m'.next (q.holder t) ≡ m.next (q.holder t))
      → ((t : ℕ) → q.lo ≤ t → suc t ≡ q.hi → m'.next (q.holder t) ≡ none)
      → (p' ≡ cleared → m'.next i ≡ none)
      → ((j : ℕ) → i ≢ j → pc j ≡ cleared → m'.next j ≡ none)
      → (FrontAt m i p → FrontAt m' i p')
      → ((t : ℕ)
          → q.lo ≤ t
          → suc t < q.hi
          → q.holder (suc t) ≡ i
          → BehindAt m (q.holder t) i p
          → BehindAt m' (q.holder t) i p')
      → Queued m' (update pc i p') q
  stay m' aw tl wt nx en cl oc fr bh =
      let same = moved_away m m' pc i p p' at aw in
      record {
        ordered = inv.ordered;
        last = tl ∙ inv.last;
        unique = inv.unique;
        present = λ t h. same (q.holder t) ∙ inv.present t h;
        covered = λ j a. inv.covered j (sym (same j) ∙ a);
        clean = moved_clean m m' pc i p p' at cl oc;
        front = λ h.
            moved_front m m' pc i p p' at (q.holder q.lo) fr (wt (q.holder q.lo)) (inv.front h);
        behind = λ t l h.
            moved_behind m m' pc i p p' at (q.holder t) (q.holder (suc t)) (λ s. bh t l h (sym s))
              (λ n. (nx t l h n, wt (q.holder (suc t)) n)) (inv.behind t l h);
        end = en;
      }

  -- A step that leaves the memory as it is.
  pub stay_same :
      away p' ≡ away p
      → p' ≢ cleared
      → (FrontAt m i p → FrontAt m i p')
      → ((a : ℕ) → BehindAt m a i p → BehindAt m a i p')
      → Queued m (update pc i p') q
  stay_same aw nc fr bh =
      stay m aw refl (λ j n. refl) (λ t l h n. refl) inv.end (λ c. absurd (nc c))
        (λ j n c. inv.clean j c) fr (λ t l h s. bh (q.holder t))

module _ {m : Lock} {pc : ℕ → Pc} {q : Queue} (inv : Queued m pc q) (i : ℕ) where
  pub clear-Queued :
      pc i ≡ idle → Queued (record m { next = update m.next i none }) (update pc i cleared) q
  clear-Queued at =
      let away_i : away (pc i) ≡ true = ap away at in
      let kept : (t : ℕ) → In q t → update m.next i none (q.holder t) ≡ m.next (q.holder t) =
        λ t h. update_ne m.next i none (q.holder t) (λ e. not_queued inv i t away_i h (sym e)) in
      stay inv i idle cleared at (record m { next = update m.next i none }) refl refl (λ j n. refl)
        (λ t l h n. kept t (l, omega arith)) (λ t l h. kept t (l, omega arith) ∙ inv.end t l h)
        (λ c. update_self m.next i none) (λ j n c. update_ne m.next i none j n ∙ inv.clean j c)
        (λ f. absurd f) (λ t l h s b. absurd b)

  pub arm-Queued :
      (p : ℕ)
      → pc i ≡ linking p
      → Queued (record m { wait = update m.wait i true }) (update pc i (armed p)) q
  arm-Queued p at =
      stay inv i (linking p) (armed p) at (record m { wait = update m.wait i true }) refl refl
        (λ j n. update_ne m.wait i true j n) (λ t l h n. refl) inv.end (λ c. cc)
        (λ j n c. inv.clean j c) (λ f. absurd f)
        (λ t l h s b. (b.0, update_self m.wait i true, b.1))

  pub link-Queued :
      (p : ℕ)
      → pc i ≡ armed p
      → Queued (record m { next = update m.next p (some i) }) (update pc i spinning) q
  link-Queued p at =
      let (u, l, h, e) = waiter_behind inv i (ap away at) (λ f. subst (FrontAt m i) at f) in
      let b : BehindAt m (q.holder u) i (armed p) =
        subst (BehindAt m (q.holder u) i) at
          (subst (λ x. BehindAt m (q.holder u) x (pc x)) e (inv.behind u l h)) in
      let only : (t : ℕ) → In q t → p ≡ q.holder t → t ≡ u =
        λ t r s. inv.unique t u r (l, omega arith) (sym s ∙ b.0) in
      stay inv i (armed p) spinning at (record m { next = update m.next p (some i) }) refl refl
        (λ j n. refl)
        (λ t lt ht n.
          update_ne m.next p (some i) (q.holder t)
            (λ s. n (sym e ∙ ap (λ x. q.holder (suc x)) (sym (only t (lt, omega arith) s)))))
        (λ t lt ht.
          update_ne m.next p (some i) (q.holder t)
            (λ s. let k = only t (lt, omega arith) s in absurd (omega arith))
          ∙ inv.end t lt ht)
        (λ c. cc)
        (λ j n c.
          update_ne m.next p (some i) j
            (λ s. not_queued inv j u (ap away c) (l, omega arith) (sym b.0 ∙ s))
          ∙ inv.clean j c)
        (λ f. absurd f)
        (λ t lt ht s c.
          (c.1, ap (update m.next p (some i)) (sym c.0) ∙ update_self m.next p (some i)))
