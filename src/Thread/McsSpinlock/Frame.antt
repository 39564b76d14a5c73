-- ===== src/Thread/McsSpinlock/Frame.antt =====
-- What one thread's step leaves as it was.
use dbstream.Common.{
  ℕ, suc, ◌-◌, ◌≤◌, ◌<◌, ◌≡◌, refl, sym, ap, subst, ◌∙◌, ◌≢◌, inl, inr, true, false, none, arith,
  ◌==◌, Bool-cases,
}
use dbstream.Thread.McsSpinlock.{
  Lock, update, Pc, idle, cleared, linking, armed, spinning, inside, leaving, stuck, handing, owns,
}
use dbstream.Thread.McsSpinlock.Queue.{away, FrontAt, BehindAt, Queue, In, Queued}

pub ne_of_test : (i j : ℕ) → (i == j) ≡ false → i ≢ j
ne_of_test i j e h = ground arith

pub update_self {ℓ} : {A : Type ℓ} (f : ℕ → A) (i : ℕ) (v : A) → update f i v i ≡ v
update_self f i v = let e : (i == i) ≡ true = ground arith in rw e refl

pub update_ne {ℓ} : {A : Type ℓ} (f : ℕ → A) (i : ℕ) (v : A) (j : ℕ) → i ≢ j → update f i v j ≡ f j
update_ne f i v j n = let e : (i == j) ≡ false = ground arith in rw e refl

pub FrontAt-frame :
    (m m' : Lock) (h : ℕ) (p : Pc) → m'.wait h ≡ m.wait h → FrontAt m h p → FrontAt m' h p
FrontAt-frame m m' h spinning e f = e ∙ f
FrontAt-frame m m' h idle e f = f
FrontAt-frame m m' h cleared e f = f
FrontAt-frame m m' h (linking p) e f = f
FrontAt-frame m m' h (armed p) e f = f
FrontAt-frame m m' h inside e f = f
FrontAt-frame m m' h leaving e f = f
FrontAt-frame m m' h stuck e f = f
FrontAt-frame m m' h handing e f = f

pub BehindAt-frame :
    (m m' : Lock) (a b : ℕ) (p : Pc)
    → m'.next a ≡ m.next a
    → m'.wait b ≡ m.wait b
    → BehindAt m a b p
    → BehindAt m' a b p
BehindAt-frame m m' a b (linking p) n w f = (f.0, n ∙ f.1)
BehindAt-frame m m' a b (armed p) n w f = (f.0, w ∙ f.1, n ∙ f.2)
BehindAt-frame m m' a b spinning n w f = (w ∙ f.0, n ∙ f.1)
BehindAt-frame m m' a b idle n w f = f
BehindAt-frame m m' a b cleared n w f = f
BehindAt-frame m m' a b inside n w f = f
BehindAt-frame m m' a b leaving n w f = f
BehindAt-frame m m' a b stuck n w f = f
BehindAt-frame m m' a b handing n w f = f

-- The thread `i` goes from `p` to `p'`.
module _ (m m' : Lock) (pc : ℕ → Pc) (i : ℕ) (p p' : Pc) (at : pc i ≡ p) where
  pub moved_front :
      (h : ℕ)
      → (FrontAt m i p → FrontAt m' i p')
      → (i ≢ h → m'.wait h ≡ m.wait h)
      → FrontAt m h (pc h)
      → FrontAt m' h (update pc i p' h)
  moved_front h own frame f = elim (Bool-cases (i == h)) [
    | inl e ↦
        let s : i ≡ h = ground arith in
        rw e (
          subst (λ x. FrontAt m' x p') s
            (own (subst (λ x. FrontAt m x p) (sym s) (subst (FrontAt m h) (ap pc (sym s) ∙ at) f))))
    | inr e ↦ rw e (FrontAt-frame m m' h (pc h) (frame (ne_of_test i h e)) f)
  ]

  pub moved_behind :
      (a b : ℕ)
      → (i ≡ b → BehindAt m a i p → BehindAt m' a i p')
      → (i ≢ b → (m'.next a ≡ m.next a) × (m'.wait b ≡ m.wait b))
      → BehindAt m a b (pc b)
      → BehindAt m' a b (update pc i p' b)
  moved_behind a b own frame f = elim (Bool-cases (i == b)) [
    | inl e ↦
        let s : i ≡ b = ground arith in
        rw e (
          subst (λ x. BehindAt m' a x p') s
            (own s (
              subst (λ x. BehindAt m a x p) (sym s)
                (subst (BehindAt m a b) (ap pc (sym s) ∙ at) f))))
    | inr e ↦ let g = frame (ne_of_test i b e) in rw e (BehindAt-frame m m' a b (pc b) g.0 g.1 f)
  ]

  pub moved_away : away p' ≡ away p → (j : ℕ) → away (update pc i p' j) ≡ away (pc j)
  moved_away e j = elim (Bool-cases (i == j)) [
    | inl s ↦ (let t : i ≡ j = ground arith in rw s (e ∙ ap away (sym at ∙ ap pc t)))
    | inr s ↦ rw s refl
  ]

  pub moved_clean :
      (p' ≡ cleared → m'.next i ≡ none)
      → ((j : ℕ) → i ≢ j → pc j ≡ cleared → m'.next j ≡ none)
      → (j : ℕ) → update pc i p' j ≡ cleared
      → m'.next j ≡ none
  moved_clean own other j e = elim (Bool-cases (i == j)) [
    | inl s ↦ (let t : i ≡ j = ground arith in subst (λ x. m'.next x ≡ none) t (own (rw s at e)))
    | inr s ↦ other j (ne_of_test i j s) (rw s at e)
  ]

owns-away : (p : Pc) → owns p ≡ true → away p ≡ false
owns-away idle o = cc
owns-away cleared o = cc
owns-away (linking p) o = cc
owns-away (armed p) o = cc
owns-away spinning o = cc
owns-away inside o = refl
owns-away leaving o = refl
owns-away stuck o = refl
owns-away handing o = refl

BehindAt-owns : (m : Lock) (a b : ℕ) (p : Pc) → BehindAt m a b p → owns p ≡ false
BehindAt-owns m a b (linking p) f = refl
BehindAt-owns m a b (armed p) f = refl
BehindAt-owns m a b spinning f = refl
BehindAt-owns m a b idle f = refl
BehindAt-owns m a b cleared f = refl
BehindAt-owns m a b inside f = absurd f
BehindAt-owns m a b leaving f = absurd f
BehindAt-owns m a b stuck f = absurd f
BehindAt-owns m a b handing f = absurd f

module _ {m : Lock} {pc : ℕ → Pc} {q : Queue} (inv : Queued m pc q) where
  -- A thread that the queue does not know.
  pub not_queued : (i t : ℕ) → away (pc i) ≡ true → In q t → q.holder t ≢ i
  not_queued i t e h s = cc (inv.present t h, ap (λ x. away (pc x)) s)

  -- Only the first thread has the lock.
  pub owner_first : (i : ℕ) → owns (pc i) ≡ true → (q.lo < q.hi) × (q.holder q.lo ≡ i)
  owner_first i o =
      let (t, h, e) = inv.covered i (owns-away (pc i) o) in
      elim (Bool-cases (t == q.lo)) [
        | inl s ↦ (let l : t ≡ q.lo = ground arith in (omega arith, ap q.holder (sym l) ∙ e))
        | inr s ↦
            let l : suc (t - 1) ≡ t = ground (arith, ne_of_test t q.lo s) in
            let b = inv.behind (t - 1) (ground (arith, ne_of_test t q.lo s)) (omega arith) in
            let none_owns : owns (pc (q.holder t)) ≡ false = BehindAt-owns m _ _ _ (rw l at b) in
            cc (o, none_owns, ap (λ x. owns (pc x)) e)
      ]

  -- A thread that waits stands behind another.
  pub waiter_behind :
      (i : ℕ)
      → away (pc i) ≡ false
      → ¬ FrontAt m i (pc i)
      → (t : ℕ) × (q.lo ≤ t) × (suc t < q.hi) × (q.holder (suc t) ≡ i)
  waiter_behind i a n =
      let (t, h, e) = inv.covered i a in
      elim (Bool-cases (t == q.lo)) [
        | inl s ↦
            let l : q.holder q.lo ≡ i =
              (let k : t ≡ q.lo = ground arith in ap q.holder (sym k) ∙ e) in
            absurd (n (subst (λ x. FrontAt m x (pc x)) l (inv.front (omega arith))))
        | inr s ↦
            let l : suc (t - 1) ≡ t = ground (arith, ne_of_test t q.lo s) in
            (t - 1, ground (arith, ne_of_test t q.lo s), omega arith, ap q.holder l ∙ e)
      ]
