-- ===== src/Thread/McsSpinlock/Queue.antt =====
-- The queue of the threads that hold the lock or wait for it, by tickets: the thread at the ticket `lo`
-- has the lock or is about to get it, and the last one has the ticket before `hi`.
use dbstream.Common.{
  ℕ, suc, ◌-◌, ◌≤◌, ◌<◌, ◌≡◌, Bool, true, false, Option, none, some, ◌==◌, if◌then◌else◌,
}
use dbstream.Thread.McsSpinlock.{
  Lock, Pc, idle, cleared, linking, armed, spinning, inside, leaving, stuck, handing,
}

abbrev pub away : Pc → Bool
away idle = true
away cleared = true
away (linking p) = false
away (armed p) = false
away spinning = false
away inside = false
away leaving = false
away stuck = false
away handing = false

-- The first thread is never blocked.
abbrev pub FrontAt : Lock → ℕ → Pc → Type 0
FrontAt m h idle = ⊥
FrontAt m h cleared = ⊥
FrontAt m h (linking p) = ⊥
FrontAt m h (armed p) = ⊥
FrontAt m h spinning = m.wait h ≡ false
FrontAt m h inside = Unit
FrontAt m h leaving = Unit
FrontAt m h stuck = Unit
FrontAt m h handing = Unit

-- The thread `b` stands behind `a`.
abbrev pub BehindAt : Lock → ℕ → ℕ → Pc → Type 0
BehindAt m a b (linking p) = (p ≡ a) × (m.next a ≡ none)
BehindAt m a b (armed p) = (p ≡ a) × (m.wait b ≡ true) × (m.next a ≡ none)
BehindAt m a b spinning = (m.wait b ≡ true) × (m.next a ≡ some b)
BehindAt m a b idle = ⊥
BehindAt m a b cleared = ⊥
BehindAt m a b inside = ⊥
BehindAt m a b leaving = ⊥
BehindAt m a b stuck = ⊥
BehindAt m a b handing = ⊥

-- Which thread has a ticket, the first ticket and the next one.
pub record Queue : Type 0 where
  pub holder : ℕ → ℕ
  pub lo : ℕ
  pub hi : ℕ

abbrev pub In : Queue → ℕ → Type 0
In q t = (q.lo ≤ t) × (t < q.hi)

abbrev pub tail_of : Queue → Option ℕ
tail_of q = if q.lo == q.hi then none else some (q.holder (q.hi - 1))

pub record Queued (m : Lock) (pc : ℕ → Pc) (q : Queue) : Type 0 where
  pub ordered : q.lo ≤ q.hi
  pub last : m.tail ≡ tail_of q
  pub unique : (t u : ℕ) → In q t → In q u → q.holder t ≡ q.holder u → t ≡ u
  pub present : (t : ℕ) → In q t → away (pc (q.holder t)) ≡ false
  pub covered : (i : ℕ) → away (pc i) ≡ false → (t : ℕ) × In q t × (q.holder t ≡ i)
  pub clean : (i : ℕ) → pc i ≡ cleared → m.next i ≡ none
  pub front : q.lo < q.hi → FrontAt m (q.holder q.lo) (pc (q.holder q.lo))
  pub behind :
      (t : ℕ)
      → q.lo ≤ t
      → suc t < q.hi
      → BehindAt m (q.holder t) (q.holder (suc t)) (pc (q.holder (suc t)))
  pub end : (t : ℕ) → q.lo ≤ t → suc t ≡ q.hi → m.next (q.holder t) ≡ none
