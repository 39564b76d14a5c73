-- ===== src/Thread/McsSpinlock/Safety.antt =====
-- Who has the lock, and who gets it next.
use dbstream.Common.{ℕ, ◌≡◌, sym, ap, ◌∙◌, ◌≢◌, true, some}
use dbstream.Thread.McsSpinlock.{spinning, handing, owns, System, Reach}
use dbstream.Thread.McsSpinlock.Frame.{owner_first}
use dbstream.Thread.McsSpinlock.Invariant.{second, Reach-Queued}

-- In every state that is reached, at most one thread has the lock.
pub owns_unique :
    {s : System} (i j : ℕ) → Reach s → owns (s.pc i) ≡ true → owns (s.pc j) ≡ true → i ≡ j
owns_unique i j r a b =
    let (q, inv) = Reach-Queued r in sym (owner_first inv i a).1 ∙ (owner_first inv j b).1

-- A thread in `unlock` that hands the lock over lets the thread go on that its `next` names: that one
-- waits in the loop of `lock`, and is another one. No thread that is not waiting gets the lock.
pub hand-second :
    {s : System} (i k : ℕ)
    → Reach s
    → s.pc i ≡ handing
    → s.lock.next i ≡ some k
    → (s.pc k ≡ spinning) × (s.lock.wait k ≡ true) × (i ≢ k)
hand-second {s} i k r at e =
    let (q, inv) = Reach-Queued r in
    let (h, b, p, w) = second inv i k (ap owns at) e in (p, w, λ x. cc (at, p, ap s.pc x))
