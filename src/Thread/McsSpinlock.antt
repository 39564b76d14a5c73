-- ===== src/Thread/McsSpinlock.antt =====
-- thread/mcsSpinlock.h: a spin lock whose waiting threads stand in a queue, one access to shared
-- memory at a time. A thread is named by a number, and its node, which is local to the thread, by the
-- same. The accesses take effect in one order.
pub mod Queue
pub mod Frame
pub mod Stay
pub mod Pass
pub mod Invariant
pub mod Safety
pub mod Progress
use dbstream.Common.{ℕ, ◌≡◌, ◌≢◌, Bool, true, false, Option, none, some, ◌==◌, if◌then◌else◌}

-- `next` is the word of the lock itself, the end of its queue, here `tail`.
pub record Lock : Type 0 where
  pub tail : Option ℕ
  pub next : ℕ → Option ℕ
  pub wait : ℕ → Bool

abbrev pub update {ℓ} : {A : Type ℓ} → (ℕ → A) → ℕ → A → ℕ → A
update f i v j = if i == j then v else f j

-- Where a thread stands.
pub data Pc : Type 0 where
  idle : Pc
  cleared : Pc  -- in `lock` or `tryLock`, its `next` is set to null
  linking : (prev : ℕ) → Pc  -- in `lock`, behind the exchange
  armed : (prev : ℕ) → Pc  -- `wait` is set
  spinning : Pc
  inside : Pc
  leaving : Pc  -- in `unlock`, `next` was null
  stuck : Pc  -- in `unlock`, the compare-exchange has failed
  handing : Pc  -- in `unlock`, `next` was not null

-- A step of the thread `i`. From `cleared` it goes on in `lock` or in `tryLock`.
pub data Move (i : ℕ) (m : Lock) : Pc → Lock → Pc → Type 0 where
  clear : Move i m idle (record m { next = update m.next i none }) cleared
  exchange_free : m.tail ≡ none → Move i m cleared (record m { tail = some i }) inside
  exchange_behind :
      (p : ℕ) → m.tail ≡ some p → Move i m cleared (record m { tail = some i }) (linking p)
  arm : {p : ℕ} → Move i m (linking p) (record m { wait = update m.wait i true }) (armed p)
  link : {p : ℕ} → Move i m (armed p) (record m { next = update m.next p (some i) }) spinning
  spin : m.wait i ≡ true → Move i m spinning m spinning
  enter : m.wait i ≡ false → Move i m spinning m inside
  try_win : m.tail ≡ none → Move i m cleared (record m { tail = some i }) inside
  try_lose : (p : ℕ) → m.tail ≡ some p → Move i m cleared m idle
  see_none : m.next i ≡ none → Move i m inside m leaving
  see_next : (k : ℕ) → m.next i ≡ some k → Move i m inside m handing
  cas_win : m.tail ≡ some i → Move i m leaving (record m { tail = none }) idle
  cas_lose : m.tail ≢ some i → Move i m leaving m stuck
  await : m.next i ≡ none → Move i m stuck m stuck
  see_late : (k : ℕ) → m.next i ≡ some k → Move i m stuck m handing
  hand :
      (k : ℕ)
      → m.next i ≡ some k
      → Move i m handing (record m { wait = update m.wait k false }) idle

pub record System : Type 0 where
  pub lock : Lock
  pub pc : ℕ → Pc

pub data Step (s : System) : System → Type 0 where
  step :
      (i : ℕ) {m : Lock} {p : Pc}
      → Move i s.lock (s.pc i) m p
      → Step s (record { lock = m; pc = update s.pc i p })

-- The nodes of threads hold anything at first.
abbrev pub init : (ℕ → Option ℕ) → (ℕ → Bool) → System
init next wait = record { lock = record { tail = none; next = next; wait = wait }; pc = λ i. idle }

pub data Reach : System → Type 0 where
  start : (next : ℕ → Option ℕ) (wait : ℕ → Bool) → Reach (init next wait)
  later : {s t : System} → Reach s → Step s t → Reach t

-- Between the return of `lock` or of a successful `tryLock` and the end of `unlock`.
abbrev pub owns : Pc → Bool
owns idle = false
owns cleared = false
owns (linking p) = false
owns (armed p) = false
owns spinning = false
owns inside = true
owns leaving = true
owns stuck = true
owns handing = true
