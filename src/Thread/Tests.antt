-- ===== src/Thread/Tests.antt =====
-- Runs of two threads that want the lock.
use dbstream.Common.{ℕ, ◌≡◌, refl, ◌≢◌, true, false, none, some}
use dbstream.Thread.McsSpinlock.{
  spinning, clear, exchange_free, exchange_behind, arm, link, see_next, System, step, Reach, start,
  later, handing, linking, init, Lock, Pc, update, cleared, inside, armed,
}
use dbstream.Thread.McsSpinlock.Safety.{owns_unique, hand-second}
use dbstream.Thread.McsSpinlock.Progress.{GoesOn, Reach-GoesOn}

abbrev nodes : System
nodes = init (λ i. none) (λ i. false)

-- The thread `i` takes a step.
abbrev after : (s : System) (i : ℕ) (m : Lock) (p : Pc) → System
after s i m p = record { lock = m; pc = update s.pc i p }

abbrev cleared_1 : System
cleared_1 = after nodes 1 (record nodes.lock { next = update nodes.lock.next 1 none }) cleared

abbrev inside_1 : System
inside_1 = after cleared_1 1 (record cleared_1.lock { tail = some 1 }) inside

abbrev cleared_2 : System
cleared_2 =
    after inside_1 2 (record inside_1.lock { next = update inside_1.lock.next 2 none }) cleared

abbrev linking_2 : System
linking_2 = after cleared_2 2 (record cleared_2.lock { tail = some 2 }) (linking 1)

abbrev armed_2 : System
armed_2 =
    after linking_2 2 (record linking_2.lock { wait = update linking_2.lock.wait 2 true }) (armed 1)

abbrev spinning_2 : System
spinning_2 =
    after armed_2 2 (record armed_2.lock { next = update armed_2.lock.next 1 (some 2) }) spinning

abbrev handing_1 : System
handing_1 = after spinning_2 1 spinning_2.lock handing

inside_1-Reach : Reach inside_1
inside_1-Reach =
    later {s = cleared_1} (later {s = nodes} (start (λ i. none) (λ i. false)) (step 1 clear))
      (step 1 (exchange_free refl))

linking_2-Reach : Reach linking_2
linking_2-Reach =
    later {s = cleared_2} (later {s = inside_1} inside_1-Reach (step 2 clear))
      (step 2 (exchange_behind 1 refl))

handing_1-Reach : Reach handing_1
handing_1-Reach =
    later {s = spinning_2}
      (later {s = armed_2} (later {s = linking_2} linking_2-Reach (step 2 arm)) (step 2 link))
      (step 1 (see_next 2 refl))

owns_unique_example : ◌≡◌ {A = ℕ} 1 1
owns_unique_example = owns_unique {s = handing_1} 1 1 handing_1-Reach refl refl

hand-second_example : (handing_1.pc 2 ≡ spinning) × (handing_1.lock.wait 2 ≡ true) × ◌≢◌ {A = ℕ} 1 2
hand-second_example = hand-second {s = handing_1} 1 2 handing_1-Reach refl refl

Reach-GoesOn_example : GoesOn linking_2
Reach-GoesOn_example = Reach-GoesOn {s = linking_2} 2 linking_2-Reach refl
