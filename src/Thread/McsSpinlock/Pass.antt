-- ===== src/Thread/McsSpinlock/Pass.antt =====
-- Steps that join the queue, at its end, or leave it, at its beginning.
use dbstream.Common.{
  ℕ, suc, ◌-◌, ◌≤◌, ◌<◌, ◌≡◌, refl, sym, ap, subst, ◌∙◌, ◌≢◌, ◌⊎◌, inl, inr, true, false, some,
  arith, ◌==◌, Bool-cases,
}
use dbstream.Thread.McsSpinlock.{Lock, update, Pc, idle, cleared, owns}
use dbstream.Thread.McsSpinlock.Queue.{away, FrontAt, BehindAt, Queue, In, tail_of, Queued}
use dbstream.Thread.McsSpinlock.Frame.{
  ne_of_test, FrontAt-frame, BehindAt-frame, update_self, update_ne, moved_front, moved_behind,
  moved_clean, not_queued, owner_first,
}

module _ {m : Lock} {pc : ℕ → Pc} {q : Queue} (inv : Queued m pc q) (i : ℕ) where
  -- `i` takes the next ticket.
  abbrev pub longer : Queue
  longer = record { holder = update q.holder q.hi i; lo = q.lo; hi = suc q.hi }

  abbrev pub shorter : Queue
  shorter = record { holder = q.holder; lo = suc q.lo; hi = q.hi }

  old_holder : (t : ℕ) → t < q.hi → update q.holder q.hi i t ≡ q.holder t
  old_holder t h = update_ne q.holder q.hi i t (λ e. absurd (omega arith))

  new_holder : update q.holder q.hi i q.hi ≡ i
  new_holder = update_self q.holder q.hi i

  -- A ticket is an old one or the new one.
  ticket_cases :
      (t : ℕ)
      → In longer t
      → (In q t × (update q.holder q.hi i t ≡ q.holder t))
        ⊎ ((t ≡ q.hi) × (update q.holder q.hi i t ≡ i))
  ticket_cases t h = elim (Bool-cases (q.hi == t)) [
    | inl e ↦
        (let s : t ≡ q.hi = ground arith in inr (s, ap (update q.holder q.hi i) s ∙ new_holder))
    | inr e ↦
        let l : t < q.hi = ground (arith, ne_of_test q.hi t e, h.1) in
        inl ((h.0, l), old_holder t l)
  ]

  pub join-Queued :
      (p' : Pc)
      → pc i ≡ cleared
      → away p' ≡ false
      → (q.lo ≡ q.hi → FrontAt m i p')
      → ((t : ℕ) → q.lo ≤ t → suc t ≡ q.hi → BehindAt m (q.holder t) i p')
      → Queued (record m { tail = some i }) (update pc i p') longer
  join-Queued p' at aw fr bh =
      let away_i : away (pc i) ≡ true = ap away at in
      let m' : Lock = record m { tail = some i } in
      let fresh : (t : ℕ) → In q t → i ≢ q.holder t =
        λ t h e. not_queued inv i t away_i h (sym e) in
      record {
        ordered = omega (arith, inv.ordered);
        last =
            (let a : (q.lo == suc q.hi) ≡ false = ground (arith, inv.ordered) in
              let b : suc q.hi - 1 ≡ q.hi = omega arith in rw (a, b) (ap some (sym new_holder)));
        unique = λ t u ht hu e. elim (ticket_cases t ht) [
          | inl (at_t, et) ↦ elim (ticket_cases u hu) [
            | inl (at_u, eu) ↦ inv.unique t u at_t at_u (sym et ∙ e ∙ eu)
            | inr (n, eu) ↦ absurd (fresh t at_t (sym eu ∙ sym e ∙ et))
          ]
          | inr (n, et) ↦ elim (ticket_cases u hu) [
            | inl (at_u, eu) ↦ absurd (fresh u at_u (sym et ∙ e ∙ eu))
            | inr (k, eu) ↦ n ∙ sym k
          ]
        ];
        present = λ t ht. elim (ticket_cases t ht) [
          | inl (at_t, et) ↦
              ap (λ x. away (update pc i p' x)) et
              ∙ ap away (update_ne pc i p' (q.holder t) (fresh t at_t))
              ∙ inv.present t at_t
          | inr (n, et) ↦ ap (λ x. away (update pc i p' x)) et ∙ ap away (update_self pc i p') ∙ aw
        ];
        covered = λ j a. elim (Bool-cases (i == j)) [
          | inl e ↦
              (let s : i ≡ j = ground arith in (q.hi, (inv.ordered, omega arith), new_holder ∙ s))
          | inr e ↦
              let (t, h, k) =
                inv.covered j (sym (ap away (update_ne pc i p' j (ne_of_test i j e))) ∙ a) in
              (t, (h.0, omega arith), old_holder t h.1 ∙ k)
        ];
        clean =
            moved_clean m m' pc i cleared p' at (λ e. cc (aw, ap away e)) (λ j n c. inv.clean j c);
        front = λ h. elim (Bool-cases (q.lo == q.hi)) [
          | inl e ↦
              let s : q.lo ≡ q.hi = ground arith in
              let k : i ≡ update q.holder q.hi i q.lo =
                sym (ap (update q.holder q.hi i) s ∙ new_holder) in
              subst (λ x. FrontAt m' x (update pc i p' x)) k
                (subst (FrontAt m' i) (sym (update_self pc i p'))
                  (FrontAt-frame m m' i p' refl (fr s)))
          | inr e ↦
              let l : q.lo < q.hi = ground (arith, ne_of_test q.lo q.hi e, inv.ordered) in
              subst (λ x. FrontAt m' x (update pc i p' x)) (sym (old_holder q.lo l))
                (moved_front m m' pc i cleared p' at (q.holder q.lo) (λ f. absurd f) (λ n. refl)
                  (inv.front l))
        ];
        behind = λ t l h.
            let a : q.holder t ≡ update q.holder q.hi i t = sym (old_holder t (omega arith)) in
            elim (Bool-cases (suc t == q.hi)) [
              | inl e ↦
                  let s : suc t ≡ q.hi = ground arith in
                  let b : i ≡ update q.holder q.hi i (suc t) =
                    sym (ap (update q.holder q.hi i) s ∙ new_holder) in
                  subst
                    (λ x.
                      BehindAt m' x (update q.holder q.hi i (suc t))
                        (update pc i p' (update q.holder q.hi i (suc t))))
                    a
                    (subst (λ x. BehindAt m' (q.holder t) x (update pc i p' x)) b
                      (subst (BehindAt m' (q.holder t) i) (sym (update_self pc i p'))
                        (BehindAt-frame m m' (q.holder t) i p' refl refl (bh t l s))))
              | inr e ↦
                  let k : suc t < q.hi = ground (arith, ne_of_test (suc t) q.hi e) in
                  subst
                    (λ x.
                      BehindAt m' x (update q.holder q.hi i (suc t))
                        (update pc i p' (update q.holder q.hi i (suc t))))
                    a
                    (subst (λ x. BehindAt m' (q.holder t) x (update pc i p' x))
                      (sym (old_holder (suc t) k))
                      (moved_behind m m' pc i cleared p' at (q.holder t) (q.holder (suc t))
                        (λ s f. absurd f) (λ n. (refl, refl)) (inv.behind t l k)))
            ];
        end = λ t l h.
            let s : t ≡ q.hi = omega arith in
            ap m.next (ap (update q.holder q.hi i) s ∙ new_holder) ∙ inv.clean i at;
      }

  pub leave-Queued :
      (m' : Lock) (p : Pc)
      → pc i ≡ p
      → owns p ≡ true
      → (m'.tail ≡ tail_of shorter)
      → ((j : ℕ) → m'.next j ≡ m.next j)
      → ((t : ℕ) → suc (suc q.lo) ≤ t → t < q.hi → m'.wait (q.holder t) ≡ m.wait (q.holder t))
      → (suc q.lo < q.hi → FrontAt m' (q.holder (suc q.lo)) (pc (q.holder (suc q.lo))))
      → Queued m' (update pc i idle) shorter
  leave-Queued m' p at o tl nx wt fr =
      let (l, first) = owner_first inv i (ap owns at ∙ o) in
      let other : (t : ℕ) → In shorter t → i ≢ q.holder t = λ t h e.
        (let s = inv.unique q.lo t (omega arith, l) (omega arith, h.1) (first ∙ e) in
          absurd (omega arith)) in
      record {
        ordered = omega arith;
        last = tl;
        unique = λ t u ht hu e. inv.unique t u (omega arith, ht.1) (omega arith, hu.1) e;
        present = λ t h.
            ap away (update_ne pc i idle (q.holder t) (other t h))
            ∙ inv.present t (omega arith, h.1);
        covered = λ j a. elim (Bool-cases (i == j)) [
          | inl e ↦ (let b : away (update pc i idle j) ≡ true = rw e refl in cc (a, b))
          | inr e ↦
              let n = ne_of_test i j e in
              let (t, h, k) = inv.covered j (sym (ap away (update_ne pc i idle j n)) ∙ a) in
              let d : t ≢ q.lo = λ s. n (sym first ∙ ap q.holder (sym s) ∙ k) in
              (t, (ground (arith, d, h.0), h.1), k)
        ];
        clean = moved_clean m m' pc i p idle at (λ e. cc) (λ j n c. nx j ∙ inv.clean j c);
        front = λ h.
            subst (FrontAt m' (q.holder (suc q.lo)))
              (sym (update_ne pc i idle (q.holder (suc q.lo)) (other (suc q.lo) (omega arith))))
              (fr h);
        behind = λ t a h.
            let b = q.holder (suc t) in
            subst (BehindAt m' (q.holder t) b)
              (sym (update_ne pc i idle b (other (suc t) (omega arith))))
              (BehindAt-frame m m' (q.holder t) b (pc b) (nx (q.holder t))
                (wt (suc t) (omega arith) h) (inv.behind t (omega arith) h));
        end = λ t a e. nx (q.holder t) ∙ inv.end t (omega arith) e;
      }
