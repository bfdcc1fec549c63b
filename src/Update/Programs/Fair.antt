-- ===== src/Update/Programs/Fair.antt =====
-- A thread that gets its turn again and again finishes, whatever the others do in between: no thread
-- waits for another. No thread of the pool faults.
use kueued.Prelude.{
  ℕ, zero, suc, ◌+◌, ◌≤◌, ◌-◌, nat_eq, if◌then◌else◌, Bool, true, false, ◌≡◌, refl, ap, ◌∙◌, inl,
  inr, arith, Bool-cases,
}
use mathlib.Core.Path.{subst}
use native.Mathlib.Decide.{dec_le}
use kueued.Update.Programs.{Prog, done, fault, atom, Pool, advance, turn, runs}

-- Thread `k` has a turn at or after every time.
abbrev pub Fair : (ℕ → ℕ) → ℕ → Type 0
Fair schedule k = (t : ℕ) → (s : ℕ) × (t ≤ s) × (schedule s ≡ k)

module _ {M : Type 0} where
  -- No path through the program ends in a fault.
  abbrev pub NoFault : Prog M → Type 0
  NoFault done = Unit
  NoFault fault = ⊥
  NoFault (atom effect next) = (m : M) → NoFault (next m)

  abbrev pub NoFaults : Pool M → Type 0
  NoFaults p = (i : ℕ) → NoFault (p.threads i)

  NoFaults-advance :
      (k : ℕ) (p : Pool M) (q : Prog M) → NoFault q → NoFaults p → NoFaults (advance k p q)
  unfolding advance
  NoFaults-advance k p done s h i = h i
  NoFaults-advance k p fault s h i = absurd s
  NoFaults-advance k p (atom effect next) s h i = chosen (nat_eq i k)
    where
      chosen : (b : Bool) → NoFault (if b then next p.shared else p.threads i)
      chosen true = s p.shared
      chosen false = h i

  NoFaults-runs :
      (schedule : ℕ → ℕ) (t : ℕ) (p : Pool M) → NoFaults p → NoFaults (runs schedule t p)
  unfolding runs turn
  NoFaults-runs schedule zero p h = h
  NoFaults-runs schedule (suc t) p h =
      let before = NoFaults-runs schedule t p h in
      NoFaults-advance (schedule t) (runs schedule t p) _ (before (schedule t)) before

  advance-other :
      (k j : ℕ) (p : Pool M) (q : Prog M)
      → NoFault q
      → nat_eq j k ≡ false
      → (advance k p q).threads j ≡ p.threads j
  unfolding advance
  advance-other k j p done s e = refl
  advance-other k j p fault s e = absurd s
  advance-other k j p (atom effect next) s e = rw e

  -- A turn of another thread leaves the program.
  turn-other :
      (k j : ℕ) (p : Pool M) → NoFaults p → nat_eq j k ≡ false → (turn k p).threads j ≡ p.threads j
  unfolding turn
  turn-other k j p sound e = advance-other k j p (p.threads k) (sound k) e

  -- Its own turn takes the next atom off.
  turn-own :
      (k : ℕ) (p : Pool M) {effect : M → M} {next : M → Prog M}
      → p.threads k ≡ atom effect next
      → (turn k p).threads k ≡ next p.shared
  unfolding turn advance
  turn-own k p {effect} {next} e =
      let same : nat_eq k k ≡ true = ground arith in ap (λ q. (advance k p q).threads k) e ∙ rw same

  turn-done : (k j : ℕ) (p : Pool M) → NoFaults p → p.threads j ≡ done → (turn k p).threads j ≡ done
  unfolding turn advance
  turn-done k j p sound e = elim (Bool-cases (nat_eq j k)) [
    | inl same ↦
        let at_k : p.threads k ≡ done = ap p.threads (ground (arith, same)) ∙ e in
        ap (λ q. (advance k p q).threads j) at_k ∙ e
    | inr other ↦ turn-other k j p sound other ∙ e
  ]

  stays_done :
      (schedule : ℕ → ℕ) (j t s : ℕ) (p : Pool M)
      → NoFaults p
      → t ≤ s
      → (runs schedule t p).threads j ≡ done
      → (runs schedule s p).threads j ≡ done
  unfolding runs
  stays_done schedule j t zero p sound h e =
      let same : t ≡ zero = omega (arith, h) in
      subst (λ u. (runs schedule u p).threads j ≡ done) same e
  stays_done schedule j t (suc s) p sound h e = elim (dec_le t s) [
    | yes before ↦
        turn-done (schedule s) j (runs schedule s p) (NoFaults-runs schedule s p sound)
          (stays_done schedule j t s p sound before e)
    | no after ↦
        let same : t ≡ suc s = omega (arith, h, after) in
        subst (λ u. (runs schedule u p).threads j ≡ done) same e
  ]

  module _ (schedule : ℕ → ℕ) (k : ℕ) (p : Pool M) (sound : NoFaults p) where
    -- The thread has finished at some time.
    abbrev Finishes : Type 0
    Finishes = (t : ℕ) × ((runs schedule t p).threads k ≡ done)

    -- With `d` turns to go to one of its own, the thread takes its next atom by then.
    wait :
        (effect : M → M) (next : M → Prog M)
        → ((m : M) (t : ℕ) → (runs schedule t p).threads k ≡ next m → Finishes)
        → (d t s : ℕ) → d + t ≡ s
        → (runs schedule t p).threads k ≡ atom effect next
        → schedule s ≡ k
        → Finishes
    unfolding runs
    wait effect next rest zero t s at e own =
        let here : schedule t ≡ k = ap schedule (omega (arith, at)) ∙ own in
        rest (runs schedule t p).shared (suc t)
          (ap (λ i. (turn i (runs schedule t p)).threads k) here ∙ turn-own k (runs schedule t p) e)
    wait effect next rest (suc d) t s at e own = elim (Bool-cases (nat_eq k (schedule t))) [
      | inl same ↦ rest (runs schedule t p).shared (suc t) (
          ap (λ i. (turn i (runs schedule t p)).threads k) (ground (arith, same))
          ∙ turn-own k (runs schedule t p) e)
      | inr other ↦
          wait effect next rest d (suc t) s (omega arith)
            (turn-other (schedule t) k (runs schedule t p) (NoFaults-runs schedule t p sound) other
              ∙ e)
            own
    ]

    finishes_from :
        Fair schedule k → (q : Prog M) (t : ℕ) → (runs schedule t p).threads k ≡ q → Finishes
    finishes_from fair done t e = (t, e)
    finishes_from fair fault t e = absurd (subst NoFault e (NoFaults-runs schedule t p sound k))
    finishes_from fair (atom effect next) t e =
        let (s, after, own) = fair t in
        wait effect next (λ m u same. finishes_from fair (next m) u same) (s - t) t s (omega arith)
          e own

    -- From some time on the thread has finished.
    pub finishes :
        Fair schedule k → (t : ℕ) × ((s : ℕ) → t ≤ s → (runs schedule s p).threads k ≡ done)
    unfolding runs
    finishes fair =
        let (t, e) = finishes_from fair (p.threads k) 0 refl in
        (t, λ s h. stays_done schedule k t s p sound h e)
