-- ===== src/Update/Programs/Rely.antt =====
-- What a thread can count on while others run. If every atom of every thread keeps a condition on the
-- tables, and one thread's program brings the condition about at some point, whatever tables it
-- finds, then the condition holds once that thread has finished.
use kueued.Prelude.{
  ℕ, zero, suc, nat_eq, Bool, true, false, if◌then◌else◌, ◌≡◌, refl, ap, ◌∙◌, ◌⊎◌, inl, inr, arith,
}
use mathlib.Core.Path.{subst}
use kueued.Update.Programs.{Prog, done, fault, atom, Pool, alone, advance, turn, runs}

module _ {M : Type 0} (P : M → Type 0) where
  -- Every atom keeps the condition, whatever the tables in between.
  abbrev pub Safe : Prog M → Type 0
  Safe done = Unit
  Safe fault = Unit
  Safe (atom effect next) = (m : M) → (P m → P (effect m)) × Safe (next m)

  -- On every path there is an atom after which the condition holds, or a fault.
  abbrev pub Gives : Prog M → Type 0
  Gives done = ⊥
  Gives fault = Unit
  Gives (atom effect next) = (m : M) → P (effect m) ⊎ Gives (next m)

  -- The condition holds already, or the thread has yet to bring it about.
  abbrev Holds : ℕ → Pool M → Type 0
  Holds k p = P p.shared ⊎ Gives (p.threads k)

  abbrev pub AllSafe : Pool M → Type 0
  AllSafe p = (i : ℕ) → Safe (p.threads i)

  AllSafe-advance : (k : ℕ) (p : Pool M) (q : Prog M) → Safe q → AllSafe p → AllSafe (advance k p q)
  unfolding advance
  AllSafe-advance k p done s h i = h i
  AllSafe-advance k p fault s h i = tt
  AllSafe-advance k p (atom effect next) s h i = chosen (nat_eq i k)
    where
      chosen : (b : Bool) → Safe (if b then next p.shared else p.threads i)
      chosen true = (s p.shared).1
      chosen false = h i

  Holds-advance :
      (k j : ℕ) (p : Pool M) (q : Prog M)
      → p.threads k ≡ q
      → Safe q
      → Holds j p
      → Holds j (advance k p q)
  unfolding advance
  Holds-advance k j p done e s h = h
  Holds-advance k j p fault e s (inl now) = inl now
  Holds-advance k j p fault e s (inr yet) = inr tt
  Holds-advance k j p (atom effect next) e s (inl now) = inl ((s p.shared).0 now)
  Holds-advance k j p (atom effect next) e s (inr yet) = chosen (nat_eq j k) own
    where
      own : nat_eq j k ≡ true → P (effect p.shared) ⊎ Gives (next p.shared)
      own same =
          let at_k : j ≡ k = ground (arith, same) in
          subst Gives (ap p.threads at_k ∙ e) yet p.shared

      chosen :
          (b : Bool)
          → (b ≡ true → P (effect p.shared) ⊎ Gives (next p.shared))
          → P (effect p.shared) ⊎ Gives (if b then next p.shared else p.threads j)
      chosen true h = h refl
      chosen false h = inr yet

  AllSafe-runs : (schedule : ℕ → ℕ) (t : ℕ) (p : Pool M) → AllSafe p → AllSafe (runs schedule t p)
  unfolding runs turn
  AllSafe-runs schedule zero p h = h
  AllSafe-runs schedule (suc t) p h =
      let before = AllSafe-runs schedule t p h in
      AllSafe-advance (schedule t) (runs schedule t p) _ (before (schedule t)) before

  Holds-runs :
      (schedule : ℕ → ℕ) (t k : ℕ) (p : Pool M)
      → AllSafe p
      → Holds k p
      → Holds k (runs schedule t p)
  unfolding runs turn
  Holds-runs schedule zero k p s h = h
  Holds-runs schedule (suc t) k p s h =
      Holds-advance (schedule t) k (runs schedule t p) _ refl
        (AllSafe-runs schedule t p s (schedule t)) (Holds-runs schedule t k p s h)

  shared-advance :
      (k : ℕ) (p : Pool M) (q : Prog M) → Safe q → P p.shared → P (advance k p q).shared
  unfolding advance
  shared-advance k p done s h = h
  shared-advance k p fault s h = h
  shared-advance k p (atom effect next) s h = (s p.shared).0 h

  -- A condition that every atom keeps holds at every time, if it held at the start.
  pub runs_keep :
      (schedule : ℕ → ℕ) (t : ℕ) (p : Pool M)
      → AllSafe p
      → P p.shared
      → P (runs schedule t p).shared
  unfolding runs turn
  runs_keep schedule zero p s h = h
  runs_keep schedule (suc t) p s h =
      shared-advance (schedule t) (runs schedule t p) _ (AllSafe-runs schedule t p s (schedule t))
        (runs_keep schedule t p s h)

  -- Once the thread has finished, the condition holds.
  pub runs_finished :
      (schedule : ℕ → ℕ) (t k : ℕ) (p : Pool M)
      → AllSafe p
      → Gives (p.threads k)
      → (runs schedule t p).threads k ≡ done
      → P (runs schedule t p).shared
  runs_finished schedule t k p s g e = settle (Holds-runs schedule t k p s (inr g))
    where
      settle : Holds k (runs schedule t p) → P (runs schedule t p).shared
      settle (inl now) = now
      settle (inr yet) = absurd (subst Gives e yet)

  -- So does it with no other thread.
  pub alone_keeps : (q : Prog M) (m : M) → Safe q → P m → P (alone q m)
  unfolding alone
  alone_keeps done m s h = h
  alone_keeps fault m s h = h
  alone_keeps (atom effect next) m s h = alone_keeps (next m) (effect m) (s m).1 ((s m).0 h)
