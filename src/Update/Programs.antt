-- ===== src/Update/Programs.antt =====
-- Threads that run side by side on the shared tables (server.cpp starts one ServerThread for each
-- connection). A program is what a thread still has to do: each method of Database is one
-- transaction, so it is one atom, an effect on the tables and the program that follows, which
-- may depend on the tables that the atom found. Between two atoms any other thread may run. A fault
-- of one thread is the end of all.
pub mod Request
pub mod Alone
pub mod Rely
pub mod Loops
pub mod Keys
pub mod Visits
pub mod Lookups
pub mod Mirrors
pub mod Listed
pub mod Fair
pub mod Faultless
pub mod Converges
pub mod Reaches
pub mod Rows
pub mod Kept
pub mod Shows
pub mod Settles
use kueued.Prelude.{ℕ, zero, suc, nat_eq, if◌then◌else◌}

pub data Prog (M : Type 0) : Type 0 where
  done : Prog M
  -- an access past the end of a list, which ends the process
  fault : Prog M
  atom : (M → M) → (M → Prog M) → Prog M

-- The tables, and the threads by number; a number without a thread is `done`.
pub record Pool (M : Type 0) : Type 0 where
  pub shared : M
  pub threads : ℕ → Prog M

module _ {M : Type 0} where
  -- a statement that only reads
  abbrev pub ask : (M → Prog M) → Prog M
  ask next = atom (λ m. m) next

  -- a transaction that gives nothing back
  abbrev pub write : (M → M) → Prog M → Prog M
  write effect rest = atom effect (λ m. rest)

  -- A program with no other thread beside it.
  unfoldable pub alone : Prog M → M → M
  alone done m = m
  alone fault m = m
  alone (atom effect next) m = alone (next m) (effect m)

  unfoldable pub advance : ℕ → Pool M → Prog M → Pool M
  advance k p done = p
  advance k p fault = record { shared = p.shared; threads = λ i. fault }
  advance k p (atom effect next) = record {
    shared = effect p.shared;
    threads = λ i. if nat_eq i k then next p.shared else p.threads i;
  }

  -- Thread `k` runs its next atom.
  unfoldable pub turn : ℕ → Pool M → Pool M
  turn k p = advance k p (p.threads k)

  -- The pool after `t` turns, in the order of the schedule.
  unfoldable pub runs : (ℕ → ℕ) → ℕ → Pool M → Pool M
  runs schedule zero p = p
  runs schedule (suc t) p = turn (schedule t) (runs schedule t p)
