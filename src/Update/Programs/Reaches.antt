-- ===== src/Update/Programs/Reaches.antt =====
-- The atoms of the threads are transactions of Update/Statements, so what holds of every
-- interleaving of those holds of every pool at every time.
use kueued.Prelude.{ap, Bool, Text, ℕ, List, [], ◌≡◌, refl, sym, ◌⊎◌, inl, inr}
use mathlib.Core.Path.{subst}
use kueued.Items.{SiebelItem, BomgarItem}
use kueued.Sql.{Env, Mysql}
use kueued.Update.Loop.{AllAt-all}
use kueued.Update.Statements.{
  Reach, here, later, inserts, refreshes, requeues, deletes, elsewhere, Reach-IsPaired,
}
use kueued.Update.Effects.{IsPaired}
use kueued.Update.Rows.{entry}
use kueued.Update.Programs.{Prog, done, fault, atom, Pool, runs}
use kueued.Update.Programs.Rely.{Safe, runs_keep}
use kueued.Update.Programs.Visits.{unity-Safe, bomgars-Safe_other}
use kueued.Update.Programs.Request.{unity, update_program}
use kueued.Update.Programs.Lookups.{update_program-SafeMain}
use kueued.Update.Programs.Converges.{Leaves}

module _ {D : Type 0} {S : Type 0 → Type 0} (env : Env D S) (db : Mysql S) where
  -- The thread runs an /updateDB, whatever its lists, or leaves the tables of SRs and chats alone.
  abbrev pub Serves : Prog (Mysql S) → Type 0
  Serves prog =
      ((clock : ℕ → Text) × (full : Bool) × (chats : List BomgarItem) × (list : List SiebelItem)
        × (prog ≡ update_program env clock full chats list))
      ⊎ Leaves prog

  unity-Reach :
      (clock : ℕ → Text) (list : List SiebelItem) (rest : Prog (Mysql S))
      → Safe (Reach env db) rest
      → Safe (Reach env db) (unity env clock list rest)
  unity-Reach clock list rest s =
      unity-Safe env (Reach env db) [] (λ x. Unit {0}) (λ now x m own h. later h (inserts now x))
        (λ now x m own h. later h (requeues now x)) (λ x m own h. later h (refreshes x))
        (λ k m h. later h (deletes k)) clock list rest
        (AllAt-all (λ item. item.id) [] (λ x. Unit {0}) (λ x. tt) list) s

  Leaves-Reach : (prog : Prog (Mysql S)) → Leaves prog → Safe (Reach env db) prog
  Leaves-Reach done = λ h. tt
  Leaves-Reach fault = λ h. tt
  Leaves-Reach (atom effect next) = λ h m.
      let (siebel, customer, chat, rest) = h m in
      ((λ r. later r (elsewhere (effect m) siebel customer)), Leaves-Reach (next m) rest)

  Serves-Reach : (prog : Prog (Mysql S)) → Serves prog → Safe (Reach env db) prog
  Serves-Reach prog (inl (clock, full, chats, list, same)) =
      subst (Safe (Reach env db)) (sym same) (
        update_program-SafeMain env (Reach env db)
          (λ m n e r. later r (elsewhere n (sym (ap (λ t. t.0) e)) (sym (ap (λ t. t.1) e)))) clock
          full chats list
          (bomgars-Safe_other env (Reach env db) (λ m rows r. later r (elsewhere _ refl refl))
            chats)
          (unity-Reach clock list done tt))
  Serves-Reach prog (inr l) = Leaves-Reach prog l

-- Threads of any number run at once, each an /updateDB with lists of its own or a request that
-- leaves the tables of SRs and chats alone. If an SR number has its row in QMON_SIEBEL and its row in
-- CUSTOMER or neither at the start, then so it does at every time, also in the middle of an update.
pub runs-IsPaired :
    {D : Type 0} {S : Type 0 → Type 0} (env : Env D S) (schedule : ℕ → ℕ) (t : ℕ)
    (p : Pool (Mysql S)) (j : Text)
    → ((i : ℕ) → Serves env p.shared (p.threads i))
    → IsPaired (entry env p.shared j)
    → IsPaired (entry env (runs schedule t p).shared j)
runs-IsPaired env schedule t p j serves paired = Reach-IsPaired env j paired (
    runs_keep (Reach env p.shared) schedule t p
      (λ i. Serves-Reach env p.shared (p.threads i) (serves i)) here)
