-- ===== src/Update/Programs/Kept.antt =====
-- A property of the row of one SR number that every write of one item keeps: the programs whose items of
-- that number are all this one keep it.
use kueued.Prelude.{Bool, sym, ap, Text, ◌==◌, ℕ, List, contains, true, ◌≡◌}
use kueued.Items.{SiebelItem, BomgarItem}
use kueued.Sql.{Env, Mysql}
use kueued.Sql.Rows.{SrRow}
use kueued.Database.Siebel.{inserted_row, refreshed_row, requeued_row}
use kueued.Update.Loop.{AllAt}
use kueued.Update.Mirror.{ids}
use kueued.Update.Programs.{Prog, done, fault, atom}
use kueued.Update.Programs.Rely.{Safe, Gives}
use kueued.Update.Programs.Loops.{Gives-visits}
use kueued.Update.Programs.Visits.{
  unity-Safe, siebel_visit-Gives_later, bomgars-Safe_other, bomgars-Gives_later,
}
use kueued.Update.Programs.Lookups.{
  ReadsMain, update_program-SafeMain, update_program-Gives, lookups-Gives_later,
}
use kueued.Update.Programs.Rows.{
  RowHas, RowHas-insert, RowHas-refresh, RowHas-requeue, RowHas-delete, RowHas-siebel,
}
use kueued.Update.Programs.Request.{siebel_visit, unity, update_program}
use kueued.Update.Programs.Converges.{Leaves}

-- A property of rows that each write of the item keeps.
pub record IsKept {D : Type 0} {S : Type 0 → Type 0} (env : Env D S) (item : SiebelItem)
    (Q : SrRow → Type 0) : Type 0 where
  pub at_insert : (now : Text) → Q (inserted_row env now item)
  pub at_refresh : (r : SrRow) → Q r → Q (refreshed_row env item r)
  pub at_requeue : (now : Text) (r : SrRow) → Q r → Q (requeued_row env now item r)

module _ {D : Type 0} {S : Type 0 → Type 0} (env : Env D S) (j : Text) (Q : SrRow → Type 0) where
  pub unity-SafeRow :
      (clock : ℕ → Text) (list : List SiebelItem) (rest : Prog (Mysql S))
      → AllAt (λ x. x.id) j (λ x. IsKept env x Q) list
      → Safe (RowHas Q env j) rest
      → Safe (RowHas Q env j) (unity env clock list rest)
  unity-SafeRow clock list rest keeps s =
      unity-Safe env (RowHas Q env j) j (λ x. IsKept env x Q)
        (λ now x m own. RowHas-insert Q env j now x m (λ e. (own e).at_insert now))
        (λ now x m own. RowHas-requeue Q env j now x m (λ e. (own e).at_requeue now))
        (λ x m own. RowHas-refresh Q env j x m (λ e. (own e).at_refresh)) (RowHas-delete Q env j)
        clock list rest keeps s

  pub Leaves-SafeRow : (prog : Prog (Mysql S)) → Leaves prog → Safe (RowHas Q env j) prog
  Leaves-SafeRow done = λ h. tt
  Leaves-SafeRow fault = λ h. tt
  Leaves-SafeRow (atom effect next) = λ h m.
      let (siebel, customer, chat, rest) = h m in
      (RowHas-siebel Q env j (effect m) m siebel, Leaves-SafeRow (next m) rest)

  RowHas-main : ReadsMain (RowHas Q env j)
  RowHas-main m n same h = RowHas-siebel Q env j n m (sym (ap (λ t. t.0) same)) h

  pub update_program-SafeRow :
      (clock : ℕ → Text) (full : Bool) (chats : List BomgarItem) (list : List SiebelItem)
      → AllAt (λ x. x.id) j (λ x. IsKept env x Q) list
      → Safe (RowHas Q env j) (update_program env clock full chats list)
  update_program-SafeRow clock full chats list keeps =
      update_program-SafeMain env (RowHas Q env j) RowHas-main clock full chats list
        (bomgars-Safe_other env (RowHas Q env j) (λ m rows h. h) chats)
        (unity-SafeRow clock list done keeps tt)

  pub update_program-GivesRow :
      (R : SiebelItem → Type 0) (clock : ℕ → Text) (full : Bool) (chats : List BomgarItem)
      (list : List SiebelItem)
      → ((i : ℕ) (x : SiebelItem) (next : Prog (Mysql S))
          → (x.id == j) ≡ true
          → R x
          → Gives (RowHas Q env j) (siebel_visit env clock i x next))
      → AllAt (λ x. x.id) j R list
      → contains j (ids list) ≡ true
      → Gives (RowHas Q env j) (update_program env clock full chats list)
  unfolding unity
  update_program-GivesRow R clock full chats list own q listed =
      update_program-Gives env (RowHas Q env j) clock full chats list (
        bomgars-Gives_later env (RowHas Q env j) chats _ (
          lookups-Gives_later env (RowHas Q env j) env.remote.open_srs (unity env clock list done) (
            Gives-visits (RowHas Q env j) (siebel_visit env clock) (λ x. x.id) j R
              (siebel_visit-Gives_later env (RowHas Q env j) clock) own 0 list _ q listed)))
