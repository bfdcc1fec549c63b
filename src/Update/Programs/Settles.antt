-- ===== src/Update/Programs/Settles.antt =====
-- Any number of requests at once, and the row of one SR number: once one thread's /updateDB has ended,
-- the row is there and shows what the lists say.
use kueued.Prelude.{
  Bool, Text, ◌==◌, ℕ, ◌≤◌, List, contains, true, Option, none, some, is_some, ◌≡◌, refl, sym, ap,
  ◌∙◌, ◌⊎◌, inl, inr,
}
use mathlib.Core.Path.{subst}
use kueued.Items.{SiebelItem, BomgarItem}
use kueued.Sql.{Env, Mysql}
use kueued.Sql.Rows.{SrRow}
use kueued.Database.Siebel.{bound_creator}
use kueued.Update.Loop.{AllAt, AllAt-map}
use kueued.Update.Rows.{entry}
use kueued.Update.Mirror.{ids, contains-siebel_list}
use kueued.Update.Effects.{Shows, HasSr}
use kueued.Update.Programs.{Prog, Pool, runs}
use kueued.Update.Programs.Rely.{Safe, Gives, runs_finished}
use kueued.Update.Programs.Listed.{SrListed, update_program-SafeSr, update_program-GivesSr}
use kueued.Update.Programs.Rows.{Each, RowHas}
use kueued.Update.Programs.Request.{siebel_visit, update_program}
use kueued.Update.Programs.Kept.{
  IsKept, update_program-SafeRow, update_program-GivesRow, Leaves-SafeRow,
}
use kueued.Update.Programs.Converges.{Leaves, Leaves-SafeSr}
use kueued.Update.Programs.Fair.{NoFault, Fair, finishes}
use kueued.Update.Programs.Faultless.{update_program-NoFault}
use kueued.Database.Cache.{AreTitled}
use kueued.Update.Programs.Shows.{
  HasQueue, HasColumns, HasQueue-IsKept, HasColumns-IsKept, siebel_visit-GivesQueue,
  siebel_visit-GivesColumns,
}

module _ {D : Type 0} {S : Type 0 → Type 0} (env : Env D S) (j : Text) (item : SiebelItem) where
  -- The thread runs /updateDB with a list whose items of this number are all the one item, and there
  -- is such an item.
  pub record UpdatesItem (prog : Prog (Mysql S)) : Type 0 where
    pub clock : ℕ → Text
    pub full : Bool
    pub chat_list : List BomgarItem
    pub sr_list : List SiebelItem
    pub is_update : prog ≡ update_program env clock full chat_list sr_list
    pub listed : contains j (ids sr_list) ≡ true
    pub one_item : AllAt (λ x. x.id) j (λ x. x ≡ item) sr_list

  -- Or it leaves the tables of SRs and chats alone and does not fault.
  abbrev pub JoinsItem : Prog (Mysql S) → Type 0
  JoinsItem prog = UpdatesItem prog ⊎ (Leaves prog × NoFault prog)

  JoinsItem-NoFault : AreTitled env → (prog : Prog (Mysql S)) → JoinsItem prog → NoFault prog
  JoinsItem-NoFault titles prog (inl u) =
      subst NoFault (sym u.is_update)
        (update_program-NoFault env titles u.clock u.full u.chat_list u.sr_list)
  JoinsItem-NoFault titles prog (inr (l, sound)) = sound

  JoinsItem-SafeRow :
      (Q : SrRow → Type 0) (prog : Prog (Mysql S))
      → IsKept env item Q
      → JoinsItem prog
      → Safe (RowHas Q env j) prog
  JoinsItem-SafeRow Q prog keeps (inl u) = subst (Safe (RowHas Q env j)) (sym u.is_update) (
      update_program-SafeRow env j Q u.clock u.full u.chat_list u.sr_list (
        AllAt-map (λ x. x.id) j u.sr_list (λ x e. subst (λ y. IsKept env y Q) (sym e) keeps)
          u.one_item))
  JoinsItem-SafeRow Q prog keeps (inr (l, sound)) = Leaves-SafeRow env j Q prog l

  UpdatesItem-GivesRow :
      (Q : SrRow → Type 0) (prog : Prog (Mysql S))
      → ((clock : ℕ → Text) (i : ℕ) (x : SiebelItem) (next : Prog (Mysql S))
          → (x.id == j) ≡ true
          → x ≡ item
          → Gives (RowHas Q env j) (siebel_visit env clock i x next))
      → UpdatesItem prog
      → Gives (RowHas Q env j) prog
  UpdatesItem-GivesRow Q prog own u = subst (Gives (RowHas Q env j)) (sym u.is_update) (
      update_program-GivesRow env j Q (λ x. x ≡ item) u.clock u.full u.chat_list u.sr_list
        (own u.clock) u.one_item u.listed)

  JoinsItem-SafeSr : (prog : Prog (Mysql S)) → JoinsItem prog → Safe (SrListed env j true) prog
  JoinsItem-SafeSr prog (inl u) =
      subst (Safe (SrListed env j true)) (sym u.is_update)
        (update_program-SafeSr env j true u.clock u.full u.chat_list u.sr_list u.listed)
  JoinsItem-SafeSr prog (inr (l, sound)) = Leaves-SafeSr env j true prog l

  UpdatesItem-GivesSr :
      (prog : Prog (Mysql S)) → UpdatesItem prog → Gives (SrListed env j true) prog
  UpdatesItem-GivesSr prog u =
      subst (Gives (SrListed env j true)) (sym u.is_update)
        (update_program-GivesSr env j true u.clock u.full u.chat_list u.sr_list u.listed)

  row_shown :
      (m : Mysql S)
      → SrListed env j true m
      → RowHas (HasQueue item) env j m
      → RowHas (HasColumns env item) env j m
      → HasSr (Shows env item) (entry env m j)
  row_shown m listed = go (entry env m j).0 (sym (contains-siebel_list env j m) ∙ listed)
    where
      go :
          (o : Option SrRow)
          → is_some o ≡ true
          → Each (HasQueue item) o
          → Each (HasColumns env item) o
          → (r : SrRow) × (o ≡ some r) × Shows env item r
      go none e q c = absurd (cc)
      go (some r) e q c =
          (r, refl, subst (Shows env item) (ap (λ queue. record r { queue = queue }) (sym q)) c)

  -- Threads of any number run at once, each an /updateDB whose list has this item under its number
  -- and no other, or a request that leaves the tables of SRs and chats alone and does not fault. If
  -- each related request has a title, the thread `k` runs /updateDB and gets its turn again and again,
  -- and the item's creator is the one that an update would look up, then from some time on the row of
  -- the number is there and shows the item in every column but ID and INQUEUE, also while the others
  -- go on.
  pub all_settle :
      (schedule : ℕ → ℕ) (k : ℕ) (p : Pool (Mysql S))
      → AreTitled env
      → item.creator ≡ bound_creator env item
      → ((i : ℕ) → JoinsItem (p.threads i))
      → UpdatesItem (p.threads k)
      → Fair schedule k
      → (t : ℕ) × ((s : ℕ)
          → t ≤ s
          → HasSr (Shows env item) (entry env (runs schedule s p).shared j))
  all_settle schedule k p titles creator joins u fair =
      let (t, ended) =
        finishes schedule k p (λ i. JoinsItem-NoFault titles (p.threads i) (joins i)) fair in
      let queue = HasQueue-IsKept env j item in
      let columns = HasColumns-IsKept env j item creator in
      (
        t,
        λ s h.
            row_shown (runs schedule s p).shared
              (runs_finished (SrListed env j true) schedule s k p
                (λ i. JoinsItem-SafeSr (p.threads i) (joins i))
                (UpdatesItem-GivesSr (p.threads k) u) (ended s h))
              (runs_finished (RowHas (HasQueue item) env j) schedule s k p
                (λ i. JoinsItem-SafeRow (HasQueue item) (p.threads i) queue (joins i))
                (UpdatesItem-GivesRow (HasQueue item) (p.threads k)
                  (siebel_visit-GivesQueue env j item) u)
                (ended s h))
              (runs_finished (RowHas (HasColumns env item) env j) schedule s k p
                (λ i. JoinsItem-SafeRow (HasColumns env item) (p.threads i) columns (joins i))
                (UpdatesItem-GivesRow (HasColumns env item) (p.threads k)
                  (siebel_visit-GivesColumns env j item) u)
                (ended s h)),
      )
