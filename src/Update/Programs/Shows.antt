-- ===== src/Update/Programs/Shows.antt =====
-- What the row of one SR number shows while threads run /updateDB side by side. The queue and the
-- other columns are written by different transactions, so each has its own condition.
use kueued.Prelude.{
  Text, ◌==◌, eq_iff, eq_sound, ℕ, true, false, Option, none, some, is_some, if◌then◌else◌, ◌≡◌,
  refl, ap, inl, inr, arith, Bool-cases,
}
use mathlib.Core.Path.{subst}
use mathlib.Core.Option
use kueued.Items.{SiebelItem}
use kueued.Sql.{Env, Mysql}
use kueued.Sql.Rows.{SrRow}
use kueued.Database.Siebel.{
  bound_creator, inserted_row, refreshed_row, requeued_row, siebel_exists_in_db,
  siebel_queue_changed, changed, update_siebel_item, update_siebel_queue,
}
use kueued.Update.Effects.{Shows}
use kueued.Update.Programs.{Prog, ask, write}
use kueued.Update.Programs.Rely.{Gives}
use kueued.Update.Programs.Loops.{if_Gives}
use kueued.Update.Programs.Rows.{Each, RowHas, RowHas-refreshed, RowHas-requeued}
use kueued.Update.Programs.Request.{siebel_visit}
use kueued.Update.Programs.Kept.{IsKept}

-- The queue of the item, and the item in every other column.
abbrev pub HasQueue : SiebelItem → SrRow → Type 0
HasQueue item r = r.queue ≡ item.queue

abbrev pub HasColumns : {D : Type 0} {S : Type 0 → Type 0} → Env D S → SiebelItem → SrRow → Type 0
HasColumns env item r = Shows env item (record r { queue = item.queue })

module _ {D : Type 0} {S : Type 0 → Type 0} (env : Env D S) (j : Text) (item : SiebelItem) where
  pub HasQueue-IsKept : IsKept env item (HasQueue item)
  unfolding inserted_row refreshed_row requeued_row
  HasQueue-IsKept = record {
    at_insert = λ now. refl;
    at_refresh = λ r h. h;
    at_requeue = λ now r h. refl;
  }

  refreshed_row-HasColumns : (r : SrRow) → HasColumns env item (refreshed_row env item r)
  unfolding refreshed_row
  refreshed_row-HasColumns r = ground arith

  pub HasColumns-IsKept :
      item.creator ≡ bound_creator env item → IsKept env item (HasColumns env item)
  unfolding inserted_row requeued_row
  HasColumns-IsKept creator = record {
    at_insert = λ now. ground (arith, creator);
    at_refresh = λ r h. refreshed_row-HasColumns r;
    at_requeue = λ now r h. ground arith;
  }

  absent-RowHas :
      (Q : SrRow → Type 0) (x : SiebelItem) (m : Mysql S)
      → x.id ≡ j
      → siebel_exists_in_db env x.id m ≡ false
      → RowHas Q env j m
  unfolding siebel_exists_in_db
  absent-RowHas Q x m same gone =
      subst (λ k. Each Q (env.tables.siebel.select k m.siebel)) same
        (go (env.tables.siebel.select x.id m.siebel) gone)
    where
      go : (o : Option SrRow) → is_some o ≡ false → Each Q o
      go none h = tt
      go (some r) h = absurd (cc)

  -- A queue that has not changed is the item's.
  unchanged-RowHas :
      (x : SiebelItem) (m : Mysql S)
      → x.id ≡ j
      → x ≡ item
      → siebel_queue_changed env x m ≡ false
      → RowHas (HasQueue item) env j m
  unfolding siebel_queue_changed changed
  unchanged-RowHas x m same one h =
      subst (λ k. Each (HasQueue item) (env.tables.siebel.select k m.siebel)) same
        (go (env.tables.siebel.select x.id m.siebel) h)
    where
      go :
          (o : Option SrRow)
          → changed (Option.map (λ (r : SrRow). r.queue) o) x.queue ≡ false
          → Each (HasQueue item) o
      go none e = tt
      go (some r) e = ground (arith, eq_iff r.queue x.queue, ap (λ (y : SiebelItem). y.queue) one)

  -- One that has changed is written.
  pub siebel_visit-GivesQueue :
      (clock : ℕ → Text) (i : ℕ) (x : SiebelItem) (next : Prog (Mysql S))
      → (x.id == j) ≡ true
      → x ≡ item
      → Gives (RowHas (HasQueue item) env j) (siebel_visit env clock i x next)
  unfolding siebel_visit requeued_row
  siebel_visit-GivesQueue clock i x next own one m =
      elim (Bool-cases (siebel_exists_in_db env x.id m)) [
        | inl e ↦ inr (
            if_Gives (RowHas (HasQueue item) env j) (siebel_exists_in_db env x.id m) _ _ (λ f. asks)
              (λ f. absurd (cc)))
        | inr e ↦ inl (absent-RowHas (HasQueue item) x m (eq_sound x.id j own) e)
      ]
    where
      asks : Gives (RowHas (HasQueue item) env j) (
          ask λ now.
            if siebel_queue_changed env x now
            then write (update_siebel_queue env (clock i) x) (write (update_siebel_item env x) next)
            else write (update_siebel_item env x) next)
      asks now = elim (Bool-cases (siebel_queue_changed env x now)) [
        | inl e ↦ inr (
            if_Gives (RowHas (HasQueue item) env j) (siebel_queue_changed env x now) _ _
              (λ f n. inl (
                RowHas-requeued (HasQueue item) env j (clock i) x n own
                  (λ r. ap (λ (y : SiebelItem). y.queue) one)))
              (λ f. absurd (cc)))
        | inr e ↦ inl (unchanged-RowHas x now (eq_sound x.id j own) one e)
      ]

  pub siebel_visit-GivesColumns :
      (clock : ℕ → Text) (i : ℕ) (x : SiebelItem) (next : Prog (Mysql S))
      → (x.id == j) ≡ true
      → x ≡ item
      → Gives (RowHas (HasColumns env item) env j) (siebel_visit env clock i x next)
  unfolding siebel_visit
  siebel_visit-GivesColumns clock i x next own one m =
      elim (Bool-cases (siebel_exists_in_db env x.id m)) [
        | inl e ↦ inr (
            if_Gives (RowHas (HasColumns env item) env j) (siebel_exists_in_db env x.id m) _ _
              (λ f now. inr (
                if_Gives (RowHas (HasColumns env item) env j) (siebel_queue_changed env x now) _ _
                  (λ c n. inr (λ o. inl (refreshed o))) (λ c n. inl (refreshed n))))
              (λ f. absurd (cc)))
        | inr e ↦ inl (absent-RowHas (HasColumns env item) x m (eq_sound x.id j own) e)
      ]
    where
      refreshed : (n : Mysql S) → RowHas (HasColumns env item) env j (update_siebel_item env x n)
      refreshed n =
          RowHas-refreshed (HasColumns env item) env j x n own
            (λ r. rw one (refreshed_row-HasColumns r))
