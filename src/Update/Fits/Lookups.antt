-- ===== src/Update/Fits/Lookups.antt =====
-- The pseudo queues and the lookups of getQmonSrs keep fit what is there under each key.
use kueued.Prelude.{
  Text, ◌==◌, List, [], ◌∷◌, value, none, some, ◌≡◌, arith, Option-cases, inl, inr,
}
use mathlib.Core.Path.{subst}
use kueued.Sql.{Env, Mysql}
use kueued.Sql.Rows.{CrsrRow}
use kueued.Database.Cache.{answer_row, with_answer}
use kueued.Database.Lookups.{
  at_0, at_3, get_sr_for_cr_report, update_pseudo_queues, insert_pseudo_queues,
}
use kueued.Update.Programs.Request.{reported}
use kueued.Update.Programs.Rows.{Each-kept}
use kueued.Update.Fits.{RelatedFits, RemoteFits}
use kueued.Update.Fits.Tables.{KeyFits, RelatedHas}

module _ {D : Type 0} {S : Type 0 → Type 0} (env : Env D S) (j : Text) where
  insert_pseudo_queues-KeyFits :
      (rows : List (List Text)) (m : Mysql S)
      → KeyFits env j m
      → KeyFits env j (insert_pseudo_queues env rows m)
  unfolding insert_pseudo_queues
  insert_pseudo_queues-KeyFits [] m h = h
  insert_pseudo_queues-KeyFits (row ∷ rows) m h = insert_pseudo_queues-KeyFits rows _ h

  pub update_pseudo_queues-KeyFits :
      (m : Mysql S) → KeyFits env j m → KeyFits env j (update_pseudo_queues env m)
  unfolding update_pseudo_queues
  update_pseudo_queues-KeyFits m h = insert_pseudo_queues-KeyFits env.remote.pseudo_queues m h

  RelatedHas-insert :
      (new : CrsrRow) (m : Mysql S)
      → RelatedFits new
      → RelatedHas env j m
      → RelatedHas env j (with_answer env new m)
  RelatedHas-insert new m fits h = rw (env.tables.crsr.select-insert new j m.crsr) (
      Each-kept RelatedFits (env.tables.crsr.key new == j) (env.tables.crsr.select j m.crsr) new
        (λ e. fits) h)

  reported-unrelated :
      (cr : Text) (m : Mysql S)
      → env.remote.related_sr cr ≡ none
      → m ≡ reported env m (get_sr_for_cr_report env cr m)
  unfolding get_sr_for_cr_report reported
  reported-unrelated cr m e = ground arith

  reported-untitled :
      (cr sr : Text) (m : Mysql S)
      → env.remote.related_sr cr ≡ some sr
      → env.remote.sr_title sr ≡ none
      → m ≡ reported env m (get_sr_for_cr_report env cr m)
  unfolding get_sr_for_cr_report reported at_0
  reported-untitled cr sr m e untitled = ground arith

  reported-fresh :
      (cr sr : Text) (row : List Text) (m : Mysql S)
      → env.remote.related_sr cr ≡ some sr
      → env.remote.sr_title sr ≡ some row
      → with_answer env (answer_row env cr sr (value 3 row) (value 0 row)) m
        ≡ reported env m (get_sr_for_cr_report env cr m)
  unfolding get_sr_for_cr_report reported at_0 at_3
  reported-fresh cr sr row m e titled = ground arith

  -- What the lookups write to CRSR fits.
  pub reported-KeyFits :
      (remote : RemoteFits env) (cr : Text) (m : Mysql S)
      → KeyFits env j m
      → KeyFits env j (reported env m (get_sr_for_cr_report env cr m))
  reported-KeyFits remote cr m h = elim (Option-cases (env.remote.related_sr cr)) [
    | inl lone ↦ subst (KeyFits env j) (reported-unrelated cr m lone) h
    | inr (sr, related) ↦ elim (Option-cases (env.remote.sr_title sr)) [
      | inl untitled ↦ subst (KeyFits env j) (reported-untitled cr sr m related untitled) h
      | inr (row, titled) ↦
          let new : CrsrRow = answer_row env cr sr (value 3 row) (value 0 row) in
          let (desc, cust) = remote.titles sr row titled in
          subst (KeyFits env j) (reported-fresh cr sr row m related titled) (
            h.0,
            h.1,
            h.2,
            RelatedHas-insert new m
                (record { at_sr = remote.related cr sr related; at_cust = cust; at_bdesc = desc })
                h.3,
          )
    ]
  ]
