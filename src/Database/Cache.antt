-- ===== src/Database/Cache.antt =====
-- What CRSR and BUG are for: a lookup that has an answer answers the same again, from the local
-- table; and no lookup of an SR behind a collaboration request faults while related requests have
-- titles.
use kueued.Prelude.{
  Text, eq_refl, List, [], ◌∷◌, none, some, ◌≡◌, ◌≢◌, refl, arith, Option-cases, inl, inr, value,
}
use kueued.Sql.{Env, Mysql}
use kueued.Sql.Rows.{CrsrRow, BugRow}
use kueued.QString.Trim.{trimmed}
use kueued.Database.Lookups.{
  at_0, at_3, get_sr_for_cr_report, get_sr_for_cr, get_bug_desc, related_or_blank,
}

module _ {D : Type 0} {S : Type 0 → Type 0} (env : Env D S) where
  -- The row that a stored answer leaves.
  abbrev pub answer_row : Text → Text → Text → Text → CrsrRow
  answer_row cr sr cust desc = record { cr = cr; sr = sr; cust = cust; bdesc = desc }

  abbrev pub with_answer : CrsrRow → Mysql S → Mysql S
  with_answer r db = record db { crsr = env.tables.crsr.insert r db.crsr }

  -- The answer for a request that CRSR does not know.
  reported :
      (cr : Text) (db : Mysql S)
      → env.tables.crsr.select cr db.crsr ≡ none
      → get_sr_for_cr env cr db ≡ get_sr_for_cr_report env cr db
  unfolding get_sr_for_cr
  reported cr db h = ground arith

  pub get_known :
      (cr : Text) (db : Mysql S) (r : CrsrRow)
      → env.tables.crsr.select cr db.crsr ≡ some r
      → get_sr_for_cr env cr db ≡ some (r.sr ∷ r.cust ∷ r.bdesc ∷ [], db)
  unfolding get_sr_for_cr
  get_known cr db r e = ground arith

  pub get_unrelated :
      (cr : Text) (db : Mysql S)
      → env.tables.crsr.select cr db.crsr ≡ none
      → env.remote.related_sr cr ≡ none
      → get_sr_for_cr env cr db ≡ some ([], db)
  unfolding get_sr_for_cr get_sr_for_cr_report
  get_unrelated cr db e alone = ground arith

  pub get_untitled :
      (cr : Text) (db : Mysql S) (sr : Text)
      → env.tables.crsr.select cr db.crsr ≡ none
      → env.remote.related_sr cr ≡ some sr
      → env.remote.sr_title sr ≡ none
      → get_sr_for_cr env cr db ≡ none
  unfolding get_sr_for_cr get_sr_for_cr_report at_0
  get_untitled cr db sr e related untitled = ground arith

  pub get_fresh :
      (cr : Text) (db : Mysql S) (sr : Text) (row : List Text)
      → env.tables.crsr.select cr db.crsr ≡ none
      → env.remote.related_sr cr ≡ some sr
      → env.remote.sr_title sr ≡ some row
      → get_sr_for_cr env cr db
        ≡ some (
          sr ∷ value 3 row ∷ value 0 row ∷ [],
          with_answer (answer_row cr sr (value 3 row) (value 0 row)) db,
        )
  unfolding get_sr_for_cr get_sr_for_cr_report at_0 at_3
  get_fresh cr db sr row e related titled = ground arith

  -- Every related request has a row with its title.
  abbrev pub AreTitled : Type 0
  AreTitled = (cr sr : Text) → env.remote.related_sr cr ≡ some sr → env.remote.sr_title sr ≢ none

  -- The lookup does not fault, writes to CRSR alone, and answers nothing or three texts.
  pub get_sr_for_cr_total :
      (cr : Text) (db : Mysql S)
      → AreTitled
      → (l : List Text) × (db' : Mysql S) × (get_sr_for_cr env cr db ≡ some (l, db'))
        × (record db { crsr = db'.crsr } ≡ db')
        × ((t : Text × Text × Text) × (related_or_blank l ≡ some t))
  unfolding related_or_blank
  get_sr_for_cr_total cr db titles = elim (Option-cases (env.tables.crsr.select cr db.crsr)) [
    | inr (r, e) ↦ (
      r.sr ∷ r.cust ∷ r.bdesc ∷ [],
      db,
      get_known cr db r e,
      refl,
      ((r.sr, r.cust, r.bdesc), refl),
    )
    | inl e ↦ elim (Option-cases (env.remote.related_sr cr)) [
      | inl alone ↦ ([], db, get_unrelated cr db e alone, refl, (([], [], []), refl))
      | inr (sr, related) ↦ elim (Option-cases (env.remote.sr_title sr)) [
        | inl untitled ↦ absurd (titles cr sr related untitled)
        | inr (row, titled) ↦ (
          sr ∷ value 3 row ∷ value 0 row ∷ [],
          with_answer (answer_row cr sr (value 3 row) (value 0 row)) db,
          get_fresh cr db sr row e related titled,
          refl,
          ((sr, value 3 row, value 0 row), refl),
        )
      ]
    ]
  ]

  -- A request that has a related request is answered with three texts.
  pub get_sr_for_cr_related :
      (cr : Text) (db : Mysql S)
      → AreTitled
      → env.remote.related_sr cr ≢ none
      → (t : Text × Text × Text) × (db' : Mysql S) × (get_sr_for_cr env cr db
          ≡ some (t.0 ∷ t.1 ∷ t.2 ∷ [], db'))
  get_sr_for_cr_related cr db titles has_related =
      elim (Option-cases (env.tables.crsr.select cr db.crsr)) [
        | inr (r, e) ↦ ((r.sr, r.cust, r.bdesc), db, get_known cr db r e)
        | inl e ↦ elim (Option-cases (env.remote.related_sr cr)) [
          | inl alone ↦ absurd (has_related alone)
          | inr (sr, related) ↦ elim (Option-cases (env.remote.sr_title sr)) [
            | inl untitled ↦ absurd (titles cr sr related untitled)
            | inr (row, titled) ↦ (
              (sr, value 3 row, value 0 row),
              with_answer (answer_row cr sr (value 3 row) (value 0 row)) db,
              get_fresh cr db sr row e related titled,
            )
          ]
        ]
      ]

  bug_stored :
      (bug title : Text) (db : Mysql S)
      → env.tables.bug.select bug db.bug ≡ none
      → env.tables.bug.select bug
          (env.tables.bug.insert (record { id = bug; title = title }) db.bug)
        ≡ some (record { id = bug; title = title })
  bug_stored bug title db h =
      let r : BugRow = record { id = bug; title = title } in
      ground (arith, eq_refl bug, env.tables.key-bug r, env.tables.bug.select-insert r bug db.bug)

  -- The title of a bug is fetched once: the second call has it from BUG and writes nothing.
  pub get_bug_desc_again :
      (bug : Text) (db : Mysql S)
      → get_bug_desc env bug (get_bug_desc env bug db).1
        ≡ ((get_bug_desc env bug db).0, (get_bug_desc env bug db).1)
  unfolding get_bug_desc
  get_bug_desc_again bug db =
      ground
        (arith, bug_stored (trimmed bug) (trimmed (env.remote.bug_page_title (trimmed bug))) db)
