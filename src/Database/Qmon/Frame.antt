-- ===== src/Database/Qmon/Frame.antt =====
-- getQmonSrs writes no table but those of stored answers.
use kueued.Prelude.{
  Text, lit, ◌==◌, List, [], ◌∷◌, Bool, some, value, ℕ, ◌≡◌, sym, arith, Option-cases, Bool-cases,
  inl, inr,
}
use kueued.Items.{SiebelItem}
use kueued.Sql.{Env, Mysql}
use kueued.Database.Lookups.{get_sr_for_cr, related_or_blank}
use kueued.Database.Frame.{Agree, Agree-trans, get_sr_for_cr-Agree}
use kueued.Database.Qmon.{cr_item, qmon_item, qmon_items, get_qmon_srs}

module _ {D : Type 0} {S : Type 0 → Type 0} (env : Env D S) (junk : Bool) (off : ℕ) where
  cr_item-same :
      (row l : List Text) (db db' : Mysql S) (i : SiebelItem)
      → cr_item env junk off row (l, db) ≡ some (i, db')
      → db ≡ db'
  unfolding cr_item
  cr_item-same row l db db' i h = elim (Option-cases (related_or_blank l)) [
    | inl e ↦ absurd (ground arith)
    | inr (t, e) ↦ ground arith
  ]

  qmon_item-Agree :
      (row : List Text) (db db' : Mysql S) (i : SiebelItem)
      → qmon_item env junk off row db ≡ some (i, db')
      → Agree db db'
  unfolding qmon_item
  qmon_item-Agree row db db' i h = elim (Bool-cases (value 16 row == lit "Collaboration")) [
    | inl e ↦ elim (Option-cases (get_sr_for_cr env (value 0 row) db)) [
      | inl f ↦ absurd (ground arith)
      | inr ((l, db1), f) ↦
          let same = cr_item-same row l db1 db' i (ground arith) in
          rw (sym same) (get_sr_for_cr-Agree env (value 0 row) db db1 l f)
    ]
    | inr e ↦ ground arith
  ]

  qmon_items-Agree :
      (rows : List (List Text)) (db db' : Mysql S) (items : List SiebelItem)
      → qmon_items env junk off rows db ≡ some (items, db')
      → Agree db db'
  unfolding qmon_items
  qmon_items-Agree [] db db' items h = ground arith
  qmon_items-Agree (row ∷ rows) db db' items h =
      elim (Option-cases (qmon_item env junk off row db)) [
        | inl e ↦ absurd (ground arith)
        | inr ((i, db1), e) ↦ elim (Option-cases (qmon_items env junk off rows db1)) [
          | inl f ↦ absurd (ground arith)
          | inr ((is, db2), f) ↦
              let last : db2 ≡ db' = ground arith in
              rw (sym last) (
                Agree-trans db db1 db2 (qmon_item-Agree row db db1 i e)
                  (qmon_items-Agree rows db1 db2 is f))
        ]
      ]

  pub get_qmon_srs-Agree :
      (db db' : Mysql S) (items : List SiebelItem)
      → get_qmon_srs env junk off db ≡ some (items, db')
      → Agree db db'
  unfolding get_qmon_srs
  get_qmon_srs-Agree db db' items h = qmon_items-Agree env.remote.open_srs db db' items h
