-- ===== src/Database/Engineer/Frame.antt =====
-- getUserQueue and getSrInfo write no table but those of stored answers.
use kueued.Prelude.{
  Text, lit, ◌==◌, List, [], ◌∷◌, Bool, some, value, ℕ, ℤ, ◌≡◌, sym, arith, Option-cases,
  Bool-cases, inl, inr,
}
use kueued.Items.{QueueItem}
use kueued.Sql.{Env, Mysql}
use kueued.Database.Lookups.{first_three, get_sr_for_cr}
use kueued.Database.Frame.{Agree, Agree-trans, get_sr_for_cr-Agree, get_bug_desc-Agree}
use kueued.Database.Engineer.{
  engineer_cr, engineer_branch, with_bug, engineer_rest, engineer_item, engineer_items,
  get_user_queue, info_rest, info_bug, info_found, get_sr_info,
}

module _ {D : Type 0} {S : Type 0 → Type 0} (env : Env D S) (junk : Bool) (level : ℤ)
    (off : ℕ) where
  cr-Agree :
      (row : List Text) (l : List Text) (db db' : Mysql S) (i : QueueItem)
      → engineer_cr env junk level off row (l, db) ≡ some (i, db')
      → db ≡ db'
  unfolding engineer_cr
  cr-Agree row l db db' i h = elim (Option-cases (first_three l)) [
    | inl e ↦ absurd (ground arith)
    | inr ((sr, cust, desc), e) ↦ ground arith
  ]

  branch-Agree :
      (row : List Text) (db db' : Mysql S) (i : QueueItem)
      → engineer_branch env junk level off row db ≡ some (i, db')
      → Agree db db'
  unfolding engineer_branch
  branch-Agree row db db' i h = elim (Bool-cases (value 9 row == lit "Collaboration")) [
    | inl e ↦ elim (Option-cases (get_sr_for_cr env (value 0 row) db)) [
      | inl f ↦ absurd (ground arith)
      | inr ((l, db1), f) ↦
          let same = cr-Agree row l db1 db' i (ground arith) in
          rw (sym same) (get_sr_for_cr-Agree env (value 0 row) db db1 l f)
    ]
    | inr e ↦ ground arith
  ]

  with_bug-Agree : (i : QueueItem) (db : Mysql S) → Agree db (with_bug env junk level off i db).1
  unfolding with_bug
  with_bug-Agree i db = ground (arith, get_bug_desc-Agree env i.bug_id db)

  info_bug-Agree : (i : QueueItem) (db : Mysql S) → Agree db (info_bug env junk level off i db).1
  unfolding info_bug
  info_bug-Agree i db = ground (arith, get_bug_desc-Agree env i.bug_id db)

  item-Agree :
      (row : List Text) (db db' : Mysql S) (i : QueueItem)
      → engineer_item env junk level off row db ≡ some (i, db')
      → Agree db db'
  unfolding engineer_item
  item-Agree row db db' i h = elim (Option-cases (engineer_branch env junk level off row db)) [
    | inl e ↦ absurd (ground arith)
    | inr ((i1, db1), e) ↦
        let done = with_bug env junk level off (engineer_rest env junk level off row i1) db1 in
        let last : done.1 ≡ db' = ground arith in
        rw (sym last) (
          Agree-trans db db1 done.1 (branch-Agree row db db1 i1 e)
            (with_bug-Agree (engineer_rest env junk level off row i1) db1))
  ]

  items-Agree :
      (rows : List (List Text)) (db db' : Mysql S) (items : List QueueItem)
      → engineer_items env junk level off rows db ≡ some (items, db')
      → Agree db db'
  unfolding engineer_items
  items-Agree [] db db' items h = ground arith
  items-Agree (row ∷ rows) db db' items h =
      elim (Option-cases (engineer_item env junk level off row db)) [
        | inl e ↦ absurd (ground arith)
        | inr ((i, db1), e) ↦ elim (Option-cases (engineer_items env junk level off rows db1)) [
          | inl f ↦ absurd (ground arith)
          | inr ((is, db2), f) ↦
              let last : db2 ≡ db' = ground arith in
              rw (sym last)
                (Agree-trans db db1 db2 (item-Agree row db db1 i e) (items-Agree rows db1 db2 is f))
        ]
      ]

  pub get_user_queue-Agree :
      (subowner : Bool) (engineer : Text) (db db' : Mysql S) (items : List QueueItem)
      → get_user_queue env junk level off subowner engineer db ≡ some (items, db')
      → Agree db db'
  unfolding get_user_queue
  get_user_queue-Agree subowner engineer db db' items h =
      items-Agree (env.remote.user_queue subowner engineer) db db' items h

  pub get_sr_info-Agree :
      (sr : Text) (db db' : Mysql S) (i : QueueItem)
      → get_sr_info env junk level off sr db ≡ some (i, db')
      → Agree db db'
  unfolding get_sr_info info_found
  get_sr_info-Agree sr db db' i h = elim (Option-cases (env.remote.sr_details sr)) [
    | inl e ↦ ground arith
    | inr (row, e) ↦ elim (Option-cases (info_rest env junk level off row)) [
      | inl f ↦ absurd (ground arith)
      | inr (i1, f) ↦
          let last : (info_bug env junk level off i1 db).1 ≡ db' = ground arith in
          rw (sym last) (info_bug-Agree i1 db)
    ]
  ]
