-- ===== src/Database/Listing.antt =====
-- What getQmonSrs returns.
use kueued.Prelude.{
  Text, lit, ◌==◌, ℕ, List, [], ◌∷◌, Bool, some, value, ◌≡◌, refl, arith, Bool-cases, inl, inr,
}
use kueued.Items.{SiebelItem}
use kueued.Sql.{Env, Mysql}
use kueued.Database.Siebel.{bound_creator}
use kueued.Database.Cache.{AreTitled, get_sr_for_cr_total}
use kueued.Database.Qmon.{qmon_item, qmon_items, get_qmon_srs, related_item, own_item}

module _ {D : Type 0} {S : Type 0 → Type 0} (env : Env D S) (junk : Bool) (off : ℕ) where
  -- The item of a row has the row's id, and the creator that an update of the item would look up.
  abbrev pub IsItemOf : List Text → SiebelItem → Type 0
  IsItemOf row item = (item.id ≡ value 0 row) × (item.creator ≡ bound_creator env item)

  qmon_item_total :
      (row : List Text) (db : Mysql S)
      → AreTitled env
      → (item : SiebelItem) × (db' : Mysql S) × (qmon_item env junk off row db ≡ some (item, db'))
        × IsItemOf row item
        × (record db { crsr = db'.crsr } ≡ db')
  unfolding qmon_item bound_creator
  qmon_item_total row db titles = elim (Bool-cases (value 16 row == lit "Collaboration")) [
    | inl e ↦
        let (l, db', found, frame, (t, three)) = get_sr_for_cr_total env (value 0 row) db titles in
        (
          related_item env junk off row t,
          db',
          ground (arith, found, three),
          (refl, ground (arith, e)),
          frame,
        )
    | inr e ↦ (own_item env junk off row, db, ground (arith, e), (refl, ground (arith, e)), refl)
  ]

  -- The items are those of the rows, in their order.
  abbrev pub AreItemsOf : List (List Text) → List SiebelItem → Type 0
  AreItemsOf [] [] = Unit
  AreItemsOf [] (x ∷ xs) = ⊥
  AreItemsOf (row ∷ rows) [] = ⊥
  AreItemsOf (row ∷ rows) (x ∷ xs) = IsItemOf row x × AreItemsOf rows xs

  qmon_items_total :
      (rows : List (List Text)) (db : Mysql S)
      → AreTitled env
      → (items : List SiebelItem) × (db' : Mysql S) × (qmon_items env junk off rows db
          ≡ some (items, db'))
        × AreItemsOf rows items
        × (record db { crsr = db'.crsr } ≡ db')
  unfolding qmon_items
  qmon_items_total [] db titles = ([], db, refl, tt, refl)
  qmon_items_total (row ∷ rows) db titles =
      let (item, db1, first, is_item, frame1) = qmon_item_total row db titles in
      let (items, db2, rest, are_items, frame2) = qmon_items_total rows db1 titles in
      (item ∷ items, db2, rw (first, rest), (is_item, are_items), ground (arith, frame1, frame2))

  -- If each related request has a title, getQmonSrs does not fault: it returns one item for each
  -- remote row, in the order of the rows, each with the row's id and the creator that an update
  -- would look up, and of the local tables it writes CRSR alone.
  pub get_qmon_srs_total :
      (db : Mysql S)
      → AreTitled env
      → (items : List SiebelItem) × (db' : Mysql S) × (get_qmon_srs env junk off db
          ≡ some (items, db'))
        × AreItemsOf env.remote.open_srs items
        × (record db { crsr = db'.crsr } ≡ db')
  unfolding get_qmon_srs
  get_qmon_srs_total db titles = qmon_items_total env.remote.open_srs db titles
