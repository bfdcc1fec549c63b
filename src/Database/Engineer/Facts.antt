-- ===== src/Database/Engineer/Facts.antt =====
-- What getUserQueue and getSrInfo return, and where getUserQueue faults.
use kueued.Prelude.{
  Text, lit, ◌==◌, eq_refl, eq_sound, ◌≢◌, ℕ, ℤ, List, [], ◌∷◌, Bool, true, none, some, value,
  if◌then◌else◌, ◌≡◌, arith, Bool-cases, Option-cases, inl, inr,
}
use kueued.Items.{QueueItem, blank_queue_item}
use kueued.Sql.{Env, Mysql}
use kueued.QString.Cdata.{is_open, escape_cdata, is_open-escape_cdata}
use kueued.Database.Lookups.{first_three, get_sr_for_cr, is_bug_id}
use kueued.Database.Cache.{get_unrelated, AreTitled, get_sr_for_cr_related}
use kueued.Database.Escape.{strip}
use kueued.Database.Qmon.{is_yes}
use mathlib.Core.Path.{subst}
use kueued.Database.Escape.Loop.{escape_string-eq-strip}
use kueued.Database.Engineer.{
  engineer_branch, engineer_item, engineer_items, get_user_queue, get_sr_info, common_item,
  info_branch, info_bug,
}

-- Both descriptions can stand in a CDATA section.
abbrev pub IsEscaped : QueueItem → Type 0
IsEscaped i = (is_open 0 i.brief_desc ≡ true) × (is_open 0 i.detailed_desc ≡ true)

abbrev pub All : (QueueItem → Type 0) → List QueueItem → Type 0
All P [] = Unit
All P (x ∷ xs) = P x × All P xs

module _ {D : Type 0} {S : Type 0 → Type 0} (env : Env D S) (junk : Bool) (level : ℤ)
    (off : ℕ) where
  -- getUserQueue faults at a collaboration request that has no related request: it reads the first
  -- text of an empty list.
  pub get_user_queue_faults :
      (subowner : Bool) (engineer : Text) (row : List Text) (rows : List (List Text)) (db : Mysql S)
      → env.remote.user_queue subowner engineer ≡ row ∷ rows
      → value 9 row ≡ lit "Collaboration"
      → env.tables.crsr.select (value 0 row) db.crsr ≡ none
      → env.remote.related_sr (value 0 row) ≡ none
      → get_user_queue env junk level off subowner engineer db ≡ none
  unfolding get_user_queue first_three
  get_user_queue_faults subowner engineer row rows db listed collab unknown alone =
      ground
        (arith, eq_refl (lit "Collaboration"), get_unrelated env (value 0 row) db unknown alone)

  brief-branch :
      (row : List Text) (db db1 : Mysql S) (i : QueueItem)
      → engineer_branch env junk level off row db ≡ some (i, db1)
      → i.brief_desc ≡ escape_cdata (value 11 row)
  unfolding engineer_branch common_item
  brief-branch row db db1 i h = elim (Bool-cases (value 9 row == lit "Collaboration")) [
    | inl e ↦ elim (Option-cases (get_sr_for_cr env (value 0 row) db)) [
      | inl faulted ↦ absurd (ground arith)
      | inr ((l, db2), found) ↦ elim (Option-cases (first_three l)) [
        | inl short ↦ absurd (ground arith)
        | inr (t, three) ↦ ground arith
      ]
    ]
    | inr e ↦ ground arith
  ]

  item-IsEscaped :
      (row : List Text) (db db' : Mysql S) (i : QueueItem)
      → engineer_item env junk level off row db ≡ some (i, db')
      → IsEscaped i
  unfolding engineer_item
  item-IsEscaped row db db' i h = elim (Option-cases (engineer_branch env junk level off row db)) [
    | inl faulted ↦ absurd (ground arith)
    | inr ((i1, db1), found) ↦ (
      ground (arith, brief-branch row db db1 i1 found, is_open-escape_cdata (value 11 row)),
      ground (arith, is_open-escape_cdata (value 24 row)),
    )
  ]

  items-IsEscaped :
      (rows : List (List Text)) (db db' : Mysql S) (items : List QueueItem)
      → engineer_items env junk level off rows db ≡ some (items, db')
      → All IsEscaped items
  unfolding engineer_items
  items-IsEscaped [] db db' items h = subst (All IsEscaped) {x = []} {y = items} (ground arith) tt
  items-IsEscaped (row ∷ rows) db db' items h =
      elim (Option-cases (engineer_item env junk level off row db)) [
        | inl faulted ↦ absurd (ground arith)
        | inr ((i, db1), first) ↦ elim (Option-cases (engineer_items env junk level off rows db1)) [
          | inl faulted ↦ absurd (ground arith)
          | inr ((rest, db2), then_rest) ↦
              subst (All IsEscaped) {x = i ∷ rest} {y = items} (ground arith)
                (item-IsEscaped row db db1 i first, items-IsEscaped rows db1 db2 rest then_rest)
        ]
      ]

  -- Each collaboration request among the rows has a related request.
  abbrev pub AreRelated : List (List Text) → Type 0
  AreRelated [] = Unit
  AreRelated (row ∷ rows) =
      (value 9 row ≡ lit "Collaboration" → env.remote.related_sr (value 0 row) ≢ none)
      × AreRelated rows

  branch_runs :
      (row : List Text) (db : Mysql S)
      → AreTitled env
      → (value 9 row ≡ lit "Collaboration" → env.remote.related_sr (value 0 row) ≢ none)
      → engineer_branch env junk level off row db ≢ none
  unfolding engineer_branch first_three
  branch_runs row db titles related faulted =
      elim (Bool-cases (value 9 row == lit "Collaboration")) [
        | inl e ↦
            let is_cr = eq_sound (value 9 row) (lit "Collaboration") e in
            let (t, db1, found) =
              get_sr_for_cr_related env (value 0 row) db titles (related is_cr) in
            ground arith
        | inr e ↦ ground arith
      ]

  items_total :
      (rows : List (List Text)) (db : Mysql S)
      → AreTitled env
      → AreRelated rows
      → engineer_items env junk level off rows db ≢ none
  unfolding engineer_items engineer_item
  items_total [] db titles related faulted = ground arith
  items_total (row ∷ rows) db titles related faulted =
      elim (Option-cases (engineer_branch env junk level off row db)) [
        | inl stuck ↦ branch_runs row db titles related.0 stuck
        | inr ((i, db1), first) ↦ elim (Option-cases (engineer_item env junk level off row db)) [
          | inl stuck ↦ ground arith
          | inr ((i2, db2), found) ↦ items_total rows db2 titles related.1 (ground arith)
        ]
      ]

  -- If each collaboration request of the engineer has a related request, and each related request a
  -- title, getUserQueue returns, whatever the flags, the level and the offset (a natural number)
  -- that nothing initialises hold, and every request that it returns has descriptions that fit in a
  -- CDATA section.
  pub get_user_queue_total :
      (subowner : Bool) (engineer : Text) (db : Mysql S)
      → AreTitled env
      → AreRelated (env.remote.user_queue subowner engineer)
      → (items : List QueueItem) × (db' : Mysql S) × (get_user_queue env junk level off subowner
            engineer db
          ≡ some (items, db'))
        × All IsEscaped items
  unfolding get_user_queue
  get_user_queue_total subowner engineer db titles related =
      let rows = env.remote.user_queue subowner engineer in
      elim (Option-cases (engineer_items env junk level off rows db)) [
        | inl faulted ↦ absurd (items_total rows db titles related faulted)
        | inr ((items, db'), found) ↦ (items, db', found, items-IsEscaped rows db db' items found)
      ]

  pub get_sr_info_unknown :
      (sr : Text) (db : Mysql S)
      → env.remote.sr_details sr ≡ none
      → get_sr_info env junk level off sr db ≡ some (blank_queue_item junk level, db)
  unfolding get_sr_info
  get_sr_info_unknown sr db h = ground arith

  brief-info_branch :
      (row : List Text)
      → (info_branch env junk level off row).brief_desc ≡ escape_cdata (value 11 row)
  unfolding info_branch common_item
  brief-info_branch row = ground arith

  -- getSrInfo returns for every number: its loop over the text ends. For a number that the remote
  -- database knows, the brief description fits in a CDATA section, the detailed one is what `strip`
  -- leaves of the escaped text, and the bug is given only if it is a bug's number.
  pub get_sr_info_total :
      (sr : Text) (row : List Text) (db : Mysql S)
      → env.remote.sr_details sr ≡ some row
      → (i : QueueItem) × (db' : Mysql S) × (get_sr_info env junk level off sr db ≡ some (i, db'))
        × (is_open 0 i.brief_desc ≡ true)
        × (i.detailed_desc ≡ strip (escape_cdata (value 24 row)))
        × (i.bug_id ≡ (if is_bug_id (value 26 row) then value 26 row else []))
  unfolding get_sr_info
  get_sr_info_total sr row db known =
      let i : QueueItem = record (info_branch env junk level off row) {
        critsit = is_yes (value 12 row);
        detailed_desc = strip (escape_cdata (value 24 row));
        bug_id = if is_bug_id (value 26 row) then value 26 row else [];
      } in
      (
        (info_bug env junk level off i db).0,
        (info_bug env junk level off i db).1,
        ground (arith, escape_string-eq-strip (escape_cdata (value 24 row))),
        ground (arith, brief-info_branch row, is_open-escape_cdata (value 11 row)),
        ground arith,
        ground arith,
      )
