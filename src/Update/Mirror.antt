-- ===== src/Update/Mirror.antt =====
-- The Unity part of /updateDB: QMON_SIEBEL and CUSTOMER after the two loops.
use mathlib.Core.Path.{fun_ext}
use kueued.Prelude.{Text, ℕ, List, map, contains, none, is_some, if◌then◌else◌, ◌≡◌, arith}
use kueued.Items.{SiebelItem}
use kueued.Sql.{Env, Mysql}
use kueued.Database.Siebel.{get_qmon_siebel_list, delete_siebel_item_from_db}
use kueued.Update.Loop.{for_each, trace, trace-absent, view-for_each, view-prune}
use kueued.Update.Steps.{siebel_step, update_unity}
use kueued.Update.Rows.{entry, visit, entry-siebel_step, entry-delete}

abbrev pub ids : List SiebelItem → List Text
ids list = map (λ item. item.id) list

module _ {D : Type 0} {S : Type 0 → Type 0} (env : Env D S) where
  -- The list of IDs names exactly the keys of the table.
  pub contains-siebel_list :
      (j : Text) (db : Mysql S)
      → contains j (get_qmon_siebel_list env db) ≡ is_some (entry env db j).0
  unfolding get_qmon_siebel_list
  contains-siebel_list j db =
      rw (← fun_ext env.tables.key-siebel) (env.tables.siebel.contains-rows j db.siebel)

  -- After the first loop: each key went through the visits of its items.
  entry-visited :
      (clock : ℕ → Text) (list : List SiebelItem) (db : Mysql S) (j : Text)
      → entry env (for_each (siebel_step env clock) 0 list db) j
        ≡ trace (visit env clock) (λ item. item.id) j 0 list (entry env db j)
  entry-visited clock list db j =
      view-for_each (entry env) (siebel_step env clock) (visit env clock) (λ item. item.id) j
        (entry-siebel_step env clock j) 0 list db

  -- The rows of an SR number after the update: if the list has items with this number, what their
  -- visits make of the old rows; if not, none, but for a CUSTOMER row with no row in QMON_SIEBEL,
  -- which stays.
  pub entry-update_unity :
      (clock : ℕ → Text) (list : List SiebelItem) (db : Mysql S) (j : Text)
      → entry env (update_unity env clock list db) j ≡ (
          if contains j (ids list)
          then trace (visit env clock) (λ item. item.id) j 0 list (entry env db j)
          else (none, if is_some (entry env db j).0 then none else (entry env db j).1))
  unfolding update_unity
  entry-update_unity clock list db j =
      let visited = for_each (siebel_step env clock) 0 list db in
      ground (
        arith,
        view-prune (entry env) (none, none) (delete_siebel_item_from_db env) j (entry-delete env j)
            (ids list) (get_qmon_siebel_list env visited) visited,
        contains-siebel_list j visited,
        entry-visited clock list db j,
        trace-absent (visit env clock) (λ item. item.id) j 0 list (entry env db j),
      )
