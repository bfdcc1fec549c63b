-- ===== src/Update/Steps.antt =====
-- The bodies of the loops of /updateDB (ServerThread::run): the chats first, then the SR list.
use kueued.Prelude.{Text, ◌==◌, ℕ, List, map, if◌then◌else◌}
use kueued.Items.{SiebelItem, BomgarItem}
use kueued.Sql.{Env, Mysql}
use kueued.Database.Siebel.{
  insert_siebel_item_into_db, update_siebel_item, update_siebel_queue, delete_siebel_item_from_db,
  get_qmon_siebel_list, siebel_exists_in_db, siebel_queue_changed,
}
use kueued.Database.Chat.{
  update_bomgar_item_in_db, update_bomgar_queue, delete_bomgar_item_from_db, get_qmon_bomgar_list,
  bomgar_exists_in_db, get_bomgar_queue_by_id,
}
use kueued.Update.Loop.{for_each, prune}

module _ {D : Type 0} {S : Type 0 → Type 0} (env : Env D S) where
  -- the body of the loop over getChats
  unfoldable pub bomgar_step : ℕ → BomgarItem → Mysql S → Mysql S
  bomgar_step i bi db =
      if bomgar_exists_in_db env bi.id db
      then (if get_bomgar_queue_by_id env bi.id db == bi.name
          then db
          else update_bomgar_queue env bi db)
      else update_bomgar_item_in_db env bi db

  -- the Bomgar part of /updateDB
  unfoldable pub update_bomgars : List BomgarItem → Mysql S → Mysql S
  update_bomgars list db =
      let visited = for_each bomgar_step 0 list db in
      prune (delete_bomgar_item_from_db env) (map (λ bi. bi.id) list)
        (get_qmon_bomgar_list env visited) visited

  -- the body of the loop over getQmonSrs
  unfoldable pub siebel_step : (ℕ → Text) → ℕ → SiebelItem → Mysql S → Mysql S
  siebel_step clock i item db =
      if siebel_exists_in_db env item.id db
      then update_siebel_item env item (
          if siebel_queue_changed env item db
          then update_siebel_queue env (clock i) item db
          else db)
      else insert_siebel_item_into_db env (clock i) item db

  -- the Unity part of /updateDB
  unfoldable pub update_unity : (ℕ → Text) → List SiebelItem → Mysql S → Mysql S
  update_unity clock list db =
      let visited = for_each (siebel_step clock) 0 list db in
      prune (delete_siebel_item_from_db env) (map (λ item. item.id) list)
        (get_qmon_siebel_list env visited) visited
