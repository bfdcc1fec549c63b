-- ===== src/Update/Chats.antt =====
-- The Bomgar part of /updateDB: QMON_CHAT after the two loops.
use mathlib.Core.Path.{fun_ext}
use kueued.Prelude.{
  Text, ◌==◌, eq_iff, ℕ, List, map, contains, true, Option, none, some, is_some, if◌then◌else◌, ◌≡◌,
  refl, sym, ◌∙◌, arith,
}
use kueued.Items.{BomgarItem}
use kueued.Sql.{Env, Mysql}
use kueued.Sql.Rows.{ChatRow}
use kueued.Database.Chat.{
  chat_row, renamed_row, update_bomgar_item_in_db, update_bomgar_queue, delete_bomgar_item_from_db,
  get_qmon_bomgar_list, bomgar_exists_in_db, get_bomgar_queue_by_id, name_or_nochat,
}
use kueued.Update.Loop.{
  for_each, trace, trace-absent, trace_gives, view-for_each, view-prune, AllAt,
}
use kueued.Update.Steps.{bomgar_step, update_bomgars}

abbrev pub chat_ids : List BomgarItem → List Text
chat_ids list = map (λ bi. bi.id) list

-- A known chat gets the new queue name and keeps its SR and date; a new chat is stored whole.
abbrev pub visit_chat : ℕ → BomgarItem → Option ChatRow → Option ChatRow
visit_chat i bi none = some (record { id = bi.id; sr = bi.sr; name = bi.name; date = bi.date })
visit_chat i bi (some r) = some (record { id = r.id; sr = r.sr; name = bi.name; date = r.date })

module _ {D : Type 0} {S : Type 0 → Type 0} (env : Env D S) where
  abbrev pub chat_of : Mysql S → Text → Option ChatRow
  chat_of db id = env.tables.chat.select id db.chat

  chat_of-bomgar_step :
      (j : Text) (i : ℕ) (bi : BomgarItem) (db : Mysql S)
      → chat_of (bomgar_step env i bi db) j
        ≡ (if bi.id == j then visit_chat i bi (chat_of db j) else chat_of db j)
  unfolding bomgar_step bomgar_exists_in_db get_bomgar_queue_by_id update_bomgar_item_in_db
      update_bomgar_queue name_or_nochat
  chat_of-bomgar_step j i bi db =
      let t = env.tables.chat in
      ground (
        arith,
        eq_iff bi.id j,
        eq_iff (name_or_nochat (t.select j db.chat)) bi.name,
        env.tables.key-chat (chat_row bi),
        t.select-insert (chat_row bi) j db.chat,
        t.select-update bi.id (renamed_row bi) j db.chat
            (λ r. env.tables.key-chat _ ∙ sym (env.tables.key-chat r)),
      )

  pub chat_of-delete :
      (j k : Text) (db : Mysql S)
      → chat_of (delete_bomgar_item_from_db env k db) j ≡ (if k == j then none else chat_of db j)
  unfolding delete_bomgar_item_from_db
  chat_of-delete j k db = env.tables.chat.select-delete k j db.chat

  -- The list of ids names exactly the keys of the table.
  pub contains-bomgar_list :
      (j : Text) (db : Mysql S) → contains j (get_qmon_bomgar_list env db) ≡ is_some (chat_of db j)
  unfolding get_qmon_bomgar_list
  contains-bomgar_list j db =
      rw (← fun_ext env.tables.key-chat) (env.tables.chat.contains-rows j db.chat)

  -- A listed chat has after the update what the visits of its items leave: a new one has the id, SR,
  -- name and date of the item, a known one the new name and its old SR and date. A chat that is not
  -- listed is gone.
  pub chat_of-update_bomgars :
      (list : List BomgarItem) (db : Mysql S) (j : Text)
      → chat_of (update_bomgars env list db) j ≡ (
          if contains j (chat_ids list)
          then trace visit_chat (λ bi. bi.id) j 0 list (chat_of db j)
          else none)
  unfolding update_bomgars
  chat_of-update_bomgars list db j =
      let visited = for_each (bomgar_step env) 0 list db in
      ground (
        arith,
        view-prune chat_of none (delete_bomgar_item_from_db env) j (chat_of-delete j)
            (chat_ids list) (get_qmon_bomgar_list env visited) visited,
        contains-bomgar_list j visited,
        view-for_each chat_of (bomgar_step env) visit_chat (λ bi. bi.id) j (chat_of-bomgar_step j) 0
            list db,
        trace-absent visit_chat (λ bi. bi.id) j 0 list (chat_of db j),
      )

  -- The chat is there under the name.
  abbrev pub IsNamed : Text → Option ChatRow → Type 0
  IsNamed name o = (r : ChatRow) × (o ≡ some r) × (r.name ≡ name)

  visit_chat-IsNamed :
      (name : Text) (i : ℕ) (bi : BomgarItem) (o : Option ChatRow)
      → bi.name ≡ name
      → IsNamed name (visit_chat i bi o)
  visit_chat-IsNamed name i bi none h = (_, refl, h)
  visit_chat-IsNamed name i bi (some r) h = (_, refl, h)

  -- After the update a listed chat waits in the queue that the list gives it.
  pub update_bomgars-IsNamed :
      (list : List BomgarItem) (db : Mysql S) (j name : Text)
      → AllAt (λ bi. bi.id) j (λ bi. bi.name ≡ name) list
      → contains j (chat_ids list) ≡ true
      → IsNamed name (chat_of (update_bomgars env list db) j)
  update_bomgars-IsNamed list db j name same listed =
      rw (chat_of-update_bomgars list db j, listed)
        (trace_gives visit_chat (λ bi. bi.id) j (λ o. Unit {0}) (IsNamed name)
          (λ bi. bi.name ≡ name) (λ i x o s _. visit_chat-IsNamed name i x o s)
          (λ i x o s _. visit_chat-IsNamed name i x o s) 0 list (chat_of db j) same listed tt)
