-- ===== src/Database/Chat.antt =====
-- The statements on QMON_CHAT, the support chats ("Bomgar" items) that wait in a queue.
use kueued.Prelude.{
  Text, lit, ◌++◌, [], ◌∷◌, List, map, Option, none, some, Bool, value, is_some, if◌then◌else◌,
}
use kueued.Items.{BomgarItem}
use kueued.Sql.{Env, Mysql}
use kueued.Sql.Rows.{ChatRow}

-- SELECT … FROM QMON_CHAT WHERE ( SR = :id ), the first row
unfoldable pub first_with_sr : (Text → Text → Bool) → Text → List ChatRow → Option ChatRow
first_with_sr matches sr [] = none
first_with_sr matches sr (r ∷ rows) =
    if matches r.sr sr then some r else first_with_sr matches sr rows

-- getBomgarQueue and getBomgarQueueById
unfoldable pub name_or_nochat : Option ChatRow → Text
name_or_nochat (some r) = r.name
name_or_nochat none = lit "NOCHAT"

abbrev pub chat_row : BomgarItem → ChatRow
chat_row bi = record { id = bi.id; sr = bi.sr; name = bi.name; date = bi.date }

abbrev pub renamed_row : BomgarItem → ChatRow → ChatRow
renamed_row bi r = record r { name = bi.name }

module _ {D : Type 0} {S : Type 0 → Type 0} (env : Env D S) where
  unfoldable pub update_bomgar_item_in_db : BomgarItem → Mysql S → Mysql S
  update_bomgar_item_in_db bi db = record db { chat = env.tables.chat.insert (chat_row bi) db.chat }

  unfoldable pub update_bomgar_queue : BomgarItem → Mysql S → Mysql S
  update_bomgar_queue bi db = record db {
    chat = env.tables.chat.update bi.id (renamed_row bi) db.chat;
  }

  unfoldable pub delete_bomgar_item_from_db : Text → Mysql S → Mysql S
  delete_bomgar_item_from_db id db = record db { chat = env.tables.chat.delete id db.chat }

  unfoldable pub get_qmon_bomgar_list : Mysql S → List Text
  get_qmon_bomgar_list db = map (λ r. r.id) (env.tables.chat.rows db.chat)

  unfoldable pub bomgar_exists_in_db : Text → Mysql S → Bool
  bomgar_exists_in_db id db = is_some (env.tables.chat.select id db.chat)

  unfoldable pub get_bomgar_queue_by_id : Text → Mysql S → Text
  get_bomgar_queue_by_id id db = name_or_nochat (env.tables.chat.select id db.chat)

  unfoldable pub get_bomgar_queue : Text → Mysql S → Text
  get_bomgar_queue id db =
      name_or_nochat (first_with_sr env.tables.matches id (env.tables.chat.rows db.chat))

  unfoldable pub is_chat : Text → Mysql S → Bool
  is_chat id db = is_some (first_with_sr env.tables.matches id (env.tables.chat.rows db.chat))

  unfoldable pub get_current_bomgars : Mysql S → List Text
  get_current_bomgars db = map (λ r. r.sr ++ (lit "|||" ++ r.name)) (env.tables.chat.rows db.chat)

  -- getChats: one item for each remote row
  unfoldable pub bomgar_item : List Text → BomgarItem
  bomgar_item row = record {
    id = value 0 row;
    sr = value 1 row;
    name = value 2 row;
    date = value 3 row;
  }

  unfoldable pub get_chats : List BomgarItem
  unfolding bomgar_item
  get_chats = map bomgar_item env.remote.chats
