-- ===== src/Update/Programs/Keys.antt =====
-- The numbers that QMON_SIEBEL names and the ids that QMON_CHAT names, under each atom of an /updateDB.
use kueued.Prelude.{Text, ◌==◌, map, contains, Bool, not, ◌&&◌, ◌||◌, ◌≡◌, sym, ap, ◌∙◌, arith}
use kueued.Items.{SiebelItem, BomgarItem}
use kueued.Sql.{Env, Mysql}
use kueued.Database.Siebel.{
  insert_siebel_item_into_db, update_siebel_item, update_siebel_queue, delete_siebel_item_from_db,
  get_qmon_siebel_list, inserted_row, refreshed_row, requeued_row,
}
use kueued.Database.Chat.{
  chat_row, renamed_row, update_bomgar_item_in_db, update_bomgar_queue, delete_bomgar_item_from_db,
  get_qmon_bomgar_list,
}
use kueued.Update.Rows.{entry-delete, key-inserted, key-refreshed, key-requeued}
use kueued.Update.Mirror.{contains-siebel_list}
use kueued.Update.Chats.{chat_of-delete, contains-bomgar_list}

module _ {D : Type 0} {S : Type 0 → Type 0} (env : Env D S) (j : Text) where
  -- whether QMON_SIEBEL, or QMON_CHAT, names the key
  abbrev pub sr_listed : Mysql S → Bool
  sr_listed m = contains j (get_qmon_siebel_list env m)

  abbrev pub chat_listed : Mysql S → Bool
  chat_listed m = contains j (get_qmon_bomgar_list env m)

  pub sr_listed_of : (a b : Mysql S) → a.siebel ≡ b.siebel → sr_listed a ≡ sr_listed b
  unfolding get_qmon_siebel_list
  sr_listed_of a b h = ap (λ s. contains j (map (λ r. r.id) (env.tables.siebel.rows s))) h

  pub chat_listed_of : (a b : Mysql S) → a.chat ≡ b.chat → chat_listed a ≡ chat_listed b
  unfolding get_qmon_bomgar_list
  chat_listed_of a b h = ap (λ s. contains j (map (λ r. r.id) (env.tables.chat.rows s))) h

  pub sr_listed-insert :
      (now : Text) (item : SiebelItem) (m : Mysql S)
      → sr_listed (insert_siebel_item_into_db env now item m) ≡ (item.id == j) || sr_listed m
  unfolding insert_siebel_item_into_db
  sr_listed-insert now item m = ground (
    arith,
    contains-siebel_list env j m,
    contains-siebel_list env j (insert_siebel_item_into_db env now item m),
    key-inserted env now item,
    env.tables.siebel.select-insert (inserted_row env now item) j m.siebel,
  )

  pub sr_listed-update :
      (item : SiebelItem) (m : Mysql S) → sr_listed (update_siebel_item env item m) ≡ sr_listed m
  unfolding update_siebel_item
  sr_listed-update item m = ground (
    arith,
    contains-siebel_list env j m,
    contains-siebel_list env j (update_siebel_item env item m),
    env.tables.siebel.select-update item.id (refreshed_row env item) j m.siebel
        (key-refreshed env item),
  )

  pub sr_listed-requeue :
      (now : Text) (item : SiebelItem) (m : Mysql S)
      → sr_listed (update_siebel_queue env now item m) ≡ sr_listed m
  unfolding update_siebel_queue
  sr_listed-requeue now item m = ground (
    arith,
    contains-siebel_list env j m,
    contains-siebel_list env j (update_siebel_queue env now item m),
    env.tables.siebel.select-update item.id (requeued_row env now item) j m.siebel
        (key-requeued env now item),
  )

  pub sr_listed-delete :
      (k : Text) (m : Mysql S)
      → sr_listed (delete_siebel_item_from_db env k m) ≡ not (k == j) && sr_listed m
  sr_listed-delete k m = ground (
    arith,
    contains-siebel_list env j m,
    contains-siebel_list env j (delete_siebel_item_from_db env k m),
    entry-delete env j k m,
  )

  pub chat_listed-insert :
      (bi : BomgarItem) (m : Mysql S)
      → chat_listed (update_bomgar_item_in_db env bi m) ≡ (bi.id == j) || chat_listed m
  unfolding update_bomgar_item_in_db
  chat_listed-insert bi m = ground (
    arith,
    contains-bomgar_list env j m,
    contains-bomgar_list env j (update_bomgar_item_in_db env bi m),
    env.tables.key-chat (chat_row bi),
    env.tables.chat.select-insert (chat_row bi) j m.chat,
  )

  pub chat_listed-rename :
      (bi : BomgarItem) (m : Mysql S) → chat_listed (update_bomgar_queue env bi m) ≡ chat_listed m
  unfolding update_bomgar_queue
  chat_listed-rename bi m = ground (
    arith,
    contains-bomgar_list env j m,
    contains-bomgar_list env j (update_bomgar_queue env bi m),
    env.tables.chat.select-update bi.id (renamed_row bi) j m.chat
        (λ r. env.tables.key-chat _ ∙ sym (env.tables.key-chat r)),
  )

  pub chat_listed-delete :
      (k : Text) (m : Mysql S)
      → chat_listed (delete_bomgar_item_from_db env k m) ≡ not (k == j) && chat_listed m
  chat_listed-delete k m = ground (
    arith,
    contains-bomgar_list env j m,
    contains-bomgar_list env j (delete_bomgar_item_from_db env k m),
    chat_of-delete env j k m,
  )
