-- ===== src/Update/Request.antt =====
-- The whole of the request /updateDB, and /updateDB/full.
use kueued.Prelude.{
  Text, ℕ, List, [], ◌∷◌, map, contains, value, Bool, true, Option, none, some, is_some,
  if◌then◌else◌, ◌>>=◌, ◌≡◌, refl, sym, ◌∙◌, ap, arith, Bool-cases, inl, inr,
}
use kueued.Items.{SiebelItem, BomgarItem}
use kueued.Sql.{Env, Mysql}
use kueued.Sql.Rows.{ChatRow}
use kueued.Database.Siebel.{
  get_qmon_siebel_list, delete_siebel_item_from_db, update_siebel_item, update_siebel_queue,
  insert_siebel_item_into_db,
}
use kueued.Database.Chat.{bomgar_item, get_chats, get_qmon_bomgar_list}
use kueued.Database.Lookups.{update_pseudo_queues}
use kueued.Database.Cache.{AreTitled}
use kueued.Database.Qmon.{get_qmon_srs}
use kueued.Database.Listing.{AreItemsOf, get_qmon_srs_total}
use kueued.Update.Loop.{for_each, trace_gives, AllAt-all, for_each_keeps, prune_keeps}
use kueued.Update.Steps.{siebel_step, update_bomgars, update_unity}
use kueued.Update.Mirror.{ids}
use kueued.Update.Effects.{siebel_list-update_unity}
use kueued.Update.Chats.{
  chat_ids, visit_chat, chat_of, contains-bomgar_list, chat_of-update_bomgars,
}

module _ {D : Type 0} {S : Type 0 → Type 0} (env : Env D S) where
  -- `none`: getQmonSrs faulted
  unfoldable pub update_db : Bool → ℕ → (ℕ → Text) → Bool → Mysql S → Option (Mysql S)
  update_db junk off clock full db = do
    let start = if full then update_pseudo_queues env db else db
    (items, listed) ← get_qmon_srs env junk off (update_bomgars env (get_chats env) start)
    some (update_unity env clock items listed)

  chat-siebel_step :
      (clock : ℕ → Text) (i : ℕ) (x : SiebelItem) (m : Mysql S)
      → (siebel_step env clock i x m).chat ≡ m.chat
  unfolding siebel_step update_siebel_item update_siebel_queue insert_siebel_item_into_db
  chat-siebel_step clock i x m = ground arith

  -- QMON_CHAT has exactly the ids of the chats.
  pub bomgar_list-update_bomgars :
      (list : List BomgarItem) (db : Mysql S) (j : Text)
      → contains j (get_qmon_bomgar_list env (update_bomgars env list db))
        ≡ contains j (chat_ids list)
  bomgar_list-update_bomgars list db j =
      contains-bomgar_list env j (update_bomgars env list db)
      ∙ ap is_some (chat_of-update_bomgars env list db j)
      ∙ (elim (Bool-cases (contains j (chat_ids list))) [
        | inl e ↦ rw e (
            trace_gives visit_chat (λ bi. bi.id) j (λ o. Unit {0}) (λ o. is_some o ≡ true)
              (λ x. Unit {0}) (λ i x o _ _. is_some-visit_chat i x o)
              (λ i x o _ _. is_some-visit_chat i x o) 0 list (chat_of env db j)
              (AllAt-all (λ bi. bi.id) j (λ x. Unit {0}) (λ x. tt) list) e tt)
        | inr e ↦ rw e
      ])
    where
      is_some-visit_chat :
          (i : ℕ) (x : BomgarItem) (o : Option ChatRow) → is_some (visit_chat i x o) ≡ true
      is_some-visit_chat i x none = refl
      is_some-visit_chat i x (some r) = refl

  ids-items :
      (junk : Bool) (off : ℕ) (rows : List (List Text)) (items : List SiebelItem)
      → AreItemsOf env junk off rows items
      → ids items ≡ map (value 0) rows
  ids-items junk off [] [] h = refl
  ids-items junk off [] (x ∷ xs) h = absurd h
  ids-items junk off (row ∷ rows) [] h = absurd h
  ids-items junk off (row ∷ rows) (x ∷ xs) h = ground (arith, ids-items junk off rows xs h.1, h.0.0)

  chat_ids-get_chats : chat_ids (get_chats env) ≡ map (value 0) env.remote.chats
  unfolding get_chats
  chat_ids-get_chats = go env.remote.chats
    where
      go : (rows : List (List Text)) → chat_ids (map (bomgar_item env) rows) ≡ map (value 0) rows
      go [] = refl
      go (row ∷ rows) = ap (◌∷◌ (value 0 row)) (go rows)

  bomgar_list_of_chat :
      (a b : Mysql S) → a.chat ≡ b.chat → get_qmon_bomgar_list env a ≡ get_qmon_bomgar_list env b
  unfolding get_qmon_bomgar_list
  bomgar_list_of_chat a b h = ap (λ (s : S ChatRow). map (λ r. r.id) (env.tables.chat.rows s)) h

  -- The SR part does not touch QMON_CHAT.
  chat-update_unity :
      (clock : ℕ → Text) (list : List SiebelItem) (db : Mysql S)
      → (update_unity env clock list db).chat ≡ db.chat
  unfolding update_unity
  chat-update_unity clock list db =
      prune_keeps (λ (m : Mysql S). m.chat) (delete_siebel_item_from_db env)
        (unfold delete_siebel_item_from_db in λ k m. refl) (ids list)
        (get_qmon_siebel_list env (for_each (siebel_step env clock) 0 list db))
        (for_each (siebel_step env clock) 0 list db)
      ∙ for_each_keeps (λ (m : Mysql S). m.chat) (siebel_step env clock) (chat-siebel_step clock) 0
          list db

  -- If each related request has a title, /updateDB runs to its end, whatever the flags and the
  -- offset (a natural number) that nothing initialises hold, and then QMON_SIEBEL has exactly the SR numbers of the remote list, and
  -- QMON_CHAT exactly the ids of the remote chats.
  pub update_db_total :
      (junk : Bool) (off : ℕ) (clock : ℕ → Text) (full : Bool) (db : Mysql S)
      → AreTitled env
      → (db' : Mysql S) × (update_db junk off clock full db ≡ some db')
        × ((j : Text)
            → contains j (get_qmon_siebel_list env db')
              ≡ contains j (map (value 0) env.remote.open_srs))
        × ((j : Text)
            → contains j (get_qmon_bomgar_list env db')
              ≡ contains j (map (value 0) env.remote.chats))
  unfolding update_db
  update_db_total junk off clock full db titles =
      let start : Mysql S = if full then update_pseudo_queues env db else db in
      let chatted = update_bomgars env (get_chats env) start in
      let (items, listed, runs, are_items, frame) =
        get_qmon_srs_total env junk off chatted titles in
      let same_chats : (update_unity env clock items listed).chat ≡ chatted.chat =
        chat-update_unity clock items listed ∙ ap (λ (m : Mysql S). m.chat) (sym frame) in
      (
        update_unity env clock items listed,
        rw runs,
        λ j.
            siebel_list-update_unity env clock items listed j
            ∙ ap (contains j) (ids-items junk off env.remote.open_srs items are_items),
        λ j.
            ap (contains j)
              (bomgar_list_of_chat (update_unity env clock items listed) chatted same_chats)
            ∙ bomgar_list-update_bomgars (get_chats env) start j
            ∙ ap (contains j) chat_ids-get_chats,
      )
