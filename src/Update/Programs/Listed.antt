-- ===== src/Update/Programs/Listed.antt =====
-- A whole /updateDB as a program: it keeps each number of the remote lists in the local tables, keeps
-- any other out, and brings both about.
use kueued.Prelude.{ap, sym, Bool, Text, ℕ, List, contains, Bool, ◌≡◌, refl, ◌∙◌, arith, eq_sound}
use kueued.Items.{SiebelItem, BomgarItem}
use kueued.Sql.{Env, Mysql}
use kueued.Database.Siebel.{
  insert_siebel_item_into_db, update_siebel_item, update_siebel_queue, delete_siebel_item_from_db,
  get_qmon_siebel_list, siebel_exists_in_db,
}
use kueued.Database.Chat.{delete_bomgar_item_from_db, get_qmon_bomgar_list, bomgar_exists_in_db}
use kueued.Update.Loop.{AllAt-all}
use kueued.Update.Mirror.{ids, contains-siebel_list}
use kueued.Update.Chats.{chat_ids, contains-bomgar_list}
use kueued.Update.Programs.{Prog, done}
use kueued.Update.Programs.Rely.{Safe, Gives}
use kueued.Update.Programs.Mirrors.{mirror-Safe, mirror-Gives}
use kueued.Update.Programs.Lookups.{
  ReadsMain, update_program-SafeMain, update_program-Gives, lookups-Gives_later,
}
use kueued.Update.Programs.Keys.{
  sr_listed, chat_listed, sr_listed_of, chat_listed_of, sr_listed-insert, sr_listed-update,
  sr_listed-requeue, sr_listed-delete, chat_listed-insert, chat_listed-rename, chat_listed-delete,
}
use kueued.Update.Programs.Visits.{
  siebel_visit-Safe, siebel_visit-Gives, siebel_visit-Gives_later, bomgar_visit-Safe,
  bomgar_visit-Gives, bomgar_visit-Gives_later, bomgars-Safe_other, bomgars-Gives_later, unity-Safe,
}
use kueued.Update.Programs.Request.{bomgar_visit, bomgars, siebel_visit, unity, update_program}

module _ {D : Type 0} {S : Type 0 → Type 0} (env : Env D S) (j : Text) (b : Bool) where
  -- QMON_SIEBEL, or QMON_CHAT, names the key if and only if `b`.
  abbrev pub SrListed : Mysql S → Type 0
  SrListed m = sr_listed env j m ≡ b

  abbrev pub ChatListed : Mysql S → Type 0
  ChatListed m = chat_listed env j m ≡ b

  unity-SafeSr :
      (clock : ℕ → Text) (list : List SiebelItem) (rest : Prog (Mysql S))
      → contains j (ids list) ≡ b
      → Safe SrListed rest
      → Safe SrListed (unity env clock list rest)
  unfolding unity
  unity-SafeSr clock list rest named s =
      mirror-Safe (get_qmon_siebel_list env) (delete_siebel_item_from_db env)
        (siebel_visit env clock) (λ item. item.id) j b (sr_listed-delete env j)
        (λ i x next own.
          siebel_visit-Safe env SrListed clock i x next
            (λ now m h. ground (arith, sr_listed-insert env j now x m, own))
            (λ now m h. sr_listed-requeue env j now x m ∙ h)
            (λ m h. sr_listed-update env j x m ∙ h))
        list rest named s

  unity-GivesSr :
      (clock : ℕ → Text) (list : List SiebelItem) (rest : Prog (Mysql S))
      → contains j (ids list) ≡ b
      → Gives SrListed (unity env clock list rest)
  unfolding unity siebel_exists_in_db
  unity-GivesSr clock list rest named =
      mirror-Gives (get_qmon_siebel_list env) (delete_siebel_item_from_db env)
        (siebel_visit env clock) (λ item. item.id) j b (sr_listed-delete env j)
        (siebel_visit-Gives_later env SrListed clock)
        (λ i x next yes_j own.
          siebel_visit-Gives env SrListed clock i x next
            (λ m there. ground (arith, contains-siebel_list env j m, eq_sound x.id j own))
            (λ now m. ground (arith, sr_listed-insert env j now x m)))
        list rest named

  bomgars-SafeChat :
      (list : List BomgarItem) (rest : Prog (Mysql S))
      → contains j (chat_ids list) ≡ b
      → Safe ChatListed rest
      → Safe ChatListed (bomgars env list rest)
  unfolding bomgars
  bomgars-SafeChat list rest named s =
      mirror-Safe (get_qmon_bomgar_list env) (delete_bomgar_item_from_db env) (bomgar_visit env)
        (λ bi. bi.id) j b (chat_listed-delete env j)
        (λ i x next own.
          bomgar_visit-Safe env ChatListed i x next
            (λ m h. ground (arith, chat_listed-insert env j x m, own))
            (λ m h. chat_listed-rename env j x m ∙ h))
        list rest named s

  bomgars-GivesChat :
      (list : List BomgarItem) (rest : Prog (Mysql S))
      → contains j (chat_ids list) ≡ b
      → Gives ChatListed (bomgars env list rest)
  unfolding bomgars bomgar_exists_in_db
  bomgars-GivesChat list rest named =
      mirror-Gives (get_qmon_bomgar_list env) (delete_bomgar_item_from_db env) (bomgar_visit env)
        (λ bi. bi.id) j b (chat_listed-delete env j) (bomgar_visit-Gives_later env ChatListed)
        (λ i x next yes_j own.
          bomgar_visit-Gives env ChatListed i x next
            (λ m there. ground (arith, contains-bomgar_list env j m, eq_sound x.id j own))
            (λ m. ground (arith, chat_listed-insert env j x m)))
        list rest named

  -- The SR part leaves QMON_CHAT.
  unity-SafeChat :
      (clock : ℕ → Text) (list : List SiebelItem) (rest : Prog (Mysql S))
      → Safe ChatListed rest
      → Safe ChatListed (unity env clock list rest)
  unfolding insert_siebel_item_into_db update_siebel_queue update_siebel_item
      delete_siebel_item_from_db
  unity-SafeChat clock list rest s =
      unity-Safe env ChatListed j (λ x. Unit {0})
        (λ now x m own h. chat_listed_of env j _ m refl ∙ h)
        (λ now x m own h. chat_listed_of env j _ m refl ∙ h)
        (λ x m own h. chat_listed_of env j _ m refl ∙ h)
        (λ k m h. chat_listed_of env j _ m refl ∙ h) clock list rest
        (AllAt-all (λ item. item.id) j (λ x. Unit {0}) (λ x. tt) list) s

  SrListed-main : ReadsMain SrListed
  SrListed-main m n same h = sr_listed_of env j n m (sym (ap (λ t. t.0) same)) ∙ h

  ChatListed-main : ReadsMain ChatListed
  ChatListed-main m n same h = chat_listed_of env j n m (sym (ap (λ t. t.2) same)) ∙ h

  module _ (clock : ℕ → Text) (full : Bool) (chats : List BomgarItem) (list : List SiebelItem) where
    pub update_program-SafeSr :
        contains j (ids list) ≡ b → Safe SrListed (update_program env clock full chats list)
    update_program-SafeSr named =
        update_program-SafeMain env SrListed SrListed-main clock full chats list
          (λ rest.
            bomgars-Safe_other env SrListed (λ m rows h. sr_listed_of env j _ m refl ∙ h) chats
              rest)
          (unity-SafeSr clock list done named tt)

    pub update_program-GivesSr :
        contains j (ids list) ≡ b → Gives SrListed (update_program env clock full chats list)
    update_program-GivesSr named = update_program-Gives env SrListed clock full chats list (
        bomgars-Gives_later env SrListed chats _ (
          lookups-Gives_later env SrListed env.remote.open_srs (unity env clock list done)
            (unity-GivesSr clock list done named)))

    pub update_program-SafeChat :
        contains j (chat_ids chats) ≡ b → Safe ChatListed (update_program env clock full chats list)
    update_program-SafeChat named =
        update_program-SafeMain env ChatListed ChatListed-main clock full chats list
          (λ rest. bomgars-SafeChat chats rest named) (unity-SafeChat clock list done tt)

    pub update_program-GivesChat :
        contains j (chat_ids chats) ≡ b
        → Gives ChatListed (update_program env clock full chats list)
    update_program-GivesChat named =
        update_program-Gives env ChatListed clock full chats list (bomgars-GivesChat chats _ named)
