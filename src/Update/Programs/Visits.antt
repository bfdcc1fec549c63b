-- ===== src/Update/Programs/Visits.antt =====
-- One round of each loop of /updateDB, and the whole request, as programs: the conditions that their
-- atoms keep, and the conditions that they bring about.
use kueued.Prelude.{Text, ◌==◌, ℕ, List, [], true, ◌≡◌, inl, inr, Bool-cases}
use kueued.Items.{SiebelItem, BomgarItem}
use kueued.Sql.{Env, Mysql}
use kueued.Database.Siebel.{
  get_qmon_siebel_list, delete_siebel_item_from_db, insert_siebel_item_into_db, update_siebel_item,
  update_siebel_queue, siebel_exists_in_db, siebel_queue_changed,
}
use kueued.Database.Chat.{
  update_bomgar_item_in_db, update_bomgar_queue, delete_bomgar_item_from_db, bomgar_exists_in_db,
  get_bomgar_queue_by_id, get_qmon_bomgar_list,
}
use kueued.Update.Loop.{AllAt, AllAt-all}
use kueued.Sql.Rows.{ChatRow}
use kueued.Update.Mirror.{ids}
use kueued.Update.Chats.{chat_ids}
use kueued.Update.Programs.{Prog}
use kueued.Update.Programs.Rely.{Safe, Gives}
use kueued.Update.Programs.Loops.{
  if_Safe, if_Gives, Safe-visits, Gives-visits_later, Safe-deletions, Gives-deletions_later,
}
use kueued.Update.Programs.Request.{bomgar_visit, bomgars, siebel_visit, unity}

module _ {D : Type 0} {S : Type 0 → Type 0} (env : Env D S) (P : Mysql S → Type 0) where
  pub siebel_visit-Safe :
      (clock : ℕ → Text) (i : ℕ) (item : SiebelItem) (rest : Prog (Mysql S))
      → ((now : Text) (m : Mysql S) → P m → P (insert_siebel_item_into_db env now item m))
      → ((now : Text) (m : Mysql S) → P m → P (update_siebel_queue env now item m))
      → ((m : Mysql S) → P m → P (update_siebel_item env item m))
      → Safe P rest
      → Safe P (siebel_visit env clock i item rest)
  unfolding siebel_visit
  siebel_visit-Safe clock i item rest inserts requeues refreshes s m = (
    λ h. h,
    if_Safe P (siebel_exists_in_db env item.id m) _ _
        (λ e now. (
          λ h. h,
          if_Safe P (siebel_queue_changed env item now) _ _
              (λ c n. (requeues (clock i) n, λ o. (refreshes o, s))) (λ c n. (refreshes n, s)),
        ))
        (λ e now. (inserts (clock i) now, s)),
  )

  pub siebel_visit-Gives_later :
      (clock : ℕ → Text) (i : ℕ) (item : SiebelItem) (rest : Prog (Mysql S))
      → Gives P rest
      → Gives P (siebel_visit env clock i item rest)
  unfolding siebel_visit
  siebel_visit-Gives_later clock i item rest g m = inr (
      if_Gives P (siebel_exists_in_db env item.id m) _ _
        (λ e now. inr (
          if_Gives P (siebel_queue_changed env item now) _ _ (λ c n. inr (λ o. inr g))
            (λ c n. inr g)))
        (λ e now. inr g))

  pub siebel_visit-Gives :
      (clock : ℕ → Text) (i : ℕ) (item : SiebelItem) (rest : Prog (Mysql S))
      → ((m : Mysql S) → siebel_exists_in_db env item.id m ≡ true → P m)
      → ((now : Text) (m : Mysql S) → P (insert_siebel_item_into_db env now item m))
      → Gives P (siebel_visit env clock i item rest)
  unfolding siebel_visit
  siebel_visit-Gives clock i item rest there inserts m =
      elim (Bool-cases (siebel_exists_in_db env item.id m)) [
        | inl e ↦ inl (there m e)
        | inr e ↦ inr (
            if_Gives P (siebel_exists_in_db env item.id m) _ _ (λ f. absurd (cc))
              (λ f now. inl (inserts (clock i) now)))
      ]

  pub bomgar_visit-Safe :
      (i : ℕ) (bi : BomgarItem) (rest : Prog (Mysql S))
      → ((m : Mysql S) → P m → P (update_bomgar_item_in_db env bi m))
      → ((m : Mysql S) → P m → P (update_bomgar_queue env bi m))
      → Safe P rest
      → Safe P (bomgar_visit env i bi rest)
  unfolding bomgar_visit
  bomgar_visit-Safe i bi rest inserts renames s m = (
    λ h. h,
    if_Safe P (bomgar_exists_in_db env bi.id m) _ _
        (λ e now. (
          λ h. h,
          if_Safe P (get_bomgar_queue_by_id env bi.id now == bi.name) _ _ (λ c. s)
              (λ c n. (renames n, s)),
        ))
        (λ e now. (inserts now, s)),
  )

  pub bomgar_visit-Gives_later :
      (i : ℕ) (bi : BomgarItem) (rest : Prog (Mysql S))
      → Gives P rest
      → Gives P (bomgar_visit env i bi rest)
  unfolding bomgar_visit
  bomgar_visit-Gives_later i bi rest g m = inr (
      if_Gives P (bomgar_exists_in_db env bi.id m) _ _
        (λ e now. inr (
          if_Gives P (get_bomgar_queue_by_id env bi.id now == bi.name) _ _ (λ c. g) (λ c n. inr g)))
        (λ e now. inr g))

  pub bomgar_visit-Gives :
      (i : ℕ) (bi : BomgarItem) (rest : Prog (Mysql S))
      → ((m : Mysql S) → bomgar_exists_in_db env bi.id m ≡ true → P m)
      → ((m : Mysql S) → P (update_bomgar_item_in_db env bi m))
      → Gives P (bomgar_visit env i bi rest)
  unfolding bomgar_visit
  bomgar_visit-Gives i bi rest there inserts m =
      elim (Bool-cases (bomgar_exists_in_db env bi.id m)) [
        | inl e ↦ inl (there m e)
        | inr e ↦ inr (
            if_Gives P (bomgar_exists_in_db env bi.id m) _ _ (λ f. absurd (cc))
              (λ f now. inl (inserts now)))
      ]

  -- The whole SR part, with a property `Q` of the items of one number.
  pub unity-Safe :
      (j : Text) (Q : SiebelItem → Type 0)
      → ((now : Text) (x : SiebelItem) (m : Mysql S)
          → ((x.id == j) ≡ true → Q x)
          → P m
          → P (insert_siebel_item_into_db env now x m))
      → ((now : Text) (x : SiebelItem) (m : Mysql S)
          → ((x.id == j) ≡ true → Q x)
          → P m
          → P (update_siebel_queue env now x m))
      → ((x : SiebelItem) (m : Mysql S)
          → ((x.id == j) ≡ true → Q x)
          → P m
          → P (update_siebel_item env x m))
      → ((k : Text) (m : Mysql S) → P m → P (delete_siebel_item_from_db env k m))
      → (clock : ℕ → Text) (list : List SiebelItem) (rest : Prog (Mysql S))
      → AllAt (λ x. x.id) j Q list
      → Safe P rest
      → Safe P (unity env clock list rest)
  unfolding unity
  unity-Safe j Q inserts requeues refreshes deletes clock list rest q s =
      Safe-visits P (siebel_visit env clock) (λ x. x.id) j Q
        (λ i x next own.
          siebel_visit-Safe clock i x next (λ now m. inserts now x m own)
            (λ now m. requeues now x m own) (λ m. refreshes x m own))
        0 list _ q
        (λ m. (
          λ h. h,
          Safe-deletions P (delete_siebel_item_from_db env) (ids list) (λ k n unkept. deletes k n)
              (get_qmon_siebel_list env m) rest s,
        ))

  -- The same for the Bomgar part.
  pub bomgars-Safe :
      (j : Text) (Q : BomgarItem → Type 0)
      → ((x : BomgarItem) (m : Mysql S)
          → ((x.id == j) ≡ true → Q x)
          → P m
          → P (update_bomgar_item_in_db env x m))
      → ((x : BomgarItem) (m : Mysql S)
          → ((x.id == j) ≡ true → Q x)
          → P m
          → P (update_bomgar_queue env x m))
      → ((k : Text) (m : Mysql S) → P m → P (delete_bomgar_item_from_db env k m))
      → (list : List BomgarItem) (rest : Prog (Mysql S)) → AllAt (λ bi. bi.id) j Q list
      → Safe P rest
      → Safe P (bomgars env list rest)
  unfolding bomgars
  bomgars-Safe j Q inserts renames deletes list rest q s =
      Safe-visits P (bomgar_visit env) (λ bi. bi.id) j Q
        (λ i x next own. bomgar_visit-Safe i x next (λ m. inserts x m own) (λ m. renames x m own)) 0
        list _ q
        (λ m. (
          λ h. h,
          Safe-deletions P (delete_bomgar_item_from_db env) (chat_ids list)
              (λ k n unkept. deletes k n) (get_qmon_bomgar_list env m) rest s,
        ))

  -- The Bomgar part, for a condition that does not read QMON_CHAT.
  pub bomgars-Safe_other :
      ((m : Mysql S) (rows : S ChatRow) → P m → P (record m { chat = rows }))
      → (list : List BomgarItem) (rest : Prog (Mysql S)) → Safe P rest
      → Safe P (bomgars env list rest)
  unfolding update_bomgar_item_in_db update_bomgar_queue delete_bomgar_item_from_db
  bomgars-Safe_other other list rest s =
      bomgars-Safe [] (λ x. Unit {0}) (λ x m own. other m _) (λ x m own. other m _)
        (λ k m. other m _) list rest (AllAt-all (λ bi. bi.id) [] (λ x. Unit {0}) (λ x. tt) list) s

  pub bomgars-Gives_later :
      (list : List BomgarItem) (rest : Prog (Mysql S))
      → Gives P rest
      → Gives P (bomgars env list rest)
  unfolding bomgars
  bomgars-Gives_later list rest g =
      Gives-visits_later P (bomgar_visit env) (λ bi. bi.id) [] bomgar_visit-Gives_later 0 list _
        (λ m. inr (
          Gives-deletions_later P (delete_bomgar_item_from_db env) (chat_ids list)
            (get_qmon_bomgar_list env m) rest g))
