-- ===== src/Update/Programs/Request.antt =====
-- The request /updateDB (ServerThread::run) as a program: one atom for each call of Database on the
-- local tables, those that getQmonSrs makes included. The lists are what getChats and getQmonSrs give
-- this thread.
use kueued.Prelude.{
  Text, ◌==◌, ℕ, suc, List, [], ◌∷◌, map, contains, if◌then◌else◌, Bool, true, false, Option, none,
  some, value, lit,
}
use kueued.Database.Lookups.{get_sr_for_cr_mysql, get_sr_for_cr_report, update_pseudo_queues}
use kueued.Items.{SiebelItem, BomgarItem}
use kueued.Sql.{Env, Mysql}
use kueued.Database.Siebel.{
  insert_siebel_item_into_db, update_siebel_item, update_siebel_queue, delete_siebel_item_from_db,
  get_qmon_siebel_list, siebel_exists_in_db, siebel_queue_changed,
}
use kueued.Database.Chat.{
  update_bomgar_item_in_db, update_bomgar_queue, delete_bomgar_item_from_db, get_qmon_bomgar_list,
  bomgar_exists_in_db, get_bomgar_queue_by_id,
}
use kueued.Update.Programs.{Prog, done, fault, atom, ask, write}

-- l.isEmpty()
unfoldable pub no_texts : List Text → Bool
no_texts [] = true
no_texts (a ∷ l) = false

module _ {M Item : Type 0} where
  -- the first loop: the rounds one after the other, then the rest
  unfoldable pub visits : (ℕ → Item → Prog M → Prog M) → ℕ → List Item → Prog M → Prog M
  visits visit i [] rest = rest
  visits visit i (x ∷ xs) rest = visit i x (visits visit (suc i) xs rest)

module _ {M : Type 0} where
  -- the second loop
  unfoldable pub deletions : (Text → M → M) → List Text → List Text → Prog M → Prog M
  deletions del keep [] rest = rest
  deletions del keep (id ∷ ids) rest =
      let later = deletions del keep ids rest in
      if contains id keep then later else write (del id) later

module _ {D : Type 0} {S : Type 0 → Type 0} (env : Env D S) where
  unfoldable pub bomgar_visit : ℕ → BomgarItem → Prog (Mysql S) → Prog (Mysql S)
  bomgar_visit i bi rest = ask λ db.
      if bomgar_exists_in_db env bi.id db
      then ask (λ now.
        if get_bomgar_queue_by_id env bi.id now == bi.name
        then rest
        else write (update_bomgar_queue env bi) rest)
      else write (update_bomgar_item_in_db env bi) rest

  unfoldable pub bomgars : List BomgarItem → Prog (Mysql S) → Prog (Mysql S)
  bomgars list rest = visits bomgar_visit 0 list (
      ask λ db.
        deletions (delete_bomgar_item_from_db env) (map (λ bi. bi.id) list)
          (get_qmon_bomgar_list env db) rest)

  unfoldable pub siebel_visit : (ℕ → Text) → ℕ → SiebelItem → Prog (Mysql S) → Prog (Mysql S)
  siebel_visit clock i item rest = ask λ db.
      if siebel_exists_in_db env item.id db
      then ask (λ now.
        if siebel_queue_changed env item now
        then write (update_siebel_queue env (clock i) item)
            (write (update_siebel_item env item) rest)
        else write (update_siebel_item env item) rest)
      else write (insert_siebel_item_into_db env (clock i) item) rest

  unfoldable pub unity : (ℕ → Text) → List SiebelItem → Prog (Mysql S) → Prog (Mysql S)
  unity clock list rest = visits (siebel_visit clock) 0 list (
      ask λ db.
        deletions (delete_siebel_item_from_db env) (map (λ item. item.id) list)
          (get_qmon_siebel_list env db) rest)

  -- the tables after getSrForCrReport; one that faults has written nothing
  unfoldable pub reported : Mysql S → Option (List Text × Mysql S) → Mysql S
  reported db none = db
  reported db (some answer) = answer.1

  -- a fault ends the process
  unfoldable pub unless_fault : Option (List Text × Mysql S) → Prog (Mysql S) → Prog (Mysql S)
  unless_fault none rest = fault
  unless_fault (some answer) rest = rest

  -- getSrForCr: what CRSR has, or else what the report database has
  unfoldable pub lookup : Text → Prog (Mysql S) → Prog (Mysql S)
  lookup cr rest = ask λ db.
      if no_texts (get_sr_for_cr_mysql env cr db)
      then atom (λ now. reported now (get_sr_for_cr_report env cr now))
          (λ now. unless_fault (get_sr_for_cr_report env cr now) rest)
      else rest

  -- the lookups in the loop of getQmonSrs
  unfoldable pub lookups : List (List Text) → Prog (Mysql S) → Prog (Mysql S)
  lookups [] rest = rest
  lookups (row ∷ rows) rest =
      let later = lookups rows rest in
      if value 16 row == lit "Collaboration" then lookup (value 0 row) later else later

  -- the request, for the chats and the items that getChats and getQmonSrs make of the remote rows
  unfoldable pub update_program :
      (ℕ → Text) → Bool → List BomgarItem → List SiebelItem → Prog (Mysql S)
  update_program clock full chats list =
      let rest = bomgars chats (lookups env.remote.open_srs (unity clock list done)) in
      if full then write (update_pseudo_queues env) rest else rest
