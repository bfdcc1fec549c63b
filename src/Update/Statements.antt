-- ===== src/Update/Statements.antt =====
-- The transactions that ServerThread objects run on the shared tables, in any order. Each method of
-- Database brackets its statements by transaction() and commit(), so it is one step; between two
-- steps of one thread others may run. `Reach db` holds what any interleaving of any number of requests
-- can make of `db`, whatever lists, times and tests their threads go by.
use mathlib.Core.Path.{subst}
use kueued.Prelude.{Text, ◌≡◌, sym, arith}
use kueued.Items.{SiebelItem}
use kueued.Sql.{Env, Mysql}
use kueued.Database.Siebel.{
  insert_siebel_item_into_db, update_siebel_item, update_siebel_queue, delete_siebel_item_from_db,
  inserted_row, customer_row, refreshed_row, refreshed_customer, requeued_row,
}
use kueued.Update.Rows.{
  entry, entry-delete, key-inserted, key-customer_row, key-refreshed, key-refreshed_customer,
  key-requeued,
}
use kueued.Update.Effects.{IsPaired}

module _ {D : Type 0} {S : Type 0 → Type 0} (env : Env D S) where
  pub data Step (db : Mysql S) : Mysql S → Type 0 where
    inserts :
        (now : Text) (item : SiebelItem) → Step db (insert_siebel_item_into_db env now item db)
    refreshes : (item : SiebelItem) → Step db (update_siebel_item env item db)
    requeues : (now : Text) (item : SiebelItem) → Step db (update_siebel_queue env now item db)
    deletes : (id : Text) → Step db (delete_siebel_item_from_db env id db)
    -- a transaction that writes other tables
    elsewhere : (m : Mysql S) → m.siebel ≡ db.siebel → m.customer ≡ db.customer → Step db m

  pub data Reach (db : Mysql S) : Mysql S → Type 0 where
    here : Reach db db
    later : {m n : Mysql S} → Reach db m → Step m n → Reach db n

  inserts-IsPaired :
      (now : Text) (item : SiebelItem) (db : Mysql S) (j : Text)
      → IsPaired (entry env db j)
      → IsPaired (entry env (insert_siebel_item_into_db env now item db) j)
  unfolding insert_siebel_item_into_db
  inserts-IsPaired now item db j h = ground (
    arith,
    key-inserted env now item,
    key-customer_row env item,
    env.tables.siebel.select-insert (inserted_row env now item) j db.siebel,
    env.tables.customer.select-insert (customer_row env item) j db.customer,
  )

  refreshes-IsPaired :
      (item : SiebelItem) (db : Mysql S) (j : Text)
      → IsPaired (entry env db j)
      → IsPaired (entry env (update_siebel_item env item db) j)
  unfolding update_siebel_item
  refreshes-IsPaired item db j h = ground (
    arith,
    env.tables.siebel.select-update item.id (refreshed_row env item) j db.siebel
        (key-refreshed env item),
    env.tables.customer.select-update item.id (refreshed_customer env item) j db.customer
        (key-refreshed_customer env item),
  )

  requeues-IsPaired :
      (now : Text) (item : SiebelItem) (db : Mysql S) (j : Text)
      → IsPaired (entry env db j)
      → IsPaired (entry env (update_siebel_queue env now item db) j)
  unfolding update_siebel_queue
  requeues-IsPaired now item db j h = ground (
    arith,
    env.tables.siebel.select-update item.id (requeued_row env now item) j db.siebel
        (key-requeued env now item),
  )

  Step-IsPaired :
      (j : Text) {db m : Mysql S} → Step db m → IsPaired (entry env db j) → IsPaired (entry env m j)
  Step-IsPaired j {db} (inserts now item) h = inserts-IsPaired now item db j h
  Step-IsPaired j {db} (refreshes item) h = refreshes-IsPaired item db j h
  Step-IsPaired j {db} (requeues now item) h = requeues-IsPaired now item db j h
  Step-IsPaired j {db} (deletes id) h = ground (arith, entry-delete env j id db)
  Step-IsPaired j (elsewhere m same also) h =
      subst IsPaired
        (λ i. (env.tables.siebel.select j (sym same i), env.tables.customer.select j (sym also i)))
        h

  -- However the transactions of all threads are interleaved, an SR number has its row in
  -- QMON_SIEBEL and its row in CUSTOMER or neither, if so it was before.
  pub Reach-IsPaired :
      (j : Text) {db m : Mysql S}
      → IsPaired (entry env db j)
      → Reach db m
      → IsPaired (entry env m j)
  Reach-IsPaired j h here = h
  Reach-IsPaired j h (later r s) = Step-IsPaired j s (Reach-IsPaired j h r)
