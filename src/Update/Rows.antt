-- ===== src/Update/Rows.antt =====
-- What one round of the loop over the SR list, and one deletion, do to the rows of each key.
use mathlib.Core.Option
use kueued.Prelude.{Text, ◌==◌, eq_iff, ℕ, Option, none, some, if◌then◌else◌, ◌≡◌, sym, ◌∙◌, arith}
use kueued.Items.{SiebelItem}
use kueued.Sql.{Env, Mysql, kept}
use kueued.Sql.Rows.{SrRow, CustomerRow}
use kueued.Database.Siebel.{
  insert_siebel_item_into_db, update_siebel_item, update_siebel_queue, siebel_exists_in_db,
  siebel_queue_changed, inserted_row, refreshed_row, requeued_row, customer_row, refreshed_customer,
  delete_siebel_item_from_db,
}
use kueued.Update.Steps.{siebel_step}

-- The rows of one SR number in QMON_SIEBEL and in CUSTOMER.
abbrev pub Entry : Type 0
Entry = Option SrRow × Option CustomerRow

module _ {D : Type 0} {S : Type 0 → Type 0} (env : Env D S) where
  abbrev pub entry : Mysql S → Text → Entry
  entry db id = (env.tables.siebel.select id db.siebel, env.tables.customer.select id db.customer)

  -- The row that an item leaves in QMON_SIEBEL, out of the row that was there.
  unfoldable pub settled : Text → SiebelItem → Option SrRow → SrRow
  settled now item none = inserted_row env now item
  settled now item (some r) =
      refreshed_row env item (if r.queue == item.queue then r else requeued_row env now item r)

  -- The same in CUSTOMER. An update writes nothing where there is no row.
  unfoldable pub settled_customer :
      SiebelItem → Option SrRow → Option CustomerRow → Option CustomerRow
  settled_customer item none c = some (kept c (customer_row env item))
  settled_customer item (some r) c = Option.map (refreshed_customer env item) c

  unfoldable pub visit : (ℕ → Text) → ℕ → SiebelItem → Entry → Entry
  unfolding settled settled_customer
  visit clock i item e = (some (settled (clock i) item e.0), settled_customer item e.0 e.1)

  pub key-refreshed :
      (item : SiebelItem) (r : SrRow)
      → env.tables.siebel.key (refreshed_row env item r) ≡ env.tables.siebel.key r
  unfolding refreshed_row
  key-refreshed item r = env.tables.key-siebel _ ∙ sym (env.tables.key-siebel r)

  pub key-requeued :
      (now : Text) (item : SiebelItem) (r : SrRow)
      → env.tables.siebel.key (requeued_row env now item r) ≡ env.tables.siebel.key r
  unfolding requeued_row
  key-requeued now item r = env.tables.key-siebel _ ∙ sym (env.tables.key-siebel r)

  pub key-inserted :
      (now : Text) (item : SiebelItem) → env.tables.siebel.key (inserted_row env now item) ≡ item.id
  unfolding inserted_row
  key-inserted now item = env.tables.key-siebel _

  pub key-customer_row :
      (item : SiebelItem) → env.tables.customer.key (customer_row env item) ≡ item.id
  unfolding customer_row
  key-customer_row item = env.tables.key-customer _

  pub key-refreshed_customer :
      (item : SiebelItem) (r : CustomerRow)
      → env.tables.customer.key (refreshed_customer env item r) ≡ env.tables.customer.key r
  unfolding refreshed_customer
  key-refreshed_customer item r = env.tables.key-customer _ ∙ sym (env.tables.key-customer r)

  sr-siebel_step :
      (clock : ℕ → Text) (j : Text) (i : ℕ) (item : SiebelItem) (db : Mysql S)
      → (entry (siebel_step env clock i item db) j).0
        ≡ (if item.id == j then (visit clock i item (entry db j)).0 else (entry db j).0)
  unfolding siebel_step visit siebel_exists_in_db siebel_queue_changed update_siebel_item
      update_siebel_queue insert_siebel_item_into_db
  sr-siebel_step clock j i item db =
      let t = env.tables.siebel in
      let r = refreshed_row env item in
      let q = requeued_row env (clock i) item in
      ground (
        arith,
        eq_iff item.id j,
        key-inserted (clock i) item,
        t.select-insert (inserted_row env (clock i) item) j db.siebel,
        t.select-update item.id r j db.siebel (key-refreshed item),
        t.select-update item.id r j (t.update item.id q db.siebel) (key-refreshed item),
        t.select-update item.id q j db.siebel (key-requeued (clock i) item),
      )

  customer-siebel_step :
      (clock : ℕ → Text) (j : Text) (i : ℕ) (item : SiebelItem) (db : Mysql S)
      → (entry (siebel_step env clock i item db) j).1
        ≡ (if item.id == j then (visit clock i item (entry db j)).1 else (entry db j).1)
  unfolding siebel_step visit siebel_exists_in_db siebel_queue_changed update_siebel_item
      update_siebel_queue insert_siebel_item_into_db
  customer-siebel_step clock j i item db =
      let t = env.tables.customer in
      ground (
        arith,
        eq_iff item.id j,
        key-customer_row item,
        t.select-insert (customer_row env item) j db.customer,
        t.select-update item.id (refreshed_customer env item) j db.customer
            (key-refreshed_customer item),
      )

  -- One round visits the rows of its item and leaves the others.
  pub entry-siebel_step :
      (clock : ℕ → Text) (j : Text) (i : ℕ) (item : SiebelItem) (db : Mysql S)
      → entry (siebel_step env clock i item db) j
        ≡ (if item.id == j then visit clock i item (entry db j) else entry db j)
  entry-siebel_step clock j i item db =
      ground (arith, sr-siebel_step clock j i item db, customer-siebel_step clock j i item db)

  -- One deletion takes both rows away.
  pub entry-delete :
      (j k : Text) (db : Mysql S)
      → entry (delete_siebel_item_from_db env k db) j
        ≡ (if k == j then (none, none) else entry db j)
  unfolding delete_siebel_item_from_db
  entry-delete j k db = ground (
    arith,
    env.tables.siebel.select-delete k j db.siebel,
    env.tables.customer.select-delete k j db.customer,
  )
