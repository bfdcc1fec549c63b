-- ===== src/Update/Programs/Rows.antt =====
-- A condition on the row of one SR number, if there is one, under each atom of an /updateDB.
use kueued.Prelude.{
  arith, Text, ◌==◌, Bool, true, false, Option, none, some, if◌then◌else◌, ◌≡◌, refl, sym,
}
use mathlib.Core.Path.{subst}
use mathlib.Core.Option
use kueued.Items.{SiebelItem}
use kueued.Sql.{Env, Mysql, kept}
use kueued.Sql.Rows.{SrRow}
use kueued.Database.Siebel.{
  insert_siebel_item_into_db, update_siebel_item, update_siebel_queue, delete_siebel_item_from_db,
  inserted_row, refreshed_row, requeued_row,
}
use kueued.Update.Rows.{entry, key-inserted, key-refreshed, key-requeued}

module _ {Row : Type 0} (Q : Row → Type 0) where
  -- What is there has the property.
  abbrev pub Each : Option Row → Type 0
  Each none = Unit
  Each (some r) = Q r

  pub Each-kept :
      (b : Bool) (o : Option Row) (new : Row)
      → (b ≡ true → Q new)
      → Each o
      → Each (if b then some (kept o new) else o)
  Each-kept true none new h q = h refl
  Each-kept true (some r) new h q = q
  Each-kept false o new h q = q

  pub Each-map :
      (b : Bool) (f : Row → Row) (o : Option Row)
      → (b ≡ true → (r : Row) → Q r → Q (f r))
      → Each o
      → Each (if b then Option.map f o else o)
  Each-map true f none h q = q
  Each-map true f (some r) h q = h refl r q
  Each-map false f o h q = q

  Each-made : (f : Row → Row) (o : Option Row) → ((r : Row) → Q (f r)) → Each (Option.map f o)
  Each-made f none h = tt
  Each-made f (some r) h = h r

  pub Each-gone : (b : Bool) (o : Option Row) → Each o → Each (if b then none else o)
  Each-gone true o q = tt
  Each-gone false o q = q

  pub Each-some : (o : Option Row) (r : Row) → Each o → o ≡ some r → Q r
  Each-some none r q e = absurd (cc)
  Each-some (some old) r q e = let same : old ≡ r = ground (arith, e) in subst Q same q

  pub Each-all : (o : Option Row) → ((r : Row) → o ≡ some r → Q r) → Each o
  Each-all none h = tt
  Each-all (some r) h = h r refl

module _ (Q : SrRow → Type 0) where
  module _ {D : Type 0} {S : Type 0 → Type 0} (env : Env D S) (j : Text) where
    -- The row of the number `j` has the property, if there is one.
    abbrev pub RowHas : Mysql S → Type 0
    RowHas m = Each Q (entry env m j).0

    pub RowHas-insert :
        (now : Text) (x : SiebelItem) (m : Mysql S)
        → ((x.id == j) ≡ true → Q (inserted_row env now x))
        → RowHas m
        → RowHas (insert_siebel_item_into_db env now x m)
    unfolding insert_siebel_item_into_db
    RowHas-insert now x m h q =
        rw
          (
            env.tables.siebel.select-insert (inserted_row env now x) j m.siebel,
            key-inserted env now x,
          )
          (Each-kept Q (x.id == j) (entry env m j).0 (inserted_row env now x) h q)

    pub RowHas-refresh :
        (x : SiebelItem) (m : Mysql S)
        → ((x.id == j) ≡ true → (r : SrRow) → Q r → Q (refreshed_row env x r))
        → RowHas m
        → RowHas (update_siebel_item env x m)
    unfolding update_siebel_item
    RowHas-refresh x m h q =
        rw
          (env.tables.siebel.select-update x.id (refreshed_row env x) j m.siebel
            (key-refreshed env x))
          (Each-map Q (x.id == j) (refreshed_row env x) (entry env m j).0 h q)

    pub RowHas-refreshed :
        (x : SiebelItem) (m : Mysql S)
        → (x.id == j) ≡ true
        → ((r : SrRow) → Q (refreshed_row env x r))
        → RowHas (update_siebel_item env x m)
    unfolding update_siebel_item
    RowHas-refreshed x m own h =
        rw
          (
            env.tables.siebel.select-update x.id (refreshed_row env x) j m.siebel
                (key-refreshed env x),
            own,
          )
          (Each-made Q (refreshed_row env x) (entry env m j).0 h)

    pub RowHas-requeue :
        (now : Text) (x : SiebelItem) (m : Mysql S)
        → ((x.id == j) ≡ true → (r : SrRow) → Q r → Q (requeued_row env now x r))
        → RowHas m
        → RowHas (update_siebel_queue env now x m)
    unfolding update_siebel_queue
    RowHas-requeue now x m h q =
        rw
          (env.tables.siebel.select-update x.id (requeued_row env now x) j m.siebel
            (key-requeued env now x))
          (Each-map Q (x.id == j) (requeued_row env now x) (entry env m j).0 h q)

    pub RowHas-requeued :
        (now : Text) (x : SiebelItem) (m : Mysql S)
        → (x.id == j) ≡ true
        → ((r : SrRow) → Q (requeued_row env now x r))
        → RowHas (update_siebel_queue env now x m)
    unfolding update_siebel_queue
    RowHas-requeued now x m own h =
        rw
          (
            env.tables.siebel.select-update x.id (requeued_row env now x) j m.siebel
                (key-requeued env now x),
            own,
          )
          (Each-made Q (requeued_row env now x) (entry env m j).0 h)

    pub RowHas-delete :
        (k : Text) (m : Mysql S) → RowHas m → RowHas (delete_siebel_item_from_db env k m)
    unfolding delete_siebel_item_from_db
    RowHas-delete k m q =
        rw (env.tables.siebel.select-delete k j m.siebel) (Each-gone Q (k == j) (entry env m j).0 q)

    pub RowHas-siebel : (a b : Mysql S) → a.siebel ≡ b.siebel → RowHas b → RowHas a
    RowHas-siebel a b same q = subst (λ s. Each Q (env.tables.siebel.select j s)) (sym same) q
