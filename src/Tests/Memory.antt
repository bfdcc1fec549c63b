-- ===== src/Tests/Memory.antt =====
-- A table in memory: the rows in a list, with at most the first row of a key in sight. It shows that
-- the laws of the tables can be met.
use mathlib.Core.Option
use kueued.Prelude.{
  Bool, false, ◌||◌, Text, ◌==◌, eq_iff, contains, List, [], ◌∷◌, map, Option, none, some, is_some,
  if◌then◌else◌, ◌≡◌, refl, arith, ap, ◌∙◌, All, eq_refl, Bool-cases, inl, inr,
}
use kueued.Sql.{Bag, Table, kept}

module _ {Row : Type 0} (key : Row → Text) where
  abbrev pub select : Text → List Row → Option Row
  select k [] = none
  select k (r ∷ s) = if key r == k then some r else select k s

  abbrev pub insert : Row → List Row → List Row
  insert r s = if is_some (select (key r) s) then s else r ∷ s

  abbrev pub update : Text → (Row → Row) → List Row → List Row
  update k f [] = []
  update k f (r ∷ s) = (if key r == k then f r else r) ∷ update k f s

  abbrev pub delete : Text → List Row → List Row
  delete k [] = []
  delete k (r ∷ s) = let rest = delete k s in if key r == k then rest else r ∷ rest

  -- The rows that are in sight.
  abbrev pub visible : List Row → List Row
  visible [] = []
  visible (r ∷ s) = r ∷ delete (key r) (visible s)

  pub select-insert_lem :
      (r : Row) (j : Text) (s : List Row)
      → select j (insert r s) ≡ (if key r == j then some (kept (select j s) r) else select j s)
  select-insert_lem r j s = ground (arith, eq_iff (key r) j)

  pub select-update_lem :
      (k : Text) (f : Row → Row) (j : Text) (s : List Row)
      → ((r : Row) → key (f r) ≡ key r)
      → select j (update k f s) ≡ (if k == j then Option.map f (select j s) else select j s)
  select-update_lem k f j [] h = ground arith
  select-update_lem k f j (r ∷ s) h =
      ground
        (arith, eq_iff k j, eq_iff (key r) k, eq_iff (key r) j, h r, select-update_lem k f j s h)

  pub select-delete_lem :
      (k j : Text) (s : List Row) → select j (delete k s) ≡ (if k == j then none else select j s)
  select-delete_lem k j [] = ground arith
  select-delete_lem k j (r ∷ s) =
      ground (arith, eq_iff k j, eq_iff (key r) k, eq_iff (key r) j, select-delete_lem k j s)

  pub contains-rows_lem : (k : Text) (s : List Row) → contains k (map key s) ≡ is_some (select k s)
  unfolding contains
  contains-rows_lem k [] = refl
  contains-rows_lem k (r ∷ s) = ground (arith, contains-rows_lem k s)

  select-visible : (k : Text) (s : List Row) → select k (visible s) ≡ select k s
  select-visible k [] = refl
  select-visible k (r ∷ s) =
      ground (arith, eq_iff (key r) k, select-delete_lem (key r) k (visible s), select-visible k s)

  pub contains-visible :
      (k : Text) (s : List Row) → contains k (map key (visible s)) ≡ is_some (select k s)
  contains-visible k s = contains-rows_lem k (visible s) ∙ ap is_some (select-visible k s)

  All-delete :
      (r : Row) (s l : List Row)
      → All (λ x. select (key x) s ≡ some x) l
      → All (λ x. select (key x) (r ∷ s) ≡ some x) (delete (key r) l)
  All-delete r s [] h = tt
  All-delete r s (x ∷ l) h = elim (Bool-cases (key x == key r)) [
    | inl e ↦ rw e (All-delete r s l h.1)
    | inr e ↦
        rw e (
          ground (arith, h.0, eq_iff (key x) (key r), eq_iff (key r) (key x)),
          All-delete r s l h.1,
        )
  ]

  pub select-visible_rows : (s : List Row) → All (λ r. select (key r) s ≡ some r) (visible s)
  select-visible_rows [] = tt
  select-visible_rows (r ∷ s) =
      (ground (arith, eq_refl (key r)), All-delete r s (visible s) (select-visible_rows s))

  abbrev pub in_memory : Table Row (List Row)
  in_memory = record {
    key = key;
    select = select;
    rows = visible;
    insert = insert;
    update = update;
    delete = delete;
    select-insert = select-insert_lem;
    select-update = select-update_lem;
    select-delete = select-delete_lem;
    contains-rows = contains-visible;
    select-rows = select-visible_rows;
  }

-- A table without a key: the rows in a list.
module _ {Row : Type 0} where
  abbrev pub holds : (Row → Bool) → List Row → Bool
  holds p [] = false
  holds p (r ∷ s) = p r || holds p s

  abbrev pub heap : Bag Row (List Row)
  heap = record {
    holds = holds;
    append = λ r s. r ∷ s;
    clear = λ s. [];
    holds-append = λ p r s. refl;
    holds-clear = λ p s. refl;
  }
