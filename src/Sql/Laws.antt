-- ===== src/Sql/Laws.antt =====
-- What follows from the laws of the tables.
use mathlib.Core.List.{Permᴰ}
use kueued.Prelude.{Text, List, map, contains, All, All-map, some, ◌≡◌, refl, ap, ◌∙◌, arith}
use kueued.Sql.{Table, Tables}
use kueued.Sql.Rows.{SrRow}

-- Rows that every key shows are all rows.
pub All-rows :
    {Row S : Type 0} (table : Table Row S) (P : Row → Type 0) (s : S)
    → ((k : Text) (r : Row) → table.select k s ≡ some r → P r)
    → All P (table.rows s)
All-rows table P s h = All-map (table.rows s) (λ r e. h (table.key r) r e) (table.select-rows s)

contains-perm :
    {A : Type 0} (key : A → Text) (k : Text) (xs ys : List A)
    → Permᴰ xs ys
    → contains k (map key xs) ≡ contains k (map key ys)
unfolding contains
contains-perm key k xs ys Permᴰ.nil = refl
contains-perm key k xs ys (Permᴰ.cons e rest) =
    ground (arith, ap key e, contains-perm key k _ _ rest)
contains-perm key k xs ys (Permᴰ.swap e f) = ground (arith, ap key e, ap key f)
contains-perm key k xs ys (Permᴰ.trans first second) =
    contains-perm key k _ _ first ∙ contains-perm key k _ _ second

-- Sorting neither adds nor drops a number.
pub contains-by_created :
    {S : Type 0 → Type 0} (tables : Tables S) (k : Text) (rows : List SrRow)
    → contains k (map (λ r. r.id) (tables.by_created rows)) ≡ contains k (map (λ r. r.id) rows)
contains-by_created tables k rows = contains-perm (λ r. r.id) k _ rows (tables.by_created-perm rows)
