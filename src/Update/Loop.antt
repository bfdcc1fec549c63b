-- ===== src/Update/Loop.antt =====
-- The two loops of /updateDB over any table: visit each item of a list, then delete what the list
-- does not name. `view m j` is what the tables `m` hold under the key `j`.
use kueued.Prelude.{
  Text, ◌==◌, eq_iff, ℕ, suc, List, [], ◌∷◌, map, Bool, true, false, not, ◌&&◌, contains, All,
  if◌then◌else◌, ◌≡◌, refl, arith, Bool-cases, inl, inr, eq_sound, ◌∙◌,
}
use mathlib.Core.Path.{subst}

module _ {M Item : Type 0} where
  -- for ( int i = 0; i < list.size(); ++i ) step( i, list.at( i ) )
  unfoldable pub for_each : (ℕ → Item → M → M) → ℕ → List Item → M → M
  for_each step i [] m = m
  for_each step i (x ∷ xs) m = for_each step (suc i) xs (step i x m)

module _ {M : Type 0} where
  -- for each id of the table: if ( !list.contains( id ) ) del( id )
  unfoldable pub prune : (Text → M → M) → List Text → List Text → M → M
  prune del keep [] m = m
  prune del keep (id ∷ ids) m = prune del keep ids (if contains id keep then m else del id m)

-- No key twice.
abbrev pub Distinct : List Text → Type 0
Distinct [] = Unit
Distinct (x ∷ xs) = (contains x xs ≡ false) × Distinct xs

module _ {Item : Type 0} where
  -- Every item with the key `j` has the property.
  abbrev pub AllAt : (Item → Text) → Text → (Item → Type 0) → List Item → Type 0
  AllAt id j P [] = Unit
  AllAt id j P (x ∷ xs) = ((id x == j) ≡ true → P x) × AllAt id j P xs

module _ {Item : Type 0} (id : Item → Text) (j : Text) (P : Item → Type 0) where
  pub AllAt-all : ((x : Item) → P x) → (xs : List Item) → AllAt id j P xs
  AllAt-all h [] = tt
  AllAt-all h (x ∷ xs) = (λ _. h x, AllAt-all h xs)

module _ {Item : Type 0} (id : Item → Text) (j : Text) where
  pub AllAt-map :
      {P Q : Item → Type 0} (xs : List Item)
      → ((x : Item) → P x → Q x)
      → AllAt id j P xs
      → AllAt id j Q xs
  AllAt-map [] f h = tt
  AllAt-map (x ∷ xs) f h = (λ e. f x (h.0 e), AllAt-map xs f h.1)

  pub AllAt-All : (P : Item → Type 0) (xs : List Item) → All P xs → AllAt id j P xs
  AllAt-All P [] h = tt
  AllAt-All P (x ∷ xs) h = (λ e. h.0, AllAt-All P xs h.1)

module _ {V Item : Type 0} where
  -- What the visits make of the view of one key: only items with that key touch it.
  unfoldable pub trace : (ℕ → Item → V → V) → (Item → Text) → Text → ℕ → List Item → V → V
  trace visit id j i [] v = v
  trace visit id j i (x ∷ xs) v = trace visit id j (suc i) xs (if id x == j then visit i x v else v)

module _ {V Item : Type 0} (visit : ℕ → Item → V → V) (id : Item → Text) (j : Text) where
  -- A key that no item has keeps its view.
  pub trace-absent :
      (i : ℕ) (xs : List Item) (v : V)
      → contains j (map id xs) ≡ false
      → trace visit id j i xs v ≡ v
  unfolding trace contains
  trace-absent i [] v h = refl
  trace-absent i (x ∷ xs) v h = ground (arith, trace-absent (suc i) xs v)

  -- What every visit keeps, the loop keeps.
  pub trace_keeps :
      (P : V → Type 0) (Q : Item → Type 0)
      → ((i : ℕ) (x : Item) (v : V) → Q x → P v → P (visit i x v))
      → (i : ℕ) (xs : List Item) (v : V) → AllAt id j Q xs
      → P v
      → P (trace visit id j i xs v)
  unfolding trace
  trace_keeps P Q step i [] v q p = p
  trace_keeps P Q step i (x ∷ xs) v q p =
      trace_keeps P Q step (suc i) xs (if id x == j then visit i x v else v) q.1
        (keep_if (id x == j) (λ e. step i x v (q.0 e) p) p)
    where
      keep_if : (b : Bool) → (b ≡ true → P (visit i x v)) → P v → P (if b then visit i x v else v)
      keep_if true yes_case p' = yes_case refl
      keep_if false yes_case p' = p'

  -- From a view with `R`, a visit gives `P`, and later visits keep it. So if some item has the key,
  -- `P` holds after the loop.
  pub trace_gives :
      (R P : V → Type 0) (Q : Item → Type 0)
      → ((i : ℕ) (x : Item) (v : V) → Q x → R v → P (visit i x v))
      → ((i : ℕ) (x : Item) (v : V) → Q x → P v → P (visit i x v))
      → (i : ℕ) (xs : List Item) (v : V) → AllAt id j Q xs
      → contains j (map id xs) ≡ true
      → R v
      → P (trace visit id j i xs v)
  unfolding trace contains
  trace_gives R P Q step keep i [] v q h r = absurd (ground arith)
  trace_gives R P Q step keep i (x ∷ xs) v q h r = elim (Bool-cases (id x == j)) [
    | inl e ↦ rw e (trace_keeps P Q keep (suc i) xs (visit i x v) q.1 (step i x v (q.0 e) r))
    | inr e ↦ rw e (trace_gives R P Q step keep (suc i) xs v q.1 (ground arith) r)
  ]

module _ {V Item : Type 0} (id : Item → Text) (j : Text) where
  -- Over distinct keys a second loop changes nothing, if a second visit of an item does not.
  pub trace_again :
      (first second : ℕ → Item → V → V) (Q : Item → Type 0) (R : V → Type 0)
      → ((i k : ℕ) (x : Item) (v : V) → Q x → R v → second k x (first i x v) ≡ first i x v)
      → (i k : ℕ) (xs : List Item) (v : V) → AllAt id j Q xs
      → Distinct (map id xs)
      → R v
      → trace second id j k xs (trace first id j i xs v) ≡ trace first id j i xs v
  unfolding trace
  trace_again first second Q R h i k [] v q d r = refl
  trace_again first second Q R h i k (x ∷ xs) v q d r = elim (Bool-cases (id x == j)) [
    | inl e ↦
        let absent : contains j (map id xs) ≡ false =
          subst (λ key. contains key (map id xs) ≡ false) (eq_sound (id x) j e) d.0 in
        rw (
          e,
          trace-absent first id j (suc i) xs (first i x v) absent,
          h i k x v (q.0 e) r,
          trace-absent second id j (suc k) xs (first i x v) absent,
        )
    | inr e ↦ rw e (trace_again first second Q R h (suc i) (suc k) xs v q.1 d.1 r)
  ]

module _ {M V Item : Type 0} (view : M → Text → V) where
  pub view-for_each :
      (step : ℕ → Item → M → M) (visit : ℕ → Item → V → V) (id : Item → Text) (j : Text)
      → ((i : ℕ) (x : Item) (m : M)
          → view (step i x m) j ≡ (if id x == j then visit i x (view m j) else view m j))
      → (i : ℕ) (xs : List Item) (m : M)
      → view (for_each step i xs m) j ≡ trace visit id j i xs (view m j)
  unfolding for_each trace
  view-for_each step visit id j h i [] m = refl
  view-for_each step visit id j h i (x ∷ xs) m =
      rw (view-for_each step visit id j h (suc i) xs (step i x m), h i x m)

module _ {M V : Type 0} (view : M → Text → V) (gone : V) where
  pub view-prune :
      (del : Text → M → M) (j : Text)
      → ((k : Text) (m : M) → view (del k m) j ≡ (if k == j then gone else view m j))
      → (keep ids : List Text) (m : M)
      → view (prune del keep ids m) j
        ≡ (if contains j ids && not (contains j keep) then gone else view m j)
  unfolding prune contains
  view-prune del j h keep [] m = refl
  view-prune del j h keep (k ∷ ids) m =
      rw (view-prune del j h keep ids (if contains k keep then m else del k m))
        (ground (arith, eq_iff k j, h k m))

-- What each round leaves alone, the loop leaves alone.
module _ {M X : Type 0} (part : M → X) where
  pub for_each_keeps :
      {Item : Type 0} (step : ℕ → Item → M → M)
      → ((i : ℕ) (x : Item) (m : M) → part (step i x m) ≡ part m)
      → (i : ℕ) (xs : List Item) (m : M) → part (for_each step i xs m) ≡ part m
  unfolding for_each
  for_each_keeps step h i [] m = refl
  for_each_keeps step h i (x ∷ xs) m = for_each_keeps step h (suc i) xs (step i x m) ∙ h i x m

  pub prune_keeps :
      (del : Text → M → M)
      → ((k : Text) (m : M) → part (del k m) ≡ part m)
      → (keep ids : List Text) (m : M) → part (prune del keep ids m) ≡ part m
  unfolding prune
  prune_keeps del h keep [] m = refl
  prune_keeps del h keep (k ∷ ids) m = elim (Bool-cases (contains k keep)) [
    | inl e ↦ rw e (prune_keeps del h keep ids m)
    | inr e ↦ rw e (prune_keeps del h keep ids (del k m) ∙ h k m)
  ]
