-- ===== src/Update/Programs/Loops.antt =====
-- The two loops of /updateDB as programs, and a condition on the tables that their atoms keep or
-- bring about.
use kueued.Prelude.{
  Text, ◌==◌, eq_sound, ℕ, suc, List, [], ◌∷◌, map, contains, Bool, true, false, if◌then◌else◌, ◌≡◌,
  refl, sym, inl, inr, arith, Bool-cases,
}
use mathlib.Core.Path.{subst}
use kueued.Update.Loop.{AllAt}
use kueued.Update.Programs.{Prog, write}
use kueued.Update.Programs.Rely.{Safe, Gives}
use kueued.Update.Programs.Request.{visits, deletions}

-- An item of the key shows that the list names it.
pub AllAt-contains :
    {Item : Type 0} (id : Item → Text) (j : Text) (b : Bool) (xs : List Item)
    → contains j (map id xs) ≡ b
    → AllAt id j (λ x. b ≡ true) xs
unfolding contains
AllAt-contains id j b [] h = tt
AllAt-contains id j b (x ∷ xs) h = elim (Bool-cases (id x == j)) [
  | inl e ↦ ((λ same. ground arith), AllAt-true id j b xs (ground arith))
  | inr e ↦ ((λ same. absurd (ground arith)), AllAt-contains id j b xs (ground arith))
]
  where
    AllAt-true :
        {Item : Type 0} (id : Item → Text) (j : Text) (b : Bool) (xs : List Item)
        → b ≡ true
        → AllAt id j (λ x. b ≡ true) xs
    AllAt-true id j b [] h = tt
    AllAt-true id j b (x ∷ xs) h = ((λ same. h), AllAt-true id j b xs h)

module _ {M : Type 0} (P : M → Type 0) where
  pub if_Safe :
      (b : Bool) (p q : Prog M)
      → (b ≡ true → Safe P p)
      → (b ≡ false → Safe P q)
      → Safe P (if b then p else q)
  if_Safe true p q h k = h refl
  if_Safe false p q h k = k refl

  pub if_Gives :
      (b : Bool) (p q : Prog M)
      → (b ≡ true → Gives P p)
      → (b ≡ false → Gives P q)
      → Gives P (if b then p else q)
  if_Gives true p q h k = h refl
  if_Gives false p q h k = k refl

  -- the first loop
  module _ {Item : Type 0} (visit : ℕ → Item → Prog M → Prog M) (id : Item → Text) (j : Text) where
    pub Safe-visits :
        (Q : Item → Type 0)
        → ((i : ℕ) (x : Item) (rest : Prog M)
            → ((id x == j) ≡ true → Q x)
            → Safe P rest
            → Safe P (visit i x rest))
        → (i : ℕ) (xs : List Item) (rest : Prog M) → AllAt id j Q xs
        → Safe P rest
        → Safe P (visits visit i xs rest)
    unfolding visits
    Safe-visits Q h i [] rest q s = s
    Safe-visits Q h i (x ∷ xs) rest q s =
        h i x (visits visit (suc i) xs rest) q.0 (Safe-visits Q h (suc i) xs rest q.1 s)

    pub Gives-visits_later :
        ((i : ℕ) (x : Item) (rest : Prog M) → Gives P rest → Gives P (visit i x rest))
        → (i : ℕ) (xs : List Item) (rest : Prog M) → Gives P rest
        → Gives P (visits visit i xs rest)
    unfolding visits
    Gives-visits_later h i [] rest g = g
    Gives-visits_later h i (x ∷ xs) rest g =
        h i x (visits visit (suc i) xs rest) (Gives-visits_later h (suc i) xs rest g)

    pub Gives-visits :
        (Q : Item → Type 0)
        → ((i : ℕ) (x : Item) (rest : Prog M) → Gives P rest → Gives P (visit i x rest))
        → ((i : ℕ) (x : Item) (rest : Prog M) → (id x == j) ≡ true → Q x → Gives P (visit i x rest))
        → (i : ℕ) (xs : List Item) (rest : Prog M) → AllAt id j Q xs
        → contains j (map id xs) ≡ true
        → Gives P (visits visit i xs rest)
    unfolding visits contains
    Gives-visits Q pass own i [] rest q h = absurd (ground arith)
    Gives-visits Q pass own i (x ∷ xs) rest q h = elim (Bool-cases (id x == j)) [
      | inl e ↦ own i x (visits visit (suc i) xs rest) e (q.0 e)
      | inr e ↦
          pass i x (visits visit (suc i) xs rest)
            (Gives-visits Q pass own (suc i) xs rest q.1 (ground arith))
    ]

  -- the second loop
  module _ (del : Text → M → M) (keep : List Text) where
    pub Safe-deletions :
        ((k : Text) (m : M) → contains k keep ≡ false → P m → P (del k m))
        → (ids : List Text) (rest : Prog M) → Safe P rest
        → Safe P (deletions del keep ids rest)
    unfolding deletions
    Safe-deletions h [] rest s = s
    Safe-deletions h (k ∷ ids) rest s =
        let later = Safe-deletions h ids rest s in
        if_Safe (contains k keep) (deletions del keep ids rest)
          (write (del k) (deletions del keep ids rest)) (λ e. later) (λ e m. (h k m e, later))

    pub Gives-deletions_later :
        (ids : List Text) (rest : Prog M) → Gives P rest → Gives P (deletions del keep ids rest)
    unfolding deletions
    Gives-deletions_later [] rest g = g
    Gives-deletions_later (k ∷ ids) rest g =
        let later = Gives-deletions_later ids rest g in
        if_Gives (contains k keep) (deletions del keep ids rest)
          (write (del k) (deletions del keep ids rest)) (λ e. later) (λ e m. inr later)

    pub Gives-deletions :
        (j : Text)
        → ((m : M) → P (del j m))
        → contains j keep ≡ false
        → (ids : List Text) (rest : Prog M) → contains j ids ≡ true
        → Gives P (deletions del keep ids rest)
    unfolding deletions contains
    Gives-deletions j gone unkept [] rest h = absurd (ground arith)
    Gives-deletions j gone unkept (k ∷ ids) rest h = elim (Bool-cases (k == j)) [
      | inl e ↦
          let same : k ≡ j = eq_sound k j e in
          if_Gives (contains k keep) (deletions del keep ids rest)
            (write (del k) (deletions del keep ids rest))
            (λ kept. absurd (ground (arith, subst (λ x. contains x keep ≡ true) same kept)))
            (λ e2 m. inl (subst (λ x. P (del x m)) (sym same) (gone m)))
      | inr e ↦
          let later = Gives-deletions j gone unkept ids rest (ground arith) in
          if_Gives (contains k keep) (deletions del keep ids rest)
            (write (del k) (deletions del keep ids rest)) (λ e2. later) (λ e2 m. inr later)
    ]
