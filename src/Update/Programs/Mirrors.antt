-- ===== src/Update/Programs/Mirrors.antt =====
-- The two loops of /updateDB one after the other, for any table: `names` is the list of its keys, and
-- `b` says whether the remote list, which the first loop visits, names the key `j`.
use kueued.Prelude.{
  Text, ◌==◌, eq_iff, eq_sound, ℕ, List, map, contains, Bool, true, false, not, ◌&&◌, ◌≡◌, sym, ◌∙◌,
  inl, inr, arith, Bool-cases, ◌⊎◌,
}
use mathlib.Core.Path.{subst}
use kueued.Update.Programs.{Prog, ask}
use kueued.Update.Programs.Rely.{Safe, Gives}
use kueued.Update.Programs.Loops.{
  AllAt-contains, Safe-visits, Gives-visits, Gives-visits_later, Safe-deletions, Gives-deletions,
}
use kueued.Update.Programs.Request.{visits, deletions}

module _ {M Item : Type 0} (names : M → List Text) (del : Text → M → M)
    (visit : ℕ → Item → Prog M → Prog M) (id : Item → Text) (j : Text) (b : Bool)
    (deletes : (k : Text) (m : M)
      → contains j (names (del k m)) ≡ not (k == j) && contains j (names m)) where
  -- The table names the key if and only if `b`.
  abbrev Listed : M → Type 0
  Listed m = contains j (names m) ≡ b

  abbrev mirror : List Item → Prog M → Prog M
  mirror xs rest = visits visit 0 xs (ask λ m. deletions del (map id xs) (names m) rest)

  pub mirror-Safe :
      ((i : ℕ) (x : Item) (rest : Prog M)
        → ((id x == j) ≡ true → b ≡ true)
        → Safe Listed rest
        → Safe Listed (visit i x rest))
      → (xs : List Item) (rest : Prog M) → contains j (map id xs) ≡ b
      → Safe Listed rest
      → Safe Listed (mirror xs rest)
  mirror-Safe h xs rest named s =
      Safe-visits Listed visit id j (λ x. b ≡ true) h 0 xs _ (AllAt-contains id j b xs named)
        (λ m. (λ p. p, Safe-deletions Listed del (map id xs) dropped (names m) rest s))
    where
      dropped : (k : Text) (m : M) → contains k (map id xs) ≡ false → Listed m → Listed (del k m)
      dropped k m unkept p = elim (Bool-cases (k == j)) [
        | inl e ↦
            let unlisted : contains j (map id xs) ≡ false =
              subst (λ x. contains x (map id xs) ≡ false) (eq_sound k j e) unkept in
            ground (arith, deletes k m)
        | inr e ↦ ground (arith, deletes k m)
      ]

  pub mirror-Gives :
      ((i : ℕ) (x : Item) (rest : Prog M) → Gives Listed rest → Gives Listed (visit i x rest))
      → ((i : ℕ) (x : Item) (rest : Prog M)
          → b ≡ true
          → (id x == j) ≡ true
          → Gives Listed (visit i x rest))
      → (xs : List Item) (rest : Prog M) → contains j (map id xs) ≡ b
      → Gives Listed (mirror xs rest)
  mirror-Gives pass own xs rest named = elim (Bool-cases b) [
    | inl yes_j ↦
        Gives-visits Listed visit id j (λ x. b ≡ true) pass (λ i x next e p. own i x next p e) 0 xs
          _ (AllAt-contains id j b xs named) (named ∙ yes_j)
    | inr no_j ↦ Gives-visits_later Listed visit id j pass 0 xs _ (λ m. cleared no_j m)
  ]
    where
      cleared :
          b ≡ false → (m : M) → Listed m ⊎ Gives Listed (deletions del (map id xs) (names m) rest)
      cleared no_j m = elim (Bool-cases (contains j (names m))) [
        | inl e ↦ inr (
            Gives-deletions Listed del (map id xs) j (λ n. gone no_j n) (named ∙ no_j) (names m)
              rest e)
        | inr e ↦ inl (e ∙ sym no_j)
      ]
        where
          gone : b ≡ false → (n : M) → Listed (del j n)
          gone no_j n = ground (arith, deletes j n, eq_iff j j)
