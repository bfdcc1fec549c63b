-- ===== src/QString/Split.antt =====
-- QString::split, and the lists that it gives.
use kueued.Prelude.{
  Text, ℕ, zero, suc, ◌-◌, List, [], ◌∷◌, ◌++◌, Bool, true, not, ◌&&◌, Option, none, some, nat_eq,
  length, if◌then◌else◌, ◌≡◌, ◌≢◌, refl, arith, Bool-cases, inl, inr,
}
use kueued.QString.Replace.{starts_with, starts_with-append, has_part}

-- The unit belongs to the first part.
unfoldable pub onto_head : ℕ → List Text → List Text
onto_head c [] = (c ∷ []) ∷ []
onto_head c (t ∷ ts) = (c ∷ t) ∷ ts

-- `skip` code units of the last separator are still to be passed over.
unfoldable pub split_from : ℕ → Text → Text → List Text
unfolding starts_with onto_head
split_from skip sep [] = [] ∷ []
split_from (suc skip) sep (c ∷ s) = split_from skip sep s
split_from zero sep (c ∷ s) =
    let hit = starts_with (c ∷ s) sep in
    let rest = split_from (if hit then length sep - 1 else 0) sep s in
    if hit then [] ∷ rest else onto_head c rest

-- s.split( sep ), for a `sep` that is not empty
unfoldable pub split : Text → Text → List Text
unfolding split_from
split sep s = split_from 0 sep s

-- list.at( 1 )
unfoldable pub at_1 : List Text → Option Text
at_1 (a ∷ b ∷ l) = some b
at_1 l = none

-- The unit is nowhere in the text.
unfoldable pub lacks : ℕ → Text → Bool
lacks c [] = true
lacks c (d ∷ t) = not (nat_eq d c) && lacks c t

split_skips : (sep w t : Text) → split_from (length w) sep (w ++ t) ≡ split_from 0 sep t
unfolding split_from
split_skips sep [] t = refl
split_skips sep (c ∷ w) t = split_skips sep w t

-- A first part with no unit like the separator's first is split off.
pub split-append :
    (c : ℕ) (w a b : Text)
    → lacks c a ≡ true
    → split (c ∷ w) (a ++ ((c ∷ w) ++ b)) ≡ a ∷ split (c ∷ w) b
unfolding split split_from lacks
split-append c w [] b h = ground (arith, starts_with-append (c ∷ w) b, split_skips (c ∷ w) w b)
split-append c w (d ∷ a) b h = ground (arith, split-append c w a b)

-- A text with no such unit is one part.
pub split-lacks : (c : ℕ) (w a : Text) → lacks c a ≡ true → split (c ∷ w) a ≡ a ∷ []
unfolding split split_from lacks
split-lacks c w [] h = refl
split-lacks c w (d ∷ a) h = ground (arith, split-lacks c w a)

pub split_from-ne-nil : (skip : ℕ) (sep s : Text) → split_from skip sep s ≢ []
unfolding split_from
split_from-ne-nil skip sep [] h = ground arith
split_from-ne-nil (suc skip) sep (c ∷ s) h = split_from-ne-nil skip sep s h
split_from-ne-nil zero sep (c ∷ s) h = ground arith

pub at_1-onto_head : (c : ℕ) (l : List Text) → at_1 (onto_head c l) ≡ at_1 l
unfolding at_1 onto_head
at_1-onto_head c [] = refl
at_1-onto_head c (t ∷ []) = refl
at_1-onto_head c (t ∷ u ∷ ts) = refl

pub at_1-cons : (t : Text) (l : List Text) → l ≢ [] → at_1 (t ∷ l) ≢ none
unfolding at_1
at_1-cons t [] h e = h refl
at_1-cons t (u ∷ l) h e = ground arith

-- A text that has the separator has a second part.
pub at_1-split : (c : ℕ) (w s : Text) → has_part (c ∷ w) s ≡ true → at_1 (split (c ∷ w) s) ≢ none
unfolding split has_part split_from
at_1-split c w [] h e = ground arith
at_1-split c w (d ∷ s) h e = elim (Bool-cases (starts_with (d ∷ s) (c ∷ w))) [
  | inl hit ↦
      at_1-cons [] (split_from (length w) (c ∷ w) s) (split_from-ne-nil (length w) (c ∷ w) s)
        (ground arith)
  | inr miss ↦ at_1-split c w s (ground arith) (ground (arith, at_1-onto_head d (split (c ∷ w) s)))
]
