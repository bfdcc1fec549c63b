-- ===== src/Prelude/Lists.antt =====
-- Lists of which every element has a property.
use mathlib.Core.Path.{sym, subst}
use mathlib.Core.List.{List, [], ◌∷◌, Permᴰ}

module _ {ℓ} {A : Type ℓ} where
  -- Every element has the property.
  abbrev pub All {κ} : (A → Type κ) → List A → Type κ
  All P [] = Unit
  All P (x ∷ xs) = P x × All P xs

  pub All-map {κ μ} :
      {P : A → Type κ} {Q : A → Type μ} (xs : List A) → ((x : A) → P x → Q x) → All P xs → All Q xs
  All-map [] f h = tt
  All-map (x ∷ xs) f h = (f x h.0, All-map xs f h.1)

  pub All-perm {κ} : (P : A → Type κ) (xs ys : List A) → Permᴰ xs ys → All P ys → All P xs
  All-perm P xs ys Permᴰ.nil h = tt
  All-perm P xs ys (Permᴰ.cons e rest) h = (subst P (sym e) h.0, All-perm P _ _ rest h.1)
  All-perm P xs ys (Permᴰ.swap e f) h = (subst P (sym e) h.1.0, (subst P (sym f) h.0, h.1.1))
  All-perm P xs ys (Permᴰ.trans first second) h = All-perm P _ _ first (All-perm P _ _ second h)
