-- ===== src/QString/Replace.antt =====
-- QString::startsWith, replace, remove and contains.
use kueued.Prelude.{
  Text, ℕ, zero, suc, ◌-◌, [], ◌∷◌, ◌++◌, Bool, true, false, ◌&&◌, ◌||◌, nat_eq, length,
  if◌then◌else◌, ◌≡◌, refl, arith,
}

unfoldable pub starts_with : Text → Text → Bool
starts_with s [] = true
starts_with [] (p ∷ ps) = false
starts_with (c ∷ s) (p ∷ ps) = nat_eq c p && starts_with s ps

pub starts_with-append : (p t : Text) → starts_with (p ++ t) p ≡ true
unfolding starts_with
starts_with-append [] t = refl
starts_with-append (c ∷ p) t = ground (arith, starts_with-append p t)

-- `skip` code units of the last occurrence are still to be passed over.
unfoldable pub replace_from : ℕ → Text → Text → Text → Text
unfolding starts_with
replace_from skip before after [] = []
replace_from (suc skip) before after (c ∷ s) = replace_from skip before after s
replace_from zero before after (c ∷ s) =
    let hit = starts_with (c ∷ s) before in
    let rest = replace_from (if hit then length before - 1 else 0) before after s in
    if hit then after ++ rest else c ∷ rest

-- s.replace( before, after ), for a `before` that is not empty
unfoldable pub replace : Text → Text → Text → Text
unfolding replace_from
replace before after s = replace_from 0 before after s

-- s.remove( before )
unfoldable pub remove : Text → Text → Text
unfolding replace
remove before s = replace before [] s

-- s.contains( part )
unfoldable pub has_part : Text → Text → Bool
unfolding starts_with
has_part part [] = starts_with [] part
has_part part (c ∷ s) = starts_with (c ∷ s) part || has_part part s
