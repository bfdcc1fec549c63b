-- ===== src/QString/Trim.antt =====
-- QString::trimmed
use kueued.Prelude.{Text, ℕ, [], ◌∷◌, Bool, true, ◌&&◌, ◌||◌, nat_eq, leb, is_empty, if◌then◌else◌}

abbrev pub is_space : ℕ → Bool
is_space c = nat_eq c b' ' || (leb 9 c && leb c 13)

unfoldable pub trim_front : Text → Text
trim_front [] = []
trim_front (c ∷ t) = let rest = trim_front t in if is_space c then rest else c ∷ t

-- A unit is kept if a unit that is no space stands at it or behind it.
unfoldable pub trim_back : Text → Text
trim_back [] = []
trim_back (c ∷ t) = let rest = trim_back t in if is_empty rest && is_space c then [] else c ∷ rest

unfoldable pub trimmed : Text → Text
unfolding trim_front trim_back
trimmed t = trim_back (trim_front t)

abbrev pub is_digit : ℕ → Bool
is_digit c = leb b'0' c && leb c b'9'

-- every unit is in [0-9]
unfoldable pub all_digits : Text → Bool
all_digits [] = true
all_digits (c ∷ t) = is_digit c && all_digits t
