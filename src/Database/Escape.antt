-- ===== src/Database/Escape.antt =====
-- escapeString
pub mod Loop
pub mod Clears
use mathlib.Core.Option
use native.Mathlib.Nat.{add-zero, add_assoc}
use mathlib.Core.List.{append_assoc}
use kueued.Prelude.{
  Text, ℕ, zero, suc, ◌+◌, ◌<◌, [], ◌∷◌, ◌++◌, Bool, true, false, not, ◌||◌, ◌&&◌, Option, none,
  some, nat_eq, length, length-append, take, drop, take-append, drop-append, if◌then◌else◌, ◌≡◌,
  refl, ap, arith, Bool-cases, Option-cases, inl, inr, sym, ◌∙◌,
}

-- (\x001b|\x0011): escape, or device control 1
abbrev pub is_control : ℕ → Bool
is_control c = nat_eq c 0x1b || nat_eq c 0x11

find_control : Text → Option ℕ
find_control [] = none
find_control (c ∷ t) = if is_control c then some 0 else Option.map suc (find_control t)

-- rx.indexIn( str, from )
index_in : Text → ℕ → Option ℕ
unfolding find_control
index_in str from = Option.map (λ k. from + k) (find_control (drop from str))

-- str.replace( s, 1, "" )
remove_at : ℕ → Text → Text
remove_at s str = take s str ++ drop (suc s) str

-- The while loop. `from` is s + 1, where the next search starts: behind a match at s the code adds
-- the match's length to s, after it has taken the match out. `none`: the fuel ran out.
escape_loop : ℕ → ℕ → Text → Option Text
unfolding index_in remove_at
escape_loop zero from str = none
escape_loop (suc fuel) from str = elim (index_in str from) [
  | none ↦ some str
  | some s ↦ escape_loop fuel (s + 1 + 1) (remove_at s str)
]

-- Each round takes a unit out, so as many rounds as units, and one, are enough.
unfoldable pub escape_string : Text → Option Text
unfolding escape_loop
escape_string str = escape_loop (suc (length str)) 0 str

-- What the loop does to a text: a control unit is dropped, and the two units behind it are copied
-- unseen.
unfoldable pub strip : Text → Text
strip [] = []
strip (c ∷ []) = if is_control c then [] else c ∷ []
strip (c ∷ d ∷ []) = if is_control c then d ∷ [] else c ∷ strip (d ∷ [])
strip (c ∷ d ∷ e ∷ t) = if is_control c then d ∷ e ∷ strip t else c ∷ strip (d ∷ e ∷ t)
