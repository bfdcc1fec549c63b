-- ===== src/Database/Escape/Clears.antt =====
-- What escapeString clears out of a text, and what it misses.
use kueued.Prelude.{
  Text, ℕ, [], ◌∷◌, ◌++◌, Bool, true, false, not, ◌||◌, ◌&&◌, some, if◌then◌else◌, ◌≡◌, refl, arith,
}
use kueued.Database.Escape.{is_control, escape_string, strip}
use kueued.Database.Escape.Loop.{strip_clean, escape_string-eq-strip}

unfoldable pub has_control : Text → Bool
has_control [] = false
has_control (c ∷ t) = is_control c || has_control t

-- Behind each control unit the next two are none.
unfoldable pub is_spaced : Text → Bool
is_spaced [] = true
is_spaced (c ∷ []) = true
is_spaced (c ∷ d ∷ []) = if is_control c then not (is_control d) else true
is_spaced (c ∷ d ∷ e ∷ t) =
    (if is_control c then not (is_control d) && not (is_control e) else true)
    && is_spaced (d ∷ e ∷ t)

is_spaced-tail : (c : ℕ) (t : Text) → is_spaced (c ∷ t) ≡ true → is_spaced t ≡ true
unfolding is_spaced
is_spaced-tail c [] h = refl
is_spaced-tail c (d ∷ []) h = refl
is_spaced-tail c (d ∷ e ∷ t) h = ground arith

strip_clears : (t : Text) → is_spaced t ≡ true → has_control (strip t) ≡ false
unfolding strip has_control is_spaced
strip_clears [] h = refl
strip_clears (c ∷ []) h = ground arith
strip_clears (c ∷ d ∷ []) h = ground arith
strip_clears (c ∷ d ∷ e ∷ t) h =
    let after_c : is_spaced (d ∷ e ∷ t) ≡ true = is_spaced-tail c (d ∷ e ∷ t) h in
    let after_e : is_spaced t ≡ true = is_spaced-tail e t (is_spaced-tail d (e ∷ t) after_c) in
    let clear_c = strip_clears (d ∷ e ∷ t) after_c in
    let clear_e = strip_clears t after_e in ground arith

-- Control units that stand apart are all removed.
pub escape_string_clears :
    (str : Text)
    → is_spaced str ≡ true
    → (r : Text) × (escape_string str ≡ some r) × (has_control r ≡ false)
escape_string_clears str h = (strip str, escape_string-eq-strip str, strip_clears str h)

strip_misses :
    (before after : Text) (c d : ℕ)
    → has_control before ≡ false
    → is_control c ≡ true
    → is_control d ≡ true
    → has_control (strip (before ++ c ∷ d ∷ after)) ≡ true
unfolding has_control
strip_misses [] [] c d hb hc hd = unfold strip in ground arith
strip_misses [] (e ∷ after) c d hb hc hd = unfold strip in ground arith
strip_misses (b ∷ before) after c d hb hc hd =
    let clean : is_control b ≡ false = ground arith in
    rw (strip_clean b (before ++ c ∷ d ∷ after) clean)
      (ground (arith, strip_misses before after c d))

-- Of two control units in a row the second is left in the text.
pub escape_string_misses :
    (before after : Text) (c d : ℕ)
    → has_control before ≡ false
    → is_control c ≡ true
    → is_control d ≡ true
    → (r : Text) × (escape_string (before ++ c ∷ d ∷ after) ≡ some r) × (has_control r ≡ true)
escape_string_misses before after c d hb hc hd = (
  strip (before ++ c ∷ d ∷ after),
  escape_string-eq-strip (before ++ c ∷ d ∷ after),
  strip_misses before after c d hb hc hd,
)
