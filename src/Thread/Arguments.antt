-- ===== src/Thread/Arguments.antt =====
-- The arguments behind the name in a path: the number of /srforcr, /srinfo and /srstatus, and the
-- word of /updateDB.
use kueued.Prelude.{
  Text, lit, ◌==◌, is_empty, length, ℕ, [], ◌∷◌, ◌++◌, Bool, true, false, not, ◌||◌, ◌&&◌, Option,
  none, some, nat_eq, if◌then◌else◌, ◌≡◌, refl, arith, Bool-cases, inl, inr,
}
use kueued.QString.Replace.{starts_with, starts_with-append, replace_from, replace, remove}
use kueued.QString.Split.{lacks}
use kueued.QString.Trim.{is_digit, all_digits}

-- `none`: the handler answers "No SR number". The pattern is ^[0-9]{11}$.
unfoldable pub sr_argument : Text → Text → Option Text
sr_argument name cmd =
    let q = remove (lit "/") (remove name cmd) in
    if is_empty q || not (nat_eq (length q) 11 && all_digits q) then none else some q

-- the word of /updateDB
unfoldable pub is_full : Text → Bool
is_full cmd = remove (lit "/") (remove (lit "/updateDB") cmd) == lit "full"

replace_skips :
    (before after w t : Text)
    → replace_from (length w) before after (w ++ t) ≡ replace_from 0 before after t
unfolding replace_from
replace_skips before after [] t = refl
replace_skips before after (c ∷ w) t = replace_skips before after w t

-- A text has no occurrence of one whose first unit it lacks.
replace_lacks : (c : ℕ) (w after d : Text) → lacks c d ≡ true → replace_from 0 (c ∷ w) after d ≡ d
unfolding replace_from starts_with lacks
replace_lacks c w after [] h = refl
replace_lacks c w after (x ∷ d) h = ground (arith, replace_lacks c w after d)

remove_name :
    (w0 : ℕ) (w r : Text)
    → starts_with r (w0 ∷ w) ≡ false
    → lacks b'/' r ≡ true
    → remove (b'/' ∷ w0 ∷ w) ((b'/' ∷ w0 ∷ w) ++ b'/' ∷ r) ≡ b'/' ∷ r
unfolding remove replace replace_from starts_with
remove_name w0 w r hw hr = ground (
  arith,
  starts_with-append w (b'/' ∷ r),
  replace_skips (b'/' ∷ w0 ∷ w) [] (w0 ∷ w) (b'/' ∷ r),
  replace_lacks b'/' (w0 ∷ w) [] r hr,
)

remove_slash : (r : Text) → lacks b'/' r ≡ true → remove (lit "/") (b'/' ∷ r) ≡ r
unfolding remove replace replace_from starts_with lit
remove_slash r h = replace_lacks b'/' [] [] r h

-- What stands behind the name and a slash, if it does not repeat the name and has no slash.
pub argument_given :
    (w0 : ℕ) (w r : Text)
    → starts_with r (w0 ∷ w) ≡ false
    → lacks b'/' r ≡ true
    → remove (lit "/") (remove (b'/' ∷ w0 ∷ w) ((b'/' ∷ w0 ∷ w) ++ b'/' ∷ r)) ≡ r
argument_given w0 w r hw hr = rw (remove_name w0 w r hw hr) (remove_slash r hr)

digits_lack : (c : ℕ) (d : Text) → is_digit c ≡ false → all_digits d ≡ true → lacks c d ≡ true
unfolding lacks all_digits
digits_lack c [] hc hd = refl
digits_lack c (x ∷ d) hc hd = ground (arith, digits_lack c d hc)

no_name :
    (w0 : ℕ) (w d : Text)
    → is_digit w0 ≡ false
    → all_digits d ≡ true
    → starts_with d (w0 ∷ w) ≡ false
unfolding starts_with all_digits
no_name w0 w [] hw hd = refl
no_name w0 w (x ∷ d) hw hd = ground arith

filled : (d : Text) → length d ≡ 11 → is_empty d ≡ false
filled [] h = absurd (ground arith)
filled (c ∷ d) h = refl

-- A number of eleven digits behind the name and a slash is taken as it stands, for a name that is a
-- slash and a word that starts with no digit.
pub sr_argument_given :
    (w0 : ℕ) (w d : Text)
    → is_digit w0 ≡ false
    → all_digits d ≡ true
    → length d ≡ 11
    → sr_argument (b'/' ∷ w0 ∷ w) ((b'/' ∷ w0 ∷ w) ++ b'/' ∷ d) ≡ some d
unfolding sr_argument
sr_argument_given w0 w d hw hd eleven =
    let found = argument_given w0 w d (no_name w0 w d hw hd) (digits_lack b'/' d refl hd) in
    ground (arith, found, filled d eleven)

-- Whatever the path is, a number that is taken from it has eleven units, and all are digits.
pub sr_argument_digits :
    (name cmd q : Text) → sr_argument name cmd ≡ some q → (length q ≡ 11) × (all_digits q ≡ true)
unfolding sr_argument
sr_argument_digits name cmd q h =
    let r = remove (lit "/") (remove name cmd) in
    elim (Bool-cases (is_empty r || not (nat_eq (length r) 11 && all_digits r))) [
      | inl refused ↦ absurd (ground arith)
      | inr taken ↦ (ground arith, ground arith)
    ]
