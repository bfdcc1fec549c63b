-- ===== src/QString/Cdata.antt =====
-- replace( "]]>", "]]&gt;" ), by which a text is made fit for a CDATA section.
use kueued.Prelude.{
  Text, lit, ℕ, zero, suc, [], ◌∷◌, Bool, true, false, not, ◌&&◌, nat_eq, leb, if◌then◌else◌, ◌≡◌,
  refl, arith, Bool-cases, inl, inr,
}
use kueued.QString.Replace.{starts_with, replace_from, replace}

-- After `n` closing brackets in a row the text never completes "]]>".
unfoldable pub is_open : ℕ → Text → Bool
is_open n [] = true
is_open n (c ∷ s) = not (nat_eq c b'>' && leb 2 n) && is_open (if nat_eq c b']' then suc n else 0) s

unfoldable pub escape_cdata : Text → Text
unfolding replace lit
escape_cdata s = replace (lit "]]>") (lit "]]&gt;") s

-- What follows `n` brackets that `replace` has passed over.
abbrev Passed : ℕ → Text → Type 0
Passed zero s = Unit
Passed (suc zero) s = starts_with s (b']' ∷ b'>' ∷ []) ≡ false
Passed (suc (suc n)) s =
    (starts_with s (b']' ∷ b'>' ∷ []) ≡ false) × (starts_with s (b'>' ∷ []) ≡ false)

escaped : Text → Text
unfolding lit
escaped s = replace_from 0 (lit "]]>") (lit "]]&gt;") s

abbrev sought : Text
sought = b']' ∷ b']' ∷ b'>' ∷ []

escaped_miss :
    (c : ℕ) (s : Text) → starts_with (c ∷ s) sought ≡ false → escaped (c ∷ s) ≡ c ∷ escaped s
unfolding escaped replace_from
escaped_miss c s h = rw h

escaped_hit :
    (c d e : ℕ) (s : Text)
    → starts_with (c ∷ d ∷ e ∷ s) sought ≡ true
    → escaped (c ∷ d ∷ e ∷ s) ≡ b']' ∷ b']' ∷ b'&' ∷ b'g' ∷ b't' ∷ b';' ∷ escaped s
unfolding escaped replace_from
escaped_hit c d e s h = rw h

-- One more bracket, or none, after a code unit that starts no "]]>".
Passed-next :
    (n c : ℕ) (s : Text)
    → starts_with (c ∷ s) sought ≡ false
    → Passed n (c ∷ s)
    → Passed (if nat_eq c b']' then suc n else 0) s
unfolding starts_with
Passed-next n c s miss h = elim (Bool-cases (nat_eq c b']')) [
  | inl e ↦ rw e (bracket e n h)
  | inr e ↦ rw e tt
]
  where
    bracket : nat_eq c b']' ≡ true → (k : ℕ) → Passed k (c ∷ s) → Passed (suc k) s
    bracket e zero p = ground arith
    bracket e (suc zero) p = ground arith
    bracket e (suc (suc k)) p = ground arith

-- A '>' after two brackets is not there.
no_close : (n c : ℕ) (s : Text) → Passed n (c ∷ s) → (nat_eq c b'>' && leb 2 n) ≡ false
unfolding starts_with
no_close zero c s h = ground arith
no_close (suc zero) c s h = ground arith
no_close (suc (suc n)) c s h = ground arith

is_open-miss :
    (n c : ℕ) (s : Text)
    → starts_with (c ∷ s) sought ≡ false
    → Passed n (c ∷ s)
    → is_open (if nat_eq c b']' then suc n else 0) (escaped s) ≡ true
    → is_open n (escaped (c ∷ s)) ≡ true
unfolding is_open
is_open-miss n c s miss h rest = rw (escaped_miss c s miss, no_close n c s h) rest

is_open-escaped : (n : ℕ) (s : Text) → Passed n s → is_open n (escaped s) ≡ true
unfolding is_open starts_with
is_open-escaped n [] h = unfold escaped replace_from in refl
is_open-escaped n (c ∷ []) h =
    is_open-miss n c [] (ground arith) h (unfold escaped replace_from in refl)
is_open-escaped n (c ∷ d ∷ []) h = is_open-miss n c (d ∷ []) (ground arith) h (
    is_open-escaped (if nat_eq c b']' then suc n else 0) (d ∷ [])
      (Passed-next n c (d ∷ []) (ground arith) h))
is_open-escaped n (c ∷ d ∷ e ∷ s) h = elim (Bool-cases (starts_with (c ∷ d ∷ e ∷ s) sought)) [
  | inl hit ↦ rw (escaped_hit c d e s hit) (is_open-escaped zero s tt)
  | inr miss ↦ is_open-miss n c (d ∷ e ∷ s) miss h (
      is_open-escaped (if nat_eq c b']' then suc n else 0) (d ∷ e ∷ s)
        (Passed-next n c (d ∷ e ∷ s) miss h))
]

-- After the replacement a text nowhere completes "]]>": a CDATA section that holds it ends where the
-- program ends it.
pub is_open-escape_cdata : (s : Text) → is_open 0 (escape_cdata s) ≡ true
unfolding escape_cdata escaped replace
is_open-escape_cdata s = is_open-escaped zero s tt
