-- ===== src/QString/Tokens.antt =====
-- split( QRegExp( "[ \r\n][ \r\n]*" ) ): the words of a line, between runs of blanks.
use kueued.Prelude.{
  Text, ℕ, List, [], ◌∷◌, ◌++◌, Bool, true, false, not, ◌&&◌, ◌||◌, none, nat_eq, if◌then◌else◌,
  ◌≡◌, ◌≢◌, refl, ap, ◌∙◌, arith, Bool-cases, inl, inr,
}
use kueued.QString.Split.{onto_head, at_1, at_1-onto_head, at_1-cons}

abbrev pub is_blank : ℕ → Bool
is_blank c = nat_eq c b' ' || nat_eq c b'\r' || nat_eq c b'\n'

-- The flag: a separator is being passed over.
unfoldable pub tokens_from : Bool → Text → List Text
unfolding onto_head
tokens_from within [] = [] ∷ []
tokens_from within (c ∷ s) =
    let rest = tokens_from (is_blank c) s in
    if is_blank c then (if within then rest else [] ∷ rest) else onto_head c rest

unfoldable pub tokens : Text → List Text
unfolding tokens_from
tokens line = tokens_from false line

unfoldable pub is_word : Text → Bool
is_word [] = true
is_word (c ∷ t) = not (is_blank c) && is_word t

tokens_from-word :
    (within : Bool) (a s : Text) (b : ℕ)
    → is_word a ≡ true
    → is_blank b ≡ true
    → within ≡ false
    → tokens_from within (a ++ b ∷ s) ≡ a ∷ tokens_from true s
unfolding tokens_from is_word
tokens_from-word within [] s b ha hb hw = ground arith
tokens_from-word within (c ∷ a) s b ha hb hw = ground (arith, tokens_from-word false a s b)

onto_head-ne-nil : (c : ℕ) (l : List Text) → onto_head c l ≢ []
unfolding onto_head
onto_head-ne-nil c [] h = ground arith
onto_head-ne-nil c (t ∷ ts) h = ground arith

tokens_from_path :
    (path rest : Text) (c : ℕ)
    → is_word (c ∷ path) ≡ true
    → tokens_from true ((c ∷ path) ++ b' ' ∷ rest) ≡ (c ∷ path) ∷ tokens_from true rest
unfolding tokens_from onto_head is_word
tokens_from_path path rest c h = ground (arith, tokens_from-word false path rest b' ')

-- The first two words of a request line, and what is left behind them.
pub tokens_request :
    (req path rest : Text) (c : ℕ)
    → is_word req ≡ true
    → is_word (c ∷ path) ≡ true
    → tokens (req ++ b' ' ∷ ((c ∷ path) ++ b' ' ∷ rest)) ≡ req ∷ (c ∷ path) ∷ tokens_from true rest
unfolding tokens
tokens_request req path rest c hr hp =
    tokens_from-word false req ((c ∷ path) ++ b' ' ∷ rest) b' ' hr refl refl
    ∙ ap (◌∷◌ req) (tokens_from_path path rest c hp)

tokens_from-ne-nil : (within : Bool) (s : Text) → tokens_from within s ≢ []
unfolding tokens_from
tokens_from-ne-nil within [] h = ground arith
tokens_from-ne-nil true (c ∷ s) h = elim (Bool-cases (is_blank c)) [
  | inl e ↦ tokens_from-ne-nil (is_blank c) s (ground arith)
  | inr e ↦ onto_head-ne-nil c (tokens_from (is_blank c) s) (ground arith)
]
tokens_from-ne-nil false (c ∷ s) h = elim (Bool-cases (is_blank c)) [
  | inl e ↦ ground arith
  | inr e ↦ onto_head-ne-nil c (tokens_from (is_blank c) s) (ground arith)
]

-- A line has at least two words, the second perhaps empty: it ends with a line feed.
pub at_1-tokens : (t : Text) → at_1 (tokens (t ++ b'\n' ∷ [])) ≢ none
unfolding tokens tokens_from
at_1-tokens [] h = unfold at_1 in ground arith
at_1-tokens (c ∷ t) h = elim (Bool-cases (is_blank c)) [
  | inl e ↦
      at_1-cons [] (tokens_from (is_blank c) (t ++ b'\n' ∷ []))
        (tokens_from-ne-nil (is_blank c) (t ++ b'\n' ∷ [])) (ground arith)
  | inr e ↦ at_1-tokens t (ground (arith, at_1-onto_head c (tokens_from false (t ++ b'\n' ∷ []))))
]
