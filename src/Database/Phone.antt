-- ===== src/Database/Phone.antt =====
-- formatPhone
use kueued.Prelude.{
  false, ◌≡◌, refl, ap, sym, ◌∙◌, length-append, arith, length, ◌≤◌, Text, lit, ℕ, zero, suc, ◌+◌,
  [], ◌∷◌, ◌++◌, nat_eq, if◌then◌else◌, Bool-cases, inl, inr,
}
use kueued.QString.Replace.{starts_with}

-- p.insert( i, t ): past the end, the text is filled up with spaces first.
unfoldable pub insert : ℕ → Text → Text → Text
insert zero t p = t ++ p
insert (suc i) t [] = b' ' ∷ insert i t []
insert (suc i) t (c ∷ p) = c ∷ insert i t p

-- The loop over all units of the format but the last. `off` grows with each insertion.
unfoldable pub format_loop : ℕ → ℕ → Text → Text → Text
unfolding insert
format_loop i off [] p = p
format_loop i off (c ∷ []) p = p
format_loop i off (c ∷ d ∷ f) p =
    format_loop (suc i) (if nat_eq c b'0' then off else off + 1) (d ∷ f)
      (if nat_eq c b'0' then p else insert (off + i) (c ∷ []) p)

-- `junk` is what the uninitialised `off` holds, if that is no negative number; it counts where the
-- number has no '+' in front.
unfoldable pub format_phone : ℕ → Text → Text → Text
unfolding format_loop
format_phone junk p f =
    if starts_with p (lit "+")
    then format_loop 0 4 f (insert 3 (lit " ") p)
    else format_loop 0 junk f p

-- The format and the digits side by side: a unit of the format that is no '0' comes before the digit
-- that stands at its place. The last unit of the format does not count.
abbrev pub weave : Text → Text → Text
weave [] p = p
weave (c ∷ []) p = p
weave (c ∷ d ∷ f) [] = []
weave (c ∷ d ∷ f) (x ∷ p) =
    let rest = weave (d ∷ f) p in if nat_eq c b'0' then x ∷ rest else c ∷ x ∷ rest

append-one : (s : Text) (x : ℕ) (p : Text) → s ++ x ∷ p ≡ (s ++ x ∷ []) ++ p
append-one [] x p = refl
append-one (c ∷ s) x p = ap (λ u. c ∷ u) (append-one s x p)

insert-append : (s : Text) (i : ℕ) (t p : Text) → i ≡ length s → insert i t (s ++ p) ≡ s ++ (t ++ p)
unfolding insert
insert-append [] zero t p h = refl
insert-append [] (suc i) t p h = absurd (omega (arith, h))
insert-append (c ∷ s) zero t p h = absurd (omega (arith, h))
insert-append (c ∷ s) (suc i) t p h = ap (λ u. c ∷ u) (insert-append s i t p (omega (arith, h)))

-- What is in front of the place of the next insertion stays, and the rest is woven in.
format_loop-weave :
    (i off : ℕ) (f s p : Text)
    → off + i ≡ length s
    → length f ≤ suc (length p)
    → format_loop i off f (s ++ p) ≡ s ++ weave f p
unfolding format_loop
format_loop-weave i off [] s p h k = refl
format_loop-weave i off (c ∷ []) s p h k = refl
format_loop-weave i off (c ∷ d ∷ f) s [] h k = absurd (omega (arith, k))
format_loop-weave i off (c ∷ d ∷ f) s (x ∷ p) h k = elim (Bool-cases (nat_eq c b'0')) [
  | inl e ↦ rw e (
      ap (format_loop (suc i) off (d ∷ f)) (append-one s x p)
      ∙ format_loop-weave (suc i) off (d ∷ f) (s ++ x ∷ []) p
          (omega (arith, h, length-append s (x ∷ []))) (omega (arith, k))
      ∙ sym (append-one s x (weave (d ∷ f) p)))
  | inr e ↦
      rw (e, insert-append s (off + i) (c ∷ []) (x ∷ p) h)
        (ap (format_loop (suc i) (off + 1) (d ∷ f))
            (append-one s c (x ∷ p) ∙ append-one (s ++ c ∷ []) x p)
          ∙ format_loop-weave (suc i) (off + 1) (d ∷ f) ((s ++ c ∷ []) ++ x ∷ []) p
              (omega (arith, h, length-append s (c ∷ []), length-append (s ++ c ∷ []) (x ∷ [])))
              (omega (arith, k))
          ∙ sym (append-one (s ++ c ∷ []) x (weave (d ∷ f) p))
          ∙ sym (append-one s c (x ∷ weave (d ∷ f) p)))
]

-- A number with '+' and two units in front, long enough for the format: a blank follows those, and
-- the format's units but '0' and the last come each before the digit at its place, whatever the
-- uninitialised offset held.
pub format_phone-weave :
    (junk a b : ℕ) (p f : Text)
    → length f ≤ suc (length p)
    → format_phone junk (b'+' ∷ a ∷ b ∷ p) f ≡ b'+' ∷ a ∷ b ∷ b' ' ∷ weave f p
unfolding format_phone starts_with insert lit
format_phone-weave junk a b p f h = format_loop-weave 0 4 f (b'+' ∷ a ∷ b ∷ b' ' ∷ []) p refl h

-- In a number without '+', long enough for the format, the format's units but '0' and the last come
-- each before the digit at its place behind as many units as the uninitialised offset, a natural
-- number, holds.
pub format_phone_unset-weave :
    (s p f : Text)
    → starts_with (s ++ p) (lit "+") ≡ false
    → length f ≤ suc (length p)
    → format_phone (length s) (s ++ p) f ≡ s ++ weave f p
unfolding format_phone
format_phone_unset-weave s p f plain h =
    rw plain (format_loop-weave 0 (length s) f s p (omega arith) h)
