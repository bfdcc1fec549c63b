-- ===== src/Update/Fits/Phone.antt =====
-- A phone number that formatPhone has formatted fits in a CDATA section, if the number and the format
-- have no '>'.
use kueued.Prelude.{
  Text, lit, ◌==◌, ℕ, zero, suc, ◌+◌, nat_eq, [], ◌∷◌, ◌++◌, ◌&&◌, not, is_empty, true,
  if◌then◌else◌, ◌≡◌, refl, arith, Bool-cases, inl, inr,
}
use kueued.QString.Cdata.{is_open}
use kueued.QString.Replace.{starts_with}
use kueued.Database.Phone.{insert, format_loop, format_phone}
use kueued.Database.Qmon.{phone_or_plain}
use kueued.Update.Fits.{has_no_close}

pub is_open-has_no_close : (n : ℕ) (t : Text) → has_no_close t ≡ true → is_open n t ≡ true
unfolding is_open has_no_close
is_open-has_no_close n [] h = refl
is_open-has_no_close n (c ∷ t) h =
    ground (arith, is_open-has_no_close (if nat_eq c b']' then suc n else 0) t (ground arith))

has_no_close-append :
    (s t : Text) → has_no_close s ≡ true → has_no_close t ≡ true → has_no_close (s ++ t) ≡ true
unfolding has_no_close
has_no_close-append [] t h k = k
has_no_close-append (c ∷ s) t h k = ground (arith, has_no_close-append s t (ground arith) k)

has_no_close-insert :
    (i : ℕ) (t p : Text)
    → has_no_close t ≡ true
    → has_no_close p ≡ true
    → has_no_close (insert i t p) ≡ true
unfolding insert has_no_close
has_no_close-insert zero t p h k = has_no_close-append t p h k
has_no_close-insert (suc i) t [] h k = has_no_close-insert i t [] h refl
has_no_close-insert (suc i) t (c ∷ p) h k =
    ground (arith, has_no_close-insert i t p h (ground arith))

has_no_close-format_loop :
    (i off : ℕ) (f p : Text)
    → has_no_close f ≡ true
    → has_no_close p ≡ true
    → has_no_close (format_loop i off f p) ≡ true
unfolding format_loop has_no_close
has_no_close-format_loop i off [] p h k = k
has_no_close-format_loop i off (c ∷ []) p h k = k
has_no_close-format_loop i off (c ∷ d ∷ f) p h k = elim (Bool-cases (nat_eq c b'0')) [
  | inl e ↦ rw e (has_no_close-format_loop (suc i) off (d ∷ f) p (ground arith) k)
  | inr e ↦ rw e (
      has_no_close-format_loop (suc i) (off + 1) (d ∷ f) (insert (off + i) (c ∷ []) p)
        (ground arith) (has_no_close-insert (off + i) (c ∷ []) p (ground arith) k))
]

has_no_close-format_phone :
    (junk : ℕ) (p f : Text)
    → has_no_close p ≡ true
    → has_no_close f ≡ true
    → has_no_close (format_phone junk p f) ≡ true
unfolding format_phone
has_no_close-format_phone junk p f h k = elim (Bool-cases (starts_with p (lit "+"))) [
  | inl e ↦ rw e (
      has_no_close-format_loop 0 4 f (insert 3 (lit " ") p) k
        (has_no_close-insert 3 (lit " ") p (unfold has_no_close lit in refl) h))
  | inr e ↦ rw e (has_no_close-format_loop 0 junk f p k h)
]

pub is_open-phone_or_plain :
    (off : ℕ) (p f : Text)
    → has_no_close p ≡ true
    → has_no_close f ≡ true
    → is_open 0 (phone_or_plain off p f) ≡ true
unfolding phone_or_plain
is_open-phone_or_plain off p f h k = elim (Bool-cases (not (p == f) && not (is_empty f))) [
  | inl e ↦
      rw e (is_open-has_no_close 0 (format_phone off p f) (has_no_close-format_phone off p f h k))
  | inr e ↦ rw e (is_open-has_no_close 0 p h)
]
