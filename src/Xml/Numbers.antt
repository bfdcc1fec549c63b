-- ===== src/Xml/Numbers.antt =====
-- A printed number fits in a CDATA section and between tags.
use kueued.Prelude.{
  Text, ℕ, zero, suc, ◌+◌, ◌<◌, ℤ, pos, negsuc, [], ◌∷◌, Bool, true, ◌&&◌, ◌||◌, leb, nat_eq, ◌≡◌,
  refl, arith,
}
use Prim.Native.Nat.{◌/◌, ◌%◌}
use kueued.QString.Cdata.{is_open}
use kueued.QString.Number.{number, number_nat, digits_onto}
use kueued.Xml.Scan.{is_plain}

-- Digits and the minus sign only.
is_numeral : Text → Bool
is_numeral [] = true
is_numeral (c ∷ t) = ((leb b'0' c && leb c b'9') || nat_eq c b'-') && is_numeral t

digits_onto-numeral :
    (fuel n : ℕ) (acc : Text) → is_numeral acc ≡ true → is_numeral (digits_onto fuel n acc) ≡ true
unfolding is_numeral digits_onto
digits_onto-numeral zero n acc h = h
digits_onto-numeral (suc fuel) n acc h =
    let digit : n % 10 < 10 = omega arith in
    ground (arith, digits_onto-numeral fuel (n / 10) ((48 + n % 10) ∷ acc))

number-numeral : (z : ℤ) → is_numeral (number z) ≡ true
unfolding is_numeral number number_nat
number-numeral (pos n) = digits_onto-numeral (suc n) n [] refl
number-numeral (negsuc n) = ground (arith, digits_onto-numeral (suc (suc n)) (suc n) [] refl)

is_open-numeral : (t : Text) → is_numeral t ≡ true → is_open 0 t ≡ true
unfolding is_numeral is_open
is_open-numeral [] h = refl
is_open-numeral (c ∷ t) h = ground (arith, is_open-numeral t)

is_plain-numeral : (t : Text) → is_numeral t ≡ true → is_plain t ≡ true
unfolding is_numeral is_plain
is_plain-numeral [] h = refl
is_plain-numeral (c ∷ t) h = ground (arith, is_plain-numeral t)

pub is_open-number : (z : ℤ) → is_open 0 (number z) ≡ true
is_open-number z = is_open-numeral (number z) (number-numeral z)

pub is_plain-number : (z : ℤ) → is_plain (number z) ≡ true
is_plain-number z = is_plain-numeral (number z) (number-numeral z)
