-- ===== src/QString/Number.antt =====
-- QString::number of an integer, in decimal.
use Prim.Native.Nat.{◌/◌, ◌%◌}
use kueued.Prelude.{Text, ℕ, zero, suc, ◌+◌, ℤ, pos, negsuc, [], ◌∷◌, ltb, if◌then◌else◌}

-- Each round takes off a digit, so `n + 1` rounds are enough.
unfoldable pub digits_onto : ℕ → ℕ → Text → Text
digits_onto zero n acc = acc
digits_onto (suc fuel) n acc =
    let more = digits_onto fuel (n / 10) ((48 + n % 10) ∷ acc) in
    if ltb n 10 then (48 + n) ∷ acc else more

unfoldable pub number_nat : ℕ → Text
unfolding digits_onto
number_nat n = digits_onto (suc n) n []

unfoldable pub number : ℤ → Text
unfolding number_nat
number (pos n) = number_nat n
number (negsuc n) = b'-' ∷ number_nat (suc n)
