-- ===== src/Database/Escape/Loop.antt =====
-- The loop of escapeString ends, and does what `strip` says.
use native.Mathlib.Nat.{add-zero, add_assoc}
use mathlib.Core.List.{append_assoc}
use kueued.Prelude.{
  Text, ℕ, zero, suc, ◌+◌, ◌<◌, [], ◌∷◌, ◌++◌, true, false, none, some, length, length-append, drop,
  drop-append, ◌≡◌, refl, ap, arith, Bool-cases, Option-cases, inl, inr, sym, ◌∙◌,
}
use kueued.Database.Escape.{
  is_control, find_control, index_in, remove_at, escape_loop, escape_string, strip,
}

pub strip_clean : (c : ℕ) (t : Text) → is_control c ≡ false → strip (c ∷ t) ≡ c ∷ strip t
unfolding strip
strip_clean c [] h = ground arith
strip_clean c (d ∷ []) h = ground arith
strip_clean c (d ∷ e ∷ t) h = ground arith

-- The first match splits the text.
find-none : (t : Text) → find_control t ≡ none → strip t ≡ t
unfolding find_control
find-none [] h = unfold strip in refl
find-none (c ∷ t) h =
    let clean : is_control c ≡ false = ground arith in
    rw (strip_clean c t clean) (ap (◌∷◌ c) (find-none t (ground arith)))

find-some :
    (t : Text) (k : ℕ)
    → find_control t ≡ some k
    → (before : Text) × (c : ℕ) × (after : Text) × (t ≡ before ++ c ∷ after)
      × (length before ≡ k)
      × (is_control c ≡ true)
      × (strip t ≡ before ++ strip (c ∷ after))
unfolding find_control
find-some [] k h = absurd (cc)
find-some (c ∷ t) k h = elim (Bool-cases (is_control c)) [
  | inl e ↦ ([], c, t, refl, ground arith, e, refl)
  | inr e ↦ elim (Option-cases (find_control t)) [
    | inl missing ↦ absurd (ground arith)
    | inr (j, found) ↦
        let (before, d, after, split, size, control, stripped) = find-some t j found in
        (
          c ∷ before,
          d,
          after,
          ap (◌∷◌ c) split,
          ground arith,
          control,
          strip_clean c t e ∙ ap (◌∷◌ c) stripped,
        )
  ]
]

remove_at-append :
    (front after : Text) (c : ℕ) → remove_at (length front) (front ++ c ∷ after) ≡ front ++ after
unfolding remove_at
remove_at-append [] after c = refl
remove_at-append (d ∷ front) after c = ap (◌∷◌ d) (remove_at-append front after c)

drop-front : (front rest : Text) (n : ℕ) → drop (length front + n) (front ++ rest) ≡ drop n rest
drop-front front rest n = drop-append front rest n

-- One search from behind `front`.
index_in-none :
    (front rest : Text) (n : ℕ)
    → find_control (drop n rest) ≡ none
    → index_in (front ++ rest) (length front + n) ≡ none
unfolding index_in
index_in-none front rest n h = rw (drop-append front rest n, h)

index_in-some :
    (front rest : Text) (k : ℕ)
    → find_control rest ≡ some k
    → index_in (front ++ rest) (length front) ≡ some (length front + k)
unfolding index_in
index_in-some front rest k h =
    let here : drop (length front) (front ++ rest) ≡ rest =
      rw (← add-zero (length front)) (drop-append front rest 0) in
    rw (here, h)

loop_stops :
    (fuel from : ℕ) (str : Text)
    → index_in str from ≡ none
    → escape_loop (suc fuel) from str ≡ some str
unfolding escape_loop
loop_stops fuel from str h = rw (escape_loop, h)

loop_goes :
    (fuel from s : ℕ) (str : Text)
    → index_in str from ≡ some s
    → escape_loop (suc fuel) from str ≡ escape_loop fuel (s + 1 + 1) (remove_at s str)
unfolding escape_loop
loop_goes fuel from s str h = rw (escape_loop, h)

-- The rounds behind a match whose unit has been taken out.
loop_behind :
    (fuel : ℕ) (front : Text) (c : ℕ) (after : Text)
    → is_control c ≡ true
    → length after < fuel
    → ((f r : Text) → length r < fuel → escape_loop fuel (length f) (f ++ r) ≡ some (f ++ strip r))
    → escape_loop fuel (length front + 2) (front ++ after) ≡ some (front ++ strip (c ∷ after))
unfolding strip
loop_behind zero front c after control h ih = absurd (omega arith)
loop_behind (suc fuel) front c [] control h ih = rw control (
    loop_stops fuel (length front + 2) (front ++ [])
      (index_in-none front [] 2 (unfold find_control in refl)))
loop_behind (suc fuel) front c (d ∷ []) control h ih = rw control (
    loop_stops fuel (length front + 2) (front ++ d ∷ [])
      (index_in-none front (d ∷ []) 2 (unfold find_control in refl)))
loop_behind (suc fuel) front c (d ∷ e ∷ t) control h ih =
    let two : length (front ++ d ∷ e ∷ []) ≡ length front + 2 = length-append front (d ∷ e ∷ []) in
    let same : (front ++ d ∷ e ∷ []) ++ t ≡ front ++ d ∷ e ∷ t =
      append_assoc front (d ∷ e ∷ []) t in
    rw (control, ← two, ← same, ← append_assoc front (d ∷ e ∷ []) (strip t))
      (ih (front ++ d ∷ e ∷ []) t (omega arith))

-- Behind the part that the loop has done, it does to the rest what `strip` does.
escape_loop_lem :
    (fuel : ℕ) (front rest : Text)
    → length rest < fuel
    → escape_loop fuel (length front) (front ++ rest) ≡ some (front ++ strip rest)
escape_loop_lem zero front rest h = absurd (omega arith)
escape_loop_lem (suc fuel) front rest h = elim (Option-cases (find_control rest)) [
  | inl e ↦
      loop_stops fuel (length front) (front ++ rest)
        (rw (← add-zero (length front)) (index_in-none front rest 0 e))
      ∙ ap (λ t. some (front ++ t)) (sym (find-none rest e))
  | inr (k, e) ↦
      let (before, c, after, parts, count, control, stripped) = find-some rest k e in
      let whole = front ++ before in
      let size : length front + k ≡ length whole = omega (arith, length-append {0} front before) in
      let split : front ++ rest ≡ whole ++ c ∷ after =
        ap (◌++◌ front) parts ∙ sym (append_assoc front before (c ∷ after)) in
      let fits : length after < fuel =
        omega (arith, ap length parts, length-append {0} before (c ∷ after)) in
      loop_goes fuel (length front) (length front + k) (front ++ rest)
        (index_in-some front rest k e)
      ∙ rw
          (
            size,
            split,
            remove_at-append whole after c,
            stripped,
            ← append_assoc front before (strip (c ∷ after)),
            add_assoc (length whole) 1 1,
          )
          (loop_behind fuel whole c after control fits (escape_loop_lem fuel))
]

-- The loop ends within its fuel, and its result is `strip`'s: a control unit goes, and the two units
-- behind it stay, whatever they are.
pub escape_string-eq-strip : (str : Text) → escape_string str ≡ some (strip str)
unfolding escape_string
escape_string-eq-strip str = escape_loop_lem (suc (length str)) [] str (omega arith)
