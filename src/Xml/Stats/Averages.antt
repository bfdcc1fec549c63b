-- ===== src/Xml/Stats/Averages.antt =====
-- The averages of XML::stats against the means of the values, and their ranges.
use kueued.Prelude.{
  ℕ, zero, suc, ◌+◌, ◌*◌, ◌≤◌, ◌<◌, ℤ, pos, negsuc, pos_part, ◌+ℤ◌, ◌*ℤ◌, int32, int32-pos, quot,
  Bool, true, false, ◌&&◌, List, [], ◌∷◌, map, length, leb, ltb, if◌then◌else◌, ◌≡◌, refl, ap, sym,
  ◌∙◌, arith,
}
use Prim.Native.Nat.{◌/◌, ◌^◌}
use kueued.Xml.Stats.{
  CsatItem, ClosedItem, is_answer, tts_sum, averaged, tts_average, Totals, count_csat, count_all,
  csat_totals, no_totals, eng_average, sr_average, rts_average,
}

-- From 0 to m.
unfoldable pub is_within : ℕ → ℤ → Bool
is_within m (pos n) = leb n m
is_within m (negsuc n) = false

unfoldable pub all_within : ℕ → List ℤ → Bool
all_within m [] = true
all_within m (z ∷ zs) = is_within m z && all_within m zs

-- The exact sum and mean of values that are not negative.
unfoldable pub sum : List ℤ → ℕ
sum [] = 0
sum (z ∷ zs) = pos_part z + sum zs

unfoldable pub mean : List ℤ → ℤ
mean [] = pos 0
mean (z ∷ zs) = pos (sum (z ∷ zs) / length (z ∷ zs))

-- The values that stand for an answer.
unfoldable pub answers : List ℤ → List ℤ
answers [] = []
answers (z ∷ zs) = if is_answer z then z ∷ answers zs else answers zs

sum_le : (m : ℕ) (zs : List ℤ) → all_within m zs ≡ true → sum zs ≤ length zs * m
unfolding all_within is_within sum
sum_le m [] h = omega arith
sum_le m (pos n ∷ zs) h = grind (arith, sum_le m zs)
sum_le m (negsuc n ∷ zs) h = absurd (cc)

int32-add :
    (a : ℕ) (z : ℤ) (m : ℕ)
    → is_within m z ≡ true
    → a + pos_part z < 2 ^ 31
    → int32 (pos a +ℤ z) ≡ pos (a + pos_part z)
unfolding is_within ◌+ℤ◌
int32-add a (pos n) m h r = ground (arith, int32-pos (a + n))
int32-add a (negsuc n) m h r = absurd (cc)

-- A sum in an int, one addition after the other.
unfoldable add_all : List ℤ → ℤ → ℤ
add_all [] acc = acc
add_all (z ∷ zs) acc = add_all zs (int32 (acc +ℤ z))

add_all-sum :
    (m : ℕ) (zs : List ℤ) (a : ℕ)
    → all_within m zs ≡ true
    → a + length zs * m < 2 ^ 31
    → add_all zs (pos a) ≡ pos (a + sum zs)
unfolding add_all all_within sum
add_all-sum m [] a h r = ground arith
add_all-sum m (negsuc n ∷ zs) a h r = absurd (unfold is_within in cc)
add_all-sum m (pos n ∷ zs) a h r =
    let (here, rest) : (is_within m (pos n) ≡ true) × (all_within m zs ≡ true) =
      (ground arith, ground arith) in
    let small : n ≤ m = unfold is_within in ground arith in
    rw (int32-add a (pos n) m here (grind arith), add_all-sum m zs (a + n) rest (grind arith))
      (ap pos (omega arith))

tts_sum-add_all :
    (items : List ClosedItem) (acc : ℤ) → tts_sum items acc ≡ add_all (map (λ i. i.tts) items) acc
unfolding tts_sum add_all
tts_sum-add_all [] acc = refl
tts_sum-add_all (i ∷ items) acc = tts_sum-add_all items (int32 (acc +ℤ i.tts))

abbrev pub eng_sats : List CsatItem → List ℤ
eng_sats items = answers (map (λ i. i.engsat) items)

abbrev pub sr_sats : List CsatItem → List ℤ
sr_sats items = answers (map (λ i. i.srsat) items)

abbrev pub all_rts : List CsatItem → List ℤ
all_rts items = map (λ i. i.rts) items

count_all-eng :
    (items : List CsatItem) (t : Totals)
    → ((count_all items t).eng_sat_avg ≡ add_all (eng_sats items) t.eng_sat_avg)
      × ((count_all items t).eng_total ≡ t.eng_total + length (eng_sats items))
unfolding count_all count_csat add_all answers
count_all-eng [] t = (refl, omega arith)
count_all-eng (i ∷ items) t =
    let (sat, total) = count_all-eng items (count_csat i t) in
    (ground (arith, sat), ground (arith, total))

count_all-sr :
    (items : List CsatItem) (t : Totals)
    → ((count_all items t).sr_sat_avg ≡ add_all (sr_sats items) t.sr_sat_avg)
      × ((count_all items t).sr_total ≡ t.sr_total + length (sr_sats items))
unfolding count_all count_csat add_all answers
count_all-sr [] t = (refl, omega arith)
count_all-sr (i ∷ items) t =
    let (sat, total) = count_all-sr items (count_csat i t) in
    (ground (arith, sat), ground (arith, total))

count_all-rts :
    (items : List CsatItem) (t : Totals)
    → (count_all items t).rts_percent ≡ add_all (all_rts items) t.rts_percent
unfolding count_all count_csat add_all
count_all-rts [] t = refl
count_all-rts (i ∷ items) t = count_all-rts items (count_csat i t)

add_all-total :
    (m : ℕ) (zs : List ℤ)
    → all_within m zs ≡ true
    → length zs * m < 2 ^ 31
    → add_all zs (pos 0) ≡ pos (sum zs)
add_all-total m zs h r = add_all-sum m zs 0 h (omega arith) ∙ ap pos (omega arith)

averaged-suc : (a n : ℕ) → averaged (pos a) (suc n) ≡ pos (a / suc n)
unfolding averaged quot
averaged-suc a n = ground arith

averaged-mean :
    (m : ℕ) (zs : List ℤ)
    → all_within m zs ≡ true
    → length zs * m < 2 ^ 31
    → averaged (add_all zs (pos 0)) (length zs) ≡ mean zs
unfolding mean
averaged-mean m [] h r = unfold add_all averaged in refl
averaged-mean m (z ∷ zs) h r =
    rw (add_all-total m (z ∷ zs) h r) (averaged-suc (sum (z ∷ zs)) (length zs))

length-map : {A : Type 0} (f : A → ℤ) (xs : List A) → length (map f xs) ≡ length xs
length-map f [] = refl
length-map f (x ∷ xs) = ap suc (length-map f xs)

length-answers-map :
    {A : Type 0} (f : A → ℤ) (xs : List A) → length (answers (map f xs)) ≤ length xs
unfolding answers
length-answers-map f [] = omega arith
length-answers-map f (x ∷ xs) = ground (arith, length-answers-map f xs)

zero_add : (n : ℕ) → 0 + n ≡ n
zero_add n = omega arith

-- The averages of XML::stats are the exact means, rounded down, of the times and of the answers, with
-- 88 left out, if those values range from 0 to m and their number times m fits in an int.
pub averages-mean :
    (m : ℕ) (closed : List ClosedItem) (surveys : List CsatItem)
    → all_within m (map (λ i. i.tts) closed) ≡ true
    → all_within m (eng_sats surveys) ≡ true
    → all_within m (sr_sats surveys) ≡ true
    → length closed * m < 2 ^ 31
    → length surveys * m < 2 ^ 31
    → (tts_average closed ≡ mean (map (λ i. i.tts) closed))
      × (eng_average surveys ≡ mean (eng_sats surveys))
      × (sr_average surveys ≡ mean (sr_sats surveys))
unfolding tts_average eng_average sr_average csat_totals
averages-mean m closed surveys ht he hs rt rs =
    let (eng, eng_count) = count_all-eng surveys no_totals in
    let (sr, sr_count) = count_all-sr surveys no_totals in
    let eng_few = length-answers-map (λ i. i.engsat) surveys in
    let sr_few = length-answers-map (λ i. i.srsat) surveys in
    let as_long = length-map (λ i. i.tts) closed in
    (
      rw (tts_sum-add_all, sym as_long)
          (averaged-mean m (map (λ i. i.tts) closed) ht (rw as_long rt)),
      rw (eng, eng_count ∙ zero_add (length (eng_sats surveys)))
          (averaged-mean m (eng_sats surveys) he (grind arith)),
      rw (sr, sr_count ∙ zero_add (length (sr_sats surveys)))
          (averaged-mean m (sr_sats surveys) hs (grind arith)),
    )

div_le : (a n m : ℕ) → a ≤ suc n * m → a / suc n ≤ m
div_le a n m h = grind arith

mean_within : (m : ℕ) (zs : List ℤ) → all_within m zs ≡ true → is_within m (mean zs) ≡ true
unfolding mean is_within
mean_within m [] h = ground arith
mean_within m (z ∷ zs) h =
    let le = div_le (sum (z ∷ zs)) (length zs) m (sum_le m (z ∷ zs) h) in ground (arith, le)

times_100 : (n : ℕ) → n * 100 < 2 ^ 31 → int32 (pos n *ℤ pos 100) ≡ pos (n * 100)
unfolding ◌*ℤ◌
times_100 n h = ground (arith, int32-pos (n * 100))

percent_within :
    (n k : ℕ)
    → n ≤ k
    → k * 100 < 2 ^ 31
    → is_within 100 (if ltb 0 k then quot (int32 (pos n *ℤ pos 100)) k else pos n) ≡ true
unfolding is_within quot
percent_within n zero le h = ground arith
percent_within n (suc k) le h =
    let product = times_100 n (omega arith) in
    let bound = div_le (n * 100) k 100 (omega arith) in rw product (ground (arith, bound))

rts_percentage :
    (surveys : List CsatItem)
    → all_within 1 (all_rts surveys) ≡ true
    → length surveys * 100 < 2 ^ 31
    → is_within 100 (rts_average surveys) ≡ true
unfolding rts_average csat_totals
rts_percentage surveys h r =
    let as_long = length-map (λ i. i.rts) surveys in
    let total = add_all-total 1 (all_rts surveys) h (omega arith) in
    let le = sum_le 1 (all_rts surveys) h in
    rw (count_all-rts surveys no_totals, total)
      (percent_within (sum (all_rts surveys)) (length surveys) (omega arith) r)

-- The averages of XML::stats range from 0 to m if the times and the answers do, and the percentage
-- from 0 to 100 if every survey counts 0 or 1; their numbers times m and 100 fit in an int.
pub averages_bounds :
    (m : ℕ) (closed : List ClosedItem) (surveys : List CsatItem)
    → all_within m (map (λ i. i.tts) closed) ≡ true
    → all_within m (eng_sats surveys) ≡ true
    → all_within m (sr_sats surveys) ≡ true
    → all_within 1 (all_rts surveys) ≡ true
    → length closed * m < 2 ^ 31
    → length surveys * m < 2 ^ 31
    → length surveys * 100 < 2 ^ 31
    → (is_within m (tts_average closed) ≡ true)
      × (is_within m (eng_average surveys) ≡ true)
      × (is_within m (sr_average surveys) ≡ true)
      × (is_within 100 (rts_average surveys) ≡ true)
averages_bounds m closed surveys ht he hs hr rt rs rr =
    let (tts, eng, sr) = averages-mean m closed surveys ht he hs rt rs in
    (
      rw tts (mean_within m (map (λ i. i.tts) closed) ht),
      rw eng (mean_within m (eng_sats surveys) he),
      rw sr (mean_within m (sr_sats surveys) hs),
      rts_percentage surveys hr rr,
    )
