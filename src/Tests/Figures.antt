-- ===== src/Tests/Figures.antt =====
-- The theorems on the statistics and on the LTSS customers at small inputs.
use kueued.Prelude.{lit, [], ◌∷◌, true, pos, ◌≡◌, refl, arith}
use kueued.QString.Cdata.{is_open}
use kueued.Xml.Scan.{is_plain, IsBalanced}
use kueued.Xml.Stats.{
  CsatItem, ClosedItem, Statistics, is_answer, tts_average, eng_average, sr_average, rts_average,
  stats,
}
use kueued.Xml.Stats.Averages.{
  is_within, all_within, answers, sum, mean, averages-mean, averages_bounds,
}
use kueued.Xml.Stats.Balanced.{ClosedFits, CsatFits, stats-IsBalanced}

abbrev closed : ClosedItem
closed = record { sr = lit "7"; tts = pos 9; customer = lit "a <b>"; bdesc = lit "]]" }

-- One survey with both answers, and one with none.
abbrev survey : CsatItem
survey = record {
  sr = lit "7";
  engsat = pos 8;
  srsat = pos 5;
  customer = lit "a";
  bdesc = lit "b";
  rts = pos 1;
}

abbrev no_answer : CsatItem
no_answer = record {
  sr = lit "8";
  engsat = pos 88;
  srsat = pos 88;
  customer = lit "a";
  bdesc = lit "b";
  rts = pos 0;
}

averages-mean_example :
    (tts_average (closed ∷ []) ≡ pos 9)
    × (eng_average (survey ∷ no_answer ∷ []) ≡ pos 8)
    × (sr_average (survey ∷ no_answer ∷ []) ≡ pos 5)
unfolding all_within is_within answers is_answer mean sum
averages-mean_example =
    averages-mean 10 (closed ∷ []) (survey ∷ no_answer ∷ []) refl refl refl (omega arith)
      (omega arith)

averages_bounds_example :
    (is_within 10 (tts_average (closed ∷ [])) ≡ true)
    × (is_within 10 (eng_average (survey ∷ no_answer ∷ [])) ≡ true)
    × (is_within 10 (sr_average (survey ∷ no_answer ∷ [])) ≡ true)
    × (is_within 100 (rts_average (survey ∷ no_answer ∷ [])) ≡ true)
unfolding all_within is_within answers is_answer
averages_bounds_example =
    averages_bounds 10 (closed ∷ []) (survey ∷ no_answer ∷ []) refl refl refl refl (omega arith)
      (omega arith) (omega arith)

abbrev figures : Statistics
figures = record {
  closed_sr = lit "1";
  closed_cr = lit "0";
  open_sr = [];
  csat_list = survey ∷ no_answer ∷ [];
  closed_list = closed ∷ [];
}

closed-ClosedFits : ClosedFits closed
unfolding is_plain is_open lit
closed-ClosedFits = record { at_sr = refl; at_customer = refl; at_bdesc = refl }

survey-CsatFits : CsatFits survey
unfolding is_plain is_open lit
survey-CsatFits = record { at_sr = refl; at_customer = refl; at_bdesc = refl }

no_answer-CsatFits : CsatFits no_answer
unfolding is_plain is_open lit
no_answer-CsatFits = record { at_sr = refl; at_customer = refl; at_bdesc = refl }

stats-IsBalanced_example : IsBalanced (stats figures)
unfolding is_plain lit
stats-IsBalanced_example =
    stats-IsBalanced figures refl refl (closed-ClosedFits, tt)
      (survey-CsatFits, (no_answer-CsatFits, tt))
