-- ===== src/Xml/Stats.antt =====
-- XML::stats, and the records of xml.h that it prints.
use kueued.Prelude.{
  Text, String, lit, ℕ, suc, ◌+◌, ℤ, pos, negsuc, ◌+ℤ◌, ◌*ℤ◌, int32, quot, Bool, true, not, List,
  [], ◌∷◌, ◌++◌, map, length, nat_eq, ltb, if◌then◌else◌,
}
use kueued.QString.Number.{number}
use kueued.Xml.Markup.{concat, when, raw_in, cdata_in}
pub mod Averages
pub mod Balanced

pub record CsatItem : Type 0 where
  pub sr : Text
  pub engsat : ℤ
  pub srsat : ℤ
  pub customer : Text
  pub bdesc : Text
  pub rts : ℤ

pub record ClosedItem : Type 0 where
  pub sr : Text
  pub tts : ℤ
  pub customer : Text
  pub bdesc : Text

pub record Statistics : Type 0 where
  pub closed_sr : Text
  pub closed_cr : Text
  pub open_sr : Text
  pub csat_list : List CsatItem
  pub closed_list : List ClosedItem

-- v != 88: 88 stands for a question without an answer.
unfoldable pub is_answer : ℤ → Bool
is_answer (pos n) = not (nat_eq n 88)
is_answer (negsuc n) = true

-- The first loop, from the value that ttsAvg has.
unfoldable pub tts_sum : List ClosedItem → ℤ → ℤ
tts_sum [] tts_avg = tts_avg
tts_sum (i ∷ is) tts_avg = tts_sum is (int32 (tts_avg +ℤ i.tts))

-- if ( n > 0 ) { sum = sum / n; }
unfoldable pub averaged : ℤ → ℕ → ℤ
averaged sum n = if ltb 0 n then quot sum n else sum

unfoldable pub tts_average : List ClosedItem → ℤ
tts_average closed_list = averaged (tts_sum closed_list (pos 0)) (length closed_list)

-- The variables of the second loop. A total is at most the size of the list, so it fits in its int.
pub record Totals : Type 0 where
  pub eng_sat_avg : ℤ
  pub sr_sat_avg : ℤ
  pub rts_percent : ℤ
  pub eng_total : ℕ
  pub sr_total : ℕ

abbrev pub no_totals : Totals
no_totals = record {
  eng_sat_avg = pos 0;
  sr_sat_avg = pos 0;
  rts_percent = pos 0;
  eng_total = 0;
  sr_total = 0;
}

unfoldable pub count_csat : CsatItem → Totals → Totals
count_csat i t = record {
  eng_sat_avg = if is_answer i.engsat then int32 (t.eng_sat_avg +ℤ i.engsat) else t.eng_sat_avg;
  sr_sat_avg = if is_answer i.srsat then int32 (t.sr_sat_avg +ℤ i.srsat) else t.sr_sat_avg;
  rts_percent = int32 (t.rts_percent +ℤ i.rts);
  eng_total = if is_answer i.engsat then suc t.eng_total else t.eng_total;
  sr_total = if is_answer i.srsat then suc t.sr_total else t.sr_total;
}

unfoldable pub count_all : List CsatItem → Totals → Totals
count_all [] t = t
count_all (i ∷ is) t = count_all is (count_csat i t)

unfoldable pub csat_totals : List CsatItem → Totals
csat_totals csat_list = count_all csat_list no_totals

unfoldable pub eng_average : List CsatItem → ℤ
eng_average csat_list = let t = csat_totals csat_list in averaged t.eng_sat_avg t.eng_total

unfoldable pub sr_average : List CsatItem → ℤ
sr_average csat_list = let t = csat_totals csat_list in averaged t.sr_sat_avg t.sr_total

-- if ( csatList.size() > 0 ) { rtsPercent = ( rtsPercent * 100 / csatList.size() ); }
unfoldable pub rts_average : List CsatItem → ℤ
rts_average csat_list =
    let sum = (csat_totals csat_list).rts_percent in
    if ltb 0 (length csat_list) then quot (int32 (sum *ℤ pos 100)) (length csat_list) else sum

unfoldable pub closed_lines : ClosedItem → List Text
closed_lines i =
    raw_in "      " "sr" i.sr "\n"
    ∷ raw_in "      " "tts" (number i.tts) "\n"
    ∷ cdata_in "      " "customer" i.customer
    ∷ cdata_in "      " "bdesc" i.bdesc
    ∷ []

unfoldable pub closed_element : ClosedItem → Text
closed_element i = lit "    <closedsr>\n" ++ (concat (closed_lines i) ++ lit "    </closedsr>\n\n")

unfoldable pub survey_lines : CsatItem → List Text
survey_lines i =
    raw_in "      " "sr" i.sr "\n"
    ∷ raw_in "      " "rts" (number i.rts) "\n"
    ∷ when (is_answer i.engsat) (raw_in "      " "engsat" (number i.engsat) "\n")
    ∷ when (is_answer i.srsat) (raw_in "      " "srsat" (number i.srsat) "\n")
    ∷ cdata_in "      " "customer" i.customer
    ∷ cdata_in "      " "bdesc" i.bdesc
    ∷ []

unfoldable pub survey_element : CsatItem → Text
survey_element i = lit "    <survey>\n" ++ (concat (survey_lines i) ++ lit "    </survey>\n\n")

unfoldable pub closed_data_lines : Statistics → List Text
closed_data_lines s =
    raw_in "    " "srs" s.closed_sr "\n"
    ∷ raw_in "    " "crs" s.closed_cr "\n"
    ∷ raw_in "    " "srttsavg" (number (tts_average s.closed_list)) "\n\n"
    ∷ []

unfoldable pub closed_data : Statistics → Text
closed_data s = lit "  <closeddata>\n" ++ (concat (closed_data_lines s) ++ lit "  </closeddata>\n")

unfoldable pub closed_part : Statistics → Text
closed_part s =
    lit "  <closed>\n\n" ++ (concat (map closed_element s.closed_list) ++ lit "  </closed>\n\n")

unfoldable pub csat_data_lines : Statistics → List Text
csat_data_lines s =
    raw_in "    " "engavg" (number (eng_average s.csat_list)) "\n"
    ∷ raw_in "    " "sravg" (number (sr_average s.csat_list)) "\n"
    ∷ raw_in "    " "rtsavg" (number (rts_average s.csat_list)) "\n\n"
    ∷ []

unfoldable pub csat_data : Statistics → Text
csat_data s = lit "  <csatdata>\n\n" ++ (concat (csat_data_lines s) ++ lit "  </csatdata>\n\n")

unfoldable pub csat_part : Statistics → Text
csat_part s = lit "  <csat>\n\n" ++ (concat (map survey_element s.csat_list) ++ lit "  </csat>\n\n")

unfoldable pub stats_parts : Statistics → List Text
stats_parts s = closed_data s ∷ closed_part s ∷ csat_data s ∷ csat_part s ∷ []

unfoldable pub stats : Statistics → Text
stats s = lit "<stats>\n\n" ++ (concat (stats_parts s) ++ lit "</stats>\n")
