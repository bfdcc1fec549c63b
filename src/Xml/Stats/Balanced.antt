-- ===== src/Xml/Stats/Balanced.antt =====
-- The document of XML::stats.
use kueued.Prelude.{String, lit, ℤ, List, [], ◌∷◌, map, true, ◌≡◌, refl}
use kueued.QString.Number.{number}
use kueued.QString.Cdata.{is_open}
use kueued.Xml.Markup.{concat, raw_in}
use kueued.Xml.Scan.{scan, IsBalanced, is_plain}
use kueued.Xml.Numbers.{is_plain-number}
use kueued.Xml.Balanced.{
  is_tag, raw_in-IsBalanced, cdata_in-IsBalanced, when-IsBalanced, wrap-IsBalanced,
  concat-IsBalanced, AllBalanced, done, ◌&◌,
}
use kueued.Xml.Stats.{
  CsatItem, ClosedItem, Statistics, is_answer, tts_average, eng_average, sr_average, rts_average,
  closed_lines, closed_element, survey_lines, survey_element, closed_data_lines, closed_data,
  closed_part, csat_data_lines, csat_data, csat_part, stats_parts, stats,
}

-- The SR number has no markup, and no other value completes "]]>".
pub record ClosedFits (i : ClosedItem) : Type 0 where
  pub at_sr : is_plain i.sr ≡ true
  pub at_customer : is_open 0 i.customer ≡ true
  pub at_bdesc : is_open 0 i.bdesc ≡ true

pub record CsatFits (i : CsatItem) : Type 0 where
  pub at_sr : is_plain i.sr ≡ true
  pub at_customer : is_open 0 i.customer ≡ true
  pub at_bdesc : is_open 0 i.bdesc ≡ true

abbrev pub AllClosedFit : List ClosedItem → Type 0
AllClosedFit [] = Unit
AllClosedFit (i ∷ is) = ClosedFits i × AllClosedFit is

abbrev pub AllCsatFit : List CsatItem → Type 0
AllCsatFit [] = Unit
AllCsatFit (i ∷ is) = CsatFits i × AllCsatFit is

number_in-IsBalanced :
    (indent name : String) (z : ℤ) (tail : String)
    → is_plain (lit indent) ≡ true
    → is_tag (lit name) ≡ true
    → is_plain (lit tail) ≡ true
    → IsBalanced (raw_in indent name (number z) tail)
number_in-IsBalanced indent name z tail before tag after =
    raw_in-IsBalanced indent name (number z) tail before tag after (is_plain-number z)

closed_lines-AllBalanced : (i : ClosedItem) → ClosedFits i → AllBalanced (closed_lines i)
unfolding closed_lines lit is_tag is_plain
closed_lines-AllBalanced i h =
    raw_in-IsBalanced "      " "sr" i.sr "\n" refl refl refl h.at_sr
    & number_in-IsBalanced "      " "tts" i.tts "\n" refl refl refl
    & cdata_in-IsBalanced "      " "customer" i.customer refl refl h.at_customer
    & cdata_in-IsBalanced "      " "bdesc" i.bdesc refl refl h.at_bdesc
    & done

closed_element-IsBalanced : (i : ClosedItem) → ClosedFits i → IsBalanced (closed_element i)
unfolding closed_element scan lit
closed_element-IsBalanced i h =
    wrap-IsBalanced (lit "    <closedsr>\n") (concat (closed_lines i)) (lit "    </closedsr>\n\n")
      (b'r' ∷ b's' ∷ b'd' ∷ b'e' ∷ b's' ∷ b'o' ∷ b'l' ∷ b'c' ∷ []) (λ names. refl) (λ names. refl)
      (concat-IsBalanced (closed_lines-AllBalanced i h))

survey_lines-AllBalanced : (i : CsatItem) → CsatFits i → AllBalanced (survey_lines i)
unfolding survey_lines lit is_tag is_plain
survey_lines-AllBalanced i h =
    raw_in-IsBalanced "      " "sr" i.sr "\n" refl refl refl h.at_sr
    & number_in-IsBalanced "      " "rts" i.rts "\n" refl refl refl
    & when-IsBalanced (is_answer i.engsat) (raw_in "      " "engsat" (number i.engsat) "\n")
        (number_in-IsBalanced "      " "engsat" i.engsat "\n" refl refl refl)
    & when-IsBalanced (is_answer i.srsat) (raw_in "      " "srsat" (number i.srsat) "\n")
        (number_in-IsBalanced "      " "srsat" i.srsat "\n" refl refl refl)
    & cdata_in-IsBalanced "      " "customer" i.customer refl refl h.at_customer
    & cdata_in-IsBalanced "      " "bdesc" i.bdesc refl refl h.at_bdesc
    & done

survey_element-IsBalanced : (i : CsatItem) → CsatFits i → IsBalanced (survey_element i)
unfolding survey_element scan lit
survey_element-IsBalanced i h =
    wrap-IsBalanced (lit "    <survey>\n") (concat (survey_lines i)) (lit "    </survey>\n\n")
      (b'y' ∷ b'e' ∷ b'v' ∷ b'r' ∷ b'u' ∷ b's' ∷ []) (λ names. refl) (λ names. refl)
      (concat-IsBalanced (survey_lines-AllBalanced i h))

closed_elements-AllBalanced :
    (is : List ClosedItem) → AllClosedFit is → AllBalanced (map closed_element is)
closed_elements-AllBalanced [] h = done
closed_elements-AllBalanced (i ∷ is) h =
    closed_element-IsBalanced i h.0 & closed_elements-AllBalanced is h.1

survey_elements-AllBalanced :
    (is : List CsatItem) → AllCsatFit is → AllBalanced (map survey_element is)
survey_elements-AllBalanced [] h = done
survey_elements-AllBalanced (i ∷ is) h =
    survey_element-IsBalanced i h.0 & survey_elements-AllBalanced is h.1

closed_data_lines-AllBalanced :
    (s : Statistics)
    → is_plain s.closed_sr ≡ true
    → is_plain s.closed_cr ≡ true
    → AllBalanced (closed_data_lines s)
unfolding closed_data_lines lit is_tag is_plain
closed_data_lines-AllBalanced s srs crs =
    raw_in-IsBalanced "    " "srs" s.closed_sr "\n" refl refl refl srs
    & raw_in-IsBalanced "    " "crs" s.closed_cr "\n" refl refl refl crs
    & number_in-IsBalanced "    " "srttsavg" (tts_average s.closed_list) "\n\n" refl refl refl
    & done

closed_data-IsBalanced :
    (s : Statistics)
    → is_plain s.closed_sr ≡ true
    → is_plain s.closed_cr ≡ true
    → IsBalanced (closed_data s)
unfolding closed_data scan lit
closed_data-IsBalanced s srs crs =
    wrap-IsBalanced (lit "  <closeddata>\n") (concat (closed_data_lines s))
      (lit "  </closeddata>\n")
      (b'a' ∷ b't' ∷ b'a' ∷ b'd' ∷ b'd' ∷ b'e' ∷ b's' ∷ b'o' ∷ b'l' ∷ b'c' ∷ []) (λ names. refl)
      (λ names. refl) (concat-IsBalanced (closed_data_lines-AllBalanced s srs crs))

csat_data_lines-AllBalanced : (s : Statistics) → AllBalanced (csat_data_lines s)
unfolding csat_data_lines lit is_tag is_plain
csat_data_lines-AllBalanced s =
    number_in-IsBalanced "    " "engavg" (eng_average s.csat_list) "\n" refl refl refl
    & number_in-IsBalanced "    " "sravg" (sr_average s.csat_list) "\n" refl refl refl
    & number_in-IsBalanced "    " "rtsavg" (rts_average s.csat_list) "\n\n" refl refl refl
    & done

csat_data-IsBalanced : (s : Statistics) → IsBalanced (csat_data s)
unfolding csat_data scan lit
csat_data-IsBalanced s =
    wrap-IsBalanced (lit "  <csatdata>\n\n") (concat (csat_data_lines s)) (lit "  </csatdata>\n\n")
      (b'a' ∷ b't' ∷ b'a' ∷ b'd' ∷ b't' ∷ b'a' ∷ b's' ∷ b'c' ∷ []) (λ names. refl) (λ names. refl)
      (concat-IsBalanced (csat_data_lines-AllBalanced s))

closed_part-IsBalanced : (s : Statistics) → AllClosedFit s.closed_list → IsBalanced (closed_part s)
unfolding closed_part scan lit
closed_part-IsBalanced s h =
    wrap-IsBalanced (lit "  <closed>\n\n") (concat (map closed_element s.closed_list))
      (lit "  </closed>\n\n") (b'd' ∷ b'e' ∷ b's' ∷ b'o' ∷ b'l' ∷ b'c' ∷ []) (λ names. refl)
      (λ names. refl) (concat-IsBalanced (closed_elements-AllBalanced s.closed_list h))

csat_part-IsBalanced : (s : Statistics) → AllCsatFit s.csat_list → IsBalanced (csat_part s)
unfolding csat_part scan lit
csat_part-IsBalanced s h =
    wrap-IsBalanced (lit "  <csat>\n\n") (concat (map survey_element s.csat_list))
      (lit "  </csat>\n\n") (b't' ∷ b'a' ∷ b's' ∷ b'c' ∷ []) (λ names. refl) (λ names. refl)
      (concat-IsBalanced (survey_elements-AllBalanced s.csat_list h))

-- The document of the statistics closes every element that it opens, and nothing but its own markup
-- opens one, if the numbers of SRs and CRs have no markup and the values of the items fit.
pub stats-IsBalanced :
    (s : Statistics)
    → is_plain s.closed_sr ≡ true
    → is_plain s.closed_cr ≡ true
    → AllClosedFit s.closed_list
    → AllCsatFit s.csat_list
    → IsBalanced (stats s)
unfolding stats stats_parts scan lit
stats-IsBalanced s srs crs closed csat =
    wrap-IsBalanced (lit "<stats>\n\n") (concat (stats_parts s)) (lit "</stats>\n")
      (b's' ∷ b't' ∷ b'a' ∷ b't' ∷ b's' ∷ []) (λ names. refl) (λ names. refl)
      (concat-IsBalanced (
        closed_data-IsBalanced s srs crs
        & closed_part-IsBalanced s closed
        & csat_data-IsBalanced s
        & csat_part-IsBalanced s csat
        & done))
